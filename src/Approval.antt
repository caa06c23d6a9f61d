-- ===== src/Approval.antt =====
-- libs/domain/src/approval/approval-rule.ts and libs/common/src/auth/roles.ts: when a checked content
-- is approved without a person, and which person may approve one.
pub mod Rules
mod Tests
use contents_factory.Common.{
  ℕ, Bool, true, false, List, [], ◌∷◌, ◌&&◌, leb, is_empty, includes, if◌then◌else◌, ◌==◌, nat_eq,
}
use contents_factory.Enums.{QcVerdict, UserRole, qc_verdict_eq, user_role_eq}
use contents_factory.Qc.{QcViolation}

-- what the rules read of a QC result; the total is in 1/100 of a point
pub record ApprovalInput : Type 0 where
  pub verdict : QcVerdict
  pub total_score : ℕ
  pub violations : List QcViolation

-- APPROVAL_RULE; a level without a rule of its own takes that of level 0
unfoldable pub approval_rule : ℕ → ApprovalInput → Bool
approval_rule level q =
    if level == 1
    then leb 9200 q.total_score && is_empty q.violations
    else if level == 2
    then leb 8500 q.total_score
    else if level == 3
    then q.verdict == QcVerdict.pass
    else false

unfoldable pub should_auto_approve : ℕ → ApprovalInput → Bool
unfolding approval_rule
should_auto_approve level qc =
    if qc.verdict == QcVerdict.blocked
    then false
    else if qc.verdict == QcVerdict.fail
    then false
    else approval_rule level qc

pub record AuthUser : Type 0 where
  pub id : ℕ
  pub role : UserRole

unfoldable pub violates_four_eyes : ℕ → AuthUser → Bool
violates_four_eyes requested_by actor =
    if actor.role == UserRole.super_root then false else requested_by == actor.id

abbrev pub role_rank : UserRole → ℕ
role_rank UserRole.viewer = 0
role_rank UserRole.reviewer = 1
role_rank UserRole.operator = 2
role_rank UserRole.admin = 3
role_rank UserRole.super_root = 4

unfoldable pub has_min_role : UserRole → UserRole → Bool
has_min_role role least = leb (role_rank least) (role_rank role)

abbrev pub review_roles : List UserRole
review_roles = UserRole.reviewer ∷ UserRole.admin ∷ UserRole.super_root ∷ []

unfoldable pub can_review : UserRole → Bool
can_review role = includes review_roles role
