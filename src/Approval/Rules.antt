-- ===== src/Approval/Rules.antt =====
-- How the automatic approval levels and the role checks relate.
use contents_factory.Common.{ℕ, ◌≤◌, ◌≡◌, ◌↔◌, true, arith}
use contents_factory.Enums.{QcVerdict, UserRole}
use contents_factory.Approval.{ApprovalInput, should_auto_approve, has_min_role, can_review}

-- Up to level 3 a higher approval level approves everything that a lower one does, and what such a
-- level approves has passed its checks.
pub should_auto_approve_mono :
    (low high : ℕ) (qc : ApprovalInput)
    → low ≤ high
    → high ≤ 3
    → should_auto_approve low qc ≡ true
    → (qc.verdict ≡ QcVerdict.pass) × (should_auto_approve high qc ≡ true)
unfolding should_auto_approve
should_auto_approve_mono low high qc h k a = ground arith

-- An operator outranks a reviewer and yet may not review, so no minimum rank separates the roles
-- that may review from those that may not.
pub can_review_no_rank :
    (least : UserRole)
    → ¬ ((role : UserRole) → (can_review role ≡ true) ↔ (has_min_role role least ≡ true))
unfolding can_review has_min_role
can_review_no_rank least h =
    ground (arith, h UserRole.reviewer, h UserRole.operator, h UserRole.viewer)
