-- ===== src/StateMachine/Tests.antt =====
-- Runs of the tables at concrete statuses.
use contents_factory.Common.{false, refl, ◌≡◌}
use contents_factory.Enums.{ContentStatus}
use contents_factory.StateMachine.{can_transition_content}

-- a content may not skip its checks
skipped : can_transition_content ContentStatus.generating ContentStatus.published ≡ false
unfolding can_transition_content
skipped = refl
