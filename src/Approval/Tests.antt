-- ===== src/Approval/Tests.antt =====
-- The approval rules at concrete levels and roles.
use contents_factory.Common.{[]}
use contents_factory.Approval.{ApprovalInput}
use contents_factory.Enums.{QcVerdict}

abbrev clean_pass : ApprovalInput
clean_pass = record { verdict = QcVerdict.pass; total_score = 9300; violations = [] }
