-- ===== src/Enums.antt =====
-- The enumerations of libs/domain/src/types/enums.ts that the modelled code branches on, each with
-- the equality test that `===` and `includes` use. The words are the source's; `super_root` stands
-- for 'SUPER_ROOT', and so on.
use contents_factory.Common.{ℕ, ◌≡◌, ◌↔◌, true, arith, Eq, nat_beq}

pub data OrderStatus : Type 0 where
  draft validating rejected queued running partial : OrderStatus
  done cancelled : OrderStatus

abbrev pub order_status_no : OrderStatus → ℕ
order_status_no draft = 0
order_status_no validating = 1
order_status_no rejected = 2
order_status_no queued = 3
order_status_no running = 4
order_status_no partial = 5
order_status_no done = 6
order_status_no cancelled = 7

pub order_status_no_iff :
    (s t : OrderStatus) → (nat_beq (order_status_no s) (order_status_no t) ≡ true) ↔ (s ≡ t)
order_status_no_iff s t = ground arith

instance abbrev pub order_status_eq : Eq OrderStatus
order_status_eq = record {
  beq = λ s t. nat_beq (order_status_no s) (order_status_no t);
  beq_iff = order_status_no_iff;
}

pub data ContentStatus : Type 0 where
  pending generating rendering qc qc_failed ready : ContentStatus
  approved rejected publishing published blocked failed : ContentStatus

abbrev pub content_status_no : ContentStatus → ℕ
content_status_no pending = 0
content_status_no generating = 1
content_status_no rendering = 2
content_status_no qc = 3
content_status_no qc_failed = 4
content_status_no ready = 5
content_status_no approved = 6
content_status_no rejected = 7
content_status_no publishing = 8
content_status_no published = 9
content_status_no blocked = 10
content_status_no failed = 11

pub content_status_no_iff :
    (s t : ContentStatus) → (nat_beq (content_status_no s) (content_status_no t) ≡ true) ↔ (s ≡ t)
content_status_no_iff s t = ground arith

instance abbrev pub content_status_eq : Eq ContentStatus
content_status_eq = record {
  beq = λ s t. nat_beq (content_status_no s) (content_status_no t);
  beq_iff = content_status_no_iff;
}

pub data TaskState : Type 0 where
  queued running retry fallback escalated done : TaskState
  failed cancelled : TaskState

abbrev pub task_state_no : TaskState → ℕ
task_state_no queued = 0
task_state_no running = 1
task_state_no retry = 2
task_state_no fallback = 3
task_state_no escalated = 4
task_state_no done = 5
task_state_no failed = 6
task_state_no cancelled = 7

pub task_state_no_iff :
    (s t : TaskState) → (nat_beq (task_state_no s) (task_state_no t) ≡ true) ↔ (s ≡ t)
task_state_no_iff s t = ground arith

instance abbrev pub task_state_eq : Eq TaskState
task_state_eq = record {
  beq = λ s t. nat_beq (task_state_no s) (task_state_no t);
  beq_iff = task_state_no_iff;
}

pub data TaskKind : Type 0 where
  selection blueprint generate_image generate_video render qc : TaskKind
  publish : TaskKind

abbrev pub task_kind_no : TaskKind → ℕ
task_kind_no selection = 0
task_kind_no blueprint = 1
task_kind_no generate_image = 2
task_kind_no generate_video = 3
task_kind_no render = 4
task_kind_no qc = 5
task_kind_no publish = 6

pub task_kind_no_iff :
    (s t : TaskKind) → (nat_beq (task_kind_no s) (task_kind_no t) ≡ true) ↔ (s ≡ t)
task_kind_no_iff s t = ground arith

instance abbrev pub task_kind_eq : Eq TaskKind
task_kind_eq = record {
  beq = λ s t. nat_beq (task_kind_no s) (task_kind_no t);
  beq_iff = task_kind_no_iff;
}

pub data OutputType : Type 0 where
  image video both : OutputType

abbrev pub output_type_no : OutputType → ℕ
output_type_no image = 0
output_type_no video = 1
output_type_no both = 2

pub output_type_no_iff :
    (s t : OutputType) → (nat_beq (output_type_no s) (output_type_no t) ≡ true) ↔ (s ≡ t)
output_type_no_iff s t = ground arith

instance abbrev pub output_type_eq : Eq OutputType
output_type_eq = record {
  beq = λ s t. nat_beq (output_type_no s) (output_type_no t);
  beq_iff = output_type_no_iff;
}

pub data SceneStatus : Type 0 where
  pending generating done failed : SceneStatus

abbrev pub scene_status_no : SceneStatus → ℕ
scene_status_no pending = 0
scene_status_no generating = 1
scene_status_no done = 2
scene_status_no failed = 3

pub scene_status_no_iff :
    (s t : SceneStatus) → (nat_beq (scene_status_no s) (scene_status_no t) ≡ true) ↔ (s ≡ t)
scene_status_no_iff s t = ground arith

instance abbrev pub scene_status_eq : Eq SceneStatus
scene_status_eq = record {
  beq = λ s t. nat_beq (scene_status_no s) (scene_status_no t);
  beq_iff = scene_status_no_iff;
}

pub data QcVerdict : Type 0 where
  pass fail blocked : QcVerdict

abbrev pub qc_verdict_no : QcVerdict → ℕ
qc_verdict_no pass = 0
qc_verdict_no fail = 1
qc_verdict_no blocked = 2

pub qc_verdict_no_iff :
    (s t : QcVerdict) → (nat_beq (qc_verdict_no s) (qc_verdict_no t) ≡ true) ↔ (s ≡ t)
qc_verdict_no_iff s t = ground arith

instance abbrev pub qc_verdict_eq : Eq QcVerdict
qc_verdict_eq = record {
  beq = λ s t. nat_beq (qc_verdict_no s) (qc_verdict_no t);
  beq_iff = qc_verdict_no_iff;
}

pub data PublicationStatus : Type 0 where
  pending uploading uploaded published failed removed : PublicationStatus

abbrev pub publication_status_no : PublicationStatus → ℕ
publication_status_no pending = 0
publication_status_no uploading = 1
publication_status_no uploaded = 2
publication_status_no published = 3
publication_status_no failed = 4
publication_status_no removed = 5

pub publication_status_no_iff :
    (s t : PublicationStatus)
    → (nat_beq (publication_status_no s) (publication_status_no t) ≡ true) ↔ (s ≡ t)
publication_status_no_iff s t = ground arith

instance abbrev pub publication_status_eq : Eq PublicationStatus
publication_status_eq = record {
  beq = λ s t. nat_beq (publication_status_no s) (publication_status_no t);
  beq_iff = publication_status_no_iff;
}

pub data ChannelStatus : Type 0 where
  active paused suspended : ChannelStatus

abbrev pub channel_status_no : ChannelStatus → ℕ
channel_status_no active = 0
channel_status_no paused = 1
channel_status_no suspended = 2

pub channel_status_no_iff :
    (s t : ChannelStatus) → (nat_beq (channel_status_no s) (channel_status_no t) ≡ true) ↔ (s ≡ t)
channel_status_no_iff s t = ground arith

instance abbrev pub channel_status_eq : Eq ChannelStatus
channel_status_eq = record {
  beq = λ s t. nat_beq (channel_status_no s) (channel_status_no t);
  beq_iff = channel_status_no_iff;
}

pub data ChannelHealthState : Type 0 where
  active throttled quarantine : ChannelHealthState

abbrev pub channel_health_state_no : ChannelHealthState → ℕ
channel_health_state_no active = 0
channel_health_state_no throttled = 1
channel_health_state_no quarantine = 2

pub channel_health_state_no_iff :
    (s t : ChannelHealthState)
    → (nat_beq (channel_health_state_no s) (channel_health_state_no t) ≡ true) ↔ (s ≡ t)
channel_health_state_no_iff s t = ground arith

instance abbrev pub channel_health_state_eq : Eq ChannelHealthState
channel_health_state_eq = record {
  beq = λ s t. nat_beq (channel_health_state_no s) (channel_health_state_no t);
  beq_iff = channel_health_state_no_iff;
}

pub data AgentLifecycle : Type 0 where
  created configured test active paused paused_budget : AgentLifecycle
  archived : AgentLifecycle

abbrev pub agent_lifecycle_no : AgentLifecycle → ℕ
agent_lifecycle_no created = 0
agent_lifecycle_no configured = 1
agent_lifecycle_no test = 2
agent_lifecycle_no active = 3
agent_lifecycle_no paused = 4
agent_lifecycle_no paused_budget = 5
agent_lifecycle_no archived = 6

pub agent_lifecycle_no_iff :
    (s t : AgentLifecycle)
    → (nat_beq (agent_lifecycle_no s) (agent_lifecycle_no t) ≡ true) ↔ (s ≡ t)
agent_lifecycle_no_iff s t = ground arith

instance abbrev pub agent_lifecycle_eq : Eq AgentLifecycle
agent_lifecycle_eq = record {
  beq = λ s t. nat_beq (agent_lifecycle_no s) (agent_lifecycle_no t);
  beq_iff = agent_lifecycle_no_iff;
}

pub data ArtistStatus : Type 0 where
  active paused archived : ArtistStatus

abbrev pub artist_status_no : ArtistStatus → ℕ
artist_status_no active = 0
artist_status_no paused = 1
artist_status_no archived = 2

pub artist_status_no_iff :
    (s t : ArtistStatus) → (nat_beq (artist_status_no s) (artist_status_no t) ≡ true) ↔ (s ≡ t)
artist_status_no_iff s t = ground arith

instance abbrev pub artist_status_eq : Eq ArtistStatus
artist_status_eq = record {
  beq = λ s t. nat_beq (artist_status_no s) (artist_status_no t);
  beq_iff = artist_status_no_iff;
}

pub data QualityGrade : Type 0 where
  a b c : QualityGrade

abbrev pub quality_grade_no : QualityGrade → ℕ
quality_grade_no a = 0
quality_grade_no b = 1
quality_grade_no c = 2

pub quality_grade_no_iff :
    (s t : QualityGrade) → (nat_beq (quality_grade_no s) (quality_grade_no t) ≡ true) ↔ (s ≡ t)
quality_grade_no_iff s t = ground arith

instance abbrev pub quality_grade_eq : Eq QualityGrade
quality_grade_eq = record {
  beq = λ s t. nat_beq (quality_grade_no s) (quality_grade_no t);
  beq_iff = quality_grade_no_iff;
}

pub data UserRole : Type 0 where
  super_root admin operator reviewer viewer : UserRole

abbrev pub user_role_no : UserRole → ℕ
user_role_no super_root = 0
user_role_no admin = 1
user_role_no operator = 2
user_role_no reviewer = 3
user_role_no viewer = 4

pub user_role_no_iff :
    (s t : UserRole) → (nat_beq (user_role_no s) (user_role_no t) ≡ true) ↔ (s ≡ t)
user_role_no_iff s t = ground arith

instance abbrev pub user_role_eq : Eq UserRole
user_role_eq = record {
  beq = λ s t. nat_beq (user_role_no s) (user_role_no t);
  beq_iff = user_role_no_iff;
}

pub data Visibility : Type 0 where
  private unlisted public : Visibility

abbrev pub visibility_no : Visibility → ℕ
visibility_no private = 0
visibility_no unlisted = 1
visibility_no public = 2

pub visibility_no_iff :
    (s t : Visibility) → (nat_beq (visibility_no s) (visibility_no t) ≡ true) ↔ (s ≡ t)
visibility_no_iff s t = ground arith

instance abbrev pub visibility_eq : Eq Visibility
visibility_eq = record {
  beq = λ s t. nat_beq (visibility_no s) (visibility_no t);
  beq_iff = visibility_no_iff;
}

pub data ApprovalDecision : Type 0 where
  approved rejected : ApprovalDecision

abbrev pub approval_decision_no : ApprovalDecision → ℕ
approval_decision_no approved = 0
approval_decision_no rejected = 1

pub approval_decision_no_iff :
    (s t : ApprovalDecision)
    → (nat_beq (approval_decision_no s) (approval_decision_no t) ≡ true) ↔ (s ≡ t)
approval_decision_no_iff s t = ground arith

instance abbrev pub approval_decision_eq : Eq ApprovalDecision
approval_decision_eq = record {
  beq = λ s t. nat_beq (approval_decision_no s) (approval_decision_no t);
  beq_iff = approval_decision_no_iff;
}

pub data Platform : Type 0 where
  youtube tiktok instagram x : Platform

abbrev pub platform_no : Platform → ℕ
platform_no youtube = 0
platform_no tiktok = 1
platform_no instagram = 2
platform_no x = 3

pub platform_no_iff : (s t : Platform) → (nat_beq (platform_no s) (platform_no t) ≡ true) ↔ (s ≡ t)
platform_no_iff s t = ground arith

instance abbrev pub platform_eq : Eq Platform
platform_eq = record {
  beq = λ s t. nat_beq (platform_no s) (platform_no t);
  beq_iff = platform_no_iff;
}
