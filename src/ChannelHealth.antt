-- ===== src/ChannelHealth.antt =====
-- libs/orchestration/src/channel-health.service.ts: how many publications a channel has room for, how
-- a batch of publications is assigned, and how a day's observation moves a channel's health.
-- `day_start` is the start of the day of the clock (`date_trunc('day', …)`), computed by the database.
pub mod Assignment
pub mod Observation
mod Tests
use Prim.Native.String.{String}
use contents_factory.Common.{
  ℕ, ◌+◌, ◌-◌, ◌*◌, max, min, Bool, true, false, Option, none, some, List, [], ◌∷◌, ◌&&◌, ◌==◌,
  nat_eq, ltb, leb, not, if◌then◌else◌, find, length, filter, get_or, includes,
}
use contents_factory.Enums.{
  ChannelStatus, ChannelHealthState, PublicationStatus, channel_status_eq, channel_health_state_eq,
  publication_status_eq,
}
use contents_factory.Errors.{ErrorCode}
use contents_factory.Store.{
  Channel, Publication, Db, Env, Config, M, ◌>>=◌, ◌>>◌, return, fail, get, modify, replace,
  find_channel, alert,
}

pub data HeadroomReason : Type 0 where
  ok quarantine throttled_cap_reached min_interval channel_inactive : HeadroomReason

pub record Headroom : Type 0 where
  pub available : ℕ
  pub reason : HeadroomReason
  pub posted_today : ℕ
  pub ms_since_last : Option ℕ

-- the publications of a channel that the platform has
abbrev pub is_posted : ℕ → Publication → Bool
is_posted channel_id p =
    p.channel_id == channel_id
    && includes (PublicationStatus.uploaded ∷ PublicationStatus.published ∷ []) p.status

-- `countToday`
unfoldable pub count_today : ℕ → ℕ → List Publication → ℕ
count_today channel_id day_start pubs =
    length (filter (λ p. is_posted channel_id p && leb day_start p.created_at) pubs)

abbrev pub latest : Option ℕ → ℕ → Option ℕ
latest none at = some at
latest (some m) at = some (max m at)

-- `lastPublishedAt`: the maximum over the posted publications
unfoldable pub last_published_at : ℕ → List Publication → Option ℕ
last_published_at channel_id [] = none
last_published_at channel_id (p ∷ pubs) =
    let rest = last_published_at channel_id pubs in
    if is_posted channel_id p then latest rest p.created_at else rest

abbrev elapsed : Env → Option ℕ → Option ℕ
elapsed env none = none
elapsed env (some at) = some (env.now - at)

-- the interval test; minutes are compared in milliseconds, and the clock has not run back
abbrev pub is_too_soon : Channel → Option ℕ → Bool
is_too_soon ch none = false
is_too_soon ch (some ms) = ltb ms (ch.min_interval_min * 60000)

-- `headroom`, for a channel that exists
unfoldable pub headroom_of : Env → ℕ → Channel → List Publication → Headroom
headroom_of env day_start ch pubs =
    if ch.health_state == ChannelHealthState.quarantine
    then record { available = 0; reason = quarantine; posted_today = 0; ms_since_last = none }
    else if not (ch.status == ChannelStatus.active)
    then record { available = 0; reason = channel_inactive; posted_today = 0; ms_since_last = none }
    else (let posted_today = count_today ch.id day_start pubs in
        let ms_since_last = elapsed env (last_published_at ch.id pubs) in
        let available = ch.daily_cap - posted_today in
        if is_too_soon ch ms_since_last
        then record {
          available = 0;
          reason = min_interval;
          posted_today = posted_today;
          ms_since_last = ms_since_last;
        }
        else record {
          available = available;
          reason = if ltb 0 available then HeadroomReason.ok else throttled_cap_reached;
          posted_today = posted_today;
          ms_since_last = ms_since_last;
        })

unfoldable pub headroom : Env → ℕ → ℕ → M Headroom
headroom env day_start channel_id db = elim (find_channel channel_id db) [
  | none ↦ fail ErrorCode.not_found db
  | some ch ↦ return (headroom_of env day_start ch db.publications) db
]

abbrev is_quarantine : HeadroomReason → Bool
is_quarantine quarantine = true
is_quarantine _ = false

-- `assertCanPublish`, below its query
unfoldable pub check_room : Headroom → M Headroom
check_room room =
    if is_quarantine room.reason
    then fail ErrorCode.channel_quarantined
    else if leb room.available 0
    then fail ErrorCode.channel_headroom_exceeded
    else return room

unfoldable pub assert_can_publish : Env → ℕ → ℕ → M Headroom
assert_can_publish env day_start channel_id = do
  room ← headroom env day_start channel_id
  check_room room

pub record PublishCandidate : Type 0 where
  pub content_id : ℕ
  pub channel_id : ℕ

pub record Assigned : Type 0 where
  pub plan : List PublishCandidate
  pub deferred : List PublishCandidate

-- `room.set(channelId, n)`
abbrev pub set_room : ℕ → ℕ → (ℕ → ℕ) → ℕ → ℕ
set_room channel_id n room c = if c == channel_id then n else room c

-- the loop of `assign` over the jobs, from the rooms that the queries gave
unfoldable pub assign : (ℕ → ℕ) → List PublishCandidate → Assigned
assign room [] = record { plan = []; deferred = [] }
assign room (job ∷ jobs) =
    let later = assign room jobs in
    let next = assign (set_room job.channel_id (room job.channel_id - 1) room) jobs in
    if leb (room job.channel_id) 0
    then record later { deferred = job ∷ later.deferred }
    else record next { plan = job ∷ next.plan }

pub record DailyMetrics : Type 0 where
  pub posted_count : ℕ
  pub policy_removals : ℕ
  pub daily_cap : ℕ

-- `observe` on the channel's row: the row that is saved, which carries the state that is returned
unfoldable pub observe : Config → ℕ → DailyMetrics → Channel → Channel
observe config now m ch =
    if ltb 0 m.policy_removals && config.quarantine_on_removal
    then record ch {
      health_state = ChannelHealthState.quarantine;
      quarantined_at = some now;
      quarantine_reason = some "policy_removal";
    }
    else if ltb m.daily_cap m.posted_count
    then record ch {
      health_state = ChannelHealthState.throttled;
      daily_cap = max (m.daily_cap - 1) 1;
    }
    else if ch.health_state == ChannelHealthState.throttled
    then record ch { health_state = ChannelHealthState.active }
    else ch

-- `observeToday`: the day's figures from the publications
unfoldable pub observe_today : Config → ℕ → ℕ → List Publication → Channel → Channel
observe_today config now day_start pubs ch =
    observe config now
      (record {
        posted_count = count_today ch.id day_start pubs;
        policy_removals =
            length
              (filter (λ p. p.channel_id == ch.id && p.status == PublicationStatus.removed) pubs);
        daily_cap = ch.daily_cap;
      })
      ch

unfoldable pub release : Option ℕ → Channel → Channel
release daily_cap ch = record ch {
  health_state = ChannelHealthState.active;
  quarantined_at = none;
  quarantine_reason = none;
  daily_cap = min (get_or daily_cap ch.daily_cap) ch.observed_safe_max;
}

unfoldable pub quarantine_channel : ℕ → String → Channel → Channel
quarantine_channel now reason ch = record ch {
  health_state = ChannelHealthState.quarantine;
  quarantined_at = some now;
  quarantine_reason = some reason;
}
