-- ===== src/ChannelHealth/Tests.antt =====
-- Observations of a channel, and a batch of publications.
use contents_factory.Common.{
  List, [], false, min, nat_eq, refl, some, ℕ, ◌*◌, ◌+◌, ◌-◌, ◌<◌, ◌==◌, ◌↔◌, ◌∷◌, ◌≡◌, ◌≢◌, ◌≤◌,
  ◌⊎◌,
}
use contents_factory.ChannelHealth.{
  DailyMetrics, PublishCandidate, assign, count_today, headroom_of, last_published_at, observe,
}
use contents_factory.ChannelHealth.Assignment.{assign_fills_room, tally}
use contents_factory.ChannelHealth.Observation.{headroom_of_pos_iff, observe_leaves_quarantine_iff}
use contents_factory.Enums.{ChannelHealthState, ChannelStatus}
use contents_factory.Samples.{channel_in, config, env_up, posted}

abbrev busy_day : DailyMetrics
busy_day = record { posted_count = 5; policy_removals = 0; daily_cap = 3 }

abbrev jobs : List PublishCandidate
jobs =
    record { content_id = 4; channel_id = 2 }
    ∷ record { content_id = 6; channel_id = 2 }
    ∷ record { content_id = 8; channel_id = 1 }
    ∷ []

abbrev one_each : ℕ → ℕ
one_each channel = 1

observe_leaves_quarantine_iff_example :
    (((observe config 5000 busy_day (channel_in ChannelHealthState.quarantine)).health_state
        ≡ ChannelHealthState.throttled)
      ↔ (((busy_day.policy_removals ≡ 0) ⊎ (config.quarantine_on_removal ≡ false))
          × (busy_day.daily_cap < busy_day.posted_count)))
    × (((observe config 5000 busy_day (channel_in ChannelHealthState.quarantine)).health_state
          ≢ ChannelHealthState.throttled)
        ↔ ((observe config 5000 busy_day (channel_in ChannelHealthState.quarantine)).health_state
            ≡ ChannelHealthState.quarantine))
observe_leaves_quarantine_iff_example =
    observe_leaves_quarantine_iff config 5000 busy_day (channel_in ChannelHealthState.quarantine)
      refl

headroom_of_pos_iff_example :
    let room =
      (headroom_of env_up 9000000
        (channel_in ChannelHealthState.active)
        (posted 9500000 ∷ [])).available in
    ((0 < room) ↔ (
      ((channel_in ChannelHealthState.active).health_state ≢ ChannelHealthState.quarantine)
      × ((channel_in ChannelHealthState.active).status ≡ ChannelStatus.active)
      × ((at : ℕ)
          → last_published_at (channel_in ChannelHealthState.active).id (posted 9500000 ∷ [])
            ≡ some at
          → (channel_in ChannelHealthState.active).min_interval_min * 60000 ≤ env_up.now - at)
      × (count_today (channel_in ChannelHealthState.active).id 9000000 (posted 9500000 ∷ [])
          < (channel_in ChannelHealthState.active).daily_cap)))
    × ((room ≡ 0)
        ⊎ (room
              + count_today (channel_in ChannelHealthState.active).id 9000000 (posted 9500000 ∷ [])
            ≡ (channel_in ChannelHealthState.active).daily_cap))
headroom_of_pos_iff_example =
    headroom_of_pos_iff env_up 9000000 (channel_in ChannelHealthState.active) (posted 9500000 ∷ [])

assign_fills_room_example :
    (tally (λ j. j.channel_id == 2) (assign one_each jobs).plan
      ≡ min (one_each 2) (tally (λ j. j.channel_id == 2) jobs))
    × (tally (λ j. j.channel_id == 2) (assign one_each jobs).deferred
        ≡ tally (λ j. j.channel_id == 2) jobs - one_each 2)
    × (tally (λ j. j.content_id == 4) (assign one_each jobs).plan
          + tally (λ j. j.content_id == 4) (assign one_each jobs).deferred
        ≡ tally (λ j. j.content_id == 4) jobs)
assign_fills_room_example = assign_fills_room 2 one_each jobs (λ j. j.content_id == 4)
