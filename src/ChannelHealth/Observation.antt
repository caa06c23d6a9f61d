-- ===== src/ChannelHealth/Observation.antt =====
-- How a channel's health moves from day to day.
use contents_factory.Common.{
  ℕ, ◌+◌, ◌-◌, ◌*◌, ◌≤◌, ◌<◌, ◌≡◌, ◌≢◌, ◌⊎◌, ◌↔◌, inl, inr, false, some, List, arith, Option-cases,
}
use contents_factory.Enums.{ChannelHealthState, ChannelStatus}
use contents_factory.Store.{Channel, Env, Config, Publication}
use contents_factory.ChannelHealth.{
  DailyMetrics, observe, headroom_of, count_today, last_published_at,
}

-- An observation that starts from the channel's own daily cap never raises that cap, and leaves it at
-- least 1 if it was.
pub observe_cap :
    (config : Config) (now : ℕ) (m : DailyMetrics) (ch : Channel)
    → m.daily_cap ≡ ch.daily_cap
    → 1 ≤ ch.daily_cap
    → ((observe config now m ch).daily_cap ≤ ch.daily_cap)
      × (1 ≤ (observe config now m ch).daily_cap)
unfolding observe
observe_cap config now m ch e h = ground arith

-- A quarantined channel leaves its quarantine by an observation exactly when the day counts no policy
-- removal, or removals do not quarantine, and more was posted than the cap allows: it is then throttled,
-- though nobody released it, and otherwise it stays in quarantine.
pub observe_leaves_quarantine_iff :
    (config : Config) (now : ℕ) (m : DailyMetrics) (ch : Channel)
    → ch.health_state ≡ ChannelHealthState.quarantine
    → (((observe config now m ch).health_state ≡ ChannelHealthState.throttled) ↔ (
        ((m.policy_removals ≡ 0) ⊎ (config.quarantine_on_removal ≡ false))
        × (m.daily_cap < m.posted_count)))
      × (((observe config now m ch).health_state ≢ ChannelHealthState.throttled)
          ↔ ((observe config now m ch).health_state ≡ ChannelHealthState.quarantine))
unfolding observe
observe_leaves_quarantine_iff config now m ch q = (grind arith, grind arith)

-- A channel has room for a publication exactly when it is neither quarantined nor switched off, its
-- last publication is at least the minimum interval ago, and fewer were posted today than its cap;
-- the room and what was posted today are then together the cap.
pub headroom_of_pos_iff :
    (env : Env) (day_start : ℕ) (ch : Channel) (pubs : List Publication)
    → let room = (headroom_of env day_start ch pubs).available in
      ((0 < room) ↔ (
        (ch.health_state ≢ ChannelHealthState.quarantine)
        × (ch.status ≡ ChannelStatus.active)
        × ((at : ℕ)
            → last_published_at ch.id pubs ≡ some at
            → ch.min_interval_min * 60000 ≤ env.now - at)
        × (count_today ch.id day_start pubs < ch.daily_cap)))
      × ((room ≡ 0) ⊎ (room + count_today ch.id day_start pubs ≡ ch.daily_cap))
unfolding headroom_of
headroom_of_pos_iff env day_start ch pubs = elim (Option-cases (last_published_at ch.id pubs)) [
  | inl never ↦ (
    (λ h. (ground arith, ground arith, (λ at e. cc (never, e)), ground arith), λ h. ground arith),
    ground arith,
  )
  | inr (at, last) ↦ (
    (
      λ h. (ground arith, ground arith, (λ at e. ground arith), ground arith),
      λ h. ground (arith, h.2 at last),
    ),
    ground arith,
  )
]
