-- ===== src/ChannelHealth/Assignment.antt =====
-- What a batch of publications is split into.
use contents_factory.Common.{
  ℕ, ◌+◌, ◌-◌, ◌≡◌, refl, Bool, List, [], ◌∷◌, arith, min, filter, length, ◌==◌, nat_eq,
  nat_beq_iff,
}
use contents_factory.ChannelHealth.{PublishCandidate, assign, set_room}

abbrev pub tally : (PublishCandidate → Bool) → List PublishCandidate → ℕ
tally p jobs = length (filter p jobs)

assign_partition :
    (p : PublishCandidate → Bool) (room : ℕ → ℕ) (jobs : List PublishCandidate)
    → tally p (assign room jobs).plan + tally p (assign room jobs).deferred ≡ tally p jobs
unfolding assign
assign_partition p room [] = refl
assign_partition p room (job ∷ jobs) = ground (
  arith,
  assign_partition p room jobs,
  assign_partition p (set_room job.channel_id (room job.channel_id - 1) room) jobs,
)

fills_room :
    (c : ℕ) (room : ℕ → ℕ) (jobs : List PublishCandidate)
    → tally (λ j. j.channel_id == c) (assign room jobs).plan
      ≡ min (room c) (tally (λ j. j.channel_id == c) jobs)
unfolding assign
fills_room c room [] = omega arith
fills_room c room (job ∷ jobs) = ground (
  arith,
  fills_room c room jobs,
  fills_room c (set_room job.channel_id (room job.channel_id - 1) room) jobs,
  nat_beq_iff job.channel_id c,
  nat_beq_iff c job.channel_id,
)

-- For each channel as many jobs are planned as it has room for, or all of its jobs if those are fewer, and
-- exactly the jobs beyond the room are deferred: the room is never exceeded, and no job is deferred
-- while there is room. Whatever property one counts, the planned and the deferred jobs that have it are
-- together as many as the given ones.
pub assign_fills_room :
    (c : ℕ) (room : ℕ → ℕ) (jobs : List PublishCandidate) (p : PublishCandidate → Bool)
    → (tally (λ j. j.channel_id == c) (assign room jobs).plan
        ≡ min (room c) (tally (λ j. j.channel_id == c) jobs))
      × (tally (λ j. j.channel_id == c) (assign room jobs).deferred
          ≡ tally (λ j. j.channel_id == c) jobs - room c)
      × (tally p (assign room jobs).plan + tally p (assign room jobs).deferred ≡ tally p jobs)
assign_fills_room c room jobs p =
    let planned = fills_room c room jobs in
    (
      planned,
      omega (arith, planned, assign_partition (λ j. j.channel_id == c) room jobs),
      assign_partition p room jobs,
    )
