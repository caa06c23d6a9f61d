-- ===== src/StateMachine/Graph.antt =====
-- Runs of the transition tables: what every legal sequence of status changes has in common.
use contents_factory.Common.{
  ◌≡◌, refl, sym, subst, ◌∙◌, ◌⊎◌, inl, inr, true, false, Bool, arith, List, [], ◌∷◌, Any,
}
use contents_factory.Enums.{OrderStatus, ContentStatus, TaskState}
use contents_factory.StateMachine.{
  can_transition_order, can_transition_content, can_transition_task,
}

-- A run of legal steps; the list holds the states that it enters, in order.
pub data Run {A : Type 0} (step : A → A → Bool) : A → List A → A → Type 0 where
  here : {s : A} → Run step s [] s
  next : {s t u : A} {l : List A} → step s t ≡ true → Run step t l u → Run step s (t ∷ l) u

-- statuses from which a content can be uploaded without a further approval
abbrev pub is_cleared : ContentStatus → Bool
is_cleared ContentStatus.approved = true
is_cleared ContentStatus.publishing = true
is_cleared ContentStatus.published = true
is_cleared _ = false

step-is_cleared :
    (s t : ContentStatus)
    → can_transition_content s t ≡ true
    → is_cleared s ≡ false
    → (t ≡ ContentStatus.approved) ⊎ (is_cleared t ≡ false)
unfolding can_transition_content
step-is_cleared s t h c = ground arith

-- A content that is not yet approved, publishing or published reaches `published` only through
-- `approved`: every legal run of status changes enters it on the way.
pub published_needs_approved :
    {s : ContentStatus} {l : List ContentStatus} {t : ContentStatus}
    → Run can_transition_content s l t
    → is_cleared s ≡ false
    → t ≡ ContentStatus.published
    → Any (λ u. u ≡ ContentStatus.approved) l
published_needs_approved here c e = absurd (uncleared_ne _ c e)
  where
    uncleared_ne : (t : ContentStatus) → is_cleared t ≡ false → ¬ (t ≡ ContentStatus.published)
    uncleared_ne t c e = ground arith
published_needs_approved (next {s} {t} h r) c e = elim (step-is_cleared s t h c) [
  | inl p ↦ inl p
  | inr q ↦ inr (published_needs_approved r q e)
]

-- the states that no table lets go of
abbrev pub is_final_task : TaskState → Bool
is_final_task TaskState.done = true
is_final_task TaskState.cancelled = true
is_final_task _ = false

step-is_final_task :
    (s t : TaskState) → can_transition_task s t ≡ true → is_final_task s ≡ true → t ≡ s
unfolding can_transition_task
step-is_final_task s t h f = ground arith

-- A task that is done or cancelled keeps its state on every legal run.
pub final_task_absorbs :
    {s : TaskState} {l : List TaskState} {t : TaskState}
    → Run can_transition_task s l t
    → is_final_task s ≡ true
    → t ≡ s
final_task_absorbs here f = refl
final_task_absorbs (next {s} {t} h r) f =
    let e = step-is_final_task s t h f in
    final_task_absorbs r (subst (λ u. is_final_task u ≡ true) (sym e) f) ∙ e

-- the statuses of an order whose work has begun, has ended or was cancelled
abbrev pub is_started : OrderStatus → Bool
is_started OrderStatus.running = true
is_started OrderStatus.partial = true
is_started OrderStatus.done = true
is_started OrderStatus.cancelled = true
is_started _ = false

step-is_started :
    (s t : OrderStatus)
    → can_transition_order s t ≡ true
    → is_started s ≡ true
    → is_started t ≡ true
unfolding can_transition_order
step-is_started s t h f = ground arith

-- An order that runs, is closed or is cancelled never becomes a draft again, nor is validated,
-- rejected or queued again, on any legal run.
pub started_order_stays :
    {s : OrderStatus} {l : List OrderStatus} {t : OrderStatus}
    → Run can_transition_order s l t
    → is_started s ≡ true
    → is_started t ≡ true
started_order_stays here f = f
started_order_stays (next {s} {t} h r) f = started_order_stays r (step-is_started s t h f)
