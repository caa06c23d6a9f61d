-- ===== src/Worker/Claims.antt =====
-- Taking a task: who gets it, and what a run that took it leaves.
use contents_factory.Common.{
  ℕ, ◌≡◌, refl, ap, ◌⊎◌, inl, inr, true, false, none, some, List, [], ◌∷◌, arith, ◌==◌, nat_eq,
  some_of, Bool-cases,
}
use contents_factory.Enums.{TaskState, task_state_eq}
use contents_factory.Errors.{Thrown, Result, ok, err, classify}
use contents_factory.Store.{
  Task, Job, Db, Env, M, bind_result, find_task, update, find-some, find-update,
}
use contents_factory.TaskFactory.{record_event}
use contents_factory.Worker.{
  update_task, claim, is_claimable, run, run_claimed, settle, done, failed,
}

-- the rows that a claim writes are no longer claimable
claimed-none :
    (env : Env) (id : ℕ) (xs : List Task)
    → let f : Task → Task =
        λ t. record t { state = TaskState.running; started_at = some env.now } in
      some_of (is_claimable id) (update (is_claimable id) f xs) ≡ false
claimed-none env id [] = refl
claimed-none env id (x ∷ xs) = ground (arith, claimed-none env id xs)

claim_refused :
    (env : Env) (id : ℕ) (xs : List Task)
    → some_of (is_claimable id) xs ≡ false
    → update
        (is_claimable id)
        (λ t. record t { state = TaskState.running; started_at = some env.now })
        xs
      ≡ xs
claim_refused env id [] h = refl
claim_refused env id (x ∷ xs) h = ground (arith, claim_refused env id xs)

-- At most one of two workers gets a task: after any claim, a second one, at any time, does not
-- succeed; and a claim either succeeds or changes no task.
pub claim_once :
    (env env' : Env) (id : ℕ) (db : Db)
    → ((claim env' id (claim env id db).1).0 ≡ ok false)
      × (((claim env id db).0 ≡ ok true)
          ⊎ (((claim env id db).0 ≡ ok false) × ((claim env id db).1.tasks ≡ db.tasks)))
unfolding claim
claim_once env env' id db = (
  rw (claimed-none env id db.tasks) refl,
  elim (Bool-cases (some_of (is_claimable id) db.tasks)) [
    | inl yes_ ↦ inl (ap ok yes_)
    | inr no_ ↦ inr (ap ok no_, claim_refused env id db.tasks no_)
  ],
)

-- the state in which the processor starts
abbrev pub claimed_db : Env → ℕ → Db → Db
claimed_db env id db =
    (record_event id (some TaskState.queued) TaskState.running "claimed" (claim env id db).1).1

abbrev pub done_task : Env → Task → Task
done_task env t = record t { state = TaskState.done; finished_at = some env.now; error = none }

abbrev pub failed_task : Thrown → Task → Task
failed_task e t = record t { error = some e }

update_found :
    (id : ℕ) (f : Task → Task) (db : Db) (t : Task)
    → find_task id db ≡ some t
    → (f t).id ≡ t.id
    → find_task id (update_task id f db).1 ≡ some (f t)
update_found id f db t found same =
    let hit = (find-some (λ (u : Task). u.id == id) db.tasks found).0 in
    find-update (λ (u : Task). u.id == id) f db.tasks t found (rw same hit)

settle_outcome :
    (env : Env) (id : ℕ) (r : Result (Unit {0})) (db : Db) (t : Task)
    → find_task id db ≡ some t
    → let out = settle env id r db in
      ((r ≡ ok tt) × (out.0 ≡ ok (some done)) × (find_task id out.1 ≡ some (done_task env t)))
      ⊎ ((e : Thrown) × (r ≡ err e)
          × (out.0 ≡ ok (some (failed (classify e) e)))
          × (find_task id out.1 ≡ some (failed_task e t)))
unfolding settle record_event
settle_outcome env id (ok tt) db t found =
    inl (refl, refl, update_found id (done_task env) db t found refl)
settle_outcome env id (err e) db t found =
    inr (e, refl, refl, update_found id (failed_task e) db t found refl)

-- A claimed run whose processor ends in a state with the task in it reports how the processor
-- ended. If the processor returned, the task becomes DONE, whatever state it is in by then, also one
-- from which the transition table has no way to DONE; if it threw, the error is recorded and the
-- task keeps its state.
pub run_outcome :
    (env : Env) (processor : Job → M (Unit {0})) (job : Job) (db : Db) (t : Task)
    → (claim env job.task_id db).0 ≡ ok true
    → find_task job.task_id (processor job (claimed_db env job.task_id db)).1 ≡ some t
    → let r = processor job (claimed_db env job.task_id db) in
      let out = run env processor job db in
      ((r.0 ≡ ok tt)
        × (out.0 ≡ ok (some done))
        × (find_task job.task_id out.1 ≡ some (done_task env t)))
      ⊎ ((e : Thrown) × (r.0 ≡ err e)
          × (out.0 ≡ ok (some (failed (classify e) e)))
          × (find_task job.task_id out.1 ≡ some (failed_task e t)))
unfolding run run_claimed record_event
run_outcome env processor job db t claimed found =
    let r = processor job (claimed_db env job.task_id db) in
    let through : run env processor job db ≡ settle env job.task_id r.0 r.1 =
      ap (λ c. bind_result c (run_claimed env processor job) (claim env job.task_id db).1)
        claimed in
    rw through (settle_outcome env job.task_id r.0 r.1 t found)
