-- ===== src/Sla/Scan.antt =====
-- What a scan does to the tasks: running ones are escalated, waiting ones are not.
use contents_factory.Common.{
  ℕ, ◌≤◌, ◌≡◌, ◌≢◌, refl, sym, ap, ◌∙◌, inl, inr, true, false, none, some, List, [], ◌∷◌, ◌++◌,
  ◌&&◌, arith, ◌==◌, nat_eq, nat_beq_iff, filter, find, map, length, take, take_all, All,
  All-append, subst, Bool-cases, if◌then◌else◌,
}
use mathlib.Core.List.{append_assoc}
use contents_factory.Enums.{TaskState, task_state_eq}
use contents_factory.Errors.{ok}
use contents_factory.StateMachine.{can_transition_task}
use contents_factory.Store.{Task, Db, Env, find_task, replace, Distinct, for_each, bind_result}
use contents_factory.TaskFactory.{moved_task}
use contents_factory.TaskFactory.Keys.{ids}
use contents_factory.TaskFactory.Transition.{transition_allowed, transition_refused}
use contents_factory.Sla.{is_overdue, escalate, scan, scan_limit}

module _ (env : Env) where
  -- the row of a task after a scan
  abbrev pub scanned : Task → Task
  scanned t =
      if is_overdue env t && t.state == TaskState.running
      then moved_task env t TaskState.escalated none
      else t

-- No row of `xs` has the id of the task.
abbrev IsApart : Task → List Task → Type 0
IsApart t xs = All (λ u. u.id ≢ t.id) xs

-- the rows before the one that is looked for have other ids
find_after :
    (t : Task) (pre xs : List Task)
    → IsApart t pre
    → find (λ u. u.id == t.id) (pre ++ t ∷ xs) ≡ some t
find_after t [] xs h = ground (arith, nat_beq_iff t.id t.id)
find_after t (u ∷ pre) xs h = ground (arith, nat_beq_iff u.id t.id, find_after t pre xs h.1)

replace_apart : (t' : Task) (xs : List Task) → IsApart t' xs → replace (λ u. u.id) t' xs ≡ xs
replace_apart t' [] h = refl
replace_apart t' (u ∷ xs) h = ground (arith, nat_beq_iff u.id t'.id, replace_apart t' xs h.1)

replace_after :
    (t t' : Task) (pre xs : List Task)
    → t'.id ≡ t.id
    → IsApart t' pre
    → IsApart t' xs
    → replace (λ u. u.id) t' (pre ++ t ∷ xs) ≡ pre ++ t' ∷ xs
replace_after t t' [] xs e h k = ground (arith, nat_beq_iff t.id t'.id, replace_apart t' xs k)
replace_after t t' (u ∷ pre) xs e h k =
    ground (arith, nat_beq_iff u.id t'.id, replace_after t t' pre xs e h.1 k)

apart_rest :
    (k : ℕ) (xs : List Task) → All (λ j. j ≢ k) (map (λ u. u.id) xs) → All (λ u. u.id ≢ k) xs
apart_rest k [] h = tt
apart_rest k (u ∷ xs) h = (h.0, apart_rest k xs h.1)

tail-IsApart :
    (x : Task) (pre xs : List Task)
    → All (λ y. IsApart y pre) xs
    → All (λ j. j ≢ x.id) (map (λ u. u.id) xs)
    → All (λ y. IsApart y (pre ++ x ∷ [])) xs
tail-IsApart x pre [] h d = tt
tail-IsApart x pre (y ∷ xs) h d = (
  All-append (λ u. u.id ≢ y.id) pre (x ∷ []) h.0 ((λ e. d.0 (sym e)), tt),
  tail-IsApart x pre xs h.1 d.1,
)

shift : (pre : List Task) (x : Task) (xs : List Task) → pre ++ x ∷ xs ≡ (pre ++ x ∷ []) ++ xs
shift pre x xs = sym (append_assoc pre (x ∷ []) xs)

module _ (env : Env) where
  scanned_running :
      (t : Task)
      → is_overdue env t ≡ true
      → (t.state == TaskState.running) ≡ true
      → scanned env t ≡ moved_task env t TaskState.escalated none
  scanned_running t late running = rw (late, running) refl

  id-scanned : (t : Task) → (scanned env t).id ≡ t.id
  unfolding moved_task
  id-scanned t = ground arith

  scanned_else :
      (t : Task) → (is_overdue env t && t.state == TaskState.running) ≡ false → scanned env t ≡ t
  scanned_else t h = rw h refl

  escalate_row :
      (t : Task) (pre xs : List Task) (db : Db)
      → db.tasks ≡ pre ++ t ∷ xs
      → IsApart t pre
      → IsApart t xs
      → is_overdue env t ≡ true
      → ((escalate env t db).0 ≡ ok tt) × ((escalate env t db).1.tasks ≡ pre ++ scanned env t ∷ xs)
  unfolding escalate is_overdue can_transition_task moved_task
  escalate_row t pre xs db rows h k late = elim (Bool-cases (t.state == TaskState.running)) [
    | inl running ↦
        let found : find_task t.id db ≡ some t = rw rows (find_after t pre xs h) in
        let (_, tasks, _) =
          transition_allowed env t.id TaskState.escalated "sla_breach" none db t found
            (ground arith) in
        let moved = moved_task env t TaskState.escalated none in
        (
          refl,
          tasks
              ∙ ap (replace (λ u. u.id) moved) rows
              ∙ replace_after t moved pre xs refl h k
              ∙ ap (λ u. pre ++ u ∷ xs) (sym (scanned_running t late running)),
        )
    | inr waiting ↦
        let found : find_task t.id db ≡ some t = rw rows (find_after t pre xs h) in
        let same =
          transition_refused env t.id TaskState.escalated "sla_breach" none db t found
            (ground arith) in
        (
          refl,
          ap (λ r. r.1.tasks) same
              ∙ rows
              ∙ ap (λ u. pre ++ u ∷ xs) (sym (scanned_else t (rw (late, waiting) refl))),
        )
  ]

  scan_rows :
      (pre xs : List Task) (db : Db)
      → db.tasks ≡ pre ++ xs
      → All (λ x. IsApart x pre) xs
      → Distinct (map (λ t. t.id) xs)
      → let r = for_each (filter (is_overdue env) xs) (escalate env) db in
        (r.0 ≡ ok tt) × (r.1.tasks ≡ pre ++ map (scanned env) xs)
  scan_rows pre [] db rows apart distinct = (refl, rows)
  scan_rows pre (x ∷ xs) db rows apart distinct = elim (Bool-cases (is_overdue env x)) [
    | inr fresh ↦
        let (ended, tasks) =
          scan_rows (pre ++ x ∷ []) xs db (rows ∙ shift pre x xs)
            (tail-IsApart x pre xs apart.1 distinct.0) distinct.1 in
        let same : scanned env x ≡ x = scanned_else x (rw fresh refl) in
        let skipped : filter (is_overdue env) (x ∷ xs) ≡ filter (is_overdue env) xs =
          rw fresh refl in
        let whole = ap (λ l. for_each l (escalate env) db) skipped in
        (
          ap (λ r. r.0) whole ∙ ended,
          ap (λ r. r.1.tasks) whole
              ∙ tasks
              ∙ sym (shift pre x (map (scanned env) xs))
              ∙ ap (λ u. pre ++ u ∷ map (scanned env) xs) (sym same),
        )
    | inl late ↦
        let (done, tasks1) =
          escalate_row x pre xs db rows apart.0 (apart_rest x.id xs distinct.0) late in
        let x' = scanned env x in
        let db1 = (escalate env x db).1 in
        let (ended, tasks) =
          scan_rows (pre ++ x' ∷ []) xs db1 (tasks1 ∙ shift pre x' xs)
            (tail-IsApart x' pre xs apart.1
              (subst (λ k. All (λ j. j ≢ k) (map (λ u. u.id) xs)) (sym (id-scanned x)) distinct.0))
            distinct.1 in
        let rest = filter (is_overdue env) xs in
        let through : for_each (x ∷ rest) (escalate env) db ≡ for_each rest (escalate env) db1 =
          ap (λ c. bind_result c (λ _. for_each rest (escalate env)) db1) done in
        let picked : filter (is_overdue env) (x ∷ xs) ≡ x ∷ rest = rw late refl in
        let whole : for_each (filter (is_overdue env) (x ∷ xs)) (escalate env) db
            ≡ for_each rest (escalate env) db1 =
          ap (λ l. for_each l (escalate env) db) picked ∙ through in
        (
          ap (λ r. r.0) whole ∙ ended,
          ap (λ r. r.1.tasks) whole ∙ tasks ∙ sym (shift pre x' (map (scanned env) xs)),
        )
  ]

-- A scan that has the lock and finds at most a hundred overdue tasks returns their number. Every
-- overdue task that was running is escalated; no other task changes, so an overdue task that waits
-- in its queue stays there, because the transition table has no step from QUEUED to ESCALATED.
pub scan_outcome :
    (env : Env) (db : Db)
    → Distinct (ids db)
    → length (filter (is_overdue env) db.tasks) ≤ scan_limit
    → ((scan env true db).0 ≡ ok (length (filter (is_overdue env) db.tasks)))
      × ((scan env true db).1.tasks ≡ map (scanned env) db.tasks)
unfolding scan
scan_outcome env db distinct few =
    let (ended, tasks) = scan_rows env [] db.tasks db refl (apart_nil db.tasks) distinct in
    let overdue = filter (is_overdue env) db.tasks in
    let all : take scan_limit overdue ≡ overdue = take_all scan_limit overdue few in
    let whole : scan env true db
        ≡ bind_result (for_each overdue (escalate env) db).0 (λ _ db'. (ok (length overdue), db'))
            (for_each overdue (escalate env) db).1 =
      ap
        (λ l.
          bind_result (for_each l (escalate env) db).0 (λ _ db'. (ok (length l), db'))
            (for_each l (escalate env) db).1)
        all in
    let over =
      whole
      ∙ ap
          (λ c.
            bind_result c (λ _ db'. (ok (length overdue), db'))
              (for_each overdue (escalate env) db).1)
          ended in
    (ap (λ r. r.0) over, ap (λ r. r.1.tasks) over ∙ tasks)
  where
    apart_nil : (xs : List Task) → All (λ x. IsApart x []) xs
    apart_nil [] = tt
    apart_nil (x ∷ xs) = (tt, apart_nil xs)
