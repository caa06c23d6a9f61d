-- ===== src/TaskFactory/Keys.antt =====
-- The unique constraints on the tasks' ids and idempotency keys, which `createTask` keeps.
use contents_factory.Common.{
  ℕ, ◌+◌, ◌<◌, ◌≡◌, refl, inl, inr, List, [], ◌∷◌, ◌++◌, map, arith, All, Any, Option-cases, get_or,
}
use contents_factory.Store.{
  Db, Env, Task, IdempotencyKey, key_eq, Distinct, Distinct-concat, find-none-keys, find-some,
  map-replace,
}
use contents_factory.TaskFactory.{
  CreateTaskInput, create_task, reuse_task, insert_and_enqueue, enqueue, find_key, idempotency_key,
  new_task, revived_task,
}

abbrev pub ids : Db → List ℕ
ids db = map (λ t. t.id) db.tasks

abbrev pub keys : Db → List IdempotencyKey
keys db = map (λ t. t.idempotency_key) db.tasks

-- The primary key and the unique column of the table, and ids yet to be given are new.
pub record IsKeyed (db : Db) : Type 0 where
  pub distinct_ids : Distinct (ids db)
  pub distinct_keys : Distinct (keys db)
  pub fresh : All (λ k. k < db.next_id) (ids db)

map-concat :
    {A B : Type 0} (f : A → B) (xs : List A) (a : A) → map f (xs ++ a ∷ []) ≡ map f xs ++ f a ∷ []
map-concat f [] a = refl
map-concat f (x ∷ xs) a = rw (map-concat f xs a)

fresh_ne : (n : ℕ) (ks : List ℕ) → All (λ k. k < n) ks → All (λ k. ¬ (k ≡ n)) ks
fresh_ne n [] h = tt
fresh_ne n (k ∷ ks) h = (omega arith, fresh_ne n ks h.1)

fresh-suc : (n : ℕ) (ks : List ℕ) → All (λ k. k < n) ks → All (λ k. k < n + 1) (ks ++ n ∷ [])
fresh-suc n [] h = (omega arith, tt)
fresh-suc n (k ∷ ks) h = (omega arith, fresh-suc n ks h.1)

-- The invariant sees only the columns.
pub columns-IsKeyed :
    (db db' : Db)
    → IsKeyed db
    → ids db' ≡ ids db
    → keys db' ≡ keys db
    → db'.next_id ≡ db.next_id
    → IsKeyed db'
columns-IsKeyed db db' h i k n = record {
  distinct_ids = rw i h.distinct_ids;
  distinct_keys = rw k h.distinct_keys;
  fresh = rw (i, n) h.fresh;
}

reuse_task-columns :
    (env : Env) (e : Task) (db : Db)
    → IsKeyed db
    → Any (λ t. t ≡ e) db.tasks
    → (ids (reuse_task env e db).1 ≡ ids db)
      × (keys (reuse_task env e db).1 ≡ keys db)
      × ((reuse_task env e db).1.next_id ≡ db.next_id)
unfolding reuse_task enqueue revived_task
reuse_task-columns env e db h m = ground (
  arith,
  map-replace (λ t. t.id) (λ t. t.id) e (revived_task env e) db.tasks h.distinct_ids m,
  map-replace (λ t. t.id) (λ t. t.idempotency_key) e (revived_task env e) db.tasks h.distinct_ids m,
)

insert-columns :
    (env : Env) (input : CreateTaskInput) (db : Db)
    → let db' = (insert_and_enqueue env input db.next_id db).1 in
      (ids db' ≡ ids db ++ db.next_id ∷ [])
      × (keys db' ≡ keys db ++ idempotency_key input (get_or input.attempt 1) ∷ [])
      × (db'.next_id ≡ db.next_id + 1)
unfolding insert_and_enqueue enqueue
insert-columns env input db = ground (
  arith,
  map-concat (λ (t : Task). t.id) db.tasks (new_task env input db.next_id),
  map-concat (λ (t : Task). t.idempotency_key) db.tasks (new_task env input db.next_id),
)

-- Creating a task keeps the ids and the idempotency keys of the tasks distinct, whether a task is
-- added, revived or reused, and also where the queue refuses the job and the call throws.
pub create_task-IsKeyed :
    (env : Env) (input : CreateTaskInput) (db : Db)
    → IsKeyed db
    → IsKeyed (create_task env input db).1
unfolding create_task
create_task-IsKeyed env input db h =
    let key = idempotency_key input (get_or input.attempt 1) in
    elim (Option-cases (find_key key db)) [
      | inl new ↦
          let (i, k, n) = insert-columns env input db in
          rw (new, create_task)
            (record {
              distinct_ids =
                  rw i (Distinct-concat _ db.next_id h.distinct_ids (fresh_ne _ _ h.fresh));
              distinct_keys =
                  rw k (Distinct-concat _ key h.distinct_keys (find-none-keys _ key db.tasks new));
              fresh = rw (i, n) (fresh-suc db.next_id (ids db) h.fresh);
            })
      | inr (e, found) ↦
          let (i, k, n) = reuse_task-columns env e db h (find-some _ db.tasks found).1 in
          rw (found, create_task) (columns-IsKeyed db (reuse_task env e db).1 h i k n)
    ]
