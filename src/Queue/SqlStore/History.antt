-- ===== src/Queue/SqlStore/History.antt =====
-- Any sequence of calls to `SqlQueueStore` (queueserver_service/manager/queue_store.py), and the same
-- calls on lists.
use ophyd_service.Prelude.{
  ℕ, String, ◌≡◌, refl, ap, sym, ◌∙◌, Bool, true, false, Option, List, [], ◌∷◌, ◌==◌, if◌then◌else◌,
  eq_iff, length, member, Bool-cases, inl, inr,
}
use ophyd_service.Prelude.Int.{ℤ}
use ophyd_service.Queue.Json.{Item}
use ophyd_service.Queue.Store
use ophyd_service.Queue.SqlStore.{
  Arithmetic, IsOrdered, Row, contents, push, pop, list_index, list_remove, list_trim, list_insert,
  list_range, delete_lists,
}
use ophyd_service.Queue.SqlStore.Order.{has_id, distinct}
use ophyd_service.Queue.SqlStore.Ends.{push-refines, pop-refines}
use ophyd_service.Queue.SqlStore.Inner.{list_index-refines, list_remove-refines}
use ophyd_service.Queue.SqlStore.Ranges.{
  list_range-refines, delete_lists-refines, distinct-delete_lists,
}
use ophyd_service.Queue.SqlStore.Insertion.{list_insert-refines}
use ophyd_service.Queue.SqlStore.Trim.{list_trim-refines}

pub data Call : Type 0 where
  push_call : String → Item → Bool → Call
  pop_call : String → Bool → Call
  index_call : String → ℤ → Call
  remove_call : String → Item → Call
  trim_call : String → ℤ → ℤ → Call
  range_call : String → ℤ → ℤ → Call
  delete_call : List String → Call
  insert_call : String → Store.Where → Item → Item → Call

pub data Reply : Type 0 where
  number : ℕ → Reply
  value : Option Item → Reply
  values : List Item → Reply
  new_length : ℤ → Reply
  nothing : Reply

abbrev pub update : (String → List Item) → String → List Item → String → List Item
update lists key l k = if key == k then l else lists k

-- The calls on lists: one list for every key.
unfoldable pub step_lists : Call → (String → List Item) → (String → List Item) × Reply
step_lists (push_call key v front) lists =
    let l =
      if front then Store.list_push_front (lists key) v else Store.list_push_back (lists key) v in
    (update lists key l, number (length l))
step_lists (pop_call key front) lists =
    let popped =
      if front then Store.list_pop_front (lists key) else Store.list_pop_back (lists key) in
    (update lists key popped.1, value popped.0)
step_lists (index_call key i) lists = (lists, value (Store.list_index (lists key) i))
step_lists (remove_call key v) lists =
    let removed = Store.list_remove (lists key) v in (update lists key removed.0, number removed.1)
step_lists (trim_call key start stop) lists =
    (update lists key (Store.list_trim (lists key) start stop), nothing)
step_lists (range_call key start stop) lists =
    (lists, values (Store.list_range (lists key) start stop))
step_lists (delete_call keys) lists = (λ k. if member k keys then [] else lists k, nothing)
step_lists (insert_call key w pivot v) lists =
    let inserted = Store.list_insert (lists key) w pivot v in
    (update lists key inserted.0, new_length inserted.1)

unfoldable pub run_lists : List Call → (String → List Item) → (String → List Item) × List Reply
unfolding step_lists
run_lists [] lists = (lists, [])
run_lists (call ∷ calls) lists =
    let (lists', reply) = step_lists call lists in
    let (lists'', replies) = run_lists calls lists' in (lists'', reply ∷ replies)

module _ {P : Type 0} (a : Arithmetic P) (fresh : List (Row P) → ℕ) where
  pub step : Call → List (Row P) → List (Row P) × Reply
  unfolding list_insert push pop list_index list_remove list_trim list_range delete_lists
  step (push_call key v front) table =
      let (table', n) = push a fresh key v front table in (table', number n)
  step (pop_call key front) table =
      let (popped, table') = pop a key front table in (table', value popped)
  step (index_call key i) table = (table, value (list_index a key i table))
  step (remove_call key v) table = let (table', n) = list_remove a key v table in (table', number n)
  step (trim_call key start stop) table = (list_trim a key start stop table, nothing)
  step (range_call key start stop) table = (table, values (list_range a key start stop table))
  step (delete_call keys) table = (delete_lists keys table, nothing)
  step (insert_call key w pivot v) table =
      let (table', n) = list_insert a fresh key w pivot v table in (table', new_length n)

  pub run : List Call → List (Row P) → List (Row P) × List Reply
  unfolding step
  run [] table = (table, [])
  run (call ∷ calls) table =
      let (table', reply) = step call table in
      let (table'', replies) = run calls table' in (table'', reply ∷ replies)

module _ {P : Type 0} (a : Arithmetic P) (o : IsOrdered a) (fresh : List (Row P) → ℕ)
    (fresh_unused : (table : List (Row P)) → has_id (fresh table) table ≡ false) where
  abbrev Represents : List (Row P) → (String → List Item) → Type 0
  Represents table lists = (k : String) → contents a k table ≡ lists k

  Represents-update :
      (key : String) (table table' : List (Row P)) (lists : String → List Item) (l : List Item)
      → Represents table lists
      → contents a key table' ≡ l
      → ((other : String)
          → (key == other) ≡ false
          → contents a other table' ≡ contents a other table)
      → Represents table' (update lists key l)
  Represents-update key table table' lists l r c others k = elim (Bool-cases (key == k)) [
    | inl same ↦ rw (same, sym ((eq_iff key k).0 same)) c
    | inr differs ↦ rw differs (others k differs ∙ r k)
  ]

  step-refines :
      (call : Call) (table : List (Row P)) (lists : String → List Item)
      → distinct table ≡ true
      → Represents table lists
      → ((step a fresh call table).1 ≡ (step_lists call lists).1)
        × Represents (step a fresh call table).0 (step_lists call lists).0
        × (distinct (step a fresh call table).0 ≡ true)
  unfolding step step_lists
  step-refines (push_call key v front) table lists d r =
      let p = push-refines a o fresh key v front table d (fresh_unused table) in
      let e =
        p.0
        ∙ ap (λ l. if front then Store.list_push_front l v else Store.list_push_back l v) (r key) in
      (
        ap number (p.1 ∙ ap length e),
        Represents-update key table (push a fresh key v front table).0 lists _ r e p.2,
        p.3,
      )
  step-refines (pop_call key front) table lists d r =
      let p = pop-refines a o key front table d in
      let e =
        p.0 ∙ ap (λ l. if front then Store.list_pop_front l else Store.list_pop_back l) (r key) in
      (
        ap (λ z. value z.0) e,
        Represents-update key table (pop a key front table).1 lists _ r (ap (λ z. z.1) e) p.1,
        p.2,
      )
  step-refines (index_call key i) table lists d r =
      (rw (list_index-refines a o key i table, r key) refl, r, d)
  step-refines (remove_call key v) table lists d r =
      let p = list_remove-refines a o key v table d in
      let e = p.0 ∙ ap (λ l. Store.list_remove l v) (r key) in
      (
        ap (λ z. number z.1) e,
        Represents-update key table (list_remove a key v table).0 lists _ r (ap (λ z. z.0) e) p.1,
        p.2,
      )
  step-refines (trim_call key start stop) table lists d r =
      let p = list_trim-refines a o key start stop table d in
      (
        refl,
        Represents-update key table (list_trim a key start stop table) lists _ r
            (p.0 ∙ ap (λ l. Store.list_trim l start stop) (r key)) p.1,
        p.2,
      )
  step-refines (range_call key start stop) table lists d r =
      (rw (list_range-refines a o key start stop table, r key) refl, r, d)
  step-refines (delete_call keys) table lists d r = (
    refl,
    λ k. delete_lists-refines a o keys table k ∙ ap (λ l. if member k keys then [] else l) (r k),
    distinct-delete_lists keys table d,
  )
  step-refines (insert_call key w pivot v) table lists d r =
      let p = list_insert-refines a o fresh key w pivot v table d (fresh_unused table) in
      let e = p.0 ∙ ap (λ l. Store.list_insert l w pivot v) (r key) in
      (
        ap (λ z. new_length z.1) e,
        Represents-update key table (list_insert a fresh key w pivot v table).0 lists _ r
            (ap (λ z. z.0) e) p.1,
        p.2,
      )

  -- If the rows have distinct ids and the database gives every new row an id that is not in use, then
  -- any sequence of pushes, pops, insertions, readings, removals, trimmings and deletions, of any lists, replies to each call
  -- what the same calls on plain lists reply, and afterwards every list of the database, read in the
  -- order of the positions, is the plain list.
  pub run-refines :
      (calls : List Call) (table : List (Row P)) (lists : String → List Item)
      → distinct table ≡ true
      → Represents table lists
      → ((run a fresh calls table).1 ≡ (run_lists calls lists).1)
        × Represents (run a fresh calls table).0 (run_lists calls lists).0
  unfolding run run_lists
  run-refines [] table lists d r = (refl, r)
  run-refines (call ∷ calls) table lists d r =
      let s = step-refines call table lists d r in
      let rest = run-refines calls (step a fresh call table).0 (step_lists call lists).0 s.2 s.1 in
      (rw (s.0, rest.0) refl, rest.1)
