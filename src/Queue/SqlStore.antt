-- ===== src/Queue/SqlStore.antt =====
-- `SqlQueueStore` of queueserver_service/manager/queue_store.py: the lists of the queue as rows of one
-- table, in the order of their positions. The positions are floating-point numbers, whose arithmetic is
-- an argument, as is the id that the database gives to a new row.
mod Order
mod Extremes
mod Keys
mod Ends
mod Sorted
mod Inner
mod Window
mod Trim
mod Ranges
mod Places
mod Renumbering
mod Indices
mod Insertion
pub mod History
mod Tests
use ophyd_service.Prelude.{
  ℕ, suc, ◌+◌, String, Bool, true, false, ◌≡◌, ◌&&◌, ◌||◌, not, Option, none, some, List, [], ◌∷◌,
  ◌==◌, if◌then◌else◌, ltb, leb, eqb, length, zero, get_elem?, ◌-◌, take, drop, member,
}
use ophyd_service.Prelude.Int.{ℤ, pos, negsuc, add_ℕ}
use ophyd_service.Queue.Store.{Where, before, after, resolve_range}
use ophyd_service.Queue.Json.{Item, same_text}

-- The operations on floating-point numbers that are used.
pub record Arithmetic (P : Type 0) : Type 0 where
  pub lt : P → P → Bool
  pub zero_position : P
  pub minus_one : P → P
  pub plus_one : P → P
  pub halfway : P → P → P  -- (x + y) / 2.0
  pub of_index : ℕ → P  -- float(i)
  pub below_index : ℕ → P  -- i - 0.5
  pub above_index : ℕ → P  -- i + 0.5

-- The order is linear, adding or subtracting 1.0 changes a number, the rounded midpoint of two numbers is
-- not outside them, and small integers and their halves are exact: true of all floats below 2 ^ 52.
pub record IsOrdered {P : Type 0} (a : Arithmetic P) : Type 0 where
  pub asym : (x y : P) → a.lt x y ≡ true → a.lt y x ≡ false
  pub above : (x y z : P) → a.lt x y ≡ false → a.lt y z ≡ false → a.lt x z ≡ false
  pub lower : (x : P) → a.lt (a.minus_one x) x ≡ true
  pub higher : (x : P) → a.lt x (a.plus_one x) ≡ true
  pub halfway_comm : (x y : P) → a.halfway x y ≡ a.halfway y x
  pub halfway_lower : (x y : P) → a.lt y x ≡ false → a.lt (a.halfway x y) x ≡ false
  pub halfway_upper : (x y : P) → a.lt y x ≡ false → a.lt y (a.halfway x y) ≡ false
  pub indices : (i j : ℕ) → a.lt (a.of_index i) (a.of_index j) ≡ ltb i j
  pub under_below : (i j : ℕ) → a.lt (a.of_index i) (a.below_index j) ≡ ltb i j
  pub over_below : (i j : ℕ) → a.lt (a.below_index i) (a.of_index j) ≡ leb i j
  pub under_above : (i j : ℕ) → a.lt (a.of_index i) (a.above_index j) ≡ leb i j
  pub over_above : (i j : ℕ) → a.lt (a.above_index i) (a.of_index j) ≡ ltb i j

pub record Row (P : Type 0) : Type 0 where
  pub id : ℕ
  pub list_key : String
  pub position : P
  pub value : Item

-- SELECT … WHERE list_key = key
pub of_key : {P : Type 0} → String → List (Row P) → List (Row P)
of_key key [] = []
of_key key (r ∷ rs) = let rest = of_key key rs in if r.list_key == key then r ∷ rest else rest

-- DELETE … WHERE id = id
pub delete_id : {P : Type 0} → ℕ → List (Row P) → List (Row P)
delete_id id [] = []
delete_id id (r ∷ rs) = let rest = delete_id id rs in if eqb r.id id then rest else r ∷ rest

pub insert_row : {P : Type 0} → (Row P → Row P → Bool) → Row P → List (Row P) → List (Row P)
insert_row ahead r [] = r ∷ []
insert_row ahead r (x ∷ xs) =
    let rest = insert_row ahead r xs in if ahead x r then x ∷ rest else r ∷ x ∷ xs

-- ORDER BY
pub order_by : {P : Type 0} → (Row P → Row P → Bool) → List (Row P) → List (Row P)
unfolding insert_row
order_by ahead [] = []
order_by ahead (r ∷ rs) = insert_row ahead r (order_by ahead rs)

pub first_row : {P : Type 0} → List (Row P) → Option (Row P)
first_row [] = none
first_row (r ∷ rs) = some r

pub values_of : {P : Type 0} → List (Row P) → List Item
values_of [] = []
values_of (r ∷ rs) = r.value ∷ values_of rs

abbrev pub value_of : {P : Type 0} → Option (Row P) → Option Item
value_of none = none
value_of (some row) = some row.value

-- DELETE … WHERE list_key = key AND …
pub delete_where : {P : Type 0} → String → (Row P → Bool) → List (Row P) → List (Row P)
delete_where key p [] = []
delete_where key p (r ∷ rs) =
    let rest = delete_where key p rs in if r.list_key == key && p r then rest else r ∷ rest

pub delete_first : {P : Type 0} → Option (Row P) → List (Row P) → Option Item × List (Row P)
unfolding delete_id
delete_first none table = (none, table)
delete_first (some row) table = (some row.value, delete_id row.id table)

module _ {P : Type 0} (a : Arithmetic P) where
  -- (t.c.pos, t.c.id)
  pub ascending : Row P → Row P → Bool
  ascending r s = a.lt r.position s.position || (not (a.lt s.position r.position) && ltb r.id s.id)

  -- (t.c.pos.desc(), t.c.id.desc())
  pub descending : Row P → Row P → Bool
  unfolding ascending
  descending r s = ascending s r

  -- MIN(pos), MAX(pos)
  pub edge : Bool → List (Row P) → Option P
  edge front [] = none
  edge front (r ∷ rs) = elim (edge front rs) [
    | none ↦ some r.position
    | some p ↦
        some (if (if front then a.lt r.position p else a.lt p r.position) then r.position else p)
  ]

  pub beyond : Bool → Option P → P
  beyond front none = a.zero_position
  beyond front (some p) = if front then a.minus_one p else a.plus_one p

  -- The values of a list, in order.
  pub contents : String → List (Row P) → List Item
  unfolding of_key order_by values_of ascending
  contents key table = values_of (order_by ascending (of_key key table))

  pub push : (List (Row P) → ℕ) → String → Item → Bool → List (Row P) → List (Row P) × ℕ
  unfolding of_key edge beyond
  push fresh key value front table =
      let row : Row P = record {
        id = fresh table;
        list_key = key;
        position = beyond front (edge front (of_key key table));
        value = value;
      } in
      (row ∷ table, length (of_key key (row ∷ table)))

  pub pop : String → Bool → List (Row P) → Option Item × List (Row P)
  unfolding of_key order_by first_row ascending descending delete_first
  pop key front table =
      delete_first
        (first_row (order_by (if front then ascending else descending) (of_key key table))) table

  pub list_len : String → List (Row P) → ℕ
  unfolding of_key
  list_len key table = length (of_key key table)

  -- LIMIT 1 OFFSET index
  pub row_at : String → List (Row P) → ℤ → Option (Row P)
  unfolding of_key order_by ascending
  row_at key table (pos i) = get_elem? (order_by ascending (of_key key table)) i
  row_at key table (negsuc i) = none

  pub list_index : String → ℤ → List (Row P) → Option Item
  unfolding row_at list_len
  list_index key (pos i) table = value_of (row_at key table (pos i))
  list_index key (negsuc i) table =
      value_of (row_at key table (add_ℕ (list_len key table) (negsuc i)))

  -- The rows that are left, and the number of those that were deleted.
  pub list_remove : String → Item → List (Row P) → List (Row P) × ℕ
  unfolding delete_where of_key
  list_remove key value table =
      let left = delete_where key (λ r. same_text r.value value) table in
      (left, length table - length left)

  -- A missing row is an AttributeError in the source, which leaves the table as it is.
  pub trim_between : String → List (Row P) → Option (Row P) → Option (Row P) → List (Row P)
  unfolding delete_where ascending
  trim_between key table none last = table
  trim_between key table (some first) none = table
  trim_between key table (some first) (some last) =
      delete_where key (λ r. ascending r first || ascending last r) table

  pub trim_rows : String → List (Row P) → ℕ × ℤ → List (Row P)
  unfolding delete_where row_at trim_between
  trim_rows key table (first, negsuc i) = delete_where key (λ r. true) table
  trim_rows key table (first, pos last) =
      if leb first last
      then trim_between key table (row_at key table (pos first)) (row_at key table (pos last))
      else delete_where key (λ r. true) table

  pub list_trim : String → ℤ → ℤ → List (Row P) → List (Row P)
  unfolding trim_rows list_len
  list_trim key start stop table =
      trim_rows key table (resolve_range (list_len key table) start stop)

  -- LIMIT stop - start + 1 OFFSET start
  pub rows_between : String → List (Row P) → ℕ × ℤ → List (Row P)
  unfolding of_key order_by ascending
  rows_between key table (first, negsuc i) = []
  rows_between key table (first, pos last) =
      if leb first last
      then take (suc last - first) (drop first (order_by ascending (of_key key table)))
      else []

  pub list_range : String → ℤ → ℤ → List (Row P) → List Item
  unfolding rows_between list_len values_of
  list_range key start stop table =
      values_of (rows_between key table (resolve_range (list_len key table) start stop))

-- The lists among the keys of `delete`.
pub delete_lists : {P : Type 0} → List String → List (Row P) → List (Row P)
delete_lists keys [] = []
delete_lists keys (r ∷ rs) =
    let rest = delete_lists keys rs in if member r.list_key keys then rest else r ∷ rest

abbrev pub next_index : Option ℕ → Option ℕ
next_index none = none
next_index (some i) = some (suc i)

-- The index of the first row with the pivot's text.
pub find_pivot : {P : Type 0} → Item → List (Row P) → Option ℕ
find_pivot pivot [] = none
find_pivot pivot (r ∷ rs) =
    let rest = find_pivot pivot rs in if same_text r.value pivot then some 0 else next_index rest

abbrev pub neighbor : {P : Type 0} → Where → ℕ → List (Row P) → Option (Row P)
neighbor before zero rows = none
neighbor before (suc i) rows = get_elem? rows i
neighbor after i rows = get_elem? rows (suc i)

-- UPDATE … SET pos = … WHERE id = id
pub set_position : {P : Type 0} → ℕ → P → List (Row P) → List (Row P)
set_position id p [] = []
set_position id p (r ∷ rs) =
    (if eqb r.id id then record r { position = p } else r) ∷ set_position id p rs

module _ {P : Type 0} (a : Arithmetic P) where
  -- any(pos == r.pos for r in rows)
  pub occupied : P → List (Row P) → Bool
  occupied p [] = false
  occupied p (r ∷ rs) = (not (a.lt p r.position) && not (a.lt r.position p)) || occupied p rs

  -- for i, r in enumerate(rows)
  pub renumber : ℕ → List (Row P) → List (Row P) → List (Row P)
  unfolding set_position
  renumber i [] table = table
  renumber i (r ∷ rs) table = renumber (suc i) rs (set_position r.id (a.of_index i) table)

  abbrev pub position_near : Where → P → Option (Row P) → P
  position_near before p none = a.minus_one p
  position_near after p none = a.plus_one p
  position_near w p (some n) = a.halfway p n.position

  abbrev pub position_at : Where → ℕ → P
  position_at before i = a.below_index i
  position_at after i = a.above_index i

  new_row : ℕ → String → Item → P → Row P
  new_row id key value p = record { id = id; list_key = key; position = p; value = value }

  pub insert_beside :
      ℕ → String → Where → Item → List (Row P) → ℕ → Option (Row P) → List (Row P) → List (Row P)
  unfolding new_row occupied renumber
  insert_beside id key w value rows i none table = table
  insert_beside id key w value rows i (some pivot) table =
      let p = position_near w pivot.position (neighbor w i rows) in
      if occupied p rows
      then new_row id key value (position_at w i) ∷ renumber 0 rows table
      else new_row id key value p ∷ table

  -- The table and the new length, or -1.
  pub list_insert :
      (List (Row P) → ℕ) → String → Where → Item → Item → List (Row P) → List (Row P) × ℤ
  unfolding of_key order_by ascending find_pivot insert_beside
  list_insert fresh key w pivot value table =
      let rows = order_by (ascending a) (of_key key table) in
      elim (find_pivot pivot rows) [
        | none ↦ (table, negsuc 0)
        | some i ↦ (
          insert_beside (fresh table) key w value rows i (get_elem? rows i) table,
          pos (suc (length rows)),
        )
      ]
