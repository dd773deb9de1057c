-- ===== src/Queue/Store.antt =====
-- The lists of the `QueueStore` interface (queueserver_service/manager/queue_store.py), as its module
-- comment states them: exact text values, inclusive ranges, indices from either end.
use ophyd_service.Prelude.{
  ℕ, suc, ◌-◌, Option, none, some, List, [], ◌∷◌, ◌++◌, if◌then◌else◌, leb, length, get_elem?, take,
  drop,
}
use ophyd_service.Prelude.Int.{ℤ, pos, negsuc, is_lt, sub_ℕ}
use ophyd_service.Queue.Json.{Item, same_text}

-- BEFORE or AFTER
pub data Where : Type 0 where
  before after : Where

-- An index from the end is below the length, or outside the list.
unfoldable pub list_index : List Item → ℤ → Option Item
list_index l (pos i) = get_elem? l i
list_index l (negsuc i) = if leb (suc i) (length l) then get_elem? l (length l - suc i) else none

unfoldable pub list_push_front : List Item → Item → List Item
list_push_front l v = v ∷ l

unfoldable pub list_push_back : List Item → Item → List Item
list_push_back l v = l ++ v ∷ []

-- The value that is removed, and the rest.
unfoldable pub list_pop_front : List Item → Option Item × List Item
list_pop_front [] = (none, [])
list_pop_front (x ∷ l) = (some x, l)

abbrev pop_onto : Item → Option Item → List Item → Option Item × List Item
pop_onto x none rest = (some x, [])
pop_onto x (some y) rest = (some y, x ∷ rest)

unfoldable pub list_pop_back : List Item → Option Item × List Item
list_pop_back [] = (none, [])
list_pop_back (x ∷ l) = let (last, rest) = list_pop_back l in pop_onto x last rest

abbrev cons_to : Item → Option (List Item) → Option (List Item)
cons_to x none = none
cons_to x (some l) = some (x ∷ l)

-- At the first element whose text is the pivot's; `none` if there is no such element.
unfoldable pub list_insert_at : List Item → Where → Item → Item → Option (List Item)
list_insert_at [] w pivot v = none
list_insert_at (x ∷ l) before pivot v =
    let rest = list_insert_at l before pivot v in
    if same_text x pivot then some (v ∷ x ∷ l) else cons_to x rest
list_insert_at (x ∷ l) after pivot v =
    let rest = list_insert_at l after pivot v in
    if same_text x pivot then some (x ∷ v ∷ l) else cons_to x rest

-- The new list and its length, or -1 and the list as it was.
unfoldable pub list_insert : List Item → Where → Item → Item → List Item × ℤ
list_insert l w pivot v = elim (list_insert_at l w pivot v) [
  | none ↦ (l, negsuc 0)
  | some l' ↦ (l', pos (length l'))
]

-- Every element with the text, and their number.
unfoldable pub list_remove : List Item → Item → List Item × ℕ
list_remove [] v = ([], 0)
list_remove (x ∷ l) v =
    let (rest, n) = list_remove l v in if same_text x v then (rest, suc n) else (x ∷ rest, n)

abbrev pub from_end : ℕ → ℤ → ℕ
from_end len (pos i) = i
from_end len (negsuc i) = len - suc i

abbrev pub at_most : ℕ → ℤ → ℤ
at_most len z = let last = sub_ℕ len 1 in if is_lt z last then z else last

-- `_resolve_range`: an inclusive range with indices from either end as its first and last
-- positions; the last one may be negative.
unfoldable pub resolve_range : ℕ → ℤ → ℤ → ℕ × ℤ
resolve_range len start (pos i) = (from_end len start, at_most len (pos i))
resolve_range len start (negsuc i) = (from_end len start, at_most len (sub_ℕ len (suc i)))

abbrev pub keep_range : List Item → ℕ × ℤ → List Item
keep_range l (first, negsuc i) = []
keep_range l (first, pos last) =
    if leb first last then take (suc last - first) (drop first l) else []

unfoldable pub list_trim : List Item → ℤ → ℤ → List Item
unfolding resolve_range
list_trim l start stop = keep_range l (resolve_range (length l) start stop)

unfoldable pub list_range : List Item → ℤ → ℤ → List Item
unfolding resolve_range
list_range l start stop = keep_range l (resolve_range (length l) start stop)
