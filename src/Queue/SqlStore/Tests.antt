-- ===== src/Queue/SqlStore/Tests.antt =====
-- Witness and tests for the lists in the database, with integers for positions, in halves.
use ophyd_service.Prelude.{
  ℕ, suc, ◌*◌, String, ◌≡◌, refl, true, false, some, List, [], ◌∷◌, ◌≤◌, if◌then◌else◌, arith, leb,
}
use ophyd_service.Prelude.Int.{ℤ, pos, negsuc, is_lt, add_ℕ, sub_ℕ}
use ophyd_service.Queue.Json.{Item, text, same_text}
use ophyd_service.Queue.Store
use ophyd_service.Queue.Store.{before}
use ophyd_service.Queue.SqlStore.{Arithmetic, IsOrdered, Row, contents}
use ophyd_service.Queue.SqlStore.Order.{has_id}
use ophyd_service.Queue.SqlStore.History.{
  Call, push_call, pop_call, index_call, remove_call, trim_call, range_call, delete_call,
  insert_call, new_length, values, run, run_lists, number, value, nothing, run-refines,
}

abbrev minus_one : ℤ → ℤ
minus_one (pos n) = sub_ℕ n 2
minus_one (negsuc n) = negsuc (suc (suc n))

-- A midpoint that is always rounded to the lesser number, so every insertion between rows renumbers
-- them.
abbrev lesser : ℤ → ℤ → ℤ
lesser x y = if is_lt x y then x else y

abbrev integers : Arithmetic ℤ
integers = record {
  lt = is_lt;
  zero_position = pos 0;
  minus_one = minus_one;
  plus_one = add_ℕ 2;
  halfway = lesser;
  of_index = λ i. pos (2 * i);
  below_index = λ i. sub_ℕ (2 * i) 1;
  above_index = λ i. pos (suc (2 * i));
}

asym : (x y : ℤ) → is_lt x y ≡ true → is_lt y x ≡ false
asym (pos a) (pos b) h = ground arith
asym (pos a) (negsuc b) h = ground arith
asym (negsuc a) (pos b) h = ground arith
asym (negsuc a) (negsuc b) h = ground arith

above : (x y z : ℤ) → is_lt x y ≡ false → is_lt y z ≡ false → is_lt x z ≡ false
above (pos a) (pos b) (pos c) h k = ground arith
above (pos a) (pos b) (negsuc c) h k = ground arith
above (pos a) (negsuc b) (pos c) h k = ground arith
above (pos a) (negsuc b) (negsuc c) h k = ground arith
above (negsuc a) (pos b) (pos c) h k = ground arith
above (negsuc a) (pos b) (negsuc c) h k = ground arith
above (negsuc a) (negsuc b) (pos c) h k = ground arith
above (negsuc a) (negsuc b) (negsuc c) h k = ground arith

lower : (x : ℤ) → is_lt (minus_one x) x ≡ true
lower (pos a) = ground arith
lower (negsuc a) = ground arith

higher : (x : ℤ) → is_lt x (add_ℕ 2 x) ≡ true
higher (pos a) = ground arith
higher (negsuc a) = ground arith

lesser_comm : (x y : ℤ) → lesser x y ≡ lesser y x
lesser_comm (pos a) (pos b) = ground arith
lesser_comm (pos a) (negsuc b) = ground arith
lesser_comm (negsuc a) (pos b) = ground arith
lesser_comm (negsuc a) (negsuc b) = ground arith

lesser_lower : (x y : ℤ) → is_lt y x ≡ false → is_lt (lesser x y) x ≡ false
lesser_lower (pos a) (pos b) h = ground arith
lesser_lower (pos a) (negsuc b) h = ground arith
lesser_lower (negsuc a) (pos b) h = ground arith
lesser_lower (negsuc a) (negsuc b) h = ground arith

lesser_upper : (x y : ℤ) → is_lt y x ≡ false → is_lt y (lesser x y) ≡ false
lesser_upper (pos a) (pos b) h = ground arith
lesser_upper (pos a) (negsuc b) h = ground arith
lesser_upper (negsuc a) (pos b) h = ground arith
lesser_upper (negsuc a) (negsuc b) h = ground arith

integers-IsOrdered : IsOrdered integers
integers-IsOrdered = record {
  asym = asym;
  above = above;
  lower = lower;
  higher = higher;
  halfway_comm = lesser_comm;
  halfway_lower = lesser_lower;
  halfway_upper = lesser_upper;
  indices = λ i j. ground arith;
  under_below = λ i j. ground arith;
  over_below = λ i j. ground arith;
  under_above = λ i j. ground arith;
  over_above = λ i j. ground arith;
}

-- One more than the highest id.
abbrev next_id : List (Row ℤ) → ℕ
next_id [] = 1
next_id (r ∷ rs) = let n = next_id rs in if leb n r.id then suc r.id else n

next_id_above : (rs : List (Row ℤ)) (i : ℕ) → next_id rs ≤ i → has_id i rs ≡ false
next_id_above [] i h = refl
next_id_above (r ∷ rs) i h = ground (arith, next_id_above rs i (ground arith))

next_id_unused : (rs : List (Row ℤ)) → has_id (next_id rs) rs ≡ false
next_id_unused rs = next_id_above rs (next_id rs) (omega arith)

abbrev item : String → Item
item uid = ("item_uid", text uid) ∷ []

-- Two lists, of which one is trimmed to its last two values.
abbrev calls : List Call
calls =
    push_call "queue" (item "b") false
    ∷ push_call "queue" (item "c") false
    ∷ push_call "history" (item "x") false
    ∷ push_call "queue" (item "a") true
    ∷ insert_call "queue" before (item "c") (item "d")
    ∷ trim_call "queue" (negsuc 1) (negsuc 0)
    ∷ pop_call "queue" true
    ∷ index_call "queue" (negsuc 0)
    ∷ range_call "queue" (pos 0) (negsuc 0)
    ∷ remove_call "queue" (item "c")
    ∷ delete_call ("history" ∷ "queue" ∷ [])
    ∷ []

run-refines_example :
    ((run integers next_id calls []).1 ≡ (run_lists calls (λ key. [])).1)
    × ((k : String)
        → contents integers k (run integers next_id calls []).0 ≡ (run_lists calls (λ key. [])).0 k)
unfolding contents
run-refines_example =
    run-refines integers integers-IsOrdered next_id next_id_unused calls [] (λ key. []) refl
      (λ k. refl)

replies :
    (run_lists calls (λ key. [])).1
    ≡ number 1
      ∷ number 2
      ∷ number 1
      ∷ number 3
      ∷ new_length (pos 4)
      ∷ nothing
      ∷ value (some (item "d"))
      ∷ value (some (item "c"))
      ∷ values (item "c" ∷ [])
      ∷ number 1
      ∷ nothing
      ∷ []
unfolding run_lists Store.list_push_back Store.list_push_front Store.list_pop_front Store.list_index
    Store.list_remove Store.list_insert Store.list_insert_at Store.list_trim Store.list_range
    same_text
replies = refl
