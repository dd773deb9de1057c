-- ===== src/Queue/Tests.antt =====
-- Tests of the plan queue, and concrete states at which its theorems apply.
mod Runs
use Prim.Native.String.{◌++◌, count}
use package.text.Mathlib.TextLemmas.{length-append}
use ophyd_service.Prelude.{
  List, ◌⊎◌, ℕ, zero, suc, ◌≤◌, String, ◌≡◌, refl, ap, Bool, true, false, none, some, [], ◌∷◌,
  length, ◌==◌, eq_iff, arith, inl, inr, Bool-cases,
}
use ophyd_service.Prelude.Int.{pos, negsuc}
use ophyd_service.Dict
use ophyd_service.Queue.Json.{
  Item, Value, text, num, null, obj, field, end, uid_of, of_dict, to_dict, same_text, same_value,
}
use ophyd_service.Queue.Store.{before}
use ophyd_service.Queue.State.{PlanQueue}
use ophyd_service.Queue.Uids.{queued}
use ophyd_service.Queue.Consistent.{IsConsistent}
use ophyd_service.Queue.State.{ok, err, key_error, value_error}
use ophyd_service.Queue.Access.{at, pop_item_from_queue, pop_item_from_queue_batch, clear_queue}
use ophyd_service.Queue.Insert.{Place, add_batch_to_queue, filter_item_parameters}
use ophyd_service.Queue.Running.{
  set_next_item_as_running, set_property, truthy, clean_item_properties,
}
use ophyd_service.Queue.Finished.{
  RunReport, set_processed_item_as_completed, set_processed_item_as_stopped, with_result,
}
use ophyd_service.Queue.Edit.{replace_item, move_item}
use ophyd_service.Queue.History.{trim_history, trim_history-newest}
use ophyd_service.Queue.Consistent.Pop.Anywhere.{
  Removal, pop_item_from_queue-get_item, pop_item_from_queue-IsConsistent,
}
use ophyd_service.Queue.Consistent.Add.Whole.{Addition, add_item_to_queue-Addition}
use ophyd_service.Queue.Consistent.Batch.{Fresh, drop_each}
use ophyd_service.Queue.Consistent.Batch.Removed.{Popped, refuses, pop_item_from_queue_batch-Popped}
use ophyd_service.Queue.Consistent.Batch.Undone.{AllOrNothing, add_batch_to_queue-AllOrNothing}
use ophyd_service.Queue.Consistent.Replace.{Exchanged, replace_item-Exchanged}
use ophyd_service.Queue.Consistent.Move.{Moved, place_near, move_item-Moved}
use ophyd_service.Queue.Consistent.Clear.{Cleared, clear_queue-Cleared, clear_queue_unregistered}
use ophyd_service.Queue.Consistent.Start.{started, set_next_item_as_running-started}
use ophyd_service.Queue.Consistent.Finish.{Ends, Ended, set_processed_item_as_completed-Ended}
use ophyd_service.Queue.Consistent.Finish.Again.{
  renamed, set_processed_item_as_completed-looped, set_processed_item_as_stopped-failed,
}

abbrev uuid4 : ℕ → String
uuid4 zero = "z"
uuid4 (suc n) = "x" ++ uuid4 n

count-uuid4 : (n : ℕ) → count (uuid4 n) ≡ suc n
count-uuid4 zero = refl
count-uuid4 (suc n) = omega (arith, length-append "x" (uuid4 n), count-uuid4 n)

not_short : (s : String) (n : ℕ) → count s ≡ 1 → 2 ≤ n → s == uuid4 n ≡ false
not_short s n h k = elim (Bool-cases (s == uuid4 n)) [
  | inl e ↦ absurd (omega (arith, h, count-uuid4 n, ap count ((eq_iff s (uuid4 n)).0 e)))
  | inr e ↦ e
]

abbrev plan_item : String → Item
plan_item uid = ("item_uid", text uid) ∷ ("item_type", text "plan") ∷ ("name", text "count") ∷ []

-- Two plans wait, and nothing runs.
abbrev waiting_in : Bool → PlanQueue
waiting_in loop = record {
  queue = plan_item "a" ∷ plan_item "b" ∷ [];
  history = [];
  running = [];
  uid_dict = ("a", plan_item "a") ∷ ("b", plan_item "b") ∷ [];
  plan_queue_uid = "q";
  plan_history_uid = "h";
  queue_size = pos 2;
  history_size = 0;
  running_item_info = [];
  mode = record { loop = loop; ignore_failures = false };
  uuid4 = uuid4;
  drawn = 2;
}

abbrev waiting : PlanQueue
waiting = waiting_in false

waiting_in-IsConsistent : (loop : Bool) → IsConsistent (waiting_in loop)
unfolding queued uid_of Dict.get
waiting_in-IsConsistent loop = record {
  items = ("a", refl, refl, refl, ("b", refl, refl, refl, tt));
  only = λ u k. ground (arith, k, eq_iff "a" u, eq_iff "b" u);
  apart = λ u r. absurd (ground (arith, r));
  runs = λ u r. absurd (ground (arith, r));
  size = refl;
}

waiting-IsConsistent : IsConsistent waiting
waiting-IsConsistent = waiting_in-IsConsistent false

next_unknown : (i : ℕ) → 2 ≤ i → Dict.contains waiting.uid_dict (uuid4 i) ≡ false
unfolding Dict.get
next_unknown i h = ground (arith, not_short "a" i refl h, not_short "b" i refl h)

pop_item_from_queue-get_item_example : Removal (some (at (negsuc 1))) none waiting
pop_item_from_queue-get_item_example =
    pop_item_from_queue-get_item waiting (some (at (negsuc 1))) none waiting-IsConsistent
      (λ h. ground (arith, h))

pop_item_from_queue-IsConsistent_example :
    IsConsistent (pop_item_from_queue none (some "a") waiting).1
pop_item_from_queue-IsConsistent_example =
    pop_item_from_queue-IsConsistent waiting none (some "a") waiting-IsConsistent

add_item_to_queue-Addition_example :
    Addition waiting (plan_item "c") (some (at (pos 1))) none none true
add_item_to_queue-Addition_example =
    add_item_to_queue-Addition waiting (plan_item "c") (some (at (pos 1))) none none true
      waiting-IsConsistent (next_unknown 2 (omega arith))

abbrev anywhere : Place
anywhere = record { position = none; before_uid = none; after_uid = none }

uuid4_injective : (i j : ℕ) → uuid4 i ≡ uuid4 j → i ≡ j
uuid4_injective i j h = omega (arith, count-uuid4 i, count-uuid4 j, ap count h)

not_next : (s : String) → count s ≡ 1 → (i : ℕ) → 2 ≤ i → ¬ (some s ≡ some (uuid4 i))
not_next s h i k e = absurd (ground (arith, not_short s i h k, eq_iff s (uuid4 i), e))

-- The second item of the batch has a uid that is known.
waiting-Fresh : Fresh waiting (plan_item "c" ∷ plan_item "a" ∷ [])
unfolding uid_of Dict.get
waiting-Fresh = record {
  unknown = next_unknown;
  distinct = uuid4_injective;
  own = (not_next "c" refl, (not_next "a" refl, tt));
}

add_batch_to_queue-AllOrNothing_example :
    AllOrNothing waiting
      (plan_item "c" ∷ plan_item "a" ∷ [])
      (add_batch_to_queue (plan_item "c" ∷ plan_item "a" ∷ []) anywhere true waiting)
add_batch_to_queue-AllOrNothing_example =
    add_batch_to_queue-AllOrNothing waiting (plan_item "c" ∷ plan_item "a" ∷ []) anywhere true
      waiting-IsConsistent waiting-Fresh

a_queued : queued "a" waiting.queue ≡ true
unfolding queued uid_of Dict.get
a_queued = refl

b_queued : queued "b" waiting.queue ≡ true
unfolding queued uid_of Dict.get
b_queued = refl

a_known : Dict.get waiting.uid_dict "a" ≡ some (plan_item "a")
unfolding Dict.get
a_known = refl

-- The same item with a parameter that is not allowed.
abbrev edited : Item
edited =
    ("item_uid", text "a") ∷ ("item_type", text "plan") ∷ ("name", text "count") ∷ ("x", null) ∷ []

edited_uid : uid_of edited ≡ some "a"
unfolding uid_of Dict.get
edited_uid = refl

edited_differs : same_text edited (plan_item "a") ≡ false
unfolding same_text same_value
edited_differs = refl

replace_item-Exchanged_example :
    Exchanged waiting
      (plan_item "a")
      (filter_item_parameters edited)
      "a"
      "a"
      (replace_item same_text edited "a" waiting)
replace_item-Exchanged_example =
    replace_item-Exchanged waiting same_text edited (plan_item "a") "a" "a" waiting-IsConsistent
      a_queued a_known edited_uid refl edited_differs

move_item-Moved_example :
    (x : Item) × (Dict.get waiting.uid_dict "b" ≡ some x)
    × Moved waiting "b"
        (place_near before "a")
        x
        (move_item none (some "b") none (some "a") none waiting)
move_item-Moved_example =
    move_item-Moved waiting before "b" "a" waiting-IsConsistent b_queued a_queued refl refl
      still_unknown
  where
    still_unknown : Dict.contains (Dict.remove waiting.uid_dict "b") (uuid4 3) ≡ false
    still_unknown =
        ground (arith, Dict.get-remove waiting.uid_dict "b" (uuid4 3), next_unknown 3 (omega arith))

clear_queue-Cleared_example : Cleared waiting (clear_queue waiting)
clear_queue-Cleared_example = clear_queue-Cleared waiting waiting-IsConsistent (inl refl)

-- The newest of two items.
abbrev recorded : PlanQueue
recorded = record waiting { history = plan_item "x" ∷ plan_item "y" ∷ [] }

trim_history-newest_example :
    let (r, s') = trim_history (some (pos 1)) none recorded in
    (r ≡ ok tt)
    × (s'.history ≡ plan_item "y" ∷ [])
    × (s'.history_size ≡ length s'.history)
    × (length s'.history ≤ 2)
trim_history-newest_example = trim_history-newest recorded (pos 1)

-- An item that was submitted for immediate execution runs.
abbrev immediate : PlanQueue
immediate = record waiting { running = plan_item "c" }

c_uid : uid_of (plan_item "c") ≡ some "c"
unfolding uid_of Dict.get
c_uid = refl

c_unknown : Dict.contains waiting.uid_dict "c" ≡ false
unfolding Dict.get
c_unknown = refl

clear_queue_unregistered_example :
    let (r, s') = clear_queue immediate in
    (r ≡ err key_error)
    × (s'.queue ≡ [])
    × (s'.uid_dict ≡ waiting.uid_dict)
    × (s'.queue_size ≡ pos 2)
clear_queue_unregistered_example = clear_queue_unregistered immediate "c" c_uid c_unknown

-- The second uid is not known, and passed over.
pop_item_from_queue_batch-Popped_example :
    let (r, s') = pop_item_from_queue_batch ("b" ∷ "c" ∷ []) true waiting in
    (refuses waiting ("b" ∷ "c" ∷ []) true ≡ true) × (r ≡ err value_error) × (s' ≡ waiting)
    ⊎ (refuses waiting ("b" ∷ "c" ∷ []) true ≡ false)
      × (items : List Item) × (r ≡ ok (items, pos (length s'.queue)))
      × Popped waiting ("b" ∷ "c" ∷ []) items
      × (s'.queue ≡ drop_each ("b" ∷ "c" ∷ []) waiting.queue)
      × (s'.running ≡ [])
      × IsConsistent s'
pop_item_from_queue_batch-Popped_example =
    pop_item_from_queue_batch-Popped waiting ("b" ∷ "c" ∷ []) true waiting-IsConsistent
