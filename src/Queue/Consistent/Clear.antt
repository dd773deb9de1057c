-- ===== src/Queue/Consistent/Clear.antt =====
-- `_clear_queue` of queueserver_service/manager/plan_queue_ops.py.
use mathlib.Core.Path.{subst}
use ophyd_service.Prelude.{
  none, false, ℕ, suc, String, ◌≡◌, refl, sym, true, some, [], ◌∷◌, eq_iff, arith, ◌⊎◌, inl, inr,
}
use ophyd_service.Prelude.Int.{pos}
use ophyd_service.Dict
use ophyd_service.Dict.{Dict, get-insert, get-insert_self, get-remove}
use ophyd_service.Queue.Json.{Item, uid_of}
use ophyd_service.Queue.State.{
  PlanQueue, Result, ok, err, key_error, is_running, is_empty, uid_dict_add, uid_dict_clear,
  uid_dict_get_item,
}
use ophyd_service.Queue.Access.{clear_queue, readd_running}
use ophyd_service.Queue.Uids.{queued}
use ophyd_service.Queue.Consistent.{IsConsistent}
use ophyd_service.Queue.Consistent.Ends.{not_empty}
use ophyd_service.Queue.Consistent.Start.{none_running}

-- The uids known afterwards are those of the running item alone.
abbrev pub Cleared : PlanQueue → Result (Unit {0}) × PlanQueue → Type 0
Cleared s (r, s') =
    (r ≡ ok tt)
    × (s'.queue ≡ [])
    × (s'.running ≡ s.running)
    × ((u : String) → Dict.contains s'.uid_dict u ≡ is_running s u)
    × IsConsistent s'

cleared_state : PlanQueue → Dict Item → ℕ → String → PlanQueue
cleared_state s d n u = record s {
  queue = [];
  uid_dict = d;
  queue_size = pos 0;
  drawn = n;
  plan_queue_uid = u;
}

cleared_state-Cleared :
    (s : PlanQueue) (d : Dict Item) (n : ℕ) (w : String)
    → ((u : String) → Dict.contains d u ≡ is_running s u)
    → Cleared s (ok tt, cleared_state s d n w)
unfolding cleared_state
cleared_state-Cleared s d n w h = (
  refl,
  refl,
  refl,
  h,
  record {
    items = tt;
    only = λ u k. ground (arith, h u, k);
    apart = λ u k. unfold queued in refl;
    runs = λ u k. ground (arith, h u, k);
    size = refl;
  },
)

-- Clearing the queue of a consistent state in which the running item, if there is one, has a uid and
-- was registered with it: nothing is queued, the running item runs on, its uid is the only one that
-- is known, and the state is consistent.
pub clear_queue-Cleared :
    (s : PlanQueue)
    → IsConsistent s
    → ((is_empty s.running ≡ true)
        ⊎ ((u : String) × (x : Item) × (uid_of s.running ≡ some u)
            × (Dict.get s.uid_dict u ≡ some x)
            × (uid_of x ≡ some u)))
    → Cleared s (clear_queue s)
unfolding clear_queue uid_dict_clear readd_running uid_dict_get_item uid_dict_add cleared_state
    Dict.get Dict.insert
clear_queue-Cleared s c (inl idle) = subst (Cleared s) (ground (arith, idle)) (
    cleared_state-Cleared s [] (suc (suc s.drawn)) (s.uuid4 (suc s.drawn))
      (λ u. sym (none_running s u idle)))
clear_queue-Cleared s c (inr (u, x, e, g, f)) =
    subst (Cleared s) (ground (arith, e, g, f, not_empty s.running u e)) (
      cleared_state-Cleared s ((u, x) ∷ []) (suc (suc (suc s.drawn))) (s.uuid4 (suc (suc s.drawn)))
        (λ v. ground (arith, e, eq_iff u v, eq_iff v u)))

-- Clearing the queue while an item runs whose uid is not registered, as that of an item submitted for
-- immediate execution never is: the stored queue is deleted, and then the call raises a key error,
-- with the dictionary of uids and the cached size still as they were.
pub clear_queue_unregistered :
    (s : PlanQueue) (u : String)
    → uid_of s.running ≡ some u
    → Dict.contains s.uid_dict u ≡ false
    → let (r, s') = clear_queue s in
      (r ≡ err key_error)
      × (s'.queue ≡ [])
      × (s'.uid_dict ≡ s.uid_dict)
      × (s'.queue_size ≡ s.queue_size)
unfolding clear_queue readd_running uid_dict_get_item
clear_queue_unregistered s u e k =
    let unknown : Dict.get s.uid_dict u ≡ none = ground (arith, k) in
    let idle = not_empty s.running u e in ground (arith, e, unknown, idle)
