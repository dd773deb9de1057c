-- ===== src/Locks/History/Table.antt =====
-- The lock table stays well formed (configuration_service/lock_manager.py).
use mathlib.Core.Bool.{beq}
use ophyd_service.Prelude.{
  ℕ, suc, String, ◌≡◌, refl, Bool, true, Option, some, List, [], ◌∷◌, arith, length, inl, inr,
  Bool-cases, Option-cases,
}
use ophyd_service.Dict
use ophyd_service.Dict.{Dict, NodupKeys, insert-NodupKeys, remove-NodupKeys}
use ophyd_service.Registry.{DeviceRegistry}
use ophyd_service.Locks.{
  DeviceLockState, DeviceLockManager, LockRequest, init, acquire_locks, find_conflicts,
  LockConflict, hold_all, new_lock, grant, next_expiry,
}
use ophyd_service.Locks.Acquire.{acquire_locks_all_or_nothing}
use ophyd_service.Locks.Renewal.{touch, renew_loop, renew_locks}
use ophyd_service.Locks.Renewal.Sorting.{renew_locks_sorts}
use ophyd_service.Locks.Release.{
  find_foreign, is_held, drop_held, release_locks, dedup, unknown_names, force_drop, force_branch,
  force_unlock, clear_all,
}
use ophyd_service.Locks.Release.Ownership.{get-drop_held}
use ophyd_service.Locks.Release.Force.{get-force_drop}
use ophyd_service.Locks.Policy.{set_lock_all}
use ophyd_service.Locks.History.{
  Call, acquire, renew, release, force, clear, policy, step, run, IsTable,
}

hold_all-NodupKeys :
    (lock : String → ℕ → DeviceLockState) (clock : ℕ → ℕ) (i : ℕ) (locks : Dict DeviceLockState)
    (ds : List String)
    → NodupKeys locks
    → NodupKeys (hold_all lock clock i locks ds)
unfolding hold_all
hold_all-NodupKeys lock clock i locks [] n = n
hold_all-NodupKeys lock clock i locks (x ∷ xs) n =
    hold_all-NodupKeys lock clock (suc i) (Dict.insert locks x (lock x (clock i))) xs
      (insert-NodupKeys locks x (lock x (clock i)) n)

drop_held-NodupKeys :
    (locks : Dict DeviceLockState) (ds : List String)
    → NodupKeys locks
    → NodupKeys (drop_held locks ds).0
unfolding drop_held
drop_held-NodupKeys locks [] n = n
drop_held-NodupKeys locks (x ∷ xs) n = elim (Bool-cases (is_held locks x)) [
  | inl e ↦ rw e (drop_held-NodupKeys (Dict.remove locks x) xs (remove-NodupKeys locks x n))
  | inr e ↦ rw e (drop_held-NodupKeys locks xs n)
]

force_drop-NodupKeys :
    (locks : Dict DeviceLockState) (ds : List String)
    → NodupKeys locks
    → NodupKeys (force_drop locks ds)
unfolding force_drop
force_drop-NodupKeys locks [] n = n
force_drop-NodupKeys locks (x ∷ xs) n = elim (Bool-cases (is_held locks x)) [
  | inl e ↦ rw e (force_drop-NodupKeys (Dict.remove locks x) xs (remove-NodupKeys locks x n))
  | inr e ↦ rw e (force_drop-NodupKeys locks xs n)
]

touch-NodupKeys :
    (e : Option ℕ) (locks : Dict DeviceLockState) (x : String)
    → NodupKeys locks
    → NodupKeys (touch e locks x)
unfolding touch
touch-NodupKeys e locks x n = elim (Option-cases (Dict.get locks x)) [
  | inl h ↦ rw (h, touch) n
  | inr (s, h) ↦ rw (h, touch) (insert-NodupKeys locks x _ n)
]

renew_loop-NodupKeys :
    (item : String) (now : ℕ) (e : Option ℕ) (locks : Dict DeviceLockState) (ds : List String)
    → NodupKeys locks
    → NodupKeys (renew_loop item now e locks ds).locks
unfolding renew_loop
renew_loop-NodupKeys item now e locks [] n = n
renew_loop-NodupKeys item now e locks (x ∷ xs) n =
    let kept = renew_loop-NodupKeys item now e locks xs n in
    let moved =
      renew_loop-NodupKeys item now e (touch e locks x) xs (touch-NodupKeys e locks x n) in
    ground (arith, kept, moved)

acquire-NodupKeys :
    (m : DeviceLockManager) (q : LockRequest) (r : DeviceRegistry) (clock : ℕ → ℕ)
    (lock_id : String)
    → NodupKeys m.locks
    → NodupKeys (acquire_locks m q r clock lock_id).0.locks
unfolding acquire_locks grant
acquire-NodupKeys m q r clock lock_id n = go (find_conflicts m r clock 0 q.device_names) refl
  where
    go :
        (cs : List LockConflict)
        → find_conflicts m r clock 0 q.device_names ≡ cs
        → NodupKeys (acquire_locks m q r clock lock_id).0.locks
    go [] e =
        rw (e, acquire_locks)
          (hold_all-NodupKeys
            (new_lock q.item_id q.plan_name q.locked_by_service lock_id
              (next_expiry m (clock (length q.device_names))))
            clock (suc (length q.device_names)) m.locks q.device_names n)
    go (c ∷ cs) e = rw (e, acquire_locks) n

acquire-IsTable :
    (m : DeviceLockManager) (q : LockRequest) (r : DeviceRegistry) (clock : ℕ → ℕ)
    (lock_id : String)
    → IsTable m
    → IsTable (acquire_locks m q r clock lock_id).0
unfolding new_lock
acquire-IsTable m q r clock lock_id v = elim (acquire_locks_all_or_nothing m q r clock lock_id) [
  | inr (_, _, _, e) ↦ rw e v
  | inl (_, g) ↦ record {
    keys = acquire-NodupKeys m q r clock lock_id v.keys;
    held = λ d s e. let (t, h) = g.2 d in ground (arith, h, e, v.held d s);
    named = λ d s e. let (t, h) = g.2 d in ground (arith, h, e, v.named d s);
  }
]

renew-IsTable :
    (m : DeviceLockManager) (names : List String) (item : String) (now : ℕ)
    → IsTable m
    → IsTable (renew_locks m names item now).0
renew-IsTable m names item now v = record {
  keys = keys;
  held = λ d s e. (entry d s e).0;
  named = λ d s e. (entry d s e).1;
}
  where
    keys : NodupKeys (renew_locks m names item now).0.locks
    keys =
        unfold renew_locks in renew_loop-NodupKeys item now (next_expiry m now) m.locks names v.keys

    entry :
        (d : String) (s : DeviceLockState)
        → Dict.get (renew_locks m names item now).0.locks d ≡ some s
        → (s.locked ≡ true) × (s.device_name ≡ d)
    entry d s e =
        let g = (renew_locks_sorts m names item now d).3 in
        elim (Option-cases (Dict.get m.locks d)) [
          | inl none_there ↦ absurd (ground (arith, e, g, none_there))
          | inr (s₀, there) ↦ ground (arith, e, g, there, v.held d s₀ there, v.named d s₀ there)
        ]

release-IsTable :
    (m : DeviceLockManager) (names : List String) (item : String) (now : ℕ)
    → IsTable m
    → IsTable (release_locks m names item now).0
unfolding release_locks
release-IsTable m names item now v = elim (Option-cases (find_foreign m item now names)) [
  | inr (f, e) ↦ rw (e, release_locks) v
  | inl e ↦
      rw (e, release_locks)
        (record {
          keys = drop_held-NodupKeys m.locks names v.keys;
          held = λ d s h. v.held d s (ground (arith, h, get-drop_held m.locks names d));
          named = λ d s h. v.named d s (ground (arith, h, get-drop_held m.locks names d));
        })
]

force_branch-IsTable :
    (m : DeviceLockManager) (names unknown : List String)
    → IsTable m
    → IsTable (force_branch m names unknown).0
unfolding force_branch
force_branch-IsTable m names (n ∷ ns) v = v
force_branch-IsTable m names [] v = record {
  keys = force_drop-NodupKeys m.locks names v.keys;
  held = λ d s h. v.held d s (ground (arith, h, get-force_drop m.locks names d));
  named = λ d s h. v.named d s (ground (arith, h, get-force_drop m.locks names d));
}

step-IsTable : (m : DeviceLockManager) (c : Call) → IsTable m → IsTable (step m c)
unfolding step force_unlock clear_all set_lock_all Dict.get
step-IsTable m (acquire q r clock lock_id) v = acquire-IsTable m q r clock lock_id v
step-IsTable m (renew names item now) v = renew-IsTable m names item now v
step-IsTable m (release names item now) v = release-IsTable m names item now v
step-IsTable m (force names r) v =
    force_branch-IsTable m (dedup [] names) (unknown_names m r (dedup [] names)) v
step-IsTable m clear v = record {
  keys = tt;
  held = λ d s h. absurd (ground (arith, h));
  named = λ d s h. absurd (ground (arith, h));
}
step-IsTable m (policy enabled) v = elim (Bool-cases (beq enabled m.lock_all_enabled)) [
  | inl e ↦ rw e v
  | inr e ↦ rw e (record { keys = v.keys; held = v.held; named = v.named })
]

run_keeps : (m : DeviceLockManager) (cs : List Call) → IsTable m → IsTable (run m cs)
unfolding run
run_keeps m [] v = v
run_keeps m (c ∷ cs) v = run_keeps (step m c) cs (step-IsTable m c v)

init-IsTable :
    (lock_all : Bool) (lease_ttl : ℕ) (epoch : String) → IsTable (init lock_all lease_ttl epoch)
unfolding init Dict.get
init-IsTable lock_all lease_ttl epoch = record {
  keys = tt;
  held = λ d s h. absurd (ground (arith, h));
  named = λ d s h. absurd (ground (arith, h));
}

-- After any sequence of calls on a new manager, each device has at most one entry in the lock
-- table, the entry is held, and it carries the device's own name.
pub run-IsTable :
    (lock_all : Bool) (lease_ttl : ℕ) (epoch : String) (cs : List Call)
    → IsTable (run (init lock_all lease_ttl epoch) cs)
run-IsTable lock_all lease_ttl epoch cs =
    run_keeps (init lock_all lease_ttl epoch) cs (init-IsTable lock_all lease_ttl epoch)
