-- ===== src/Locks/Policy/Holder.antt =====
-- Who makes a device unavailable (configuration_service/lock_manager.py).
use mathlib.Core.Path.{subst}
use mathlib.Core.Option.{some-injective}
use ophyd_service.Prelude.{
  ℕ, ◌≤◌, String, ◌≡◌, refl, sym, ◌∙◌, true, false, Option, none, some, [], ◌∷◌, arith, eq_iff, ltb,
  ltb→lt, ◌⊎◌, inl, inr, ◌↔◌, Bool-cases, Option-cases,
}
use ophyd_service.Dict
use ophyd_service.Dict.{Dict, NodupKeys}
use ophyd_service.Locks.{DeviceLockState, DeviceLockManager, active_lock, live}
use ophyd_service.Locks.Policy.{
  live_entries, get_all_locks, earlier, earliest, first_earliest, global_lock_holder,
  effective_lock,
}

get-live_entries :
    (now : ℕ) (locks : Dict DeviceLockState) (d : String)
    → NodupKeys locks
    → Dict.get (live_entries now locks) d ≡ live now (Dict.get locks d)
unfolding live_entries live Dict.get
get-live_entries now [] d n = refl
get-live_entries now ((k, s) ∷ locks) d n =
    ground (arith, eq_iff k d, get-live_entries now locks d n.1)

-- The list of all locks has a device exactly if it is under a live lock, and then with that lock.
pub get-get_all_locks :
    (m : DeviceLockManager) (now : ℕ) (d : String)
    → NodupKeys m.locks
    → Dict.get (get_all_locks m now) d ≡ active_lock m d now
unfolding get_all_locks active_lock
get-get_all_locks m now d n = get-live_entries now m.locks d n

-- The state is an entry of the table.
abbrev pub IsEntry : Dict DeviceLockState → DeviceLockState → Type 0
IsEntry [] s = ⊥
IsEntry ((name, s') ∷ locks) s = (s ≡ s') ⊎ IsEntry locks s

abbrev pub AllFrom : ℕ → Dict DeviceLockState → Type 0
AllFrom at [] = Unit
AllFrom at ((name, s) ∷ locks) = (at ≤ s.locked_at) × AllFrom at locks

AllFrom-mono : (a b : ℕ) (locks : Dict DeviceLockState) → a ≤ b → AllFrom b locks → AllFrom a locks
AllFrom-mono a b [] h v = tt
AllFrom-mono a b ((k, s) ∷ locks) h v = (omega arith, AllFrom-mono a b locks h v.1)

earlier_lem :
    (s s' : DeviceLockState)
    → ((earlier s s').locked_at ≤ s.locked_at)
      × ((earlier s s').locked_at ≤ s'.locked_at)
      × ((earlier s s' ≡ s) ⊎ (earlier s s' ≡ s'))
unfolding earlier
earlier_lem s s' = elim (Bool-cases (ltb s'.locked_at s.locked_at)) [
  | inl e ↦ rw e (omega (arith, ltb→lt _ _ e), omega arith, inr refl)
  | inr e ↦ rw e (omega arith, ground arith, inl refl)
]

earliest-AllFrom :
    (s : DeviceLockState) (locks : Dict DeviceLockState)
    → ((earliest s locks).locked_at ≤ s.locked_at)
      × AllFrom (earliest s locks).locked_at locks
      × ((earliest s locks ≡ s) ⊎ IsEntry locks (earliest s locks))
unfolding earliest
earliest-AllFrom s [] = (omega arith, tt, inl refl)
earliest-AllFrom s ((k, s') ∷ locks) =
    let (a, b, c) = earliest-AllFrom (earlier s s') locks in
    let (f, g, h) = earlier_lem s s' in (omega (arith, a, f), (omega (arith, a, g), b), entry c h)
  where
    entry :
        {x y : DeviceLockState}
        → (x ≡ y) ⊎ IsEntry locks x
        → (y ≡ s) ⊎ (y ≡ s')
        → (x ≡ s) ⊎ ((x ≡ s') ⊎ IsEntry locks x)
    entry (inl p) (inl q) = inl (p ∙ q)
    entry (inl p) (inr q) = inr (inl (p ∙ q))
    entry (inr e) _ = inr (inr e)

AllFrom-get :
    (at : ℕ) (locks : Dict DeviceLockState) (d : String) (s : DeviceLockState)
    → AllFrom at locks
    → Dict.get locks d ≡ some s
    → at ≤ s.locked_at
unfolding Dict.get
AllFrom-get at [] d s v e = absurd (ground arith)
AllFrom-get at ((k, s') ∷ locks) d s v e = ground (arith, AllFrom-get at locks d s v.1)

IsEntry-get :
    (locks : Dict DeviceLockState) (s : DeviceLockState)
    → NodupKeys locks
    → IsEntry locks s
    → (d : String) × (Dict.get locks d ≡ some s)
unfolding Dict.get
IsEntry-get [] s n h = absurd h
IsEntry-get ((k, s') ∷ locks) s n (inl e) = (k, ground (arith, e, eq_iff k k))
IsEntry-get ((k, s') ∷ locks) s n (inr e) =
    let (d, g) = IsEntry-get locks s n.1 e in (d, ground (arith, g, eq_iff k d))

first_earliest-some :
    (locks : Dict DeviceLockState) (s : DeviceLockState)
    → NodupKeys locks
    → first_earliest locks ≡ some s
    → ((d : String) × (Dict.get locks d ≡ some s))
      × ((d : String) (s' : DeviceLockState)
          → Dict.get locks d ≡ some s'
          → s.locked_at ≤ s'.locked_at)
unfolding first_earliest
first_earliest-some [] s n e = absurd (ground arith)
first_earliest-some ((k, s₀) ∷ locks) s n e =
    let p : earliest s₀ locks ≡ s = some-injective _ _ e in
    let (a, b, c) = rw p at (earliest-AllFrom s₀ locks) in
    (
      IsEntry-get ((k, s₀) ∷ locks) s n c,
      λ d s' g. AllFrom-get s.locked_at ((k, s₀) ∷ locks) d s' (a, b) g,
    )

live_entries-NodupKeys :
    (now : ℕ) (locks : Dict DeviceLockState) → NodupKeys locks → NodupKeys (live_entries now locks)
unfolding live_entries live
live_entries-NodupKeys now [] n = tt
live_entries-NodupKeys now ((k, s) ∷ locks) n =
    ground (arith, get-live_entries now locks k n.1, live_entries-NodupKeys now locks n.1)

-- With one entry for each device in the lock table, the global holder, if there is one, is the live
-- lock of some device, and no live lock was acquired before it.
pub global_lock_holder-earliest :
    (m : DeviceLockManager) (now : ℕ) (s : DeviceLockState)
    → NodupKeys m.locks
    → global_lock_holder m now ≡ some s
    → ((d : String) × (active_lock m d now ≡ some s))
      × ((d : String) (s' : DeviceLockState)
          → active_lock m d now ≡ some s'
          → s.locked_at ≤ s'.locked_at)
unfolding global_lock_holder active_lock
global_lock_holder-earliest m now s n e =
    let ((d, g), least) =
      first_earliest-some (live_entries now m.locks) s (live_entries-NodupKeys now m.locks n) e in
    (
      (d, rw (← get-live_entries now m.locks d n) g),
      λ d' s' a. least d' s' (rw (get-live_entries now m.locks d' n) a),
    )

first_earliest-none :
    (locks : Dict DeviceLockState) (d : String)
    → first_earliest locks ≡ none
    → Dict.get locks d ≡ none
unfolding first_earliest Dict.get
first_earliest-none [] d e = refl
first_earliest-none ((k, s) ∷ locks) d e = absurd (ground arith)

global_lock_holder-none :
    (m : DeviceLockManager) (now : ℕ)
    → NodupKeys m.locks
    → (global_lock_holder m now ≡ none) ↔ ((d : String) → active_lock m d now ≡ none)
unfolding global_lock_holder
global_lock_holder-none m now n = (to, from)
  where
    to :
        first_earliest (live_entries now m.locks) ≡ none → (d : String) → active_lock m d now ≡ none
    to h d =
        unfold active_lock in
        rw (← get-live_entries now m.locks d n) (first_earliest-none (live_entries now m.locks) d h)

    from :
        ((d : String) → active_lock m d now ≡ none)
        → first_earliest (live_entries now m.locks) ≡ none
    from h = elim (Option-cases (global_lock_holder m now)) [
      | inl e ↦ e
      | inr (s, e) ↦
          let ((d, a), _) = global_lock_holder-earliest m now s n e in
          absurd (ground (arith, h d, a))
    ]

-- What makes a device unavailable: its own live lock, else, under a policy that locks all devices
-- together, a live lock than which none is older.
abbrev pub Governs : DeviceLockManager → String → ℕ → ℕ → Option DeviceLockState → Type 0
Governs m d now later none =
    (active_lock m d now ≡ none)
    × ((m.lock_all_enabled ≡ false) ⊎ ((d' : String) → active_lock m d' later ≡ none))
Governs m d now later (some s) =
    (active_lock m d now ≡ some s)
    ⊎ ((active_lock m d now ≡ none)
        × (m.lock_all_enabled ≡ true)
        × ((d' : String) × (active_lock m d' later ≡ some s))
        × ((d' : String) (s' : DeviceLockState)
            → active_lock m d' later ≡ some s'
            → s.locked_at ≤ s'.locked_at))

governed :
    (m : DeviceLockManager) (d : String) (now later : ℕ) (holder : Option DeviceLockState)
    → NodupKeys m.locks
    → active_lock m d now ≡ none
    → m.lock_all_enabled ≡ true
    → global_lock_holder m later ≡ holder
    → Governs m d now later holder
governed m d now later none n a p e = (a, inr ((global_lock_holder-none m later n).0 e))
governed m d now later (some s) n a p e =
    let (held, least) = global_lock_holder-earliest m later s n e in inr (a, p, held, least)

-- With one entry for each device in the lock table: if the device has a live lock of its own at the
-- first reading of the clock, that lock makes it unavailable. If it has none, and all devices are
-- locked together, a lock that is live at the second reading, of any device, makes it unavailable, and
-- none that is live then was acquired earlier; without such a lock the device is available. If it has
-- none, and devices are locked one by one, it is available.
pub effective_lock_policy :
    (m : DeviceLockManager) (d : String) (now later : ℕ)
    → NodupKeys m.locks
    → Governs m d now later (effective_lock m d now later)
unfolding effective_lock
effective_lock_policy m d now later n = elim (Option-cases (active_lock m d now)) [
  | inr (own, e) ↦ rw (effective_lock, e) (inl e)
  | inl a ↦ elim (Bool-cases m.lock_all_enabled) [
    | inl p ↦
        let e : effective_lock m d now later ≡ global_lock_holder m later = ground (arith, a, p) in
        governed m d now later (effective_lock m d now later) n a p (sym e)
    | inr p ↦
        let e : none ≡ effective_lock m d now later = ground (arith, a, p) in
        subst (Governs m d now later) e (a, inl p)
  ]
]
