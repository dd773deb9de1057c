-- ===== src/Locks/Renewal/Sorting.antt =====
-- What `renew_locks` (configuration_service/lock_manager.py) does with each device.
use ophyd_service.Prelude.{
  ℕ, String, ◌≡◌, refl, sym, ◌∙◌, true, false, ◌&&◌, Option, none, some, List, [], ◌∷◌, arith, ◌==◌,
  eq_iff, if◌then◌else◌, member, ◌⊎◌, inl, inr, Bool-cases, Option-cases,
}
use ophyd_service.Dict
use ophyd_service.Dict.{Dict, get-insert}
use ophyd_service.Locks.{DeviceLockState, DeviceLockManager, is_expired, next_expiry}
use ophyd_service.Locks.Acquire.Exclusion.{lapsed}
use ophyd_service.Locks.Renewal.{
  Tally, Standing, gone, foreign, own, standing, is_gone, is_foreign, is_own, touch, renew_loop,
  is_empty, renew_locks,
}

-- The entry with its lease moved.
abbrev pub extend : Option ℕ → Option DeviceLockState → Option DeviceLockState
extend expires none = none
extend expires (some s) = some (record s { expires_at = expires })

-- What the loop does with a device, by its standing and its entry before the loop.
abbrev pub Renews :
    Option ℕ → List String → Tally → String → Standing → Option DeviceLockState → Type 0
Renews expires names t d st entry =
    (member d t.renewed ≡ (member d names && is_own st))
    × (member d t.lost ≡ (member d names && is_gone st))
    × (member d t.conflicts ≡ (member d names && is_foreign st))
    × (Dict.get t.locks d ≡ (if member d names && is_own st then extend expires entry else entry))

get-touch :
    (expires : Option ℕ) (locks : Dict DeviceLockState) (x d : String)
    → Dict.get (touch expires locks x) d
      ≡ (if x == d then extend expires (Dict.get locks d) else Dict.get locks d)
unfolding touch
get-touch expires locks x d = elim (Option-cases (Dict.get locks x)) [
  | inl e ↦ rw (e, touch) (ground (arith, e, eq_iff x d))
  | inr (s, e) ↦
      rw (e, touch)
        (ground (arith, e, eq_iff x d, get-insert locks x (record s { expires_at = expires }) d))
]

standing-extend :
    (item : String) (now t : ℕ) (expires : Option ℕ) (o : Option DeviceLockState)
    → lapsed expires t ≡ false
    → standing item now o ≡ own
    → standing item t (extend expires o) ≡ own
unfolding is_expired
standing-extend item now t expires none l h = absurd (ground arith)
standing-extend item now t expires (some s) l h = ground (arith, l, h)

Standing-cases : (s : Standing) → (s ≡ gone) ⊎ ((s ≡ foreign) ⊎ (s ≡ own))
Standing-cases gone = inl refl
Standing-cases foreign = inr (inl refl)
Standing-cases own = inr (inr refl)

extend-extend :
    (expires : Option ℕ) (o : Option DeviceLockState)
    → extend expires (extend expires o) ≡ extend expires o
extend-extend expires none = refl
extend-extend expires (some s) = refl

module _ (expires : Option ℕ) (x d : String) (xs : List String) (t : Tally) (st : Standing)
    (entry : Option DeviceLockState) where
  gone-Renews :
      (x == d ≡ true → st ≡ gone)
      → Renews expires xs t d st entry
      → Renews expires (x ∷ xs) (record t { lost = x ∷ t.lost }) d st entry
  gone-Renews h r = ground arith

  foreign-Renews :
      (x == d ≡ true → st ≡ foreign)
      → Renews expires xs t d st entry
      → Renews expires (x ∷ xs) (record t { conflicts = x ∷ t.conflicts }) d st entry
  foreign-Renews h r = ground arith

  own-Renews :
      (x == d ≡ true → st ≡ own)
      → Renews expires xs t d st (if x == d then extend expires entry else entry)
      → Renews expires (x ∷ xs) (record t { renewed = x ∷ t.renewed }) d st entry
  own-Renews h r = ground (arith, extend-extend expires entry)

standing-touch :
    (item : String) (now : ℕ) (expires : Option ℕ) (locks : Dict DeviceLockState) (x d : String)
    → lapsed expires now ≡ false
    → (x == d ≡ true → standing item now (Dict.get locks d) ≡ own)
    → standing item now (if x == d then extend expires (Dict.get locks d) else Dict.get locks d)
      ≡ standing item now (Dict.get locks d)
standing-touch item now expires locks x d l h = elim (Bool-cases (x == d)) [
  | inl e ↦ rw e (standing-extend item now now expires (Dict.get locks d) l (h e) ∙ sym (h e))
  | inr e ↦ rw e
]

renew_loop-Renews :
    (item : String) (now : ℕ) (expires : Option ℕ) (locks : Dict DeviceLockState)
    (names : List String) (d : String)
    → lapsed expires now ≡ false
    → Renews expires names
        (renew_loop item now expires locks names)
        d
        (standing item now (Dict.get locks d))
        (Dict.get locks d)
unfolding renew_loop
renew_loop-Renews item now expires locks [] d l = (refl, refl, refl, refl)
renew_loop-Renews item now expires locks (x ∷ xs) d l =
    let kept = renew_loop-Renews item now expires locks xs d l in
    let moved = renew_loop-Renews item now expires (touch expires locks x) xs d l in
    elim (Standing-cases (standing item now (Dict.get locks x))) [
      | inl e ↦
          rw (e, renew_loop)
            (gone-Renews expires x d xs (renew_loop item now expires locks xs) _ _ (at gone e) kept)
      | inr (inl e) ↦
          rw (e, renew_loop)
            (foreign-Renews expires x d xs (renew_loop item now expires locks xs) _ _ (at foreign e)
              kept)
      | inr (inr e) ↦
          rw (e, renew_loop)
            (own-Renews expires x d xs (renew_loop item now expires (touch expires locks x) xs) _ _
              (at own e)
              (rw (get-touch, standing-touch item now expires locks x d l (at own e)) at moved))
    ]
  where
    at :
        (st : Standing)
        → standing item now (Dict.get locks x) ≡ st
        → x == d ≡ true
        → standing item now (Dict.get locks d) ≡ st
    at st e same = rw (← (eq_iff x d).0 same) e

next_expiry-lapsed : (m : DeviceLockManager) (now : ℕ) → lapsed (next_expiry m now) now ≡ false
unfolding next_expiry
next_expiry-lapsed m now = ground arith

is_empty-member : (xs : List String) → is_empty xs ≡ true → (d : String) → member d xs ≡ false
is_empty-member [] h d = refl
is_empty-member (x ∷ xs) h d = absurd (ground arith)

-- A heartbeat sorts each named device by its entry: own and live ones are renewed, live ones of
-- another item are conflicts, all others are lost. A renewed entry changes only in its expiry,
-- which becomes the one that is reported, and no other entry changes; so no lock changes hands.
pub renew_locks_sorts :
    (m : DeviceLockManager) (names : List String) (item : String) (now : ℕ) (d : String)
    → let st = standing item now (Dict.get m.locks d) in
      let (m', res) = renew_locks m names item now in
      (member d res.renewed ≡ (member d names && is_own st))
      × (member d res.lost ≡ (member d names && is_gone st))
      × (member d res.conflicts ≡ (member d names && is_foreign st))
      × (Dict.get m'.locks d ≡ (
          if member d names && is_own st
          then extend res.expires_at (Dict.get m.locks d)
          else Dict.get m.locks d))
      × (m'.version ≡ m.version)
unfolding renew_locks
renew_locks_sorts m names item now d =
    let (a, b, c, g) =
      renew_loop-Renews item now (next_expiry m now) m.locks names d (next_expiry-lapsed m now) in
    (a, b, c, g, refl)

is_own_of : (st : Standing) → is_gone st ≡ false → is_foreign st ≡ false → st ≡ own
is_own_of gone a b = absurd (ground arith)
is_own_of foreign a b = absurd (ground arith)
is_own_of own a b = refl

-- A heartbeat that succeeds found every named device under a live lock of the item, and those locks
-- are live at every instant before the new expiry.
pub renew_locks_success :
    (m : DeviceLockManager) (names : List String) (item : String) (now : ℕ) (d : String) (t : ℕ)
    → (renew_locks m names item now).1.success ≡ true
    → member d names ≡ true
    → lapsed (renew_locks m names item now).1.expires_at t ≡ false
    → (standing item now (Dict.get m.locks d) ≡ own)
      × (standing item t (Dict.get (renew_locks m names item now).0.locks d) ≡ own)
unfolding renew_locks
renew_locks_success m names item now d t ok k l =
    let e = next_expiry m now in
    let loop = renew_loop item now e m.locks names in
    let (_, gone', foreign', entry) =
      renew_loop-Renews item now e m.locks names d (next_expiry-lapsed m now) in
    let none_lost = is_empty-member loop.lost (ground arith) d in
    let none_foreign = is_empty-member loop.conflicts (ground arith) d in
    let mine =
      is_own_of _ (ground (arith, none_lost, gone', k))
        (ground (arith, none_foreign, foreign', k)) in
    (mine, rw (entry, k, mine) (standing-extend item now t e (Dict.get m.locks d) l mine))
