-- ===== src/Overlay/Worker.antt =====
-- What `_command_update_device_overlay_handler` of queueserver_service/manager/worker.py writes.
use mathlib.Core.Path.{subst}
use ophyd_service.Prelude.{
  String, ◌≡◌, refl, ◌∙◌, Bool, true, false, ◌&&◌, not, Option, none, some, List, [], ◌∷◌, ◌++◌, ap,
  arith, eq_iff, if◌then◌else◌, member, is_some, Bool-cases, Option-cases, ◌⊎◌, inl, inr,
}
use ophyd_service.Dict
use ophyd_service.Dict.{Dict, NodupKeys, get-insert, get-remove}
use ophyd_service.Registry.{DeviceInstantiationSpec}
use ophyd_service.Overlay.{
  ReWorker, difference, stage, pop_all, assign_all, overlay_names_after, commit,
}
use ophyd_service.Overlay.Plan.{member-append}

member-difference :
    (k : String) (xs ys : List String)
    → member k (difference xs ys) ≡ member k xs && not (member k ys)
unfolding difference
member-difference k [] ys = refl
member-difference k (x ∷ xs) ys = ground (arith, eq_iff x k, member-difference k xs ys)

pub member-keys {ℓ} :
    {V : Type ℓ} (k : String) (d : Dict V) → member k (Dict.keys d) ≡ Dict.contains d k
unfolding Dict.keys Dict.get
member-keys k [] = refl
member-keys k ((j, v) ∷ d) = ground (arith, member-keys k d)

abbrev pub and_then {ℓ κ} : {A : Type ℓ} {B : Type κ} → Option A → (A → Option B) → Option B
and_then none f = none
and_then (some a) f = f a

abbrev pub or_else {ℓ} : {A : Type ℓ} → Option A → Option A → Option A
or_else none b = b
or_else (some a) b = some a

module _ {D : Type 0} where
  get-pop_all :
      (names : List String) (namespace : Dict D) (k : String)
      → Dict.get (pop_all names namespace) k
        ≡ (if member k names then none else Dict.get namespace k)
  unfolding pop_all
  get-pop_all [] namespace k = refl
  get-pop_all (name ∷ names) namespace k =
      ground (arith, get-remove namespace name k, get-pop_all names (Dict.remove namespace name) k)

  pub get-assign_all :
      (staged namespace : Dict D) (k : String)
      → NodupKeys staged
      → Dict.get (assign_all staged namespace) k
        ≡ or_else (Dict.get staged k) (Dict.get namespace k)
  unfolding assign_all Dict.get
  get-assign_all [] namespace k n = refl
  get-assign_all ((name, device) ∷ staged) namespace k n = ground (
    arith,
    eq_iff name k,
    get-insert namespace name device k,
    get-assign_all staged (Dict.insert namespace name device) k n.1,
  )

  module _ (instantiate : DeviceInstantiationSpec → Option D) where
    pub stage-get :
        (upserts : Dict DeviceInstantiationSpec) (staged : Dict D) (k : String)
        → stage instantiate upserts ≡ some staged
        → Dict.get staged k ≡ and_then (Dict.get upserts k) instantiate
    unfolding stage Dict.get
    stage-get [] staged k e = ground arith
    stage-get ((name, spec) ∷ upserts) staged k e = elim (Option-cases (instantiate spec)) [
      | inl bad ↦ absurd (ground arith)
      | inr (device, ok) ↦ elim (Option-cases (stage instantiate upserts)) [
        | inl bad ↦ absurd (ground arith)
        | inr (rest, more) ↦ ground (arith, stage-get upserts rest k more)
      ]
    ]

    pub stage-contains :
        (upserts : Dict DeviceInstantiationSpec) (staged : Dict D) (k : String)
        → stage instantiate upserts ≡ some staged
        → Dict.contains staged k ≡ Dict.contains upserts k
    unfolding stage Dict.get
    stage-contains [] staged k e = ground arith
    stage-contains ((name, spec) ∷ upserts) staged k e = elim (Option-cases (instantiate spec)) [
      | inl bad ↦ absurd (ground arith)
      | inr (device, ok) ↦ elim (Option-cases (stage instantiate upserts)) [
        | inl bad ↦ absurd (ground arith)
        | inr (rest, more) ↦ ground (arith, stage-contains upserts rest k more)
      ]
    ]

    pub stage-NodupKeys :
        (upserts : Dict DeviceInstantiationSpec) (staged : Dict D)
        → stage instantiate upserts ≡ some staged
        → NodupKeys upserts
        → NodupKeys staged
    unfolding stage
    stage-NodupKeys [] staged e n = rw (← nothing) tt
      where
        nothing : [] ≡ staged
        nothing = ground arith
    stage-NodupKeys ((name, spec) ∷ upserts) staged e n = elim (Option-cases (instantiate spec)) [
      | inl bad ↦ absurd (ground arith)
      | inr (device, ok) ↦ elim (Option-cases (stage instantiate upserts)) [
        | inl bad ↦ absurd (ground arith)
        | inr (rest, more) ↦
            subst NodupKeys {x = (name, device) ∷ rest} (ground arith)
              (stage-contains upserts rest name more ∙ n.0, stage-NodupKeys upserts rest more n.1)
      ]
    ]

  abbrev pub device_in : Option (Dict D) → String → Option D
  device_in none k = none
  device_in (some namespace) k = Dict.get namespace k

  -- The worker has the device `k` of the registry. If the registry has none, it has no such device in
  -- its overlay, and the namespace has under the name at most what the profile has put there.
  abbrev pub Overlaid :
      Dict D
      → (DeviceInstantiationSpec → Option D)
      → ReWorker D
      → String
      → Option DeviceInstantiationSpec
      → Type 0
  Overlaid profile instantiate w k none =
      (member k w.overlay_names ≡ false)
      × ((device_in w.re_namespace k ≡ none) ⊎ (device_in w.re_namespace k ≡ Dict.get profile k))
  Overlaid profile instantiate w k (some spec) =
      (member k w.overlay_names ≡ true) × (device_in w.re_namespace k ≡ instantiate spec)

  module _ (profile : Dict D) (instantiate : DeviceInstantiationSpec → Option D) (w : ReWorker D)
      (namespace staged : Dict D) (upserts : Dict DeviceInstantiationSpec) (n : NodupKeys upserts)
      (ok : stage instantiate upserts ≡ some staged) (space : w.re_namespace ≡ some namespace) where
    left_in :
        (k : String)
        → Dict.get upserts k ≡ none
        → Dict.get
            (assign_all staged (pop_all (difference w.overlay_names (Dict.keys upserts)) namespace))
            k
          ≡ (if member k w.overlay_names then none else device_in w.re_namespace k)
    left_in k e =
        let gone = difference w.overlay_names (Dict.keys upserts) in
        get-assign_all staged (pop_all gone namespace) k
          (stage-NodupKeys instantiate upserts staged ok n)
        ∙ ground (
          arith,
          e,
          ap (λ ns. device_in ns k) space,
          stage-contains instantiate upserts staged k ok,
          get-pop_all gone namespace k,
          member-difference k w.overlay_names (Dict.keys upserts),
          member-keys k upserts,
        )

    -- A device that the overlay had is dropped, and any other is the profile's.
    dropped :
        (k : String) (had : Option DeviceInstantiationSpec)
        → Overlaid profile instantiate w k had
        → Dict.get upserts k ≡ none
        → (device_in (commit upserts [] true staged namespace w).re_namespace k ≡ none)
          ⊎ (device_in (commit upserts [] true staged namespace w).re_namespace k
              ≡ Dict.get profile k)
    unfolding commit pop_all
    dropped k (some spec) old e = inl (left_in k e ∙ rw old.0 refl)
    dropped k none old e = elim old.1 [
      | inl free ↦ inl (left_in k e ∙ (rw old.0 refl ∙ free))
      | inr own ↦ inr (left_in k e ∙ (rw old.0 refl ∙ own))
    ]

    -- Under a name that is neither staged nor deleted nothing changes.
    kept_in :
        (deletes : List String) (k : String)
        → Dict.get upserts k ≡ none
        → member k deletes ≡ false
        → Dict.get (pop_all deletes (assign_all staged namespace)) k ≡ device_in w.re_namespace k
    kept_in deletes k e d = ground (
      arith,
      e,
      ap (λ ns. device_in ns k) space,
      stage-contains instantiate upserts staged k ok,
      get-pop_all deletes (assign_all staged namespace) k,
      get-assign_all staged namespace k (stage-NodupKeys instantiate upserts staged ok n),
    )

    -- A full overlay replaces the old one.
    pub commit-replaced :
        (k : String) (had want : Option DeviceInstantiationSpec)
        → Overlaid profile instantiate w k had
        → Dict.get upserts k ≡ want
        → Overlaid profile instantiate (commit upserts [] true staged namespace w) k want
    unfolding commit pop_all overlay_names_after
    commit-replaced k had none old e = (ground (arith, member-keys k upserts), dropped k had old e)
    commit-replaced k had (some spec) old e = (
      ground (arith, member-keys k upserts),
      get-assign_all staged (pop_all (difference w.overlay_names (Dict.keys upserts)) namespace) k
            (stage-NodupKeys instantiate upserts staged ok n)
          ∙ ground (
            arith,
            stage-get instantiate upserts staged k ok,
            stage-contains instantiate upserts staged k ok,
          ),
    )

    -- What changed is overlaid or dropped, the rest stays.
    pub commit-updated :
        (deletes : List String) (k : String) (want : Option DeviceInstantiationSpec) (t : Bool)
        → Dict.get upserts k ≡ (if t && is_some want then want else none)
        → member k deletes ≡ t && not (is_some want)
        → ((t ≡ true) ⊎ Overlaid profile instantiate w k want)
        → Overlaid profile instantiate (commit upserts deletes false staged namespace w) k want
    unfolding commit pop_all overlay_names_after
    commit-updated deletes k none t e d old = (
      ground (
        arith,
        member-difference k (w.overlay_names ++ Dict.keys upserts) deletes,
        member-append k w.overlay_names (Dict.keys upserts),
        member-keys k upserts,
      ),
      elim (Bool-cases t) [
        | inl named ↦ inl (ground (arith, get-pop_all deletes (assign_all staged namespace) k))
        | inr other ↦ elim old [
          | inl named ↦ absurd (ground arith)
          | inr same ↦ elim same.1 [
            | inl free ↦ inl (kept_in deletes k (ground arith) (ground arith) ∙ free)
            | inr own ↦ inr (kept_in deletes k (ground arith) (ground arith) ∙ own)
          ]
        ]
      ],
    )
    commit-updated deletes k (some spec) t e d old = (
      ground (
        arith,
        member-difference k (w.overlay_names ++ Dict.keys upserts) deletes,
        member-append k w.overlay_names (Dict.keys upserts),
        member-keys k upserts,
      ),
      ground (
        arith,
        get-pop_all deletes (assign_all staged namespace) k,
        get-assign_all staged namespace k (stage-NodupKeys instantiate upserts staged ok n),
        stage-get instantiate upserts staged k ok,
        stage-contains instantiate upserts staged k ok,
      ),
    )
