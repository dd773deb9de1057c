-- ===== src/RegistryStore/Reload.antt =====
-- A service that restarts has the registry that it had written: `seed_from_registry` and
-- `load_all_devices` of configuration_service/device_registry_store.py.
use mathlib.Core.Path.{subst}
use ophyd_service.Prelude.{
  ℕ, String, ◌≡◌, refl, sym, ◌∙◌, true, Option, none, some, [], ◌∷◌, arith, ◌==◌, eq_iff,
  if◌then◌else◌, Bool-cases, Option-cases, inl, inr,
}
use ophyd_service.Dict
use ophyd_service.Dict.{Dict, NodupKeys, get-insert, get-insert_self, insert-NodupKeys}
use ophyd_service.Registry.{DeviceMetadata, DeviceInstantiationSpec, DeviceRegistry, empty}
use ophyd_service.Registry.Owners.{owner_in, claims}
use ophyd_service.Registry.Index.{IsIndexed}
use ophyd_service.RegistryStore.{
  DeviceRow, DeviceRegistryStore, seed_from_registry, add_rows, load_all_devices, is_seeded,
}
use ophyd_service.RegistryStore.Seeding.{AreNamed, AreNew, seeded_row, seed_devices-lem}
use ophyd_service.RegistryStore.Loading.{RowsAreNamed, get-add_rows, add_rows-IsIndexed}

-- `ORDER BY name` gives the same rows, each once.
pub record IsOrdering (by_name : Dict DeviceRow → Dict DeviceRow) : Type 0 where
  pub same : (rows : Dict DeviceRow) (k : String) → Dict.get (by_name rows) k ≡ Dict.get rows k
  pub once : (rows : Dict DeviceRow) → NodupKeys rows → NodupKeys (by_name rows)

abbrev NamedAt : String → Option DeviceRow → Type 0
NamedAt k none = Unit
NamedAt k (some row) = row.device_metadata.name ≡ k

rows-AreNamed :
    (rows : Dict DeviceRow)
    → NodupKeys rows
    → ((k : String) → NamedAt k (Dict.get rows k))
    → RowsAreNamed rows
unfolding Dict.get
rows-AreNamed [] n named = tt
rows-AreNamed ((name, row) ∷ rows) n named = (
  subst (NamedAt name) {y = some row} (ground (arith, eq_iff name name)) (named name),
  rows-AreNamed rows n.1 (λ k. elim (Option-cases (Dict.get rows k)) [
    | inl absent ↦ subst (NamedAt k) (sym absent) tt
    | inr (other, there) ↦
        subst (NamedAt k) {y = Dict.get rows k} (ground (arith, eq_iff name k)) (named k)
  ]),
)

-- What is seeded stands under its own name.
seeded-NamedAt :
    (now : ℕ) (specs : Dict DeviceInstantiationSpec) (devices : Dict DeviceMetadata) (k : String)
    → AreNamed devices
    → NamedAt k (seeded_row now specs (Dict.get devices k) k none)
unfolding Dict.get
seeded-NamedAt now specs [] k named = tt
seeded-NamedAt now specs ((name, device) ∷ devices) k named = elim (Bool-cases (name == k)) [
  | inl same ↦ rw same (ground (arith, eq_iff name k))
  | inr other ↦ rw other (seeded-NamedAt now specs devices k named.1)
]

empty-IsIndexed : IsIndexed empty
unfolding owner_in claims Dict.get
empty-IsIndexed = record {
  device_keys = tt;
  pv_keys = tt;
  owners = λ q d h. ground arith;
  covers = λ d q h. ground arith;
  standalone = λ q h. ground arith;
  unowned = λ q h. ground arith;
}

module _ (by_name : Dict DeviceRow → Dict DeviceRow) (r : DeviceRegistry) (now : ℕ)
    (rows : Dict DeviceRow) (ordering : IsOrdering by_name) (nodup : NodupKeys rows)
    (named : AreNamed r.devices)
    (seeded : (k : String)
      → Dict.get rows k ≡ seeded_row now r.instantiation_specs (Dict.get r.devices k) k none) where
  ordered-RowsAreNamed : RowsAreNamed (by_name rows)
  ordered-RowsAreNamed = rows-AreNamed (by_name rows) (ordering.once rows nodup) (λ k.
      subst (NamedAt k) (sym (ordering.same rows k ∙ seeded k))
        (seeded-NamedAt now r.instantiation_specs r.devices k named))

  loaded-devices :
      (k : String) → Dict.get (add_rows (by_name rows) empty).devices k ≡ Dict.get r.devices k
  unfolding Dict.get
  loaded-devices k = ground (
    arith,
    seeded k,
    ordering.same rows k,
    (get-add_rows (by_name rows) empty k (ordering.once rows nodup) ordered-RowsAreNamed).0,
  )

  loaded-specs :
      (k : String)
      → Dict.get (add_rows (by_name rows) empty).instantiation_specs k
        ≡ (if Dict.contains r.devices k then Dict.get r.instantiation_specs k else none)
  unfolding Dict.get
  loaded-specs k = ground (
    arith,
    seeded k,
    ordering.same rows k,
    (get-add_rows (by_name rows) empty k (ordering.once rows nodup) ordered-RowsAreNamed).1,
  )

  loaded-IsIndexed : IsIndexed (add_rows (by_name rows) empty)
  unfolding Dict.get
  loaded-IsIndexed =
      add_rows-IsIndexed (by_name rows) empty (ordering.once rows nodup) ordered-RowsAreNamed
        (λ k there. refl) empty-IsIndexed

AreNew-empty : (devices : Dict DeviceMetadata) → AreNew [] devices
unfolding Dict.get
AreNew-empty [] = tt
AreNew-empty ((name, device) ∷ devices) = (refl, AreNew-empty devices)

-- Seeding an empty table from a registry whose devices stand under their own names succeeds and
-- marks the database as seeded. What a restart then loads from it is a registry with the same
-- devices, and the same specifications of the devices, whose PV index agrees with the devices.
pub load_all_devices-seed_from_registry :
    (by_name : Dict DeviceRow → Dict DeviceRow) (str : ℕ → String) (r : DeviceRegistry) (now : ℕ)
    (s : DeviceRegistryStore)
    → IsOrdering by_name
    → NodupKeys r.devices
    → AreNamed r.devices
    → s.device_registry ≡ []
    → let t = (seed_from_registry str r now s).0 in
      let loaded = load_all_devices by_name t in
      ((seed_from_registry str r now s).1 ≡ true)
      × (is_seeded t ≡ true)
      × IsIndexed loaded
      × ((k : String) → Dict.get loaded.devices k ≡ Dict.get r.devices k)
      × ((k : String)
          → Dict.get loaded.instantiation_specs k
            ≡ (if Dict.contains r.devices k then Dict.get r.instantiation_specs k else none))
unfolding seed_from_registry load_all_devices is_seeded
load_all_devices-seed_from_registry by_name str r now s ordering n named fresh =
    let (t, ok, rows, nodup) =
      seed_devices-lem now r.instantiation_specs r.devices s n
        (rw fresh (AreNew-empty r.devices)) in
    let seeded : (k : String)
        → Dict.get t.device_registry k
          ≡ seeded_row now r.instantiation_specs (Dict.get r.devices k) k none =
      λ k. rows k ∙ (unfold Dict.get in rw fresh refl) in
    let marked : DeviceRegistryStore = record t {
      registry_metadata = Dict.insert t.registry_metadata "seeded" (str now);
    } in
    let run : seed_from_registry str r now s ≡ (marked, true) = rw (ok, seed_from_registry) refl in
    let once : NodupKeys t.device_registry = nodup (rw fresh tt) in
    rw run (
      refl,
      ground (arith, get-insert_self t.registry_metadata "seeded" (str now)),
      loaded-IsIndexed by_name r now t.device_registry ordering once named seeded,
      loaded-devices by_name r now t.device_registry ordering once named seeded,
      loaded-specs by_name r now t.device_registry ordering once named seeded,
    )
