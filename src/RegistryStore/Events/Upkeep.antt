-- ===== src/RegistryStore/Events/Upkeep.antt =====
-- Every event keeps what a client may rely on: the writes of
-- configuration_service/device_registry_store.py, one after the other.
use ophyd_service.Prelude.{
  ℕ, suc, String, ◌≡◌, refl, ◌∙◌, Bool, true, false, ◌&&◌, Option, some, List, [], ◌∷◌, arith, ◌==◌,
  eq_iff, member, is_some, inl, inr, Bool-cases, Option-cases,
}
use ophyd_service.Dict
use ophyd_service.Dict.{Dict, get-insert_other, get-remove_other, get-remove}
use ophyd_service.Registry.{DeviceMetadata, DeviceInstantiationSpec, DeviceRegistry}
use ophyd_service.RegistryStore.{
  DeviceRow, DeviceAuditEntry, DeviceRegistryStore, append_audit, seed_devices, seed_from_registry,
  save_device, delete_device, clear, log_lock_event,
}
use ophyd_service.RegistryStore.Feed.{change_feed_ops, in_feed, is_latest, reset_since}
use ophyd_service.RegistryStore.Latest.{
  Bounded-le, append-Settled, skip-Settled, empty-Settled, latest_id-zero, latest_id-other,
}
use ophyd_service.RegistryStore.Events.{
  WriteOp, add, update, enable, disable, write_name, LockOp, lock, unlock, force_unlock, lock_name,
  Event, write, delete, lock_event, wipe, seed, apply, run, Follows,
}

module _ (since : ℕ) (base : Dict DeviceRow) (s : DeviceRegistryStore) where
  -- One transaction that changes the row of `name`, and says so in the feed.
  change-Follows :
      (name op : String) (now : ℕ) (details : Option String) (rows : Dict DeviceRow)
      → member op change_feed_ops ≡ true
      → op == "delete" && is_some (Dict.get rows name) ≡ false
      → ((k : String) → name == k ≡ false → Dict.get rows k ≡ Dict.get s.device_registry k)
      → Follows since base s
      → Follows since base (append_audit name op now details (record s { device_registry = rows }))
  unfolding append_audit reset_since
  change-Follows name op now details rows feed gone same f =
      let log = s.device_audit_log in
      let new : DeviceAuditEntry = record {
        id = suc s.last_id;
        device_name = name;
        operation = op;
        timestamp = now;
        details = details;
      } in
      record {
        bounded = (omega arith, Bounded-le s.last_id (suc s.last_id) log (omega arith) f.bounded);
        newer = omega (arith, f.newer);
        settled = (
          ground arith,
          append-Settled s.device_registry rows since s.last_id log log new f.bounded (omega arith)
              f.newer feed same f.settled,
        );
        kept = λ k star reset quiet.
            same k (latest_id-other since k log new star (omega (arith, f.newer)) feed quiet)
            ∙ f.kept k star (ground arith) (latest_id-zero since k log new quiet);
      }

  -- An entry that is not in the feed, and no reset.
  note-Follows :
      (name op : String) (now : ℕ) (details : Option String)
      → member op change_feed_ops ≡ false
      → Follows since base s
      → Follows since base (append_audit name op now details s)
  unfolding append_audit reset_since
  note-Follows name op now details skip f =
      let log = s.device_audit_log in
      let new : DeviceAuditEntry = record {
        id = suc s.last_id;
        device_name = name;
        operation = op;
        timestamp = now;
        details = details;
      } in
      record {
        bounded = (omega arith, Bounded-le s.last_id (suc s.last_id) log (omega arith) f.bounded);
        newer = omega (arith, f.newer);
        settled = (
          unfold is_latest in_feed in ground arith,
          skip-Settled s.device_registry since log log new skip f.settled,
        );
        kept = λ k star reset quiet.
            f.kept k star (ground arith) (latest_id-zero since k log new quiet);
      }

  wipe-Follows : (now : ℕ) → Follows since base s → Follows since base (clear now s)
  unfolding clear append_audit reset_since
  wipe-Follows now f =
      let log = s.device_audit_log in
      record {
        bounded = (omega arith, Bounded-le s.last_id (suc s.last_id) log (omega arith) f.bounded);
        newer = omega (arith, f.newer);
        settled = empty-Settled since (clear now s).device_audit_log (clear now s).device_audit_log;
        kept = λ k star reset quiet. absurd (ground (arith, f.newer));
      }

seed_devices-Follows :
    (since : ℕ) (base : Dict DeviceRow) (now : ℕ) (specs : Dict DeviceInstantiationSpec)
    (devices : Dict DeviceMetadata) (s t : DeviceRegistryStore)
    → Follows since base s
    → seed_devices now specs devices s ≡ some t
    → Follows since base t
unfolding seed_devices
seed_devices-Follows since base now specs [] s t f e = rw (← same) f
  where
    same : s ≡ t
    same = ground arith
seed_devices-Follows since base now specs ((name, device) ∷ devices) s t f e =
    elim (Bool-cases (Dict.contains s.device_registry name)) [
      | inl clash ↦ absurd (ground arith)
      | inr new ↦
          seed_devices-Follows since base now specs devices _ t
            (change-Follows since base s name "seed" now (some "{\"source\": \"profile\"}")
              (Dict.insert s.device_registry name (record {
                device_metadata = device;
                instantiation_spec = Dict.get specs name;
                created_at = now;
                updated_at = now;
              }))
              refl refl (get-insert_other s.device_registry name _) f)
            (ground arith)
    ]

seed-Follows :
    (since : ℕ) (base : Dict DeviceRow) (str : ℕ → String) (registry : DeviceRegistry) (now : ℕ)
    (s : DeviceRegistryStore)
    → Follows since base s
    → Follows since base (seed_from_registry str registry now s).0
unfolding seed_from_registry
seed-Follows since base str registry now s f =
    elim (Option-cases (seed_devices now registry.instantiation_specs registry.devices s)) [
      | inl clash ↦ rw (clash, seed_from_registry) f
      | inr (t, e) ↦
          let g =
            seed_devices-Follows since base now registry.instantiation_specs registry.devices s t f
              e in
          rw (e, seed_from_registry)
            (record { bounded = g.bounded; newer = g.newer; settled = g.settled; kept = g.kept })
    ]

lock_event-Follows :
    (since : ℕ) (base : Dict DeviceRow) (op : LockOp) (names : List String)
    (details : Option String) (now : ℕ) (s : DeviceRegistryStore)
    → Follows since base s
    → Follows since base (log_lock_event names (lock_name op) details now s)
unfolding log_lock_event lock_name
lock_event-Follows since base op [] details now s f = f
lock_event-Follows since base op (name ∷ names) details now s f =
    lock_event-Follows since base op names details now
      (append_audit name (lock_name op) now details s)
      (note-Follows since base s name (lock_name op) now details (skipped op) f)
  where
    skipped : (op : LockOp) → member (lock_name op) change_feed_ops ≡ false
    skipped lock = refl
    skipped unlock = refl
    skipped force_unlock = refl

save-Follows :
    (since : ℕ) (base : Dict DeviceRow) (op : WriteOp) (name : String) (metadata : DeviceMetadata)
    (spec : Option DeviceInstantiationSpec) (details : Option String) (now : ℕ)
    (s : DeviceRegistryStore)
    → Follows since base s
    → Follows since base (save_device name metadata spec (write_name op) details now s)
unfolding save_device write_name
save-Follows since base op name metadata spec details now s f =
    change-Follows since base s name (write_name op) now details _ (fed op) (kept _ op)
      (get-insert_other s.device_registry name _) f
  where
    fed : (op : WriteOp) → member (write_name op) change_feed_ops ≡ true
    fed add = refl
    fed update = refl
    fed enable = refl
    fed disable = refl

    kept : (b : Bool) (op : WriteOp) → write_name op == "delete" && b ≡ false
    kept b add = refl
    kept b update = refl
    kept b enable = refl
    kept b disable = refl

delete-Follows :
    (since : ℕ) (base : Dict DeviceRow) (name : String) (details : Option String) (now : ℕ)
    (s : DeviceRegistryStore)
    → Follows since base s
    → Follows since base (delete_device name details now s).0
unfolding delete_device
delete-Follows since base name details now s f =
    elim (Bool-cases (Dict.contains s.device_registry name)) [
      | inr missing ↦ rw missing f
      | inl there ↦ rw there (
          change-Follows since base s name "delete" now details (Dict.remove s.device_registry name)
            refl (ground (arith, get-remove s.device_registry name name, eq_iff name name))
            (get-remove_other s.device_registry name) f)
    ]

apply-Follows :
    (since : ℕ) (base : Dict DeviceRow) (event : Event) (s : DeviceRegistryStore)
    → Follows since base s
    → Follows since base (apply event s)
unfolding apply
apply-Follows since base (write op name metadata spec details now) s f =
    save-Follows since base op name metadata spec details now s f
apply-Follows since base (delete name details now) s f =
    delete-Follows since base name details now s f
apply-Follows since base (lock_event op names details now) s f =
    lock_event-Follows since base op names details now s f
apply-Follows since base (wipe now) s f = wipe-Follows since base s now f
apply-Follows since base (seed str registry now) s f = seed-Follows since base str registry now s f

pub run-Follows :
    (since : ℕ) (base : Dict DeviceRow) (events : List Event) (s : DeviceRegistryStore)
    → Follows since base s
    → Follows since base (run events s)
unfolding run
run-Follows since base [] s f = f
run-Follows since base (event ∷ events) s f =
    run-Follows since base events (apply event s) (apply-Follows since base event s f)
