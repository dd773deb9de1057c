-- ===== src/RegistryStore/Latest.antt =====
-- What one more audit entry does to the latest entries of the feed
-- (configuration_service/device_registry_store.py).
use ophyd_service.Prelude.{
  ℕ, ◌≤◌, ◌<◌, String, ◌≡◌, refl, Bool, true, false, ◌&&◌, ◌||◌, List, [], ◌∷◌, ◌++◌, arith, ◌==◌,
  eq_iff, leb, member, is_some, All, ◌⊎◌, inl, inr, Bool-cases,
}
use ophyd_service.Dict
use ophyd_service.Dict.{Dict}
use ophyd_service.RegistryStore.{DeviceRow, DeviceAuditEntry}
use ophyd_service.RegistryStore.Feed.{
  change_feed_ops, max, max_id, in_feed, latest_id, is_latest, DeviceChange, change_of, changes_in,
}

abbrev pub Bounded : ℕ → List DeviceAuditEntry → Type 0
Bounded n log = All (λ entry. entry.id ≤ n) log

pub Bounded-le : (n m : ℕ) (log : List DeviceAuditEntry) → n ≤ m → Bounded n log → Bounded m log
Bounded-le n m [] h b = tt
Bounded-le n m (entry ∷ log) h b = (omega arith, Bounded-le n m log h b.1)

pub max_id-le : (n : ℕ) (log : List DeviceAuditEntry) → Bounded n log → max_id log ≤ n
unfolding max_id max
max_id-le n [] b = omega arith
max_id-le n (entry ∷ log) b = ground (arith, max_id-le n log b.1)

pub Bounded-max_id : (log : List DeviceAuditEntry) → Bounded (max_id log) log
unfolding max_id max
Bounded-max_id [] = tt
Bounded-max_id (entry ∷ log) = (
  ground arith,
  Bounded-le (max_id log) (max entry.id (max_id log)) log (ground arith) (Bounded-max_id log),
)

-- A device that the last change left without a row, wherever that change was a deletion.
abbrev pub Settled : Dict DeviceRow → ℕ → List DeviceAuditEntry → List DeviceAuditEntry → Type 0
Settled rows since all log =
    All
      (λ entry.
        (is_latest since all entry && entry.operation == "delete")
          && is_some (Dict.get rows entry.device_name)
        ≡ false)
      log

-- One more entry for a change of `name` in the feed leaves the other devices as they were.
pub append-Settled :
    (rows rows' : Dict DeviceRow) (since n : ℕ) (all log : List DeviceAuditEntry)
    (e : DeviceAuditEntry)
    → Bounded n log
    → n < e.id
    → since ≤ n
    → member e.operation change_feed_ops ≡ true
    → ((k : String) → e.device_name == k ≡ false → Dict.get rows' k ≡ Dict.get rows k)
    → Settled rows since all log
    → Settled rows' since (e ∷ all) log
unfolding is_latest latest_id in_feed max
append-Settled rows rows' since n all [] e b lt le op same s = tt
append-Settled rows rows' since n all (f ∷ log) e b lt le op same s = (
  ground (arith, eq_iff e.device_name f.device_name, same f.device_name),
  append-Settled rows rows' since n all log e b.1 lt le op same s.1,
)

-- An entry that is not in the feed changes nothing.
pub skip-Settled :
    (rows : Dict DeviceRow) (since : ℕ) (all log : List DeviceAuditEntry) (e : DeviceAuditEntry)
    → member e.operation change_feed_ops ≡ false
    → Settled rows since all log
    → Settled rows since (e ∷ all) log
unfolding is_latest latest_id in_feed
skip-Settled rows since all [] e op s = tt
skip-Settled rows since all (f ∷ log) e op s =
    (ground arith, skip-Settled rows since all log e op s.1)

pub empty-Settled : (since : ℕ) (all log : List DeviceAuditEntry) → Settled [] since all log
unfolding Dict.get
empty-Settled since all [] = tt
empty-Settled since all (f ∷ log) = (ground arith, empty-Settled since all log)

-- Nothing is newer than the current version.
pub current-Settled :
    (rows : Dict DeviceRow) (since : ℕ) (all log : List DeviceAuditEntry)
    → Bounded since log
    → Settled rows since all log
unfolding is_latest in_feed
current-Settled rows since all [] b = tt
current-Settled rows since all (f ∷ log) b = (ground arith, current-Settled rows since all log b.1)

abbrev pub touched : String → List DeviceChange → Bool
touched k [] = false
touched k (change ∷ changes) = change.device_name == k || touched k changes

pub touched-append :
    (k : String) (xs ys : List DeviceChange) → touched k (xs ++ ys) ≡ touched k xs || touched k ys
touched-append k [] ys = refl
touched-append k (x ∷ xs) ys = ground (arith, touched-append k xs ys)

touched-step :
    (rows : Dict DeviceRow) (since : ℕ) (k : String) (all log : List DeviceAuditEntry)
    (f : DeviceAuditEntry)
    → touched k (changes_in rows since all (f ∷ log))
      ≡ touched k (changes_in rows since all log) || (is_latest since all f && f.device_name == k)
unfolding changes_in change_of
touched-step rows since k all log f =
    ground (arith, touched-append k (changes_in rows since all log) (change_of rows f ∷ []))

-- The greatest id in the feed is that of an entry.
latest_id-step :
    (since : ℕ) (k : String) (all log : List DeviceAuditEntry) (f : DeviceAuditEntry)
    → latest_id since k (f ∷ log) ≡ latest_id since k all
    → (latest_id since k log ≡ latest_id since k all)
      ⊎ (is_latest since all f && f.device_name == k ≡ true)
unfolding is_latest latest_id max
latest_id-step since k all log f e = elim (Bool-cases (in_feed since f && f.device_name == k)) [
  | inr other ↦ inl (ground arith)
  | inl named ↦ elim (Bool-cases (leb f.id (latest_id since k log))) [
    | inl old ↦ inl (ground arith)
    | inr new ↦ inr (ground (arith, eq_iff f.device_name k))
  ]
]

-- The feed names every device that has changed.
pub touched-changes_in :
    (rows : Dict DeviceRow) (since : ℕ) (k : String) (all log : List DeviceAuditEntry)
    → latest_id since k log ≡ latest_id since k all
    → 0 < latest_id since k all
    → touched k (changes_in rows since all log) ≡ true
unfolding latest_id
touched-changes_in rows since k all [] e pos = absurd (omega arith)
touched-changes_in rows since k all (f ∷ log) e pos = elim (latest_id-step since k all log f e) [
  | inl later ↦
      rw (touched-step rows since k all log f, touched-changes_in rows since k all log later pos)
  | inr here ↦ rw (touched-step rows since k all log f, here) (ground arith)
]

-- A device with no entry in the feed has none in a part of it.
pub latest_id-zero :
    (since : ℕ) (k : String) (log : List DeviceAuditEntry) (e : DeviceAuditEntry)
    → latest_id since k (e ∷ log) ≡ 0
    → latest_id since k log ≡ 0
unfolding latest_id max
latest_id-zero since k log e quiet = ground arith

-- A new entry of the feed is about another device than one that has none.
pub latest_id-other :
    (since : ℕ) (k : String) (log : List DeviceAuditEntry) (e : DeviceAuditEntry)
    → k == "*" ≡ false
    → since < e.id
    → member e.operation change_feed_ops ≡ true
    → latest_id since k (e ∷ log) ≡ 0
    → e.device_name == k ≡ false
unfolding latest_id in_feed max
latest_id-other since k log e star lt feed quiet = elim (Bool-cases (e.device_name == k)) [
  | inr other ↦ other
  | inl same ↦
      absurd (ground (arith, eq_iff e.device_name k, eq_iff e.device_name "*", eq_iff k "*"))
]
