-- ===== src/DeviceDiff/Written.antt =====
-- What the requests of `upsert_device` (queueserver_service/manager/config_service.py) leave in the
-- registry of the service about the device they name.
use ophyd_service.Prelude.{
  String, ◌≡◌, Bool, true, false, ◌&&◌, not, Option, none, some, List, [], ◌∷◌, ◌==◌, arith,
  Bool-cases, Option-cases, inl, inr, eq_iff,
}
use ophyd_service.Dict
use ophyd_service.Dict.{Dict, get-insert, get-remove}
use ophyd_service.Queue.Json.{Item, bool}
use ophyd_service.DeviceDiff.Service.{
  text_in, RegistryView, Validation, Reply, accepted, conflict, refused, is_accepted, create_named,
  create_device, put_device, Transfer, delivered, request_lost, response_lost, send, Transfers,
  after_post, upsert_named,
}
use ophyd_service.DeviceDiff.{ApplyResult, applied, is_false}

-- An active specification with all fields of the model of the service.
abbrev pub shown : Option Item → Bool
shown none = false
shown (some spec) = Dict.contains spec "framework" && not (is_false (Dict.get spec "active"))

-- From an active specification pydantic makes an active one, with the fields that were not sent.
unfoldable pub FillsDefaults : Validation → Type 0
FillsDefaults v =
    ((sent spec : Item)
      → Dict.get sent "active" ≡ some (bool true)
      → v.created sent ≡ some spec
      → shown (some spec) ≡ true)
    × ((before : Option Item) (sent spec : Item)
        → Dict.get sent "active" ≡ some (bool true)
        → v.merged before sent ≡ some spec
        → shown (some spec) ≡ true)

-- The names that an answer reports as written.
abbrev pub reported : ApplyResult → List String
reported (applied upserted deleted) = upserted
reported _ = []

-- What a request about `k` does: a specification that is shown stays so, and a request that is accepted
-- leaves one.
abbrev pub Writes : String → RegistryView → RegistryView × Bool → Type 0
Writes k before (after, done) =
    (shown (Dict.get before.specs k) ≡ true → shown (Dict.get after.specs k) ≡ true)
    × (done ≡ true → shown (Dict.get after.specs k) ≡ true)

abbrev Answers : String → RegistryView → RegistryView × Reply → Type 0
Answers k before (after, answer) = Writes k before (after, is_accepted answer)

module _ (v : Validation) (fills : FillsDefaults v) (k : String) (sent : Item)
    (active : Dict.get sent "active" ≡ some (bool true)) where
  create_named-Answers :
      (metadata spec : Item) (spec_name : Option String) (registry : RegistryView)
      → shown (some spec) ≡ true
      → Answers k registry (create_named v k metadata sent spec spec_name registry)
  unfolding create_named
  create_named-Answers metadata spec none registry full = (λ h. h, λ h. absurd (ground arith))
  create_named-Answers metadata spec (some spec_name) registry full = (
    λ h. ground (arith, get-insert registry.specs k spec k, eq_iff k k),
    λ h. ground (arith, get-insert registry.specs k spec k, eq_iff k k),
  )

  create_device-Answers :
      (metadata : Item) (registry : RegistryView)
      → Answers k registry (create_device v k metadata (some sent) registry)
  unfolding create_device FillsDefaults
  create_device-Answers metadata registry = elim (Option-cases (v.created sent)) [
    | inl invalid ↦ (λ h. ground arith, λ h. ground arith)
    | inr (spec, e) ↦
        rw (e, create_device)
          (create_named-Answers metadata spec (text_in (Dict.get spec "name")) registry
            (fills.0 sent spec active e))
  ]

  put_device-Answers :
      (metadata : Item) (registry : RegistryView)
      → Answers k registry (put_device v k metadata (some sent) registry)
  unfolding put_device FillsDefaults
  put_device-Answers metadata registry =
      elim (Option-cases (v.merged (Dict.get registry.specs k) sent)) [
        | inl invalid ↦ (λ h. ground arith, λ h. ground arith)
        | inr (spec, e) ↦
            let full = fills.1 (Dict.get registry.specs k) sent spec active e in
            (
              λ h. ground (arith, full, get-insert registry.specs k spec k, eq_iff k k),
              λ h. ground (arith, full, get-insert registry.specs k spec k, eq_iff k k),
            )
      ]

  send-Answers :
      (attempts : List Transfer) (route : RegistryView → RegistryView × Reply)
      → ((registry : RegistryView) → Answers k registry (route registry))
      → (registry : RegistryView) → Answers k registry (send attempts route registry)
  unfolding send
  send-Answers [] route h registry = (λ g. g, λ g. absurd (ground arith))
  send-Answers (delivered ∷ attempts) route h registry = h registry
  send-Answers (request_lost ∷ attempts) route h registry = send-Answers attempts route h registry
  send-Answers (response_lost ∷ attempts) route h registry =
      let rest = send-Answers attempts route h (route registry).0 in
      (λ g. rest.0 ((h registry).0 g), rest.1)

  after_post-Writes :
      (put_request : RegistryView → RegistryView × Reply)
      → ((registry : RegistryView) → Answers k registry (put_request registry))
      → (before : RegistryView) (r : RegistryView × Reply) → Answers k before r
      → Writes k before (after_post put_request r)
  unfolding after_post
  after_post-Writes put_request puts before (registry, accepted) h = h
  after_post-Writes put_request puts before (registry, conflict) h =
      (λ g. (puts registry).0 (h.0 g), (puts registry).1)
  after_post-Writes put_request puts before (registry, refused) h = h

  pub upsert_named-Writes :
      (network : Transfers) (metadata : Item) (registry : RegistryView)
      → Writes k registry (upsert_named v network (some k) metadata (some sent) registry)
  unfolding upsert_named
  upsert_named-Writes network metadata registry =
      let put_request = send (network.put k) (put_device v k metadata (some sent)) in
      let post_request = send (network.post k) (create_device v k metadata (some sent)) in
      let written =
        after_post-Writes put_request
          (send-Answers (network.put k) (put_device v k metadata (some sent))
            (put_device-Answers metadata))
          registry (post_request registry)
          (send-Answers (network.post k) (create_device v k metadata (some sent))
            (create_device-Answers metadata) registry) in
      elim (Bool-cases (k == "")) [
        | inl empty ↦ (λ h. ground arith, λ h. ground arith)
        | inr given ↦ (λ h. ground (arith, written.0 h), λ h. ground (arith, written.1))
      ]
