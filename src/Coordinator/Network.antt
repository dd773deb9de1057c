-- ===== src/Coordinator/Network.antt =====
-- The requests of queueserver_service/manager/config_service.py (`_request`) to the routes of
-- LockService, over a network that may lose a request or its response.
use ophyd_service.Prelude.{
  ℕ, zero, suc, ◌+◌, String, Bool, true, false, ◌||◌, Option, none, some, if◌then◌else◌, eqb,
}
use ophyd_service.LockService
use ophyd_service.LockService.{
  Service, Moment, Response, DeviceLockResponse, DeviceLockRenewResponse,
}
use ophyd_service.Coordinator.{
  Answer, ok, err, conflict, not_found, unreachable, protocol_error, http_error,
  ConfigServiceClient,
}

-- What becomes of one attempt. `undelivered` and `unanswered` are the errors that are tried again, a
-- connection that fails or a timeout, before and after the service has handled the request. `broken`
-- is any other transport error, and tells whether the request was handled.
pub data Delivery : Type 0 where
  delivered undelivered unanswered : Delivery
  broken : Bool → Delivery

unfoldable pub is_retryable : ℕ → Bool
is_retryable status = eqb status 502 || (eqb status 503 || eqb status 504)

unfoldable pub is_expected : ℕ → Bool
is_expected status = eqb status 200 || (eqb status 201 || eqb status 204)

unfoldable pub read_body : {A : Type 0} → Option A → Answer A
read_body none = err protocol_error
read_body (some a) = ok a

unfoldable pub answer_of : {A : Type 0} → Response A → Answer A
unfolding is_expected read_body
answer_of r =
    if is_expected r.status_code
    then read_body r.body
    else if eqb r.status_code 404
    then err not_found
    else if eqb r.status_code 409
    then err conflict
    else err (http_error r.status_code)

module _ {S A : Type 0} (handle : ℕ → S → S × Response A) where
  -- The i-th attempt; `again` makes the others.
  unfoldable pub attempt : ℕ → Delivery → (S → S × Answer A) → S → S × Answer A
  unfolding is_retryable answer_of
  attempt i undelivered again s = again s
  attempt i unanswered again s = again (handle i s).0
  attempt i (broken false) again s = (s, err unreachable)
  attempt i (broken true) again s = ((handle i s).0, err unreachable)
  attempt i delivered again s =
      let (s', response) = handle i s in
      if is_retryable response.status_code then again s' else (s', answer_of response)

  -- The attempts from the i-th on, as many as remain.
  unfoldable pub request : (ℕ → Delivery) → ℕ → ℕ → S → S × Answer A
  unfolding attempt
  request network i zero s = (s, err unreachable)
  request network i (suc n) s = attempt i (network i) (λ t. request network (suc i) n t) s

-- The service, and the number of requests that have been sent to it.
pub record World : Type 0 where
  pub service : Service
  pub calls : ℕ

-- What the settings fix, and what the network and the clock do at the call and attempt.
pub record Network : Type 0 where
  pub service_name : String
  pub max_attempts : ℕ
  pub deliver : ℕ → ℕ → Delivery
  pub moment : ℕ → ℕ → Moment

unfoldable pub call :
    {A : Type 0} → Network → (Moment → Service → Service × Response A) → World → World × Answer A
unfolding request
call n route w =
    let (service, answer) =
      request (λ i. route (n.moment w.calls i)) (n.deliver w.calls) 0 n.max_attempts w.service in
    (record { service = service; calls = w.calls + 1 }, answer)

unfoldable pub service_client : Network → ConfigServiceClient World
unfolding call
service_client n = record {
  lock_devices = λ device_names item_id plan_name. call n (
      LockService.lock_devices (record {
        device_names = device_names;
        item_id = item_id;
        plan_name = plan_name;
        locked_by_service = n.service_name;
      }));
  unlock_devices = λ device_names item_id. call n (LockService.unlock_devices device_names item_id);
  force_unlock_devices = λ device_names. call n (LockService.force_unlock_devices device_names);
  renew_locks =
      λ device_names item_id. call n (LockService.renew_device_locks device_names item_id);
  get_instantiation_specs =
      λ active_only. call n (λ at. LockService.get_instantiation_specs active_only);
}
