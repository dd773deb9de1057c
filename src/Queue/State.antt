-- ===== src/Queue/State.antt =====
-- The state of `PlanQueueOperations` (queueserver_service/manager/plan_queue_ops.py) and the actions
-- on it: a method returns or raises, and what it wrote before it raised stays written. The public
-- methods hold one `asyncio.Lock`, so each of them is one step.
use ophyd_service.Prelude.{
  ℕ, suc, String, Bool, true, false, Option, none, some, List, [], ◌∷◌, if◌then◌else◌, length, ◌==◌,
  not,
}
use ophyd_service.Prelude.Int.{ℤ, pos}
use ophyd_service.Dict
use ophyd_service.Dict.{Dict}
use ophyd_service.Queue.Json.{Item, text, uid_of}

pub record PlanQueueMode : Type 0 where
  pub loop : Bool
  pub ignore_failures : Bool

pub record PlanQueue : Type 0 where
  -- the lists and the running item of the store; the running item is `{}` if there is none
  pub queue : List Item
  pub history : List Item
  pub running : Item
  -- the object's own attributes
  pub uid_dict : Dict Item
  pub plan_queue_uid : String
  pub plan_history_uid : String
  pub queue_size : ℤ
  pub history_size : ℕ
  pub running_item_info : Item
  pub mode : PlanQueueMode
  -- the uuids that `uuid.uuid4` returns, and how many have been drawn
  pub uuid4 : ℕ → String
  pub drawn : ℕ

pub data Error : Type 0 where
  value_error type_error runtime_error index_error key_error : Error
  -- `Exception()` itself
  exception : Error

pub data Result (A : Type 0) : Type 0 where
  ok : A → Result A
  err : Error → Result A

abbrev pub Exec : Type 0 → Type 0
Exec A = PlanQueue → Result A × PlanQueue

infixl 5 ◌>>=◌ ◌>>◌
abbrev pub ◌>>=◌ : {A B : Type 0} → Exec A → (A → Exec B) → Exec B
◌>>=◌ m f s = let (r, s') = m s in elim r [ ok a ↦ f a s' | err e ↦ (err e, s') ]

abbrev pub ◌>>◌ : {A B : Type 0} → Exec A → Exec B → Exec B
m >> k = m >>= λ _. k

module _ {A : Type 0} where
  abbrev pub pure : A → Exec A
  pure a s = (ok a, s)

  abbrev pub raise : Error → Exec A
  raise e s = (err e, s)

  abbrev pub gets : (PlanQueue → A) → Exec A
  gets f s = (ok (f s), s)

  abbrev pub or_raise : Option A → Error → Exec A
  or_raise none e s = (err e, s)
  or_raise (some a) e s = (ok a, s)

abbrev pub raise_if : Bool → Error → Exec (Unit {0})
raise_if true e s = (err e, s)
raise_if false e s = (ok tt, s)

abbrev pub modify : (PlanQueue → PlanQueue) → Exec (Unit {0})
modify f s = (ok tt, f s)

-- new_item_uid
abbrev pub draw : PlanQueue → PlanQueue
draw s = record s { drawn = suc s.drawn }

-- self._plan_queue_uid = self.new_item_uid()
abbrev pub renew_queue_uid : PlanQueue → PlanQueue
renew_queue_uid s = record s { plan_queue_uid = s.uuid4 s.drawn; drawn = suc s.drawn }

-- self._plan_history_uid = self.new_item_uid()
abbrev pub renew_history_uid : PlanQueue → PlanQueue
renew_history_uid s = record s { plan_history_uid = s.uuid4 s.drawn; drawn = suc s.drawn }

-- self._queue_size = await self._get_queue_size()
abbrev pub refresh_queue_size : PlanQueue → PlanQueue
refresh_queue_size s = record s { queue_size = pos (length s.queue) }

abbrev pub refresh_history_size : PlanQueue → PlanQueue
refresh_history_size s = record s { history_size = length s.history }

abbrev pub refresh_running : PlanQueue → PlanQueue
refresh_running s = record s { running_item_info = s.running }

unfoldable pub set_new_item_uuid : Item → Exec Item
set_new_item_uuid item s = (ok (Dict.insert item "item_uid" (text (s.uuid4 s.drawn))), draw s)

-- The dictionary of uids (`_uid_dict_add`, `_uid_dict_remove`, `_uid_dict_clear`).
unfoldable pub uid_dict_add : Item → Exec (Unit {0})
uid_dict_add item s = elim (uid_of item) [
  | none ↦ (err key_error, s)
  | some uid ↦
      if Dict.contains s.uid_dict uid
      then (err runtime_error, s)
      else (ok tt, record (renew_queue_uid s) { uid_dict = Dict.insert s.uid_dict uid item })
]

unfoldable pub uid_dict_remove : String → Exec (Unit {0})
uid_dict_remove uid s =
    if Dict.contains s.uid_dict uid
    then (ok tt, record (renew_queue_uid s) { uid_dict = Dict.remove s.uid_dict uid })
    else (err runtime_error, s)

unfoldable pub uid_dict_update : Item → Exec (Unit {0})
uid_dict_update item s = elim (uid_of item) [
  | none ↦ (err key_error, s)
  | some uid ↦
      if Dict.contains s.uid_dict uid
      then (ok tt, record (renew_queue_uid s) { uid_dict = Dict.insert s.uid_dict uid item })
      else (err runtime_error, s)
]

unfoldable pub uid_dict_clear : Exec (Unit {0})
uid_dict_clear s = (ok tt, record (renew_queue_uid s) { uid_dict = [] })

unfoldable pub uid_dict_get_item : String → Exec Item
uid_dict_get_item uid s = or_raise (Dict.get s.uid_dict uid) key_error s

-- bool(item) for a dictionary
abbrev pub is_empty : Item → Bool
is_empty [] = true
is_empty (x ∷ xs) = false

-- running_item and (uid == running_item["item_uid"]), for a running item that has a uid
abbrev pub is_running : PlanQueue → String → Bool
is_running s uid = elim (uid_of s.running) [ none ↦ false | some r ↦ uid == r ]

unfoldable pub is_item_running : PlanQueue → Bool
is_item_running s = not (is_empty s.running)
