-- ===== src/Queue/Json.antt =====
-- The JSON values that the queue stores. An item of the queue is a dictionary. Its JSON text is
-- modelled by the dictionary itself with the order of its keys: `json.dumps` writes the keys in that
-- order and `json.loads` reads them back, so two texts are equal exactly if the items are.
use mathlib.Core.Path.{ap₂}
use ophyd_service.Prelude.{
  String, Bool, true, false, not, ap, ◌≡◌, refl, ◌↔◌, ◌==◌, ◌&&◌, eq_iff, [], ◌∷◌, Option, none,
  some, arith,
}
use ophyd_service.Dict
use ophyd_service.Dict.{Dict}

-- A number is kept by its literal: the queue never computes with one.
mutual
  pub data Value : Type 0 where
    null : Value
    bool : Bool → Value
    num : String → Value
    text : String → Value
    arr : Values → Value
    obj : Fields → Value

  pub data Values : Type 0 where
    nil : Values
    cons : Value → Values → Values

  pub data Fields : Type 0 where
    end : Fields
    field : String → Value → Fields → Fields

abbrev pub Item : Type 0
Item = Dict Value

-- An object inside an item, as a dictionary and back.
unfoldable pub to_dict : Fields → Dict Value
to_dict end = []
to_dict (field k v fs) = (k, v) ∷ to_dict fs

unfoldable pub of_dict : Dict Value → Fields
of_dict [] = end
of_dict ((k, v) ∷ d) = field k v (of_dict d)

abbrev same_bool : Bool → Bool → Bool
same_bool true b = b
same_bool false b = not b

unfoldable mutual
  pub same_value : Value → Value → Bool
  same_value null null = true
  same_value (bool a) (bool b) = same_bool a b
  same_value (num a) (num b) = a == b
  same_value (text a) (text b) = a == b
  same_value (arr xs) (arr ys) = same_values xs ys
  same_value (obj fs) (obj gs) = same_fields fs gs
  same_value _ _ = false

  pub same_values : Values → Values → Bool
  same_values nil nil = true
  same_values (cons x xs) (cons y ys) = same_value x y && same_values xs ys
  same_values _ _ = false

  pub same_fields : Fields → Fields → Bool
  same_fields end end = true
  same_fields (field k x fs) (field j y gs) = k == j && same_value x y && same_fields fs gs
  same_fields _ _ = false

-- The JSON texts are equal.
unfoldable pub same_text : Item → Item → Bool
unfolding same_value
same_text [] [] = true
same_text ((k, x) ∷ a) ((j, y) ∷ b) = k == j && same_value x y && same_text a b
same_text _ _ = false

and-eq-true : (a b : Bool) → (a && b) ≡ true → (a ≡ true) × (b ≡ true)
and-eq-true a b h = ground arith

field-eq :
    {k j : String} {x y : Value} {fs gs : Fields}
    → k ≡ j
    → x ≡ y
    → fs ≡ gs
    → field k x fs ≡ field j y gs
field-eq p q r = cc

mutual
  unfolding same_value same_values same_fields

  same_value-eq : (a b : Value) → same_value a b ≡ true → a ≡ b
  same_value-eq null null h = refl
  same_value-eq (bool a) (bool b) h = ground arith
  same_value-eq (num a) (num b) h = ground (arith, eq_iff a b)
  same_value-eq (text a) (text b) h = ground (arith, eq_iff a b)
  same_value-eq (arr xs) (arr ys) h = ap arr (same_values-eq xs ys h)
  same_value-eq (obj fs) (obj gs) h = ap obj (same_fields-eq fs gs h)
  same_value-eq _ _ h = absurd (ground (arith, h))

  same_values-eq : (a b : Values) → same_values a b ≡ true → a ≡ b
  same_values-eq nil nil h = refl
  same_values-eq (cons x xs) (cons y ys) h =
      let (p, q) = and-eq-true (same_value x y) (same_values xs ys) h in
      ap₂ cons (same_value-eq x y p) (same_values-eq xs ys q)
  same_values-eq _ _ h = absurd (ground (arith, h))

  same_fields-eq : (a b : Fields) → same_fields a b ≡ true → a ≡ b
  same_fields-eq end end h = refl
  same_fields-eq (field k x fs) (field j y gs) h =
      let (pq, r) = and-eq-true (k == j && same_value x y) (same_fields fs gs) h in
      let (p, q) = and-eq-true (k == j) (same_value x y) pq in
      field-eq ((eq_iff k j).0 p) (same_value-eq x y q) (same_fields-eq fs gs r)
  same_fields-eq _ _ h = absurd (ground (arith, h))

mutual
  unfolding same_value same_values same_fields

  same_value_refl : (a : Value) → same_value a a ≡ true
  same_value_refl null = refl
  same_value_refl (bool a) = ground arith
  same_value_refl (num a) = ground (arith, eq_iff a a)
  same_value_refl (text a) = ground (arith, eq_iff a a)
  same_value_refl (arr xs) = same_values_refl xs
  same_value_refl (obj fs) = same_fields_refl fs

  same_values_refl : (a : Values) → same_values a a ≡ true
  same_values_refl nil = refl
  same_values_refl (cons x xs) = ground (arith, same_value_refl x, same_values_refl xs)

  same_fields_refl : (a : Fields) → same_fields a a ≡ true
  same_fields_refl end = refl
  same_fields_refl (field k x fs) =
      ground (arith, eq_iff k k, same_value_refl x, same_fields_refl fs)

same_text-eq : (a b : Item) → same_text a b ≡ true → a ≡ b
unfolding same_text
same_text-eq [] [] h = refl
same_text-eq ((k, x) ∷ a) ((j, y) ∷ b) h =
    ground (arith, eq_iff k j, same_value-eq x y, same_text-eq a b)
same_text-eq _ _ h = absurd (ground (arith, h))

same_text_refl : (a : Item) → same_text a a ≡ true
unfolding same_text
same_text_refl [] = refl
same_text_refl ((k, x) ∷ a) = ground (arith, eq_iff k k, same_value_refl x, same_text_refl a)

pub same_text_iff : (a b : Item) → (same_text a b ≡ true) ↔ (a ≡ b)
same_text_iff a b = (same_text-eq a b, λ p. rw p (same_text_refl b))

-- item["item_uid"]; the uids of the queue are texts.
abbrev pub as_text : Value → Option String
as_text (text s) = some s
as_text _ = none

unfoldable pub uid_of : Item → Option String
uid_of item = elim (Dict.get item "item_uid") [ none ↦ none | some v ↦ as_text v ]

test_same :
    same_text
      (("a", null) ∷ ("b", arr (cons (num "1") nil)) ∷ [])
      (("a", null) ∷ ("b", arr (cons (num "1") nil)) ∷ [])
    ≡ true
unfolding same_text
test_same = refl
