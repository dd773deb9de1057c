-- ===== src/Dict.antt =====
-- Python's `dict` with text keys: an association list in order of insertion. An assignment to a
-- present key keeps its place, and one to a new key appends.
use ophyd_service.Prelude.{
  String, ◌≡◌, refl, ◌≢◌, ◌∙◌, Bool, false, Option, none, some, List, [], ◌∷◌, arith, ◌==◌, eq_iff,
  if◌then◌else◌, is_some,
}

abbrev pub Dict {ℓ} : Type ℓ → Type ℓ
Dict V = List (String × V)

module _ {ℓ} {V : Type ℓ} where
  -- d.get(k)
  unfoldable pub get : Dict V → String → Option V
  get [] k = none
  get ((j, v) ∷ d) k = if j == k then some v else get d k

  -- d[k] = v
  unfoldable pub insert : Dict V → String → V → Dict V
  insert [] k v = (k, v) ∷ []
  insert ((j, w) ∷ d) k v = if j == k then (k, v) ∷ d else (j, w) ∷ insert d k v

  -- del d[k]; d.pop(k, None)
  unfoldable pub remove : Dict V → String → Dict V
  remove [] k = []
  remove ((j, w) ∷ d) k = let rest = remove d k in if j == k then rest else (j, w) ∷ rest

  -- k in d
  abbrev pub contains : Dict V → String → Bool
  contains d k = is_some (get d k)

  unfoldable pub keys : Dict V → List String
  keys [] = []
  keys ((j, w) ∷ d) = j ∷ keys d

  unfoldable pub values : Dict V → List V
  values [] = []
  values ((j, w) ∷ d) = w ∷ values d

module _ {ℓ} {V : Type ℓ} where
  pub get-empty : (k : String) → get {V = V} [] k ≡ none
  unfolding get
  get-empty k = refl

  pub get-insert :
      (d : Dict V) (k : String) (v : V) (j : String)
      → get (insert d k v) j ≡ (if k == j then some v else get d j)
  unfolding get insert
  get-insert [] k v j = refl
  get-insert ((i, w) ∷ d) k v j =
      ground (arith, eq_iff k j, eq_iff i k, eq_iff i j, get-insert d k v j)

  pub get-remove :
      (d : Dict V) (k j : String) → get (remove d k) j ≡ (if k == j then none else get d j)
  unfolding get remove
  get-remove [] k j = ground arith
  get-remove ((i, w) ∷ d) k j = ground (arith, eq_iff k j, eq_iff i k, eq_iff i j, get-remove d k j)

  pub get-insert_self : (d : Dict V) (k : String) (v : V) → get (insert d k v) k ≡ some v
  get-insert_self d k v = ground (arith, get-insert d k v k, eq_iff k k)

  pub get-insert_ne :
      (d : Dict V) (k : String) (v : V) (j : String) → k ≢ j → get (insert d k v) j ≡ get d j
  get-insert_ne d k v j h = ground (arith, get-insert d k v j, eq_iff k j)

  pub get-remove_self : (d : Dict V) (k : String) → get (remove d k) k ≡ none
  get-remove_self d k = ground (arith, get-remove d k k, eq_iff k k)

  pub get-remove_ne : (d : Dict V) (k j : String) → k ≢ j → get (remove d k) j ≡ get d j
  get-remove_ne d k j h = ground (arith, get-remove d k j, eq_iff k j)

module _ {ℓ} {V : Type ℓ} where
  pub get-insert_other :
      (d : Dict V) (k : String) (v : V) (j : String)
      → k == j ≡ false
      → get (insert d k v) j ≡ get d j
  get-insert_other d k v j h = get-insert d k v j ∙ rw h

  pub get-remove_other : (d : Dict V) (k j : String) → k == j ≡ false → get (remove d k) j ≡ get d j
  get-remove_other d k j h = get-remove d k j ∙ rw h

pub ruleset dict_laws = (get-empty, get-insert, get-remove)

-- Every key stands once. Python's dict has this for nothing; here `insert` and `remove` keep it.
abbrev pub NodupKeys {ℓ} : {V : Type ℓ} → Dict V → Type 0
NodupKeys [] = Unit
NodupKeys ((k, v) ∷ d) = (contains d k ≡ false) × NodupKeys d

module _ {ℓ} {V : Type ℓ} where
  pub insert-NodupKeys : (d : Dict V) (k : String) (v : V) → NodupKeys d → NodupKeys (insert d k v)
  unfolding insert get
  insert-NodupKeys [] k v h = (refl, tt)
  insert-NodupKeys ((j, w) ∷ d) k v h =
      ground (arith, eq_iff j k, eq_iff k j, insert-NodupKeys d k v h.1, get-insert d k v j)

  pub remove-NodupKeys : (d : Dict V) (k : String) → NodupKeys d → NodupKeys (remove d k)
  unfolding remove
  remove-NodupKeys [] k h = tt
  remove-NodupKeys ((j, w) ∷ d) k h = ground (arith, remove-NodupKeys d k h.1, get-remove d k j)
