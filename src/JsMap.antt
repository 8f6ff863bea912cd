-- ===== src/JsMap.antt =====
-- The `Map` of JavaScript as its entries in insertion order: a write to a present key keeps its
-- place, a new key goes last.
pub mod Laws
use datamaster.Prelude.{Option, none, some, List, [], ◌∷◌, ite, ◌≢◌}

module _ {ℓ} {K V : Type ℓ} where
  abbrev pub keys : List (K × V) → List K
  keys [] = []
  keys ((k, v) ∷ m) = k ∷ keys m

  abbrev pub values : List (K × V) → List V
  values [] = []
  values ((k, v) ∷ m) = v ∷ values m

  -- `map.keys().next().value`
  abbrev pub first_key : List (K × V) → Option K
  first_key [] = none
  first_key ((k, v) ∷ m) = some k

  -- No entry of the map has the key.
  abbrev pub IsFresh : K → List (K × V) → Type ℓ
  IsFresh k [] = Unit
  IsFresh k ((j, w) ∷ m) = (j ≢ k) × IsFresh k m

  abbrev pub IsMap : List (K × V) → Type ℓ
  IsMap [] = Unit
  IsMap ((k, v) ∷ m) = IsFresh k m × IsMap m

module _ {ℓ} {K V : Type ℓ} (P : V → Type 0) where
  abbrev pub Each : List (K × V) → Type 0
  Each [] = Unit
  Each ((k, v) ∷ m) = P v × Each m

module _ {ℓ} {K V : Type ℓ} (dec : Discrete K) where
  unfoldable pub get : K → List (K × V) → Option V
  get k [] = none
  get k ((j, v) ∷ m) = ite (dec j k) (some v) (get k m)

  unfoldable pub set : K → V → List (K × V) → List (K × V)
  set k v [] = (k, v) ∷ []
  set k v ((j, w) ∷ m) = ite (dec j k) ((j, v) ∷ m) ((j, w) ∷ set k v m)

  unfoldable pub delete : K → List (K × V) → List (K × V)
  delete k [] = []
  delete k ((j, w) ∷ m) = ite (dec j k) m ((j, w) ∷ delete k m)
