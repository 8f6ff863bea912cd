-- ===== src/JsMap/Laws.antt =====
-- Laws of the map: reads after writes, sizes, and distinct keys.
use datamaster.Prelude.{
  ◌+◌, ◌≤◌, ◌≡◌, refl, sym, ◌≢◌, none, some, List, [], ◌∷◌, ◌++◌, ite, if_pos, if_neg, arith,
  length,
}
use mathlib.Core.Path.{subst}
use datamaster.JsMap.{Each, IsFresh, IsMap, get, set, delete}

module _ {ℓ} {K V : Type ℓ} (dec : Discrete K) where
  pub get-delete_ne :
      (k q : K) (m : List (K × V)) → q ≢ k → get dec q (delete dec k m) ≡ get dec q m
  unfolding get delete
  get-delete_ne k q [] h = refl
  get-delete_ne k q ((j, w) ∷ m) h = ground (arith, get-delete_ne k q m)

  pub get_of_IsFresh : (k : K) (m : List (K × V)) → IsFresh k m → get dec k m ≡ none
  unfolding get
  get_of_IsFresh k [] h = refl
  get_of_IsFresh k ((j, w) ∷ m) h = ground (arith, get_of_IsFresh k m)

  pub get-IsFresh : (k : K) (m : List (K × V)) → get dec k m ≡ none → IsFresh k m
  unfolding get
  get-IsFresh k [] h = tt
  get-IsFresh k ((j, w) ∷ m) h = ground (arith, get-IsFresh k m)

  pub delete_absent : (k : K) (m : List (K × V)) → IsFresh k m → delete dec k m ≡ m
  unfolding delete
  delete_absent k [] h = refl
  delete_absent k ((j, w) ∷ m) h = ground (arith, delete_absent k m)

  pub delete-IsFresh : (k q : K) (m : List (K × V)) → IsFresh q m → IsFresh q (delete dec k m)
  unfolding delete
  delete-IsFresh k q [] h = tt
  delete-IsFresh k q ((j, w) ∷ m) h = ground (arith, delete-IsFresh k q m)

  pub delete-IsMap : (k : K) (m : List (K × V)) → IsMap m → IsMap (delete dec k m)
  unfolding delete
  delete-IsMap k [] h = tt
  delete-IsMap k ((j, w) ∷ m) h = ground (arith, delete-IsMap k m, delete-IsFresh k j m)

  pub delete-IsFresh_self : (k : K) (m : List (K × V)) → IsMap m → IsFresh k (delete dec k m)
  unfolding delete
  delete-IsFresh_self k [] h = tt
  delete-IsFresh_self k ((j, w) ∷ m) h = elim (dec j k) [
    | yes p ↦ rw (if_pos _ p) (rw p at h.0)
    | no p ↦ rw (if_neg _ p) (p, delete-IsFresh_self k m h.1)
  ]

  pub set_fresh :
      (k : K) (v : V) (m : List (K × V)) → IsFresh k m → set dec k v m ≡ m ++ (k, v) ∷ []
  unfolding set
  set_fresh k v [] h = refl
  set_fresh k v ((j, w) ∷ m) h = ground (arith, set_fresh k v m)

  pub get-set :
      (k q : K) (v : V) (m : List (K × V))
      → get dec q (set dec k v m) ≡ ite (dec k q) (some v) (get dec q m)
  unfolding get set
  get-set k q v [] = refl
  get-set k q v ((j, w) ∷ m) = ground (arith, get-set k q v m)

  pub length-delete-le : (k : K) (m : List (K × V)) → length (delete dec k m) ≤ length m
  unfolding delete
  length-delete-le k [] = omega arith
  length-delete-le k ((j, w) ∷ m) = ground (arith, length-delete-le k m)

  pub length-delete :
      (k : K) (m : List (K × V)) (v : V)
      → get dec k m ≡ some v
      → length (delete dec k m) + 1 ≡ length m
  unfolding get delete
  length-delete k [] v h = cc
  length-delete k ((j, w) ∷ m) v h = ground (arith, length-delete k m v)

  pub set-IsFresh :
      (k q : K) (v : V) (m : List (K × V)) → k ≢ q → IsFresh q m → IsFresh q (set dec k v m)
  unfolding set
  set-IsFresh k q v [] e h = (e, tt)
  set-IsFresh k q v ((j, w) ∷ m) e h = ground (arith, set-IsFresh k q v m)

  pub set-IsMap : (k : K) (v : V) (m : List (K × V)) → IsMap m → IsMap (set dec k v m)
  unfolding set
  set-IsMap k v [] h = (tt, tt)
  set-IsMap k v ((j, w) ∷ m) h = elim (dec j k) [
    | yes p ↦ rw (if_pos _ p) h
    | no p ↦ rw (if_neg _ p) (set-IsFresh k j v m (λ e. p (sym e)) h.0, set-IsMap k v m h.1)
  ]

  pub length-set_fresh :
      (k : K) (v : V) (m : List (K × V)) → IsFresh k m → length (set dec k v m) ≡ length m + 1
  unfolding set
  length-set_fresh k v [] h = omega arith
  length-set_fresh k v ((j, w) ∷ m) h = ground (arith, length-set_fresh k v m)

  pub delete_head : (k : K) (v : V) (m : List (K × V)) → delete dec k ((k, v) ∷ m) ≡ m
  unfolding delete
  delete_head k v m = if_pos (dec k k) refl _ _

-- A property of every value, under the operations of the map.
module _ {ℓ} {K V : Type ℓ} (dec : Discrete K) (P : V → Type 0) where
  pub Each-get : (k : K) (v : V) (m : List (K × V)) → Each P m → get dec k m ≡ some v → P v
  unfolding get
  Each-get k v [] h e = cc
  Each-get k v ((j, w) ∷ m) h e = elim (dec j k) [
    | yes p ↦ let same : w ≡ v = ground arith in subst P same h.0
    | no p ↦ Each-get k v m h.1 (rw (if_neg _ p) at e)
  ]

  pub Each-delete : (k : K) (m : List (K × V)) → Each P m → Each P (delete dec k m)
  unfolding delete
  Each-delete k [] h = tt
  Each-delete k ((j, w) ∷ m) h = ground (arith, Each-delete k m)

  pub Each-set : (k : K) (v : V) (m : List (K × V)) → P v → Each P m → Each P (set dec k v m)
  unfolding set
  Each-set k v [] p h = (p, tt)
  Each-set k v ((j, w) ∷ m) p h = elim (dec j k) [
    | yes q ↦ rw (if_pos _ q) (p, h.1)
    | no q ↦ rw (if_neg _ q) (h.0, Each-set k v m p h.1)
  ]
