-- ===== src/Prelude/Dict.antt =====
-- A Python dict as an association list in insertion order, for any key with an equality test.
use mathlib.Core.Path.{◌≡◌, refl}
use mathlib.Core.Logic.{inl, inr}
use mathlib.Core.Bool.{Bool, true, false, ◌||◌}
use mathlib.Core.List.{List, [], ◌∷◌, ◌++◌}
use mathlib.Core.Option.{Option, none, some}
use native.Mathlib.Omega.{arith}
use n_trade.Prelude.Tests.{if◌then◌else◌, Bool-cases}
use n_trade.Prelude.Equality.{Eq, ◌=?◌, =?_iff, =?_refl}

abbrev pub Dict {ℓ κ} : Type ℓ → Type κ → Type (ℓ ⊔ κ)
Dict K V = List (K × V)

module _ {ℓ κ} {K : Type ℓ} {V : Type κ} ⦃e : Eq K⦄ where
  -- `d.get(k)`
  unfoldable pub lookup : K → Dict K V → Option V
  lookup k [] = none
  lookup k ((j, v) ∷ d) = if j =? k then some v else lookup k d

  -- `d[k] = v`
  unfoldable pub insert : K → V → Dict K V → Dict K V
  insert k v [] = (k, v) ∷ []
  insert k v ((j, w) ∷ d) = if j =? k then (j, v) ∷ d else (j, w) ∷ insert k v d

  -- `d.pop(k, None)`
  unfoldable pub erase : K → Dict K V → Dict K V
  erase k [] = []
  erase k ((j, w) ∷ d) = if j =? k then erase k d else (j, w) ∷ erase k d

  pub lookup-insert :
      (k j : K) (v : V) (d : Dict K V)
      → lookup j (insert k v d) ≡ (if k =? j then some v else lookup j d)
  unfolding lookup insert
  lookup-insert k j v [] = refl
  lookup-insert k j v ((i, w) ∷ d) =
      ground (arith, =?_iff k j, =?_iff i k, =?_iff i j, lookup-insert k j v d)

  pub lookup-erase :
      (k j : K) (d : Dict K V) → lookup j (erase k d) ≡ (if k =? j then none else lookup j d)
  unfolding lookup erase
  lookup-erase k j [] = ground arith
  lookup-erase k j ((i, w) ∷ d) =
      ground (arith, =?_iff k j, =?_iff i k, =?_iff i j, lookup-erase k j d)

  pub lookup-insert_self : (k : K) (v : V) (d : Dict K V) → lookup k (insert k v d) ≡ some v
  lookup-insert_self k v d = rw (lookup-insert k k v d, =?_refl k) refl

  pub lookup-erase_self : (k : K) (d : Dict K V) → lookup k (erase k d) ≡ none
  lookup-erase_self k d = rw (lookup-erase k k d, =?_refl k) refl

  -- `k in d`
  abbrev pub contains : K → Dict K V → Bool
  contains k d = elim (lookup k d) [ none ↦ false | some _ ↦ true ]

-- `x in s`, for a set or a list.
unfoldable pub elem {ℓ} : {A : Type ℓ} ⦃e : Eq A⦄ → A → List A → Bool
elem a [] = false
elem a (x ∷ xs) = (x =? a) || elem a xs

-- `s.add(x)`
unfoldable pub add_elem {ℓ} : {A : Type ℓ} ⦃e : Eq A⦄ → A → List A → List A
add_elem a xs = if elem a xs then xs else a ∷ xs

-- `s.discard(x)`
unfoldable pub discard {ℓ} : {A : Type ℓ} ⦃e : Eq A⦄ → A → List A → List A
discard a [] = []
discard a (x ∷ xs) = if x =? a then discard a xs else x ∷ discard a xs

module _ {ℓ} {A : Type ℓ} ⦃e : Eq A⦄ where
  pub elem-add_elem : (a b : A) (xs : List A) → elem b (add_elem a xs) ≡ ((a =? b) || elem b xs)
  unfolding elem add_elem
  elem-add_elem a b xs = elim (Bool-cases (a =? b)) [
    | inl same ↦ rw ((=?_iff a b).0 same) (elim (Bool-cases (elem b xs)) [
      | inl old ↦ rw (old, =?_refl b) old
      | inr new ↦ rw (new, =?_refl b) refl
    ])
    | inr differ ↦ elim (Bool-cases (elem a xs)) [
      | inl old ↦ rw (old, differ) refl
      | inr new ↦ rw (new, differ) refl
    ]
  ]

  pub elem-discard :
      (a b : A) (xs : List A) → elem b (discard a xs) ≡ (if a =? b then false else elem b xs)
  unfolding elem discard
  elem-discard a b [] = ground arith
  elem-discard a b (x ∷ xs) =
      ground (arith, =?_iff a b, =?_iff x a, =?_iff x b, elem-discard a b xs)

  pub elem-snoc : (xs : List A) (a b : A) → elem b (xs ++ a ∷ []) ≡ (elem b xs || (a =? b))
  unfolding elem
  elem-snoc [] a b = ground arith
  elem-snoc (x ∷ xs) a b = ground (arith, elem-snoc xs a b)

  -- No element occurs twice.
  abbrev pub Distinct : List A → Type 0
  Distinct [] = Unit
  Distinct (x ∷ xs) = (elem x xs ≡ false) × Distinct xs

  pub Distinct-snoc :
      (xs : List A) (a : A) → Distinct xs → elem a xs ≡ false → Distinct (xs ++ a ∷ [])
  unfolding elem
  Distinct-snoc [] a d new = (refl, tt)
  Distinct-snoc (x ∷ xs) a d new =
      ground (arith, elem-snoc xs a x, Distinct-snoc xs a d.1, =?_iff x a, =?_iff a x)
