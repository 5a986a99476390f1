-- ===== src/Prelude/Sort.antt =====
-- Python's `sorted`: a stable sort by a test that puts an element no later than another.
use mathlib.Core.Path.{◌≡◌, refl, ◌∙◌}
use mathlib.Core.Logic.{inl, inr}
use mathlib.Core.Bool.{Bool, true, false}
use mathlib.Core.List.{List, [], ◌∷◌}
use native.Mathlib.Omega.{arith}
use n_trade.Prelude.Tests.{if◌then◌else◌, Bool-cases}
use n_trade.Prelude.Lists.{All, keep, count}

module _ {ℓ} {A : Type ℓ} (le : A → A → Bool) where
  unfoldable pub insert_by : A → List A → List A
  insert_by x [] = x ∷ []
  insert_by x (y ∷ ys) = if le x y then x ∷ y ∷ ys else y ∷ insert_by x ys

  unfoldable pub sort_by : List A → List A
  unfolding insert_by
  sort_by [] = []
  sort_by (x ∷ xs) = insert_by x (sort_by xs)

  -- Each element stands no later than those behind it.
  unfoldable pub Ordered : List A → Type 0
  Ordered [] = Unit
  Ordered (x ∷ xs) = All (λ (y : A). le x y ≡ true) xs × Ordered xs

  count-insert_by :
      (p : A → Bool) (x : A) (ys : List A) → count p (insert_by x ys) ≡ count p (x ∷ ys)
  unfolding insert_by
  count-insert_by p x [] = refl
  count-insert_by p x (y ∷ ys) = ground (arith, count-insert_by p x ys)

  pub count-sort_by : (p : A → Bool) (xs : List A) → count p (sort_by xs) ≡ count p xs
  unfolding sort_by
  count-sort_by p [] = refl
  count-sort_by p (x ∷ xs) = ground (arith, count-insert_by p x (sort_by xs), count-sort_by p xs)

  All-insert_by : (P : A → Type 0) (x : A) (ys : List A) → P x → All P ys → All P (insert_by x ys)
  unfolding insert_by
  All-insert_by P x [] h a = (h, tt)
  All-insert_by P x (y ∷ ys) h a = elim (Bool-cases (le x y)) [
    | inl first ↦ rw first (h, a)
    | inr later ↦ rw later (a.0, All-insert_by P x ys h a.1)
  ]

  module _ (total : (x y : A) → le x y ≡ false → le y x ≡ true)
      (trans : (x y z : A) → le x y ≡ true → le y z ≡ true → le x z ≡ true) where
    All-le :
        (x y : A) (ys : List A)
        → le x y ≡ true
        → All (λ (z : A). le y z ≡ true) ys
        → All (λ (z : A). le x z ≡ true) ys
    All-le x y [] h a = tt
    All-le x y (z ∷ ys) h a = (trans x y z h a.0, All-le x y ys h a.1)

    Ordered-insert_by : (x : A) (ys : List A) → Ordered ys → Ordered (insert_by x ys)
    unfolding insert_by Ordered
    Ordered-insert_by x [] o = (tt, tt)
    Ordered-insert_by x (y ∷ ys) o = elim (Bool-cases (le x y)) [
      | inl first ↦ rw first ((first, All-le x y ys first o.0), o)
      | inr later ↦ rw later (
        All-insert_by (λ (z : A). le y z ≡ true) x ys (total x y later) o.0,
        Ordered-insert_by x ys o.1,
      )
    ]

    pub sort_by-Ordered : (xs : List A) → Ordered (sort_by xs)
    unfolding sort_by Ordered
    sort_by-Ordered [] = tt
    sort_by-Ordered (x ∷ xs) = Ordered-insert_by x (sort_by xs) (sort_by-Ordered xs)

    -- In front of everything, an element is inserted at the front.
    insert_by-front :
        (x : A) (ys : List A) → All (λ (z : A). le x z ≡ true) ys → insert_by x ys ≡ x ∷ ys
    unfolding insert_by
    insert_by-front x [] a = refl
    insert_by-front x (y ∷ ys) a = rw a.0 refl

    All-keep : (P : A → Type 0) (p : A → Bool) (xs : List A) → All P xs → All P (keep p xs)
    All-keep P p [] a = tt
    All-keep P p (x ∷ xs) a = elim (Bool-cases (p x)) [
      | inl kept ↦ rw kept (a.0, All-keep P p xs a.1)
      | inr gone ↦ rw gone (All-keep P p xs a.1)
    ]

    keep-insert_by :
        (p : A → Bool) (x : A) (ys : List A)
        → Ordered ys
        → keep p (insert_by x ys) ≡ (if p x then insert_by x (keep p ys) else keep p ys)
    unfolding insert_by Ordered
    keep-insert_by p x [] o = refl
    keep-insert_by p x (y ∷ ys) o = elim (Bool-cases (le x y)) [
      | inl first ↦
          let front =
            insert_by-front x (keep p (y ∷ ys))
              (All-keep (λ (z : A). le x z ≡ true) p (y ∷ ys) (first, All-le x y ys first o.0)) in
          rw (first, front) refl
      | inr later ↦ elim (Bool-cases (p y)) [
        | inl kept ↦ rw (later, kept, keep-insert_by p x ys o.1) (ground arith)
        | inr gone ↦ rw (later, gone) (keep-insert_by p x ys o.1)
      ]
    ]

    -- What a test keeps of a sorted list is what it keeps, sorted.
    pub keep-sort_by : (p : A → Bool) (xs : List A) → keep p (sort_by xs) ≡ sort_by (keep p xs)
    unfolding sort_by
    keep-sort_by p [] = refl
    keep-sort_by p (x ∷ xs) =
        keep-insert_by p x (sort_by xs) (sort_by-Ordered xs) ∙ elim (Bool-cases (p x)) [
          | inl kept ↦ rw (kept, keep-sort_by p xs) refl
          | inr gone ↦ rw gone (keep-sort_by p xs)
        ]

    pub sort_by_of_Ordered : (xs : List A) → Ordered xs → sort_by xs ≡ xs
    unfolding sort_by Ordered
    sort_by_of_Ordered [] o = refl
    sort_by_of_Ordered (x ∷ xs) o = rw (sort_by_of_Ordered xs o.1) (insert_by-front x xs o.0)
