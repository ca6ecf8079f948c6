-- ===== src/Base/Sort/Laws.antt =====
-- Sorted lists, and what sorting keeps.
use ovnflow.Base.Tests.{if◌then◌else◌, Bool-cases}
use ovnflow.Base.Lists.{All, any}
use ovnflow.Base.Sort.{insert_by, sort_by}
use mathlib.Core.Path.{◌≡◌, refl, ap, ◌∙◌, subst}
use mathlib.Core.Logic.{inl, inr}
use mathlib.Core.Bool.{Bool, true, false, ◌||◌}
use mathlib.Core.List.{List, [], ◌∷◌, map}
use native.Mathlib.Omega.{arith}

module _ {ℓ} {A : Type ℓ} where
  -- No element is less than the one in front of it.
  pub IsSorted : (A → A → Bool) → List A → Type 0
  IsSorted less [] = Unit {0}
  IsSorted less (x ∷ []) = Unit {0}
  IsSorted less (x ∷ y ∷ ys) = (less y x ≡ false) × IsSorted less (y ∷ ys)

  module _ (less : A → A → Bool) (asym : (x y : A) → less x y ≡ true → less y x ≡ false) where
    insert_by-IsSorted :
        (x : A) (ys : List A) → IsSorted less ys → IsSorted less (insert_by less x ys)
    unfolding insert_by IsSorted
    insert_by-IsSorted x [] s = tt
    insert_by-IsSorted x (y ∷ []) s = elim (Bool-cases (less y x)) [
      | inl e ↦ rw e (asym y x e, tt)
      | inr e ↦ rw e (e, tt)
    ]
    insert_by-IsSorted x (y ∷ z ∷ ys) s =
        let Rest : Bool → Type 0 =
          λ c. IsSorted less (if c then z ∷ insert_by less x ys else x ∷ z ∷ ys) in
        let rest = insert_by-IsSorted x (z ∷ ys) s.1 in
        elim (Bool-cases (less y x)) [
          | inl e ↦ elim (Bool-cases (less z x)) [
            | inl e' ↦ rw (e, e') (s.0, subst Rest e' rest)
            | inr e' ↦ rw (e, e') (asym y x e, subst Rest e' rest)
          ]
          | inr e ↦ rw e (e, s)
        ]

    pub sort_by-IsSorted : (xs : List A) → IsSorted less (sort_by less xs)
    unfolding sort_by IsSorted
    sort_by-IsSorted [] = tt
    sort_by-IsSorted (x ∷ xs) = insert_by-IsSorted x (sort_by less xs) (sort_by-IsSorted xs)

  -- A sorted list is left as it is.
  pub sort_by-id : (less : A → A → Bool) (xs : List A) → IsSorted less xs → sort_by less xs ≡ xs
  unfolding sort_by insert_by IsSorted
  sort_by-id less [] s = refl
  sort_by-id less (x ∷ []) s = refl
  sort_by-id less (x ∷ y ∷ ys) s = rw (sort_by-id less (y ∷ ys) s.1, s.0) refl

  insert_by-All {κ} :
      (P : A → Type κ) (less : A → A → Bool) (x : A) (ys : List A)
      → P x
      → All P ys
      → All P (insert_by less x ys)
  unfolding insert_by
  insert_by-All P less x [] p q = (p, tt)
  insert_by-All P less x (y ∷ ys) p q = elim (Bool-cases (less y x)) [
    | inl e ↦ rw e (q.0, insert_by-All P less x ys p q.1)
    | inr e ↦ rw e (p, q)
  ]

  pub sort_by-All {κ} :
      (P : A → Type κ) (less : A → A → Bool) (xs : List A) → All P xs → All P (sort_by less xs)
  unfolding sort_by
  sort_by-All P less [] p = tt
  sort_by-All P less (x ∷ xs) p =
      insert_by-All P less x (sort_by less xs) p.0 (sort_by-All P less xs p.1)

  insert_by-any :
      (f : A → Bool) (less : A → A → Bool) (x : A) (ys : List A)
      → any f (insert_by less x ys) ≡ (f x || any f ys)
  unfolding insert_by
  insert_by-any f less x [] = refl
  insert_by-any f less x (y ∷ ys) = ground (arith, insert_by-any f less x ys)

  pub any-sort_by :
      (f : A → Bool) (less : A → A → Bool) (xs : List A) → any f (sort_by less xs) ≡ any f xs
  unfolding sort_by
  any-sort_by f less [] = refl
  any-sort_by f less (x ∷ xs) =
      insert_by-any f less x (sort_by less xs) ∙ ap (λ b. f x || b) (any-sort_by f less xs)

  map-fixed : (f : A → A) (xs : List A) → All (λ x. f x ≡ x) xs → map f xs ≡ xs
  map-fixed f [] h = refl
  map-fixed f (x ∷ xs) h = rw (h.0, map-fixed f xs h.1) refl

  All-map : (f : A → A) (xs : List A) → ((x : A) → f (f x) ≡ f x) → All (λ x. f x ≡ x) (map f xs)
  All-map f [] h = tt
  All-map f (x ∷ xs) h = (h x, All-map f xs h)

  -- Sorting what an idempotent function makes of a list is idempotent.
  pub sort-map_idempotent :
      (less : A → A → Bool) (f : A → A)
      → ((x y : A) → less x y ≡ true → less y x ≡ false)
      → ((x : A) → f (f x) ≡ f x)
      → (xs : List A) → sort_by less (map f (sort_by less (map f xs))) ≡ sort_by less (map f xs)
  sort-map_idempotent less f asym h xs =
      let fixed = sort_by-All (λ x. f x ≡ x) less (map f xs) (All-map f xs h) in
      rw (map-fixed f (sort_by less (map f xs)) fixed)
        (sort_by-id less (sort_by less (map f xs)) (sort_by-IsSorted less asym (map f xs)))
