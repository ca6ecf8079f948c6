-- ===== src/Util/Dict.antt =====
-- Go's `map[string]T`: entries in ascending order of their keys, each key once, so that equal maps
-- are equal lists. `nil` is the empty map.
use ovnflow.Base.{false, List, [], ◌∷◌, Option, none, some, ◌≡◌, refl, arith}
use ovnflow.Base.{if◌then◌else◌, Bool-cases, inl, inr, sym}
use ovnflow.Text.{Text, text_eq, text_lt}
use ovnflow.Text.Laws.{text_eq_refl, text_eq→eq}

abbrev pub Dict {ℓ} : Type ℓ → Type ℓ
Dict A = List (Text × A)

module _ {ℓ} {A : Type ℓ} where
  unfoldable pub lookup : Text → Dict A → Option A
  lookup key [] = none
  lookup key (entry ∷ entries) =
      let rest = lookup key entries in if text_eq key entry.0 then some entry.1 else rest

  unfoldable pub put : Text → A → Dict A → Dict A
  put key value [] = (key, value) ∷ []
  put key value (entry ∷ entries) =
      let rest = put key value entries in
      if text_eq key entry.0
      then (key, value) ∷ entries
      else if text_lt key entry.0
      then (key, value) ∷ entry ∷ entries
      else entry ∷ rest

  unfoldable pub remove : Text → Dict A → Dict A
  remove key [] = []
  remove key (entry ∷ entries) =
      let rest = remove key entries in if text_eq key entry.0 then rest else entry ∷ rest

  -- The entries of `overlay` written over those of `base`, as `mergeStringMaps` does.
  unfoldable pub merge_maps : Dict A → Dict A → Dict A
  merge_maps base [] = base
  merge_maps base (entry ∷ overlay) = merge_maps (put entry.0 entry.1 base) overlay

module _ {ℓ} {A : Type ℓ} where
  pub lookup-put : (key : Text) (value : A) (d : Dict A) → lookup key (put key value d) ≡ some value
  unfolding lookup put
  lookup-put key value [] = ground (arith, text_eq_refl key)
  lookup-put key value (entry ∷ d) = ground (arith, text_eq_refl key, lookup-put key value d)

  pub lookup-put_other :
      (key other : Text) (value : A) (d : Dict A)
      → text_eq other key ≡ false
      → lookup other (put key value d) ≡ lookup other d
  unfolding lookup put
  lookup-put_other key other value [] h = ground (arith)
  lookup-put_other key other value (entry ∷ d) h = elim (Bool-cases (text_eq key entry.0)) [
    | inl e ↦
        let same : key ≡ entry.0 = text_eq→eq key entry.0 e in
        let h' : text_eq other entry.0 ≡ false = rw (sym same) h in rw (e, h, h') refl
    | inr e ↦ ground (arith, lookup-put_other key other value d h)
  ]

  pub lookup-remove : (key : Text) (d : Dict A) → lookup key (remove key d) ≡ none
  unfolding lookup remove
  lookup-remove key [] = refl
  lookup-remove key (entry ∷ d) = ground (arith, lookup-remove key d)

  pub lookup-remove_other :
      (key other : Text) (d : Dict A)
      → text_eq other key ≡ false
      → lookup other (remove key d) ≡ lookup other d
  unfolding lookup remove
  lookup-remove_other key other [] h = refl
  lookup-remove_other key other (entry ∷ d) h = elim (Bool-cases (text_eq key entry.0)) [
    | inl e ↦
        let same : key ≡ entry.0 = text_eq→eq key entry.0 e in
        let h' : text_eq other entry.0 ≡ false = rw (sym same) h in
        rw (e, h') (lookup-remove_other key other d h)
    | inr e ↦ ground (arith, lookup-remove_other key other d h)
  ]

  -- Under its key the value that was put, and under other keys what was there.
  pub lookup-put_if :
      (key other : Text) (value : A) (d : Dict A)
      → lookup other (put key value d) ≡ (if text_eq other key then some value else lookup other d)
  lookup-put_if key other value d = elim (Bool-cases (text_eq other key)) [
    | inl e ↦
        let same : other ≡ key = text_eq→eq other key e in rw e (rw same (lookup-put key value d))
    | inr e ↦ rw e (lookup-put_other key other value d e)
  ]

  pub lookup-remove_if :
      (key other : Text) (d : Dict A)
      → lookup other (remove key d) ≡ (if text_eq other key then none else lookup other d)
  lookup-remove_if key other d = elim (Bool-cases (text_eq other key)) [
    | inl e ↦
        let same : other ≡ key = text_eq→eq other key e in rw e (rw same (lookup-remove key d))
    | inr e ↦ rw e (lookup-remove_other key other d e)
  ]
