-- ===== src/Util/Unique.antt =====
-- `uniqueStrings` leaves a list without repetitions and empty strings as it is.
use ovnflow.Base.{List, [], ◌∷◌, ◌≡◌, refl, false, Bool-cases, inl, inr}
use ovnflow.Text.{Text, is_empty}
use ovnflow.Util.{contains_string, unique_loop, unique_strings}

-- No string is empty, repeated, or among `seen`.
abbrev pub Fresh : List Text → List Text → Type 0
Fresh seen [] = Unit {0}
Fresh seen (v ∷ vs) = (is_empty v ≡ false) × (contains_string seen v ≡ false) × Fresh (v ∷ seen) vs

unique_loop-Fresh : (seen values : List Text) → Fresh seen (unique_loop seen values)
unfolding unique_loop
unique_loop-Fresh seen [] = tt
unique_loop-Fresh seen (v ∷ vs) = elim (Bool-cases (is_empty v)) [
  | inl e ↦ rw e (unique_loop-Fresh seen vs)
  | inr e ↦ elim (Bool-cases (contains_string seen v)) [
    | inl e' ↦ rw (e, e') (unique_loop-Fresh seen vs)
    | inr e' ↦ rw (e, e') (e, e', unique_loop-Fresh (v ∷ seen) vs)
  ]
]

unique_loop-id : (seen values : List Text) → Fresh seen values → unique_loop seen values ≡ values
unfolding unique_loop
unique_loop-id seen [] h = refl
unique_loop-id seen (v ∷ vs) h = rw (h.0, h.1, unique_loop-id (v ∷ seen) vs h.2) refl

pub unique_strings_idempotent :
    (values : List Text) → unique_strings (unique_strings values) ≡ unique_strings values
unfolding unique_strings
unique_strings_idempotent values =
    unique_loop-id [] (unique_loop [] values) (unique_loop-Fresh [] values)
