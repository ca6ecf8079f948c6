-- ===== src/Util/Equal.antt =====
-- `reflect.DeepEqual` of slices, Booleans and entries of maps.
use ovnflow.Base.{Bool, true, false, ◌&&◌, List, [], ◌∷◌}
use ovnflow.Text.{Text, text_eq}

module _ {ℓ} {A : Type ℓ} where
  unfoldable pub list_eq : (A → A → Bool) → List A → List A → Bool
  list_eq eq [] [] = true
  list_eq eq [] (y ∷ ys) = false
  list_eq eq (x ∷ xs) [] = false
  list_eq eq (x ∷ xs) (y ∷ ys) = eq x y && list_eq eq xs ys

unfoldable pub bool_eq : Bool → Bool → Bool
bool_eq true b = b
bool_eq false true = false
bool_eq false false = true

abbrev pub texts_eq : List Text → List Text → Bool
texts_eq = list_eq text_eq

unfoldable pub entry_eq : Text × Text → Text × Text → Bool
entry_eq a b = text_eq a.0 b.0 && text_eq a.1 b.1
