-- ===== src/Base/Sort.antt =====
-- Go's `sort.Slice`, as a stable insertion sort by the caller's comparison.
use ovnflow.Base.Tests.{if◌then◌else◌}
use mathlib.Core.Bool.{Bool}
use mathlib.Core.List.{List, [], ◌∷◌}
pub mod Laws
pub mod Perms

module _ {ℓ} {A : Type ℓ} where
  -- `x` is put behind the elements that are less than it, in front of its equals.
  unfoldable pub insert_by : (A → A → Bool) → A → List A → List A
  insert_by less x [] = x ∷ []
  insert_by less x (y ∷ ys) = if less y x then y ∷ insert_by less x ys else x ∷ y ∷ ys

  unfoldable pub sort_by : (A → A → Bool) → List A → List A
  unfolding insert_by
  sort_by less [] = []
  sort_by less (x ∷ xs) = insert_by less x (sort_by less xs)
