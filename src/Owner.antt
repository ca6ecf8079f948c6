-- ===== src/Owner.antt =====
-- ownership.go: the owner of a managed resource, and labels.
pub mod ExternalIds
use ovnflow.Base.{◌&&◌, [], ◌∷◌}
use ovnflow.Text.{Text, codes, is_blank}
use ovnflow.Errors.{validation, Result, ok, ◌>>◌, fail_if}
use ovnflow.Util.{wrapped}
use ovnflow.Util.Dict.{Dict}

pub record OwnerRef : Type 0 where
  pub kind : Text
  pub name : Text
  pub id : Text

abbrev pub Labels : Type 0
Labels = Dict Text

unfoldable pub validate_owner : OwnerRef → Result (Unit {0})
validate_owner o = do
  fail_if (is_blank o.kind)
      (wrapped validation "validate" (codes "owner") "owner kind must not be empty")
  fail_if (is_blank o.name && is_blank o.id)
      (wrapped validation "validate" (codes "owner") "owner name or id is required")

unfoldable pub validate_labels : Labels → Result (Unit {0})
validate_labels [] = ok tt
validate_labels (entry ∷ labels) = do
  fail_if (is_blank entry.0)
      (wrapped validation "validate" (codes "labels") "label key must not be empty")
  validate_labels labels
