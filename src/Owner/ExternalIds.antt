-- ===== src/Owner/ExternalIds.antt =====
-- ownership.go: the external ids that record the owner and the labels of a resource.
use ovnflow.Base.{
  Bool, true, false, ◌&&◌, ◌||◌, [], ◌∷◌, ◌++◌, length, drop, Option, none, some, if◌then◌else◌,
}
use ovnflow.Text.{Text, codes, text_eq, is_empty, has_prefix}
use ovnflow.Text.Base64.{base64_encode, base64_decode}
use ovnflow.Errors.{Result, ok, err, ◌>>◌}
use ovnflow.Util.Dict.{Dict, lookup, put}
use ovnflow.Owner.{OwnerRef, Labels, validate_owner, validate_labels}
pub mod Keys
pub mod Entries
pub mod Recorded

abbrev pub external_id_prefix : Text
external_id_prefix = codes "ovnflow.io/"

abbrev pub managed_by_key : Text
managed_by_key = external_id_prefix ++ codes "managed-by"

abbrev pub api_version_key : Text
api_version_key = external_id_prefix ++ codes "api-version"

abbrev pub owner_kind_key : Text
owner_kind_key = external_id_prefix ++ codes "owner-kind"

abbrev pub owner_name_key : Text
owner_name_key = external_id_prefix ++ codes "owner-name"

abbrev pub owner_id_key : Text
owner_id_key = external_id_prefix ++ codes "owner-id"

abbrev pub label_prefix : Text
label_prefix = external_id_prefix ++ codes "label/"

unfoldable pub external_id_label_key : Text → Text
external_id_label_key label = label_prefix ++ base64_encode label

unfoldable pub decode_external_id_label_key : Text → Option Text
decode_external_id_label_key key =
    if has_prefix key label_prefix then base64_decode (drop (length label_prefix) key) else none

unfoldable pub is_reserved_external_id_key : Text → Bool
is_reserved_external_id_key key = has_prefix key external_id_prefix

-- `m[key] = value` unless the value is empty.
abbrev pub put_given : Text → Text → Dict Text → Dict Text
put_given key value ids = if is_empty value then ids else put key value ids

unfoldable pub owner_ids : OwnerRef → Dict Text
owner_ids o = put_given owner_id_key o.id (
    put_given owner_name_key o.name (
      put owner_kind_key o.kind
        (put api_version_key (codes "v2") (put managed_by_key (codes "ovnflow") []))))

-- The loop over the labels. Their keys differ, so that the order, which Go leaves open, does not
-- count.
unfoldable pub add_labels : Dict Text → Labels → Dict Text
add_labels ids [] = ids
add_labels ids (entry ∷ labels) =
    put (external_id_label_key entry.0) entry.1 (add_labels ids labels)

unfoldable pub external_ids : OwnerRef → Labels → Result (Dict Text)
external_ids o labels = do
  validate_owner o
  validate_labels labels
  ok (add_labels (owner_ids o) labels)

abbrev pub or_empty : Option Text → Text
or_empty none = []
or_empty (some value) = value

-- `m[key]`, which is empty if the key is missing.
unfoldable pub value_at : Text → Dict Text → Text
value_at key ids = or_empty (lookup key ids)

-- `if err := ...; err != nil { return false }`, and then the rest.
abbrev pub passed_and : Result (Unit {0}) → Bool → Bool
passed_and (err e) rest = false
passed_and (ok _) rest = rest

unfoldable pub ownership_matches : Dict Text → OwnerRef → Bool
ownership_matches ids o = passed_and (validate_owner o) (
    text_eq (value_at owner_kind_key ids) o.kind
    && (is_empty o.name || text_eq (value_at owner_name_key ids) o.name)
    && (is_empty o.id || text_eq (value_at owner_id_key ids) o.id))
