-- ===== src/Tests/Owner.antt =====
-- ownership.go: an owner with a label, and the theorems at it.
use ovnflow.Base.{[], ◌∷◌, some, true, ◌≡◌, refl, arith}
use ovnflow.Text.{Text, codes, text_eq, text_lt, is_blank}
use ovnflow.Text.Base64.{base64_char, base64_encode}
use ovnflow.Text.Base64.RoundTrip.{IsBytes, nil, cons}
use ovnflow.Errors.{ok}
use ovnflow.Util.Dict.{Dict, put}
use ovnflow.Owner.{OwnerRef, Labels, validate_owner, validate_labels}
use ovnflow.Owner.ExternalIds.{
  external_id_label_key, decode_external_id_label_key, is_reserved_external_id_key, owner_ids,
  add_labels, external_ids,
}
use ovnflow.Owner.ExternalIds.Keys.{decode-label_key}
use ovnflow.Owner.ExternalIds.Entries.{HasByteKeys}
use ovnflow.Owner.ExternalIds.Recorded.{Recorded, external_ids-Recorded}

abbrev team : Text
team = codes "team/a"

team-IsBytes : IsBytes team
team-IsBytes = cons _ _ (omega arith) (
    cons _ _ (omega arith) (
      cons _ _ (omega arith)
        (cons _ _ (omega arith) (cons _ _ (omega arith) (cons _ _ (omega arith) nil)))))

abbrev owner : OwnerRef
owner = record { kind = codes "cluster"; name = codes "edge"; id = [] }

abbrev labels : Labels
labels = (team, codes "net") ∷ []

abbrev recorded_ids : Dict Text
recorded_ids =
    (codes "ovnflow.io/api-version", codes "v2")
    ∷ (codes "ovnflow.io/label/dGVhbS9h", codes "net")
    ∷ (codes "ovnflow.io/managed-by", codes "ovnflow")
    ∷ (codes "ovnflow.io/owner-kind", codes "cluster")
    ∷ (codes "ovnflow.io/owner-name", codes "edge")
    ∷ []

external_ids_owner : external_ids owner labels ≡ ok recorded_ids
unfolding external_ids owner_ids add_labels external_id_label_key base64_encode base64_char put
    text_eq text_lt is_blank validate_owner validate_labels
external_ids_owner = refl

decode-label_key_example :
    (decode_external_id_label_key (external_id_label_key team) ≡ some team)
    × (is_reserved_external_id_key (external_id_label_key team) ≡ true)
decode-label_key_example = decode-label_key team team-IsBytes

external_ids-Recorded_example : Recorded owner labels recorded_ids
external_ids-Recorded_example =
    external_ids-Recorded owner labels recorded_ids
      (HasByteKeys.cons _ _ _ team-IsBytes HasByteKeys.nil) external_ids_owner
