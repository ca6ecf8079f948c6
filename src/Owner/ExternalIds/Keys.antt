-- ===== src/Owner/ExternalIds/Keys.antt =====
-- ownership.go: `ExternalIDLabelKey` and `DecodeExternalIDLabelKey`.
use ovnflow.Base.{true, some, ◌≡◌, refl, sym, ap, ◌∙◌, Bool-cases, inl, inr}
use ovnflow.Text.{Text, text_eq, has_prefix}
use ovnflow.Text.Laws.{text_eq_refl, text_eq→eq, eq→text_eq}
use ovnflow.Text.Base64.RoundTrip.{IsBytes, decode-encode}
use ovnflow.Owner.ExternalIds.{
  external_id_label_key, decode_external_id_label_key, is_reserved_external_id_key,
}

-- A label key is decoded from the external id key that it was encoded to, and that key is one of
-- the reserved ones. A label key is any string of bytes.
pub decode-label_key :
    (label : Text)
    → IsBytes label
    → (decode_external_id_label_key (external_id_label_key label) ≡ some label)
      × (is_reserved_external_id_key (external_id_label_key label) ≡ true)
unfolding decode_external_id_label_key external_id_label_key is_reserved_external_id_key has_prefix
decode-label_key label h = (decode-encode label h, refl)

-- Keys of labels are equal if the labels are.
pub text_eq-label_key :
    (a b : Text)
    → IsBytes a
    → IsBytes b
    → text_eq (external_id_label_key a) (external_id_label_key b) ≡ text_eq a b
text_eq-label_key a b h k = elim (Bool-cases (text_eq a b)) [
  | inl e ↦ rw (e, text_eq→eq a b e) (text_eq_refl (external_id_label_key b))
  | inr e ↦ elim (Bool-cases (text_eq (external_id_label_key a) (external_id_label_key b))) [
    | inl f ↦
        let same = ap decode_external_id_label_key (text_eq→eq _ _ f) in
        let found : some a ≡ some b =
          sym ((decode-label_key a h).0) ∙ same ∙ (decode-label_key b k).0 in
        let equal : a ≡ b = cc in let yes = eq→text_eq a b equal in cc
    | inr f ↦ f ∙ sym e
  ]
]
