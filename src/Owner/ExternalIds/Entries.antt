-- ===== src/Owner/ExternalIds/Entries.antt =====
-- ownership.go: the entries that `ExternalIDs` makes for an owner and for labels.
use ovnflow.Base.{true, false, [], ◌∷◌, none, some, ◌≡◌, refl, sym, ap, ◌∙◌}
use ovnflow.Base.{Bool-cases, inl, inr}
use ovnflow.Text.{Text, codes, text_eq, text_lt, has_prefix}
use ovnflow.Text.Laws.{text_eq→eq}
use ovnflow.Text.Base64.RoundTrip.{IsBytes}
use ovnflow.Util.Dict.{Dict, lookup, put, lookup-put_if, lookup-put_other}
use ovnflow.Owner.{OwnerRef, Labels}
use ovnflow.Owner.ExternalIds.{
  managed_by_key, api_version_key, owner_kind_key, owner_name_key, owner_id_key,
  external_id_label_key, is_reserved_external_id_key, put_given, owner_ids, add_labels, or_empty,
  value_at,
}
use ovnflow.Owner.ExternalIds.Keys.{text_eq-label_key}

-- Each label's key is a string of bytes.
pub data HasByteKeys : Labels → Type 0 where
  nil : HasByteKeys []
  cons :
      (key value : Text) (labels : Labels)
      → IsBytes key
      → HasByteKeys labels
      → HasByteKeys ((key, value) ∷ labels)

-- A key that no label has.
pub record IsPlain (key : Text) : Type 0 where
  pub plain : (label : Text) → text_eq key (external_id_label_key label) ≡ false

pub add_labels-plain :
    (key : Text) (ids : Dict Text) (labels : Labels)
    → IsPlain key
    → lookup key (add_labels ids labels) ≡ lookup key ids
unfolding add_labels
add_labels-plain key ids [] h = refl
add_labels-plain key ids (entry ∷ labels) h =
    lookup-put_other (external_id_label_key entry.0) key entry.1 (add_labels ids labels)
      (h.plain entry.0)
    ∙ add_labels-plain key ids labels h

pub add_labels-label :
    (key : Text) (ids : Dict Text) (labels : Labels)
    → IsBytes key
    → HasByteKeys labels
    → lookup (external_id_label_key key) ids ≡ none
    → lookup (external_id_label_key key) (add_labels ids labels) ≡ lookup key labels
unfolding add_labels lookup
add_labels-label key ids [] h k e = e
add_labels-label key ids (entry ∷ labels) h (cons _ _ _ j k) e =
    rw
      (
        lookup-put_if (external_id_label_key entry.0) (external_id_label_key key) entry.1
            (add_labels ids labels),
        text_eq-label_key key entry.0 h j,
        add_labels-label key ids labels h k e,
      )
      refl

abbrev Reserved : Dict Text → Type 0
Reserved ids =
    (key value : Text) → lookup key ids ≡ some value → is_reserved_external_id_key key ≡ true

put-Reserved :
    (key value : Text) (ids : Dict Text)
    → is_reserved_external_id_key key ≡ true
    → Reserved ids
    → Reserved (put key value ids)
put-Reserved key value ids h k other found e = elim (Bool-cases (text_eq other key)) [
  | inl same ↦ rw (text_eq→eq other key same) h
  | inr differ ↦ k other found (sym (lookup-put_other key other value ids differ) ∙ e)
]

put_given-Reserved :
    (key value : Text) (ids : Dict Text)
    → is_reserved_external_id_key key ≡ true
    → Reserved ids
    → Reserved (put_given key value ids)
put_given-Reserved key [] ids h k = k
put_given-Reserved key (c ∷ value) ids h k = put-Reserved key (c ∷ value) ids h k

pub owner_ids-Reserved : (o : OwnerRef) → Reserved (owner_ids o)
unfolding owner_ids is_reserved_external_id_key has_prefix lookup
owner_ids-Reserved o = put_given-Reserved owner_id_key o.id _ refl (
    put_given-Reserved owner_name_key o.name _ refl (
      put-Reserved owner_kind_key o.kind _ refl (
        put-Reserved api_version_key (codes "v2") _ refl
          (put-Reserved managed_by_key (codes "ovnflow") [] refl (λ key value e. cc)))))

pub add_labels-Reserved :
    (ids : Dict Text) (labels : Labels) → Reserved ids → Reserved (add_labels ids labels)
unfolding add_labels is_reserved_external_id_key has_prefix external_id_label_key
add_labels-Reserved ids [] h = h
add_labels-Reserved ids (entry ∷ labels) h =
    put-Reserved (external_id_label_key entry.0) entry.1 (add_labels ids labels) refl
      (add_labels-Reserved ids labels h)

-- The entries of `owner_ids`: none is that of a label.
abbrev Entries : Text → Text → Text → Dict Text → Type 0
Entries kind name id ids =
    (lookup managed_by_key ids ≡ some (codes "ovnflow"))
    × (lookup api_version_key ids ≡ some (codes "v2"))
    × (value_at owner_kind_key ids ≡ kind)
    × (value_at owner_name_key ids ≡ name)
    × (value_at owner_id_key ids ≡ id)
    × ((label : Text) → lookup (external_id_label_key label) ids ≡ none)

pub owner_ids-Entries :
    (kind name id : Text)
    → Entries kind name id (owner_ids (record { kind = kind; name = name; id = id }))
unfolding owner_ids lookup put value_at text_eq text_lt external_id_label_key
owner_ids-Entries kind [] [] = (refl, refl, refl, refl, refl, λ label. refl)
owner_ids-Entries kind [] (c ∷ id) = (refl, refl, refl, refl, refl, λ label. refl)
owner_ids-Entries kind (c ∷ name) [] = (refl, refl, refl, refl, refl, λ label. refl)
owner_ids-Entries kind (c ∷ name) (d ∷ id) = (refl, refl, refl, refl, refl, λ label. refl)

pub value_at-add_labels :
    (key : Text) (ids : Dict Text) (labels : Labels)
    → IsPlain key
    → value_at key (add_labels ids labels) ≡ value_at key ids
unfolding value_at
value_at-add_labels key ids labels h = ap or_empty (add_labels-plain key ids labels h)

pub keys-IsPlain :
    IsPlain managed_by_key
    × IsPlain api_version_key
    × IsPlain owner_kind_key
    × IsPlain owner_name_key
    × IsPlain owner_id_key
unfolding text_eq external_id_label_key
keys-IsPlain = (
  record { plain = λ label. refl },
  record { plain = λ label. refl },
  record { plain = λ label. refl },
  record { plain = λ label. refl },
  record { plain = λ label. refl },
)
