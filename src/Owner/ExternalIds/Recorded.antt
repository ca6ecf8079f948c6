-- ===== src/Owner/ExternalIds/Recorded.antt =====
-- ownership.go: what `ExternalIDs` records, and what `OwnershipMatches` reads of it.
use ovnflow.Base.{Bool, true, false, ◌&&◌, ◌||◌, [], ◌∷◌, some, ◌≡◌, refl, ◌∙◌, subst}
use ovnflow.Base.{◌↔◌, ◌⊎◌, inl, inr}
use ovnflow.Text.{Text, codes, text_eq, is_empty}
use ovnflow.Text.Laws.{text_eq→eq, eq→text_eq}
use ovnflow.Text.Base64.RoundTrip.{IsBytes}
use ovnflow.Errors.{ok, >>-ok, ok_injective, Result-cases}
use ovnflow.Util.Dict.{Dict, lookup}
use ovnflow.Owner.{OwnerRef, Labels, validate_owner, validate_labels}
use ovnflow.Owner.ExternalIds.{
  managed_by_key, api_version_key, owner_kind_key, owner_name_key, owner_id_key,
  external_id_label_key, is_reserved_external_id_key, owner_ids, add_labels, external_ids, value_at,
  ownership_matches,
}
use ovnflow.Owner.ExternalIds.Entries.{
  HasByteKeys, add_labels-plain, add_labels-label, owner_ids-Reserved, add_labels-Reserved,
  owner_ids-Entries, value_at-add_labels, keys-IsPlain,
}

-- The owner is valid, of the kind `o.kind`, and what is given of its name and id is that of `o`.
pub record Owns (o other : OwnerRef) : Type 0 where
  pub valid : validate_owner other ≡ ok tt
  pub kind : o.kind ≡ other.kind
  pub name : (other.name ≡ []) ⊎ (o.name ≡ other.name)
  pub id : (other.id ≡ []) ⊎ (o.id ≡ other.id)

pub record Recorded (o : OwnerRef) (labels : Labels) (ids : Dict Text) : Type 0 where
  pub managed_by : lookup managed_by_key ids ≡ some (codes "ovnflow")
  pub api_version : lookup api_version_key ids ≡ some (codes "v2")
  pub owner : (other : OwnerRef) → (ownership_matches ids other ≡ true) ↔ Owns o other
  pub label :
      (key : Text) → IsBytes key → lookup (external_id_label_key key) ids ≡ lookup key labels
  pub reserved :
      (key value : Text) → lookup key ids ≡ some value → is_reserved_external_id_key key ≡ true

all-true : (a b c : Bool) → (a && b && c) ≡ true → (a ≡ true) × (b ≡ true) × (c ≡ true)
all-true true true true h = (refl, refl, refl)
all-true true true false h = cc
all-true true false c h = cc
all-true false b c h = cc

given-eq :
    (value stored : Text)
    → (is_empty value || text_eq stored value) ≡ true
    → (value ≡ []) ⊎ (stored ≡ value)
given-eq [] stored h = inl refl
given-eq (c ∷ value) stored h = inr (text_eq→eq stored (c ∷ value) h)

eq-given :
    (value stored : Text)
    → (value ≡ []) ⊎ (stored ≡ value)
    → (is_empty value || text_eq stored value) ≡ true
eq-given [] stored h = refl
eq-given (c ∷ value) stored (inl e) = cc
eq-given (c ∷ value) stored (inr e) = eq→text_eq stored (c ∷ value) e

-- Which owners match the entries.
ownership_matches-Owns :
    (o other : OwnerRef) (ids : Dict Text)
    → value_at owner_kind_key ids ≡ o.kind
    → value_at owner_name_key ids ≡ o.name
    → value_at owner_id_key ids ≡ o.id
    → (ownership_matches ids other ≡ true) ↔ Owns o other
unfolding ownership_matches
ownership_matches-Owns o other ids a b c = elim (Result-cases (validate_owner other)) [
  | inl (e, failed) ↦
      rw (ownership_matches, failed)
        (λ (h : false ≡ true). cc, λ (h : Owns o other). let valid = h.valid in cc)
  | inr (passed, valid) ↦
      rw (ownership_matches, valid, a, b, c)
        (
          λ h.
              let (kind, name, id) = all-true _ _ _ h in
              record {
                valid = valid;
                kind = text_eq→eq o.kind other.kind kind;
                name = given-eq other.name o.name name;
                id = given-eq other.id o.id id;
              },
          λ (h : Owns o other).
              let kind = eq→text_eq o.kind other.kind h.kind in
              let name = eq-given other.name o.name h.name in
              let id = eq-given other.id o.id h.id in rw (kind, name, id) refl,
        )
]

-- `ExternalIDs` that succeeds records what manages the resource and by which version, the owner and
-- the labels, under reserved keys only: `OwnershipMatches` takes the ids to be those of exactly the
-- valid owners of that kind whose name and id, where they are given, are the recorded ones, and
-- under the key of a label stands what the label has. The keys of the labels are strings of bytes.
pub external_ids-Recorded :
    (o : OwnerRef) (labels : Labels) (ids : Dict Text)
    → HasByteKeys labels
    → external_ids o labels ≡ ok ids
    → Recorded o labels ids
unfolding external_ids
external_ids-Recorded o labels ids bytes h =
    let (valid, rest) = >>-ok (validate_owner o) _ h in
    let (valid_labels, added) = >>-ok (validate_labels labels) _ rest in
    let made : add_labels (owner_ids o) labels ≡ ids = ok_injective added in
    let (managed, version, kind, name, id, label) = owner_ids-Entries o.kind o.name o.id in
    let (p, q, r, s, t) = keys-IsPlain in
    let base = owner_ids o in
    subst (Recorded o labels) made (record {
      managed_by = add_labels-plain managed_by_key base labels p ∙ managed;
      api_version = add_labels-plain api_version_key base labels q ∙ version;
      owner = λ other.
          ownership_matches-Owns o other (add_labels base labels)
            (value_at-add_labels owner_kind_key base labels r ∙ kind)
            (value_at-add_labels owner_name_key base labels s ∙ name)
            (value_at-add_labels owner_id_key base labels t ∙ id);
      label = λ key byte_key. add_labels-label key base labels byte_key bytes (label key);
      reserved = add_labels-Reserved base labels (owner_ids-Reserved o);
    })
