-- ===== src/Sdwan/Normalize/Topology.antt =====
-- sdwan.go: which links there are by name, behind an added link and in the finished list.
use ovnflow.Base.{true, List, [], ◌∷◌, map}
use ovnflow.Base.{Bool-cases, inl, inr, ◌≡◌, refl, sym, ◌∙◌, arith}
use ovnflow.Base.Sort.{sort_by}
use ovnflow.Base.Sort.Laws.{any-sort_by}
use ovnflow.Text.{Text, text_eq}
use ovnflow.Text.Laws.{text_eq_refl, text_eq→eq}
use ovnflow.Sdwan.Types.{Link, pair_name, stable_name}
use ovnflow.Sdwan.Normalize.{
  replace_link, has_link, ensure_auto_link, auto_link, finish_link, link_less,
}
use ovnflow.Sdwan.Normalize.Parts.{stable_name-named, stable_name-finish_link}

-- There is a link of that stable name.
abbrev pub HasLink : Text → List Link → Type 0
HasLink name links = has_link name links ≡ true

replace_link-HasLink :
    (name : Text) (base : List Link) (link : Link)
    → HasLink name base
    → HasLink name (replace_link base link)
unfolding replace_link
replace_link-HasLink name [] link h = cc
replace_link-HasLink name (l ∷ base) link h =
    elim (Bool-cases (text_eq (stable_name l) (stable_name link))) [
      | inl e ↦
          let same = text_eq→eq (stable_name l) (stable_name link) e in
          rw (e, stable_name-named link, sym same) h
      | inr e ↦ ground (arith, e, replace_link-HasLink name base link)
    ]

replace_link-own :
    (base : List Link) (link : Link) → HasLink (stable_name link) (replace_link base link)
unfolding replace_link
replace_link-own [] link = rw (stable_name-named link, text_eq_refl (stable_name link)) refl
replace_link-own (l ∷ base) link = elim (Bool-cases (text_eq (stable_name l) (stable_name link))) [
  | inl e ↦ rw (e, stable_name-named link, text_eq_refl (stable_name link)) refl
  | inr e ↦ rw (e, e) (replace_link-own base link)
]

pub ensure_auto_link-HasLink :
    (name : Text) (base : List Link) (link : Link)
    → HasLink name base
    → HasLink name (ensure_auto_link base link)
unfolding ensure_auto_link
ensure_auto_link-HasLink name base link h = elim (Bool-cases (has_link (stable_name link) base)) [
  | inl e ↦ rw e h
  | inr e ↦ rw e (replace_link-HasLink name base link h)
]

pub ensure_auto_link-own :
    (base : List Link) (link : Link) → HasLink (stable_name link) (ensure_auto_link base link)
unfolding ensure_auto_link
ensure_auto_link-own base link = elim (Bool-cases (has_link (stable_name link) base)) [
  | inl e ↦ rw (e, e) refl
  | inr e ↦ rw e (replace_link-own base link)
]

-- A link that is there is not added.
pub ensure_auto_link-id :
    (base : List Link) (link : Link)
    → HasLink (stable_name link) base
    → ensure_auto_link base link ≡ base
unfolding ensure_auto_link
ensure_auto_link-id base link h = rw h refl

pub stable_name-auto_link : (t a b : Text) → stable_name (auto_link t a b) ≡ pair_name a b
unfolding stable_name auto_link
stable_name-auto_link t a b = refl

has_link-map :
    (t mode : Text) (relays : List Text) (name : Text) (links : List Link)
    → has_link name (map (finish_link t mode relays) links) ≡ has_link name links
has_link-map t mode relays name [] = refl
has_link-map t mode relays name (l ∷ links) =
    rw (stable_name-finish_link t mode relays l, has_link-map t mode relays name links) refl

-- Finishing and sorting the links keeps their stable names.
pub has_link-finished :
    (t mode : Text) (relays : List Text) (name : Text) (links : List Link)
    → has_link name (sort_by link_less (map (finish_link t mode relays) links))
      ≡ has_link name links
has_link-finished t mode relays name links =
    any-sort_by (λ l. text_eq (stable_name l) name) link_less
      (map (finish_link t mode relays) links)
    ∙ has_link-map t mode relays name links
