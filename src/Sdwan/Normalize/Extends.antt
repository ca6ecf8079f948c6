-- ===== src/Sdwan/Normalize/Extends.antt =====
-- sdwan.go: the links that a topology adds stand behind those that it was given.
use ovnflow.Base.{false, ◌||◌, List, [], ◌∷◌, ◌++◌, append_assoc, append-nil, All, All-append}
use ovnflow.Base.{Bool-cases, inl, inr, ◌≡◌, refl, sym, ◌∙◌, ap, any-append, arith}
use ovnflow.Text.{Text, codes, text_eq}
use ovnflow.Sdwan.Types.{Network, Site, Link, stable_name, is_relay_site}
use ovnflow.Sdwan.Normalize.{
  normalize_sites, named, replace_link, has_link, ensure_auto_link, mesh_row, full_mesh, hub_row,
  hub_spoke, topology_links,
}
use ovnflow.Sdwan.Normalize.Parts.{stable_name-named}

-- No given link has the link's stable name.
abbrev pub IsNew : List Link → Link → Type 0
IsNew given l = has_link (stable_name l) given ≡ false

-- The given links, and new ones behind them.
pub record Extends (given links : List Link) : Type 0 where
  pub added : List Link
  pub new : All (IsNew given) added
  pub all : links ≡ given ++ added

replace_link-new :
    (base : List Link) (link : Link)
    → has_link (stable_name link) base ≡ false
    → replace_link base link ≡ base ++ (named link ∷ [])
unfolding replace_link
replace_link-new [] link h = refl
replace_link-new (l ∷ base) link h =
    elim (Bool-cases (text_eq (stable_name l) (stable_name link))) [
      | inl e ↦ ground (arith, e, h)
      | inr e ↦
          let rest : has_link (stable_name link) base ≡ false = ground (arith, e, h) in
          rw e (ap (λ r. l ∷ r) (replace_link-new base link rest))
    ]

ensure_auto_link-Extends :
    (given links : List Link) (link : Link)
    → Extends given links
    → Extends given (ensure_auto_link links link)
unfolding ensure_auto_link
ensure_auto_link-Extends given links link h =
    elim (Bool-cases (has_link (stable_name link) links)) [
      | inl e ↦ rw e h
      | inr e ↦
          let there = any-append (λ l. text_eq (stable_name l) (stable_name link)) given h.added in
          let here : has_link (stable_name link) (given ++ h.added) ≡ false =
            ap (has_link (stable_name link)) (sym h.all) ∙ e in
          let fresh : has_link (stable_name link) given ≡ false = ground (arith, there, here) in
          let fresh_named : IsNew given (named link) = rw (stable_name-named link) fresh in
          rw e (record {
            added = h.added ++ (named link ∷ []);
            new = All-append (IsNew given) h.added (named link ∷ []) h.new (fresh_named, tt);
            all =
                replace_link-new links link e
                ∙ ap (λ r. r ++ (named link ∷ [])) h.all
                ∙ append_assoc given h.added (named link ∷ []);
          })
    ]

mesh_row-Extends :
    (t : Text) (a : Site) (sites : List Site) (given links : List Link)
    → Extends given links
    → Extends given (mesh_row t a sites links)
unfolding mesh_row
mesh_row-Extends t a [] given links h = h
mesh_row-Extends t a (b ∷ sites) given links h =
    mesh_row-Extends t a sites given _ (ensure_auto_link-Extends given links _ h)

full_mesh-Extends :
    (t : Text) (sites : List Site) (given links : List Link)
    → Extends given links
    → Extends given (full_mesh t sites links)
unfolding full_mesh
full_mesh-Extends t [] given links h = h
full_mesh-Extends t (a ∷ sites) given links h =
    full_mesh-Extends t sites given _ (mesh_row-Extends t a sites given links h)

hub_row-Extends :
    (t : Text) (hub : Site) (sites : List Site) (given links : List Link)
    → Extends given links
    → Extends given (hub_row t hub sites links)
unfolding hub_row
hub_row-Extends t hub [] given links h = h
hub_row-Extends t hub (s ∷ sites) given links h =
    elim (Bool-cases (text_eq s.name hub.name || is_relay_site s)) [
      | inl e ↦ rw e (hub_row-Extends t hub sites given links h)
      | inr e ↦
          rw e (hub_row-Extends t hub sites given _ (ensure_auto_link-Extends given links _ h))
    ]

hub_spoke-Extends :
    (t : Text) (all sites : List Site) (given links : List Link)
    → Extends given links
    → Extends given (hub_spoke t all sites links)
unfolding hub_spoke
hub_spoke-Extends t all [] given links h = h
hub_spoke-Extends t all (hub ∷ sites) given links h = elim (Bool-cases (is_relay_site hub)) [
  | inl e ↦ rw e (hub_spoke-Extends t all sites given _ (hub_row-Extends t hub all given links h))
  | inr e ↦ rw e (hub_spoke-Extends t all sites given links h)
]

pub topology_links-Extends : (n : Network) → Extends n.links (topology_links n)
unfolding topology_links
topology_links-Extends n =
    let sites = normalize_sites n.sites in
    let none_added : Extends n.links n.links = record {
      added = [];
      new = tt;
      all = sym (append-nil n.links);
    } in
    elim (Bool-cases (text_eq n.topology (codes "full-mesh"))) [
      | inl e ↦ rw e (full_mesh-Extends n.transport sites n.links n.links none_added)
      | inr e ↦ elim (Bool-cases (text_eq n.topology (codes "hub-spoke"))) [
        | inl e' ↦ rw (e, e') (hub_spoke-Extends n.transport sites sites n.links n.links none_added)
        | inr e' ↦ rw (e, e') none_added
      ]
    ]
