-- ===== src/Sdwan/Normalize/Origin.antt =====
-- sdwan.go: where the links of a normal form come from.
use mathlib.Core.List.{Memᴰ}
use mathlib.Core.List.Memᴰ.{head, tail}
use ovnflow.Base.{◌||◌, List, [], ◌∷◌, map, All}
use ovnflow.Base.{Bool-cases, inl, inr, ◌≡◌, refl, ◌∙◌}
use ovnflow.Base.Sort.Laws.{sort_by-All}
use ovnflow.Text.{Text, codes, text_eq}
use ovnflow.Sdwan.Types.{Network, Site, Link, pair_name, stable_name, is_relay_site}
use ovnflow.Sdwan.Normalize.{
  link_less, normalize_sites, relay_site_names, named, replace_link, has_link, ensure_auto_link,
  auto_link, mesh_row, full_mesh, hub_row, hub_spoke, finish_link, topology_links, normalize_links,
}
use ovnflow.Sdwan.Normalize.Parts.{stable_name-named, stable_name-finish_link}
use ovnflow.Sdwan.Normalize.Topology.{stable_name-auto_link}

-- A link joins what a given link of its stable name joins, or it joins two of the sites under the
-- name that they make.
pub data Origin (given : List Link) (sites : List Site) (l : Link) : Type 0 where
  from_given :
      (g : Link)
      → Memᴰ g given
      → stable_name l ≡ stable_name g
      → l.source ≡ g.source
      → l.target ≡ g.target
      → Origin given sites l
  from_sites :
      (a b : Site)
      → Memᴰ a sites
      → Memᴰ b sites
      → stable_name l ≡ pair_name a.name b.name
      → l.source ≡ a.name
      → l.target ≡ b.name
      → Origin given sites l

module _ (P : Link → Type 0) where
  replace_link-All :
      (base : List Link) (link : Link)
      → P (named link)
      → All P base
      → All P (replace_link base link)
  unfolding replace_link
  replace_link-All [] link p h = (p, tt)
  replace_link-All (l ∷ base) link p h =
      elim (Bool-cases (text_eq (stable_name l) (stable_name link))) [
        | inl e ↦ rw e (p, h.1)
        | inr e ↦ rw e (h.0, replace_link-All base link p h.1)
      ]

  ensure_auto_link-All :
      (base : List Link) (link : Link)
      → P (named link)
      → All P base
      → All P (ensure_auto_link base link)
  unfolding ensure_auto_link
  ensure_auto_link-All base link p h = elim (Bool-cases (has_link (stable_name link) base)) [
    | inl e ↦ rw e h
    | inr e ↦ rw e (replace_link-All base link p h)
  ]

  -- The links that a topology may add between two of `all`.
  abbrev Between : Text → List Site → Type 0
  Between t all = (a b : Site) → Memᴰ a all → Memᴰ b all → P (named (auto_link t a.name b.name))

  abbrev AreAmong : List Site → List Site → Type 0
  AreAmong sites all = (s : Site) → Memᴰ s sites → Memᴰ s all

  mesh_row-All :
      (t : Text) (all : List Site) (a : Site) (sites : List Site) (links : List Link)
      → Between t all
      → Memᴰ a all
      → AreAmong sites all
      → All P links
      → All P (mesh_row t a sites links)
  unfolding mesh_row
  mesh_row-All t all a [] links p m sub h = h
  mesh_row-All t all a (b ∷ sites) links p m sub h =
      mesh_row-All t all a sites _ p m (λ s k. sub s (tail k))
        (ensure_auto_link-All links (auto_link t a.name b.name) (p a b m (sub b (head refl))) h)

  full_mesh-All :
      (t : Text) (all sites : List Site) (links : List Link)
      → Between t all
      → AreAmong sites all
      → All P links
      → All P (full_mesh t sites links)
  unfolding full_mesh
  full_mesh-All t all [] links p sub h = h
  full_mesh-All t all (a ∷ sites) links p sub h =
      let below : AreAmong sites all = λ s k. sub s (tail k) in
      full_mesh-All t all sites _ p below
        (mesh_row-All t all a sites links p (sub a (head refl)) below h)

  hub_row-All :
      (t : Text) (all : List Site) (hub : Site) (sites : List Site) (links : List Link)
      → Between t all
      → Memᴰ hub all
      → AreAmong sites all
      → All P links
      → All P (hub_row t hub sites links)
  unfolding hub_row
  hub_row-All t all hub [] links p m sub h = h
  hub_row-All t all hub (s ∷ sites) links p m sub h =
      let below : AreAmong sites all = λ s k. sub s (tail k) in
      elim (Bool-cases (text_eq s.name hub.name || is_relay_site s)) [
        | inl e ↦ rw e (hub_row-All t all hub sites links p m below h)
        | inr e ↦ rw e (
            hub_row-All t all hub sites _ p m below (
              ensure_auto_link-All links (auto_link t hub.name s.name)
                (p hub s m (sub s (head refl))) h))
      ]

  hub_spoke-All :
      (t : Text) (all sites : List Site) (links : List Link)
      → Between t all
      → AreAmong sites all
      → All P links
      → All P (hub_spoke t all sites links)
  unfolding hub_spoke
  hub_spoke-All t all [] links p sub h = h
  hub_spoke-All t all (hub ∷ sites) links p sub h =
      let below : AreAmong sites all = λ s k. sub s (tail k) in
      elim (Bool-cases (is_relay_site hub)) [
        | inl e ↦ rw e (
            hub_spoke-All t all sites _ p below
              (hub_row-All t all hub all links p (sub hub (head refl)) (λ s k. k) h))
        | inr e ↦ rw e (hub_spoke-All t all sites links p below h)
      ]

  topology_links-All :
      (n : Network)
      → Between n.transport (normalize_sites n.sites)
      → All P n.links
      → All P (topology_links n)
  unfolding topology_links
  topology_links-All n p h =
      let sites = normalize_sites n.sites in
      elim (Bool-cases (text_eq n.topology (codes "full-mesh"))) [
        | inl e ↦ rw e (full_mesh-All n.transport sites sites n.links p (λ s k. k) h)
        | inr e ↦ elim (Bool-cases (text_eq n.topology (codes "hub-spoke"))) [
          | inl e' ↦ rw (e, e') (hub_spoke-All n.transport sites sites n.links p (λ s k. k) h)
          | inr e' ↦ rw (e, e') h
        ]
      ]

given-Origin :
    (sites : List Site) (given links : List Link)
    → ((l : Link) → Memᴰ l links → Memᴰ l given)
    → All (Origin given sites) links
given-Origin sites given [] sub = tt
given-Origin sites given (l ∷ links) sub = (
  from_given l (sub l (head refl)) refl refl refl,
  given-Origin sites given links (λ k m. sub k (tail m)),
)

named-Origin :
    (t : Text) (given : List Link) (sites : List Site) (a b : Site)
    → Memᴰ a sites
    → Memᴰ b sites
    → Origin given sites (named (auto_link t a.name b.name))
unfolding auto_link
named-Origin t given sites a b m k =
    from_sites a b m k
      (stable_name-named (auto_link t a.name b.name) ∙ stable_name-auto_link t a.name b.name) refl
      refl

finish_link-Origin :
    (t mode : Text) (relays : List Text) (given : List Link) (sites : List Site) (l : Link)
    → Origin given sites l
    → Origin given sites (finish_link t mode relays l)
unfolding finish_link
finish_link-Origin t mode relays given sites l (from_given g m e f k) =
    from_given g m (stable_name-finish_link t mode relays l ∙ e) f k
finish_link-Origin t mode relays given sites l (from_sites a b m m' e f k) =
    from_sites a b m m' (stable_name-finish_link t mode relays l ∙ e) f k

map-Origin :
    (t mode : Text) (relays : List Text) (given : List Link) (sites : List Site) (links : List Link)
    → All (Origin given sites) links
    → All (Origin given sites) (map (finish_link t mode relays) links)
map-Origin t mode relays given sites [] h = tt
map-Origin t mode relays given sites (l ∷ links) h = (
  finish_link-Origin t mode relays given sites l h.0,
  map-Origin t mode relays given sites links h.1,
)

pub normalize_links-Origin :
    (n : Network) → All (Origin n.links (normalize_sites n.sites)) (normalize_links n)
unfolding normalize_links
normalize_links-Origin n =
    let sites = normalize_sites n.sites in
    let relays = relay_site_names n.sites in
    sort_by-All (Origin n.links sites) link_less _ (
      map-Origin n.transport n.path_mode relays n.links sites (topology_links n) (
        topology_links-All (Origin n.links sites) n (named-Origin n.transport n.links sites)
          (given-Origin sites n.links n.links (λ l m. m))))
