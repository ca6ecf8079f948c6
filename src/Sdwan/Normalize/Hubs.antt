-- ===== src/Sdwan/Normalize/Hubs.antt =====
-- sdwan.go: the names of the links of hubs and spokes are there, and are not added again.
use ovnflow.Base.{Bool, true, false, ◌||◌, List, [], ◌∷◌, All, All-weaken}
use ovnflow.Base.{if◌then◌else◌, Bool-cases, inl, inr, ◌≡◌, refl}
use ovnflow.Text.{Text, text_eq}
use ovnflow.Sdwan.Types.{Site, Link, pair_name, stable_name, is_relay_site}
use ovnflow.Sdwan.Normalize.{ensure_auto_link, auto_link, hub_row, hub_spoke}
use ovnflow.Sdwan.Normalize.Topology.{
  HasLink, ensure_auto_link-HasLink, ensure_auto_link-own, ensure_auto_link-id,
  stable_name-auto_link,
}

-- Whether a hub is joined to the site: not to itself, and not to another relaying site.
abbrev pub skips : Site → Site → Bool
skips hub spoke = text_eq spoke.name hub.name || is_relay_site spoke

-- A link of the name that the hub makes with each spoke among the sites.
abbrev pub SpokesIn : List Link → Site → List Site → Type 0
SpokesIn links hub sites =
    All (λ s. skips hub s ≡ false → HasLink (pair_name hub.name s.name) links) sites

-- A link of the name that each hub among the sites makes with each spoke among all.
abbrev pub HubsIn : List Link → List Site → List Site → Type 0
HubsIn links all sites = All (λ h. is_relay_site h ≡ true → SpokesIn links h all) sites

hub_row-HasLink :
    (t : Text) (hub : Site) (sites : List Site) (links : List Link) (name : Text)
    → HasLink name links
    → HasLink name (hub_row t hub sites links)
unfolding hub_row
hub_row-HasLink t hub [] links name h = h
hub_row-HasLink t hub (s ∷ sites) links name h = elim (Bool-cases (skips hub s)) [
  | inl e ↦ rw e (hub_row-HasLink t hub sites links name h)
  | inr e ↦ rw e (hub_row-HasLink t hub sites _ name (ensure_auto_link-HasLink name links _ h))
]

hub_row-SpokesIn :
    (t : Text) (hub : Site) (sites : List Site) (links : List Link)
    → SpokesIn (hub_row t hub sites links) hub sites
unfolding hub_row
hub_row-SpokesIn t hub [] links = tt
hub_row-SpokesIn t hub (s ∷ sites) links =
    let link = auto_link t hub.name s.name in
    let own : HasLink (pair_name hub.name s.name) (ensure_auto_link links link) =
      rw⁻¹ (stable_name-auto_link t hub.name s.name) (ensure_auto_link-own links link) in
    let next = if skips hub s then links else ensure_auto_link links link in
    (
      λ e. rw e (hub_row-HasLink t hub sites _ (pair_name hub.name s.name) own),
      hub_row-SpokesIn t hub sites next,
    )

pub hub_spoke-HasLink :
    (t : Text) (all sites : List Site) (links : List Link) (name : Text)
    → HasLink name links
    → HasLink name (hub_spoke t all sites links)
unfolding hub_spoke
hub_spoke-HasLink t all [] links name h = h
hub_spoke-HasLink t all (hub ∷ sites) links name h = elim (Bool-cases (is_relay_site hub)) [
  | inl e ↦ rw e (hub_spoke-HasLink t all sites _ name (hub_row-HasLink t hub all links name h))
  | inr e ↦ rw e (hub_spoke-HasLink t all sites links name h)
]

-- Names that are there are there behind more rounds.
pub SpokesIn-weaken :
    (hub : Site) (sites : List Site) (links more : List Link)
    → ((name : Text) → HasLink name links → HasLink name more)
    → SpokesIn links hub sites
    → SpokesIn more hub sites
SpokesIn-weaken hub sites links more f h =
    All-weaken (λ s. skips hub s ≡ false → HasLink (pair_name hub.name s.name) links)
      (λ s. skips hub s ≡ false → HasLink (pair_name hub.name s.name) more) sites
      (λ s g e. f (pair_name hub.name s.name) (g e)) h

pub hub_spoke-HubsIn :
    (t : Text) (all sites : List Site) (links : List Link)
    → HubsIn (hub_spoke t all sites links) all sites
unfolding hub_spoke
hub_spoke-HubsIn t all [] links = tt
hub_spoke-HubsIn t all (hub ∷ sites) links =
    let next = if is_relay_site hub then hub_row t hub all links else links in
    (
      λ e. rw e (
          SpokesIn-weaken hub all (hub_row t hub all links) _
            (hub_spoke-HasLink t all sites (hub_row t hub all links))
            (hub_row-SpokesIn t hub all links)),
      hub_spoke-HubsIn t all sites next,
    )

hub_row-id :
    (t : Text) (hub : Site) (sites : List Site) (links : List Link)
    → SpokesIn links hub sites
    → hub_row t hub sites links ≡ links
unfolding hub_row
hub_row-id t hub [] links h = refl
hub_row-id t hub (s ∷ sites) links h = elim (Bool-cases (skips hub s)) [
  | inl e ↦ rw e (hub_row-id t hub sites links h.1)
  | inr e ↦
      let there : HasLink (stable_name (auto_link t hub.name s.name)) links =
        rw (stable_name-auto_link t hub.name s.name) (h.0 e) in
      rw (e, ensure_auto_link-id links (auto_link t hub.name s.name) there)
        (hub_row-id t hub sites links h.1)
]

pub hub_spoke-id :
    (t : Text) (all sites : List Site) (links : List Link)
    → HubsIn links all sites
    → hub_spoke t all sites links ≡ links
unfolding hub_spoke
hub_spoke-id t all [] links h = refl
hub_spoke-id t all (hub ∷ sites) links h = elim (Bool-cases (is_relay_site hub)) [
  | inl e ↦ rw (e, hub_row-id t hub all links (h.0 e)) (hub_spoke-id t all sites links h.1)
  | inr e ↦ rw e (hub_spoke-id t all sites links h.1)
]
