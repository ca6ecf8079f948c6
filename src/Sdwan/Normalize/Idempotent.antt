-- ===== src/Sdwan/Normalize/Idempotent.antt =====
-- sdwan.go: `normalizeSDWANNetwork` reaches a normal form, with the links of the topology.
use ovnflow.Base.{true, false, List, [], ◌∷◌, All-weaken}
use ovnflow.Base.{Bool-cases, inl, inr, ◌≡◌, refl, ◌∙◌, subst}
use ovnflow.Base.Sort.{sort_by}
use ovnflow.Base.Sort.Laws.{sort-map_idempotent, sort_by-id, sort_by-IsSorted}
use ovnflow.Text.{Text, codes, text_eq}
use ovnflow.Sdwan.Types.{
  Network, Site, Link, Policy, pair_name, stable_name, is_relay_site, text_or,
}
use ovnflow.Sdwan.Normalize.{
  policy_less, link_less, normalize_sites, relay_site_names, full_mesh, hub_spoke, finish_link,
  topology_links, normalize_links, with_defaults, normalize_network,
}
use ovnflow.Sdwan.Normalize.Parts.{
  text_lt_asym, normalize_sites_idempotent, text_or_idempotent, finish_link_idempotent,
}
use ovnflow.Sdwan.Normalize.Topology.{HasLink, has_link-finished}
use ovnflow.Sdwan.Normalize.Mesh.{MeshIn, full_mesh-MeshIn, full_mesh-id}
use ovnflow.Sdwan.Normalize.Hubs.{HubsIn, SpokesIn, hub_spoke-HubsIn, hub_spoke-id, SpokesIn-weaken}

-- Names carried from one list of links to another.
MeshIn-weaken :
    (links more : List Link) (sites : List Site)
    → ((name : Text) → HasLink name links → HasLink name more)
    → MeshIn links sites
    → MeshIn more sites
MeshIn-weaken links more [] f h = tt
MeshIn-weaken links more (a ∷ sites) f h = (
  All-weaken (λ b. HasLink (pair_name a.name b.name) links)
      (λ b. HasLink (pair_name a.name b.name) more) sites (λ b. f (pair_name a.name b.name)) h.0,
  MeshIn-weaken links more sites f h.1,
)

HubsIn-weaken :
    (links more : List Link) (all sites : List Site)
    → ((name : Text) → HasLink name links → HasLink name more)
    → HubsIn links all sites
    → HubsIn more all sites
HubsIn-weaken links more all sites f h =
    All-weaken (λ s. is_relay_site s ≡ true → SpokesIn links s all)
      (λ s. is_relay_site s ≡ true → SpokesIn more s all) sites
      (λ s g e. SpokesIn-weaken s all links more f (g e)) h

-- A topology adds nothing to links that have all the names that it asks for.
topology_links-id :
    (n : Network) (links : List Link) (policies : List Policy)
    → ((name : Text) → HasLink name (topology_links n) → HasLink name links)
    → topology_links (record n { links = links; policies = policies }) ≡ links
unfolding topology_links
topology_links-id n links policies h =
    let sites = normalize_sites n.sites in
    elim (Bool-cases (text_eq n.topology (codes "full-mesh"))) [
      | inl e ↦
          let mesh = full_mesh n.transport sites n.links in
          let k : (name : Text) → HasLink name mesh → HasLink name links =
            subst (λ (l : List Link). (name : Text) → HasLink name l → HasLink name links)
              (rw e refl) h in
          rw e (
            full_mesh-id n.transport sites links
              (MeshIn-weaken mesh links sites k (full_mesh-MeshIn n.transport sites n.links)))
      | inr e ↦ elim (Bool-cases (text_eq n.topology (codes "hub-spoke"))) [
        | inl e' ↦
            let hubs = hub_spoke n.transport sites sites n.links in
            let k : (name : Text) → HasLink name hubs → HasLink name links =
              subst (λ (l : List Link). (name : Text) → HasLink name l → HasLink name links)
                (rw (e, e') refl) h in
            rw (e, e')
              (hub_spoke-id n.transport sites sites links (
                HubsIn-weaken hubs links sites sites k
                  (hub_spoke-HubsIn n.transport sites sites n.links)))
        | inr e' ↦ rw (e, e') refl
      ]
    ]

with_defaults_idempotent :
    (n : Network) (links : List Link) (policies : List Policy)
    → with_defaults (record (with_defaults n) { links = links; policies = policies })
      ≡ record (with_defaults n) { links = links; policies = policies }
unfolding with_defaults
with_defaults_idempotent n links policies =
    rw
      (
        text_or_idempotent n.layer (codes "l3"),
        text_or_idempotent n.topology (codes "partial-mesh"),
        text_or_idempotent n.transport (codes "wireguard"),
        text_or_idempotent n.path_mode (codes "direct"),
        normalize_sites_idempotent n.sites,
      )
      refl

normalize_links-id :
    (n : Network) (policies : List Policy)
    → normalize_links (record n { links = normalize_links n; policies = policies })
      ≡ normalize_links n
unfolding normalize_links link_less
normalize_links-id n policies =
    let relays = relay_site_names n.sites in
    rw
      (topology_links-id n (normalize_links n) policies
        (λ name h. has_link-finished n.transport n.path_mode relays name (topology_links n) ∙ h))
      (sort-map_idempotent link_less (finish_link n.transport n.path_mode relays)
        (λ a b. text_lt_asym (stable_name a) (stable_name b))
        (finish_link_idempotent n.transport n.path_mode relays) (topology_links n))

sort-policies :
    (policies : List Policy)
    → sort_by policy_less (sort_by policy_less policies) ≡ sort_by policy_less policies
unfolding policy_less
sort-policies policies =
    sort_by-id policy_less (sort_by policy_less policies)
      (sort_by-IsSorted policy_less (λ a b. text_lt_asym a.name b.name) policies)

-- Normalizing a normalized network changes nothing, whatever the network: the defaults are set, the
-- lists are unique and sorted, and the links that the topology asks for are there.
pub normalize_network_idempotent :
    (n : Network) → normalize_network (normalize_network n) ≡ normalize_network n
unfolding normalize_network
normalize_network_idempotent n =
    let d = with_defaults n in
    let policies = sort_by policy_less n.policies in
    rw
      (
        with_defaults_idempotent n (normalize_links d) policies,
        normalize_links-id d policies,
        sort-policies n.policies,
      )
      refl

finished-MeshIn :
    (n : Network)
    → text_eq n.topology (codes "full-mesh") ≡ true
    → MeshIn (normalize_links n) (normalize_sites n.sites)
unfolding normalize_links topology_links
finished-MeshIn n e =
    let sites = normalize_sites n.sites in
    let mesh = full_mesh n.transport sites n.links in
    rw e (
      MeshIn-weaken mesh _ sites
        (λ name h.
          has_link-finished n.transport n.path_mode (relay_site_names n.sites) name mesh ∙ h)
        (full_mesh-MeshIn n.transport sites n.links))

-- In the normal form of a full mesh there is a link of the stable name that each two sites make.
pub normalize_network-MeshIn :
    (n : Network)
    → n.topology ≡ codes "full-mesh"
    → MeshIn (normalize_network n).links (normalize_network n).sites
unfolding normalize_network with_defaults text_eq
normalize_network-MeshIn n e =
    let top : text_eq (text_or n.topology (codes "partial-mesh")) (codes "full-mesh") ≡ true =
      rw e refl in
    subst (MeshIn (normalize_links (with_defaults n))) (normalize_sites_idempotent n.sites)
      (finished-MeshIn (with_defaults n) top)

finished-HubsIn :
    (n : Network)
    → text_eq n.topology (codes "full-mesh") ≡ false
    → text_eq n.topology (codes "hub-spoke") ≡ true
    → HubsIn (normalize_links n) (normalize_sites n.sites) (normalize_sites n.sites)
unfolding normalize_links topology_links
finished-HubsIn n e e' =
    let sites = normalize_sites n.sites in
    let hubs = hub_spoke n.transport sites sites n.links in
    rw (e, e')
      (HubsIn-weaken hubs _ sites sites
        (λ name h.
          has_link-finished n.transport n.path_mode (relay_site_names n.sites) name hubs ∙ h)
        (hub_spoke-HubsIn n.transport sites sites n.links))

-- In the normal form of a hub-and-spoke network there is a link of the stable name that each relaying
-- site makes with each site of another name that does not relay.
pub normalize_network-HubsIn :
    (n : Network)
    → n.topology ≡ codes "hub-spoke"
    → HubsIn (normalize_network n).links (normalize_network n).sites (normalize_network n).sites
unfolding normalize_network with_defaults text_eq
normalize_network-HubsIn n e =
    let other : text_eq (text_or n.topology (codes "partial-mesh")) (codes "full-mesh") ≡ false =
      rw e refl in
    let hubs : text_eq (text_or n.topology (codes "partial-mesh")) (codes "hub-spoke") ≡ true =
      rw e refl in
    let links = normalize_links (with_defaults n) in
    subst (λ (s : List Site). HubsIn links s s) (normalize_sites_idempotent n.sites)
      (finished-HubsIn (with_defaults n) other hubs)
