-- ===== src/Sdwan/Validate/Sound.antt =====
-- sdwan.go: what `SDWANNetwork.Validate` makes sure of.
use ovnflow.Base.{◌≤◌, true, false, ◌&&◌, ◌||◌, not, List, [], ◌∷◌, map, length, All, All-weaken}
use ovnflow.Base.{if◌then◌else◌, ltb, ltb→le, ◌≡◌, sym, ap, ◌∙◌, arith}
use ovnflow.Text.{Text, codes, text_eq, is_empty}
use ovnflow.Errors.{ok, fail_if, fail_if-ok, bind-ok, >>-ok, ok_injective}
use ovnflow.Util.{validate_name, contains_string}
use ovnflow.Owner.{validate_labels}
use ovnflow.Sdwan.Types.{
  Network, Site, Link, Policy, is_relayed, is_relay_site, stable_name, text_or, is_layer,
  is_topology, is_transport, is_path_mode,
}
use ovnflow.Sdwan.Normalize.{relay_site_names}
use ovnflow.Sdwan.Validate.{
  validate_site, validate_link, validate_path_endpoint, validate_policy, validate_sites,
  validate_links, validate_policies, validate_head, validate_set_owner, validate_network,
}

abbrev pub site_names : List Site → List Text
site_names = map (λ s. s.name)

-- No site has one of the names, or that of a site in front of it.
abbrev pub NewNames : List Text → List Site → Type 0
NewNames names [] = Unit {0}
NewNames names (s ∷ sites) =
    (contains_string names s.name ≡ false) × NewNames (s.name ∷ names) sites

-- The ends of a link are two different sites among those, and one of them relays if the link's
-- path mode asks for it.
abbrev pub LinkFits : List Text → List Text → Link → Type 0
LinkFits names relays l =
    (contains_string names l.source ≡ true)
    × (contains_string names l.target ≡ true)
    × (text_eq l.source l.target ≡ false)
    × ((not (is_relayed l.path_mode)
          || contains_string relays l.source
          || contains_string relays l.target)
        ≡ true)

-- The sites that a policy names are among those.
abbrev pub PolicyFits : List Text → Policy → Type 0
PolicyFits names p =
    ((is_empty p.source_site || contains_string names p.source_site) ≡ true)
    × ((is_empty p.dest_site || contains_string names p.dest_site) ≡ true)

pub record Sound (n : Network) : Type 0 where
  pub enough : 2 ≤ length n.sites
  pub names : NewNames [] n.sites
  pub links : All (LinkFits (site_names n.sites) (relay_site_names n.sites)) n.links
  pub policies : All (PolicyFits (site_names n.sites)) n.policies

link-ok :
    (l : Link) (names relays : List Text) (fallback : Text)
    → validate_link l names fallback ≡ ok tt
    → validate_path_endpoint l relays ≡ ok tt
    → LinkFits names relays l
unfolding validate_link validate_path_endpoint
link-ok l names relays fallback h k =
    let a = (>>-ok (validate_name "sdwan link" (stable_name l)) _ h).1 in
    let from_known = contains_string names l.source in
    let to_known = contains_string names l.target in
    let b = >>-ok (fail_if (not from_known || not to_known) _) _ a in
    let b' = fail_if-ok (not from_known || not to_known) _ b.0 in
    let c = >>-ok (fail_if (text_eq l.source l.target) _) _ b.1 in
    let d =
      fail_if-ok
        (is_relayed l.path_mode
          && not (contains_string relays l.source)
          && not (contains_string relays l.target))
        _ k in
    (
      ground (arith, b'),
      ground (arith, b'),
      fail_if-ok (text_eq l.source l.target) _ c.0,
      ground (arith, d),
    )

links-ok :
    (names relays : List Text) (fallback : Text) (links : List Link)
    → validate_links names relays fallback links ≡ ok tt
    → All (LinkFits names relays) links
unfolding validate_links
links-ok names relays fallback [] h = tt
links-ok names relays fallback (l ∷ links) h =
    let a = >>-ok (validate_link l names fallback) _ h in
    let b = >>-ok (validate_path_endpoint l relays) _ a.1 in
    (link-ok l names relays fallback a.0 b.0, links-ok names relays fallback links b.1)

policy-ok : (p : Policy) (names : List Text) → validate_policy p names ≡ ok tt → PolicyFits names p
unfolding validate_policy
policy-ok p names h =
    let a = (>>-ok (validate_name "sdwan policy" p.name) _ h).1 in
    let source = not (is_empty p.source_site) && not (contains_string names p.source_site) in
    let dest = not (is_empty p.dest_site) && not (contains_string names p.dest_site) in
    let b = >>-ok (fail_if source _) _ a in
    let c = >>-ok (fail_if dest _) _ b.1 in
    let s = fail_if-ok source _ b.0 in
    let d = fail_if-ok dest _ c.0 in (ground (arith, s), ground (arith, d))

policies-ok :
    (names : List Text) (policies : List Policy)
    → validate_policies names policies ≡ ok tt
    → All (PolicyFits names) policies
unfolding validate_policies
policies-ok names [] h = tt
policies-ok names (p ∷ policies) h =
    let a = >>-ok (validate_policy p names) _ h in
    (policy-ok p names a.0, policies-ok names policies a.1)

-- The names that the loop over the sites has collected, asked for one name.
abbrev Collected : List Text → List Text → List Site → List Text × List Text → Type 0
Collected names relays sites seen =
    NewNames names sites
    × ((x : Text)
        → contains_string seen.0 x
          ≡ (contains_string names x || contains_string (site_names sites) x))
    × ((x : Text)
        → contains_string seen.1 x
          ≡ (contains_string relays x || contains_string (relay_site_names sites) x))

sites-ok :
    (layer : Text) (names relays : List Text) (sites : List Site) (seen : List Text × List Text)
    → validate_sites layer names relays sites ≡ ok seen
    → Collected names relays sites seen
unfolding validate_sites contains_string relay_site_names
sites-ok layer names relays [] seen h =
    let e = ok_injective h in
    (
      tt,
      λ x. ground (arith, ap (λ (p : List Text × List Text). contains_string p.0 x) e),
      λ x. ground (arith, ap (λ (p : List Text × List Text). contains_string p.1 x) e),
    )
sites-ok layer names relays (s ∷ sites) seen h =
    let a = >>-ok (validate_site s layer) _ h in
    let b = >>-ok (fail_if (contains_string names s.name) _) _ a.1 in
    let fresh = fail_if-ok (contains_string names s.name) _ b.0 in
    let next = if is_relay_site s then s.name ∷ relays else relays in
    let r = sites-ok layer (s.name ∷ names) next sites seen b.1 in
    ((fresh, r.0), λ x. ground (arith, r.1 x), λ x. ground (arith, r.2 x))

head-ok : (n : Network) → validate_head n ≡ ok tt → 2 ≤ length n.sites
unfolding validate_head
head-ok n h =
    let a = (>>-ok (validate_name "sdwan network" n.name) _ h).1 in
    let b = (>>-ok (fail_if (not (is_layer (text_or n.layer (codes "l3")))) _) _ a).1 in
    let c =
      (>>-ok (fail_if (not (is_topology (text_or n.topology (codes "partial-mesh")))) _) _ b).1 in
    let d =
      (>>-ok (fail_if (not (is_transport (text_or n.transport (codes "wireguard")))) _) _ c).1 in
    let e = (>>-ok (fail_if (not (is_path_mode (text_or n.path_mode (codes "direct")))) _) _ d).1 in
    let f = (>>-ok (validate_set_owner n.owner) _ e).1 in
    let g = (>>-ok (validate_labels n.labels) _ f).1 in
    ltb→le (length n.sites) 2 (fail_if-ok (ltb (length n.sites) 2) _ g)

-- Lists with the same members serve as well.
LinkFits-same :
    (names names' relays relays' : List Text) (l : Link)
    → ((x : Text) → contains_string names x ≡ contains_string names' x)
    → ((x : Text) → contains_string relays x ≡ contains_string relays' x)
    → LinkFits names relays l
    → LinkFits names' relays' l
LinkFits-same names names' relays relays' l e d h = (
  sym (e l.source) ∙ h.0,
  sym (e l.target) ∙ h.1,
  h.2,
  ground (arith, h.3, d l.source, d l.target),
)

PolicyFits-same :
    (names names' : List Text) (p : Policy)
    → ((x : Text) → contains_string names x ≡ contains_string names' x)
    → PolicyFits names p
    → PolicyFits names' p
PolicyFits-same names names' p e h =
    (ground (arith, h.0, e p.source_site), ground (arith, h.1, e p.dest_site))

-- A network that `Validate` accepts has at least two sites, no two of one name; every link joins
-- two different sites of the network, and touches a relaying site if its path mode is relay,
-- transit or auto; and every site that a policy names is one of the network's.
pub validate_network-Sound : (n : Network) → validate_network n ≡ ok tt → Sound n
unfolding validate_network contains_string
validate_network-Sound n h =
    let fallback = text_or n.transport (codes "wireguard") in
    let a = >>-ok (validate_head n) _ h in
    let b = bind-ok (validate_sites (text_or n.layer (codes "l3")) [] [] n.sites) _ a.1 in
    let seen = b.0 in
    let s = sites-ok (text_or n.layer (codes "l3")) [] [] n.sites seen b.1 in
    let c = >>-ok (validate_links seen.0 seen.1 fallback n.links) _ b.2 in
    record {
      enough = head-ok n a.0;
      names = s.0;
      links =
          All-weaken (LinkFits seen.0 seen.1)
            (LinkFits (site_names n.sites) (relay_site_names n.sites)) n.links
            (λ l. LinkFits-same seen.0 _ seen.1 _ l s.1 s.2)
            (links-ok seen.0 seen.1 fallback n.links c.0);
      policies =
          All-weaken (PolicyFits seen.0) (PolicyFits (site_names n.sites)) n.policies
            (λ p. PolicyFits-same seen.0 _ p s.1) (policies-ok seen.0 n.policies c.1);
    }
