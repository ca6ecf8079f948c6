-- ===== src/Sdwan/Validate.antt =====
-- sdwan.go: the `Validate` methods of networks, sites, links and policies.
pub mod Sound
use ovnflow.Base.{◌&&◌, ◌||◌, not, List, [], ◌∷◌, ◌++◌, length, ltb, leb}
use ovnflow.Base.{if◌then◌else◌}
use ovnflow.Text.{Text, codes, text_eq, is_empty, is_blank}
use ovnflow.Errors.{validation, conflict, Result, ok, ◌>>=◌, ◌>>◌, fail_if}
use ovnflow.Util.{wrapped, validate_name, contains_string}
use ovnflow.Owner.{OwnerRef, validate_owner, validate_labels}
use ovnflow.Ipam.State.{parse_ipv4_prefix}
use ovnflow.Sdwan.Types.{
  Network, Site, Link, Policy, is_layer, is_topology, is_transport, is_path_mode, is_relayed,
  stable_name, is_relay_site, text_or,
}

unfoldable pub validate_cidrs : List Text → Result (Unit {0})
validate_cidrs [] = ok tt
validate_cidrs (cidr ∷ cidrs) = do prefix ← parse_ipv4_prefix cidr "validate"; validate_cidrs cidrs

unfoldable pub validate_site : Site → Text → Result (Unit {0})
validate_site s layer = do
  validate_name "sdwan site" s.name
  fail_if (is_blank s.router) (wrapped validation "validate" s.name "site router is required")
  fail_if (text_eq layer (codes "l3") && leb (length s.cidrs) 0)
      (wrapped validation "validate" s.name "L3 site CIDRs are required")
  validate_cidrs s.cidrs
  validate_labels s.attributes

unfoldable pub validate_link : Link → List Text → Text → Result (Unit {0})
validate_link l sites fallback = do
  validate_name "sdwan link" (stable_name l)
  fail_if (not (contains_string sites l.source) || not (contains_string sites l.target))
      (wrapped validation "validate" (stable_name l) "link endpoints must reference known sites")
  fail_if (text_eq l.source l.target)
      (wrapped validation "validate" (stable_name l) "link endpoints must be different")
  fail_if (not (is_transport (text_or l.transport fallback)))
      (wrapped validation "validate" (stable_name l) "unsupported SD-WAN link transport")
  fail_if (not (is_empty l.path_mode) && not (is_path_mode l.path_mode))
      (wrapped validation "validate" (stable_name l) "unsupported SD-WAN link path mode")

unfoldable pub validate_path_endpoint : Link → List Text → Result (Unit {0})
validate_path_endpoint l relays =
    fail_if
      (is_relayed l.path_mode
        && not (contains_string relays l.source)
        && not (contains_string relays l.target))
      (wrapped validation "validate" (stable_name l)
        "relay, transit, and auto links must touch a hub, transit, or relay site")

unfoldable pub validate_policy : Policy → List Text → Result (Unit {0})
validate_policy p sites = do
  validate_name "sdwan policy" p.name
  fail_if (not (is_empty p.source_site) && not (contains_string sites p.source_site))
      (wrapped validation "validate" p.name "source site must reference a known site")
  fail_if (not (is_empty p.dest_site) && not (contains_string sites p.dest_site))
      (wrapped validation "validate" p.name "destination site must reference a known site")
  validate_cidrs (p.source_cidrs ++ p.dest_cidrs)

-- The loop over the sites, with the names seen so far and those of the relaying sites.
unfoldable pub validate_sites :
    Text → List Text → List Text → List Site → Result (List Text × List Text)
validate_sites layer names relays [] = ok (names, relays)
validate_sites layer names relays (site ∷ sites) = do
  validate_site site layer
  fail_if (contains_string names site.name)
      (wrapped conflict "validate" site.name "duplicate SD-WAN site")
  validate_sites layer (site.name ∷ names)
      (if is_relay_site site then site.name ∷ relays else relays) sites

unfoldable pub validate_links : List Text → List Text → Text → List Link → Result (Unit {0})
validate_links names relays fallback [] = ok tt
validate_links names relays fallback (link ∷ links) = do
  validate_link link names fallback
  validate_path_endpoint link relays
  validate_links names relays fallback links

unfoldable pub validate_policies : List Text → List Policy → Result (Unit {0})
validate_policies names [] = ok tt
validate_policies names (policy ∷ policies) = do
  validate_policy policy names
  validate_policies names policies

-- An owner is checked if one of its fields is set.
unfoldable pub validate_set_owner : OwnerRef → Result (Unit {0})
validate_set_owner o =
    if is_empty o.kind && is_empty o.name && is_empty o.id then ok tt else validate_owner o

-- The checks of `SDWANNetwork.Validate` in front of the loops, on the fields with their defaults.
unfoldable pub validate_head : Network → Result (Unit {0})
validate_head n = do
  validate_name "sdwan network" n.name
  fail_if (not (is_layer (text_or n.layer (codes "l3"))))
      (wrapped validation "validate" n.name "unsupported SD-WAN layer")
  fail_if (not (is_topology (text_or n.topology (codes "partial-mesh"))))
      (wrapped validation "validate" n.name "unsupported SD-WAN topology")
  fail_if (not (is_transport (text_or n.transport (codes "wireguard"))))
      (wrapped validation "validate" n.name "unsupported SD-WAN transport")
  fail_if (not (is_path_mode (text_or n.path_mode (codes "direct"))))
      (wrapped validation "validate" n.name "unsupported SD-WAN path mode")
  validate_set_owner n.owner
  validate_labels n.labels
  fail_if (ltb (length n.sites) 2)
      (wrapped validation "validate" n.name "at least two SD-WAN sites are required")

unfoldable pub validate_network : Network → Result (Unit {0})
validate_network n = do
  validate_head n
  seen ← validate_sites (text_or n.layer (codes "l3")) [] [] n.sites
  validate_links seen.0 seen.1 (text_or n.transport (codes "wireguard")) n.links
  validate_policies seen.0 n.policies
