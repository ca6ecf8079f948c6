-- ===== src/Sdwan/Normalize.antt =====
-- sdwan.go: the normal form of a network (defaults, unique lists, the links of the topology, sorted
-- by name). The copies that `cloneSDWANNetwork` makes are equal values here.
pub mod Parts
pub mod Topology
pub mod Mesh
pub mod Hubs
pub mod Idempotent
pub mod Extends
pub mod Given
pub mod Origin
pub mod Joined
use ovnflow.Base.{Bool, true, false, ◌&&◌, ◌||◌, not, List, [], ◌∷◌, map, any, if◌then◌else◌}
use ovnflow.Base.Sort.{sort_by}
use ovnflow.Text.{Text, codes, text_eq, text_lt, is_empty}
use ovnflow.Util.{contains_string, unique_strings}
use ovnflow.Util.Int.{pos}
use ovnflow.Sdwan.Types.{Network, Site, Link, Policy, stable_name, is_relay_site, text_or}

unfoldable pub normalize_site : Site → Site
normalize_site s = record s {
  cidrs = unique_strings s.cidrs;
  l2_segments = unique_strings s.l2_segments;
}

unfoldable pub site_less : Site → Site → Bool
site_less a b = text_lt a.name b.name

unfoldable pub link_less : Link → Link → Bool
link_less a b = text_lt (stable_name a) (stable_name b)

unfoldable pub policy_less : Policy → Policy → Bool
policy_less a b = text_lt a.name b.name

unfoldable pub normalize_sites : List Site → List Site
normalize_sites sites = sort_by site_less (map normalize_site sites)

unfoldable pub relay_site_names : List Site → List Text
relay_site_names [] = []
relay_site_names (site ∷ sites) =
    let rest = relay_site_names sites in if is_relay_site site then site.name ∷ rest else rest

-- The link under its stable name.
abbrev pub named : Link → Link
named l = record l { name = stable_name l }

unfoldable pub replace_link : List Link → Link → List Link
replace_link [] link = named link ∷ []
replace_link (l ∷ base) link =
    let rest = replace_link base link in
    if text_eq (stable_name l) (stable_name link) then named link ∷ base else l ∷ rest

unfoldable pub replace_site : List Site → Site → List Site
replace_site [] site = site ∷ []
replace_site (s ∷ base) site =
    let rest = replace_site base site in if text_eq s.name site.name then site ∷ base else s ∷ rest

unfoldable pub replace_policy : List Policy → Policy → List Policy
replace_policy [] policy = policy ∷ []
replace_policy (p ∷ base) policy =
    let rest = replace_policy base policy in
    if text_eq p.name policy.name then policy ∷ base else p ∷ rest

abbrev pub has_link : Text → List Link → Bool
has_link name links = any (λ l. text_eq (stable_name l) name) links

unfoldable pub ensure_auto_link : List Link → Link → List Link
ensure_auto_link base link =
    if has_link (stable_name link) base then base else replace_link base link

-- The link that a topology asks for.
unfoldable pub auto_link : Text → Text → Text → Link
auto_link transport a b = record {
  name = [];
  source = a;
  target = b;
  transport = transport;
  path_mode = [];
  endpoint_a = [];
  endpoint_b = [];
  allowed_ips = [];
  cost = pos 0;
  enabled = true;
  disabled = false;
  attributes = [];
}

-- The inner and the outer loop of the full mesh.
unfoldable pub mesh_row : Text → Site → List Site → List Link → List Link
mesh_row transport a [] links = links
mesh_row transport a (b ∷ sites) links =
    mesh_row transport a sites (ensure_auto_link links (auto_link transport a.name b.name))

unfoldable pub full_mesh : Text → List Site → List Link → List Link
full_mesh transport [] links = links
full_mesh transport (a ∷ sites) links = full_mesh transport sites (mesh_row transport a sites links)

-- The inner and the outer loop of hubs and spokes.
unfoldable pub hub_row : Text → Site → List Site → List Link → List Link
hub_row transport hub [] links = links
hub_row transport hub (spoke ∷ sites) links = hub_row transport hub sites (
    if text_eq spoke.name hub.name || is_relay_site spoke
    then links
    else ensure_auto_link links (auto_link transport hub.name spoke.name))

unfoldable pub hub_spoke : Text → List Site → List Site → List Link → List Link
hub_spoke transport all [] links = links
hub_spoke transport all (hub ∷ sites) links =
    hub_spoke transport all sites
      (if is_relay_site hub then hub_row transport hub all links else links)

unfoldable pub default_path_mode : Text → Link → List Text → Text
default_path_mode mode link relays =
    if is_empty mode || text_eq mode (codes "direct")
    then codes "direct"
    else if contains_string relays link.source || contains_string relays link.target
    then mode
    else codes "direct"

-- The body of the last loop of `normalizeSDWANLinks`; the path mode is chosen when the name and the
-- transport are set, which it does not read.
unfoldable pub finish_link : Text → Text → List Text → Link → Link
finish_link transport mode relays l = record l {
  name = stable_name l;
  transport = text_or l.transport transport;
  path_mode = if is_empty l.path_mode then default_path_mode mode l relays else l.path_mode;
  enabled = not l.disabled;
  allowed_ips = unique_strings l.allowed_ips;
}

-- The links that the topology adds to those at hand.
unfoldable pub topology_links : Network → List Link
topology_links n =
    if text_eq n.topology (codes "full-mesh")
    then full_mesh n.transport (normalize_sites n.sites) n.links
    else if text_eq n.topology (codes "hub-spoke")
    then hub_spoke n.transport (normalize_sites n.sites) (normalize_sites n.sites) n.links
    else n.links

unfoldable pub normalize_links : Network → List Link
normalize_links n =
    sort_by link_less
      (map (finish_link n.transport n.path_mode (relay_site_names n.sites)) (topology_links n))

-- The network with the defaults and its sites in normal form.
unfoldable pub with_defaults : Network → Network
with_defaults n = record n {
  layer = text_or n.layer (codes "l3");
  topology = text_or n.topology (codes "partial-mesh");
  transport = text_or n.transport (codes "wireguard");
  path_mode = text_or n.path_mode (codes "direct");
  sites = normalize_sites n.sites;
}

unfoldable pub normalize_network : Network → Network
normalize_network n =
    let out = with_defaults n in
    record out { links = normalize_links out; policies = sort_by policy_less n.policies }
