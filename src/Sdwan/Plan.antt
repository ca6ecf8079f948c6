-- ===== src/Sdwan/Plan.antt =====
-- sdwan.go: `planSDWANApply`, the operations that bring a network about.
pub mod Complete
use ovnflow.Base.{not, ◌||◌, List, [], ◌∷◌, ◌++◌, String, if◌then◌else◌}
use ovnflow.Text.{Text, codes, text_eq}
use ovnflow.Sdwan.Types.{Network, Site, Link, Policy, Operation, ApplyPlan, stable_name, is_relayed}
use ovnflow.Sdwan.Normalize.{normalize_links}

abbrev pub ensure_op : String → Text → String → Operation
ensure_op resource name description = record {
  action = codes "ensure";
  resource = codes resource;
  name = name;
  description = codes description;
}

unfoldable pub site_ops : List Site → List Operation
site_ops [] = []
site_ops (site ∷ sites) =
    ensure_op "SDWANSite" site.name "ensure SD-WAN site identity and route inventory"
    ∷ site_ops sites

unfoldable pub tunnel_op : Link → Operation
tunnel_op l =
    if text_eq l.transport (codes "wireguard")
    then ensure_op "WireGuardTunnel" (stable_name l) "ensure SD-WAN tunnel"
    else if text_eq l.transport (codes "geneve") || text_eq l.transport (codes "vxlan")
    then ensure_op "OVSTunnel" (stable_name l) "ensure SD-WAN tunnel"
    else ensure_op "SDWANTunnel" (stable_name l) "ensure SD-WAN tunnel"

unfoldable pub forward_op : Text → Link → Operation
forward_op layer l =
    if text_eq layer (codes "l3")
    then ensure_op "RoutePolicy" (stable_name l) "ensure SD-WAN route and policy-routing state"
    else ensure_op "OpenFlowRule" (stable_name l) "ensure L2 overlay forwarding flow"

unfoldable pub path_ops : Link → List Operation
path_ops l =
    if is_relayed l.path_mode
    then ensure_op "SDWANPath" (stable_name l)
        "ensure SD-WAN path selection and relay compatibility"
      ∷ []
    else []

unfoldable pub link_ops : Text → List Link → List Operation
link_ops layer [] = []
link_ops layer (l ∷ links) =
    let rest = link_ops layer links in
    if l.disabled || not l.enabled
    then rest
    else tunnel_op l ∷ forward_op layer l ∷ (path_ops l ++ rest)

unfoldable pub policy_ops : List Policy → List Operation
policy_ops [] = []
policy_ops (policy ∷ policies) =
    ensure_op "SDWANPolicy" policy.name "ensure SD-WAN traffic policy" ∷ policy_ops policies

unfoldable pub plan_apply : Network → ApplyPlan
plan_apply n = record {
  network = n.name;
  operations =
      ensure_op "SDWANNetwork" n.name "reconcile SD-WAN desired state"
      ∷ (site_ops n.sites ++ (link_ops n.layer (normalize_links n) ++ policy_ops n.policies));
}
