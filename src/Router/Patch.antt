-- ===== src/Router/Patch.antt =====
-- linuxrouter/router.go: a patch of a router.
pub mod Named
pub mod View
use ovnflow.Base.{
  Bool, true, false, ◌&&◌, not, List, [], ◌∷◌, ◌++◌, map, Option, none, some, String, if◌then◌else◌,
}
use ovnflow.Text.{Text, text_eq, is_empty}
use ovnflow.Errors.{
  conflict, ownership_violation, not_found, wrap, Error, Result, ok, err, ◌>>=◌, ◌>>◌, fail_if,
}
use ovnflow.Util.{contains_string}
use ovnflow.Owner.{OwnerRef, validate_owner}
use ovnflow.Router.Types.{
  Interface, Route, HostRecord, DnsMasq, SnatRule, MasqueradeRule, DnatRule, PortForwardRule,
  DestinationMapRule, Nat, FirewallRule, Firewall, Spec, Router,
}
use ovnflow.Router.Names.{
  named, snat_name, masquerade_name, dnat_name, port_forward_name, destination_map_name,
}

pub record PatchPreconditions : Type 0 where
  pub resource_version : Text
  pub observed_hash : Text
  pub owner : OwnerRef

pub record PatchOptions : Type 0 where
  pub require_ownership : Bool
  pub ignore_not_found : Bool

pub record InterfacePatch : Type 0 where
  pub add : List Interface
  pub replace : List Interface
  pub delete : List Text

pub record RoutePatch : Type 0 where
  pub add : List Route
  pub replace : List Route
  pub delete : List Text

pub record DnsMasqPatch : Type 0 where
  pub add_hosts : List HostRecord
  pub replace : Option DnsMasq
  pub delete_hosts : List Text

pub record NatDelete : Type 0 where
  pub snat_rules : List Text
  pub masquerades : List Text
  pub dnat_rules : List Text
  pub port_forwards : List Text
  pub destination_maps : List Text

pub record NatPatch : Type 0 where
  pub add : Nat
  pub replace : Option Nat
  pub delete : NatDelete

pub record FirewallPatch : Type 0 where
  pub add_rules : List FirewallRule
  pub replace : Option Firewall
  pub delete_rules : List Text

pub record Patch : Type 0 where
  pub preconditions : PatchPreconditions
  pub options : PatchOptions
  pub interfaces : InterfacePatch
  pub routes : RoutePatch
  pub dnsmasq : DnsMasqPatch
  pub nat : NatPatch
  pub firewall : FirewallPatch

module _ {ℓ} {A : Type ℓ} (name_of : A → Text) where
  -- The first value with the name of the replacement gives way to it, or it is appended.
  unfoldable pub replace_one : A → List A → List A
  replace_one replacement [] = replacement ∷ []
  replace_one replacement (existing ∷ base) =
      let rest = replace_one replacement base in
      if text_eq (name_of existing) (name_of replacement)
      then replacement ∷ base
      else existing ∷ rest

  unfoldable pub replace_by_name : List A → List A → List A
  replace_by_name base [] = base
  replace_by_name base (replacement ∷ replacements) =
      replace_by_name (replace_one replacement base) replacements

  -- The first name that none of the values has.
  unfoldable pub first_missing : List A → List Text → Option Text
  first_missing base [] = none
  first_missing base (name ∷ names) =
      let rest = first_missing base names in
      if contains_string (map name_of base) name then rest else some name

  unfoldable pub without_names : List Text → List A → List A
  without_names names [] = []
  without_names names (value ∷ base) =
      let rest = without_names names base in
      if contains_string names (name_of value) then rest else value ∷ rest

abbrev missing_error : String → String → Text → Error
missing_error kind message name = wrap not_found "" "patch-delete" (named kind name) message false

abbrev check_missing {ℓ} : {A : Type ℓ} → String → String → List A → Option Text → Result (List A)
check_missing kind message out none = ok out
check_missing kind message out (some name) = err (missing_error kind message name)

-- The message is the kind with " not found" behind it.
unfoldable pub delete_by_name {ℓ} :
    {A : Type ℓ} (name_of : A → Text)
    → List A
    → List Text
    → Bool
    → String
    → String
    → Result (List A)
unfolding first_missing without_names
delete_by_name name_of base [] ignore_missing kind message = ok base
delete_by_name name_of base (name ∷ names) ignore_missing kind message =
    let missing = first_missing name_of base (name ∷ names) in
    check_missing kind message (without_names name_of (name ∷ names) base)
      (if ignore_missing then none else missing)

abbrev owner_eq : OwnerRef → OwnerRef → Bool
owner_eq a b = text_eq a.kind b.kind && text_eq a.name b.name && text_eq a.id b.id

-- `Patch.Validate`: the preconditions.
unfoldable pub validate_patch : Patch → Router → Result (Unit {0})
validate_patch p current = do
  fail_if
      (not (is_empty p.preconditions.resource_version)
        && not (text_eq p.preconditions.resource_version current.status.resource_version))
      (wrap conflict "" "patch" current.name "resource version precondition failed" false)
  fail_if
      (not (is_empty p.preconditions.observed_hash)
        && not (text_eq p.preconditions.observed_hash current.status.observed_hash))
      (wrap conflict "" "patch" current.name "observed hash precondition failed" false)
  (if p.options.require_ownership
      then (do
        validate_owner p.preconditions.owner
        fail_if (not (owner_eq current.spec.owner p.preconditions.owner))
            (wrap ownership_violation "" "patch" current.name "owner precondition failed" false))
      else ok tt)

abbrev or_replaced {ℓ} : {A : Type ℓ} → A → Option A → A
or_replaced a none = a
or_replaced a (some b) = b

abbrev interface_name : Interface → Text
interface_name i = i.name

abbrev route_name : Route → Text
route_name r = r.name

abbrev host_name : HostRecord → Text
host_name h = h.domain

abbrev firewall_rule_name : FirewallRule → Text
firewall_rule_name r = r.name

unfoldable pub patch_interfaces : InterfacePatch → Bool → List Interface → Result (List Interface)
patch_interfaces p ignore base = do
  kept ←
      delete_by_name interface_name (replace_by_name interface_name base p.replace) p.delete ignore
        "interface" "interface not found"
  ok (kept ++ p.add)

unfoldable pub patch_routes : RoutePatch → Bool → List Route → Result (List Route)
patch_routes p ignore base = do
  kept ←
      delete_by_name route_name (replace_by_name route_name base p.replace) p.delete ignore "route"
        "route not found"
  ok (kept ++ p.add)

unfoldable pub patch_nat : NatPatch → Bool → Nat → Result Nat
patch_nat p ignore old = do
  let n = or_replaced old p.replace
  snat ← delete_by_name snat_name n.snat_rules p.delete.snat_rules ignore "snat" "snat not found"
  masquerades ←
      delete_by_name masquerade_name n.masquerades p.delete.masquerades ignore "masquerade"
        "masquerade not found"
  dnat ← delete_by_name dnat_name n.dnat_rules p.delete.dnat_rules ignore "dnat" "dnat not found"
  forwards ←
      delete_by_name port_forward_name n.port_forwards p.delete.port_forwards ignore "port-forward"
        "port-forward not found"
  maps ←
      delete_by_name destination_map_name n.destination_maps p.delete.destination_maps ignore
        "destination-map" "destination-map not found"
  ok (record {
    snat_rules = snat ++ p.add.snat_rules;
    masquerades = masquerades ++ p.add.masquerades;
    dnat_rules = dnat ++ p.add.dnat_rules;
    port_forwards = forwards ++ p.add.port_forwards;
    destination_maps = maps ++ p.add.destination_maps;
  })

unfoldable pub patch_dnsmasq : DnsMasqPatch → Bool → DnsMasq → Result DnsMasq
patch_dnsmasq p ignore old = do
  let d = or_replaced old p.replace
  hosts ←
      delete_by_name host_name d.hosts p.delete_hosts ignore "dnsmasq-host" "dnsmasq-host not found"
  ok (record d { hosts = hosts ++ p.add_hosts })

unfoldable pub patch_firewall : FirewallPatch → Bool → Firewall → Result Firewall
patch_firewall p ignore old = do
  let f = or_replaced old p.replace
  rules ←
      delete_by_name firewall_rule_name f.rules p.delete_rules ignore "firewall-rule"
        "firewall-rule not found"
  ok (record { rules = rules ++ p.add_rules })

-- `Patch.ApplyTo` of a router that is not nil. The router is as it was where there is an error.
unfoldable pub apply_to : Patch → Router → Result Router
apply_to p router = do
  let ignore = p.options.ignore_not_found
  interfaces ← patch_interfaces p.interfaces ignore router.spec.interfaces
  routes ← patch_routes p.routes ignore router.spec.routes
  nat ← patch_nat p.nat ignore router.spec.nat
  dnsmasq ← patch_dnsmasq p.dnsmasq ignore router.spec.dnsmasq
  firewall ← patch_firewall p.firewall ignore router.spec.firewall
  let spec : Spec = record router.spec {
    interfaces = interfaces;
    routes = routes;
    nat = nat;
    dnsmasq = dnsmasq;
    firewall = firewall;
  }
  ok (record router { spec = spec })
