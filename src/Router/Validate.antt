-- ===== src/Router/Validate.antt =====
-- linuxrouter/router.go: the `Validate` methods.
pub mod Rules
pub mod Sound
use ovnflow.Base.{
  ℕ, Bool, true, false, ◌&&◌, ◌||◌, not, List, [], ◌∷◌, if◌then◌else◌, Option, none, some,
}
use ovnflow.Text.{Text, codes, text_eq, is_blank, is_empty}
use ovnflow.Errors.{Error, Result, ok, err, ◌>>=◌, ◌>>◌, fail_if}
use ovnflow.Netip.Classic.{is_ip, is_cidr}
use ovnflow.OpenFlow.Mac.{parse_mac}
use ovnflow.Owner.{OwnerRef, validate_owner, validate_labels}
use ovnflow.Router.Types.{
  Interface, Route, DhcpRange, StaticLease, HostRecord, DnsMasq, SnatRule, MasqueradeRule, DnatRule,
  PortForwardRule, DestinationMapRule, Nat, FirewallRule, Firewall, Spec, Router,
}
use ovnflow.Router.Names.{
  wrap_validation, validate_name, validate_rule_name, validate_external_ids, valid_port,
  valid_dnsmasq_server, is_one_of, snat_name, masquerade_name, dnat_name, port_forward_name,
  destination_map_name,
}

module _ {ℓ} {A : Type ℓ} where
  -- A loop that returns the first error.
  unfoldable pub each : (A → Result (Unit {0})) → List A → Result (Unit {0})
  each check [] = ok tt
  each check (a ∷ rest) = do check a; each check rest

  -- A loop that passes the names met so far on.
  unfoldable pub each_named :
      (A → List Text → Result (List Text)) → List A → List Text → Result (List Text)
  each_named check [] names = ok names
  each_named check (a ∷ rest) names = do after ← check a names; each_named check rest after

abbrev is_mac : Text → Bool
is_mac s = elim (parse_mac s) [ none ↦ false | some mac ↦ true ]

-- Set, and not an IP address or not a CIDR.
abbrev bad_ip : Text → Bool
bad_ip s = not (is_empty s) && not (is_ip s)

abbrev bad_cidr : Text → Bool
bad_cidr s = not (is_empty s) && not (is_cidr s)

unfoldable pub validate_interface : Interface → Result (Unit {0})
validate_interface i = do
  validate_name "interface" i.name
  fail_if
      (not (is_empty i.role)
        && not (text_eq i.role (codes "lan"))
        && not (text_eq i.role (codes "wan")))
      (wrap_validation "interface" i.name "invalid role" false)
  each
      (λ addr.
        fail_if (not (is_cidr addr)) (wrap_validation "interface" i.name "invalid address" true))
      i.addresses
  fail_if (bad_ip i.gateway) (wrap_validation "interface" i.name "invalid gateway" false)
  validate_external_ids "interface port" i.name i.port_external_ids
  validate_external_ids "interface" i.name i.interface_external_ids

unfoldable pub validate_route : Route → Result (Unit {0})
validate_route r =
    fail_if (bad_cidr r.destination) (wrap_validation "route" r.name "invalid destination" true)

unfoldable pub validate_range : DhcpRange → Result (Unit {0})
validate_range r = do
  fail_if (not (is_ip r.start)) (wrap_validation "dnsmasq" r.start "invalid dhcp range start" false)
  fail_if (not (is_ip r.end)) (wrap_validation "dnsmasq" r.end "invalid dhcp range end" false)

unfoldable pub validate_lease : StaticLease → Result (Unit {0})
validate_lease l = do
  fail_if (not (is_mac l.mac)) (wrap_validation "dnsmasq" l.mac "invalid static lease mac" true)
  fail_if (not (is_ip l.ip)) (wrap_validation "dnsmasq" l.ip "invalid static lease ip" false)

unfoldable pub validate_host : HostRecord → Result (Unit {0})
validate_host h = do
  fail_if (is_blank h.domain)
      (wrap_validation "dnsmasq" h.domain "host domain must not be empty" false)
  fail_if (elim h.ips [ [] ↦ true | _ ∷ _ ↦ false ])
      (wrap_validation "dnsmasq" h.domain "host record requires at least one ip" false)
  each
      (λ ip.
        fail_if (not (is_ip ip))
          (wrap_validation "dnsmasq" h.domain "invalid host record ip" false))
      h.ips

unfoldable pub validate_dnsmasq : DnsMasq → Result (Unit {0})
validate_dnsmasq d = do
  each validate_range d.dhcp_ranges
  each
      (λ server.
        fail_if (not (valid_dnsmasq_server server))
          (wrap_validation "dnsmasq" server "invalid dns server" false))
      d.servers
  each validate_lease d.leases
  each validate_host d.hosts

unfoldable pub validate_snat : SnatRule → List Text → Result (List Text)
validate_snat r names = do
  after ← validate_rule_name (snat_name r) names
  fail_if (not (is_cidr r.source_cidr))
      (wrap_validation "nat" (snat_name r) "invalid source cidr" true)
  fail_if (not (is_ip r.to_source))
      (wrap_validation "nat" (snat_name r) "invalid snat source" false)
  ok after

unfoldable pub validate_masquerade : MasqueradeRule → List Text → Result (List Text)
validate_masquerade r names = do
  after ← validate_rule_name (masquerade_name r) names
  fail_if (not (is_cidr r.source_cidr))
      (wrap_validation "nat" (masquerade_name r) "invalid source cidr" true)
  ok after

unfoldable pub validate_port_forward : PortForwardRule → List Text → Result (List Text)
validate_port_forward r names = do
  after ← validate_rule_name (port_forward_name r) names
  fail_if (not (is_one_of r.protocol ("tcp" ∷ "udp" ∷ [])))
      (wrap_validation "nat" (port_forward_name r) "protocol must be tcp or udp" false)
  fail_if (bad_ip r.listen_ip)
      (wrap_validation "nat" (port_forward_name r) "invalid listen ip" false)
  fail_if (not (valid_port r.listen_port) || not (valid_port r.target_port))
      (wrap_validation "nat" (port_forward_name r) "ports must be between 1 and 65535" false)
  fail_if (not (is_ip r.target_ip))
      (wrap_validation "nat" (port_forward_name r) "invalid target ip" false)
  ok after

unfoldable pub validate_dnat : DnatRule → List Text → Result (List Text)
validate_dnat r names = do
  after ← validate_rule_name (dnat_name r) names
  fail_if (not (is_ip r.match_address) || not (is_ip r.target_address))
      (wrap_validation "nat" (dnat_name r) "invalid dnat address" false)
  ok after

unfoldable pub validate_destination_map : DestinationMapRule → List Text → Result (List Text)
validate_destination_map r names = do
  after ← validate_rule_name (destination_map_name r) names
  fail_if (not (is_ip r.match_address) || not (is_ip r.target_address))
      (wrap_validation "nat" (destination_map_name r) "invalid destination map address" false)
  fail_if (bad_cidr r.from_cidr)
      (wrap_validation "nat" (destination_map_name r) "invalid destination map source cidr" true)
  fail_if (bad_ip r.source_nat)
      (wrap_validation "nat" (destination_map_name r) "invalid destination map source nat" false)
  ok after

-- The names of all rules, the last one first.
unfoldable pub validate_nat_names : Nat → Result (List Text)
validate_nat_names n = do
  snat ← each_named validate_snat n.snat_rules []
  masquerade ← each_named validate_masquerade n.masquerades snat
  forward ← each_named validate_port_forward n.port_forwards masquerade
  dnat ← each_named validate_dnat n.dnat_rules forward
  each_named validate_destination_map n.destination_maps dnat

unfoldable pub validate_nat : Nat → Result (Unit {0})
validate_nat n = do names ← validate_nat_names n; ok tt

unfoldable pub validate_firewall_rule : FirewallRule → List Text → Result (List Text)
validate_firewall_rule r names = do
  after ← validate_rule_name r.name names
  fail_if (not (is_blank r.action) && not (is_one_of r.action ("allow" ∷ "drop" ∷ "reject" ∷ [])))
      (wrap_validation "firewall" r.name "action must be allow, drop, or reject" false)
  fail_if
      (not (is_empty r.direction)
        && not (is_one_of r.direction ("ingress" ∷ "egress" ∷ "forward" ∷ "in" ∷ "out" ∷ [])))
      (wrap_validation "firewall" r.name "invalid direction" false)
  fail_if
      (not (is_empty r.protocol)
        && not (
            is_one_of r.protocol ("tcp" ∷ "udp" ∷ "icmp" ∷ "icmpv6" ∷ "ip" ∷ "ipv4" ∷ "ipv6" ∷ [])))
      (wrap_validation "firewall" r.name "invalid protocol" false)
  each
      (λ cidr. fail_if (not (is_cidr cidr)) (wrap_validation "firewall" r.name "invalid cidr" true))
      r.cidrs
  each
      (λ port.
        fail_if (not (valid_port port))
          (wrap_validation "firewall" r.name "port must be between 1 and 65535" false))
      r.ports
  ok after

unfoldable pub validate_firewall : Firewall → Result (Unit {0})
validate_firewall f = do names ← each_named validate_firewall_rule f.rules []; ok tt

-- An owner that is set is checked.
abbrev owner_set : OwnerRef → Bool
owner_set o = not (is_empty o.kind) || not (is_empty o.name) || not (is_empty o.id)

unfoldable pub validate_router : Router → Result (Unit {0})
validate_router r = do
  validate_name "router" r.name
  (if owner_set r.spec.owner then validate_owner r.spec.owner else ok tt)
  validate_labels r.spec.labels
  each validate_interface r.spec.interfaces
  each validate_route r.spec.routes
  validate_dnsmasq r.spec.dnsmasq
  validate_nat r.spec.nat
  validate_firewall r.spec.firewall
