-- ===== src/Router/Equal.antt =====
-- `reflect.DeepEqual` of two specifications of a router that were copied by `cloneSpec`, whose slices
-- are never nil and whose maps are nil where they are empty.
use ovnflow.Base.{Bool, ◌&&◌}
use ovnflow.Text.{text_eq}
use ovnflow.Util.Equal.{list_eq, bool_eq, texts_eq, entry_eq}
use ovnflow.Util.Int.{int_eq}
use ovnflow.Owner.{OwnerRef}
use ovnflow.Router.Types.{
  Interface, Route, DhcpRange, StaticLease, HostRecord, DnsMasq, SnatRule, MasqueradeRule, DnatRule,
  PortForwardRule, DestinationMapRule, Nat, FirewallRule, Firewall, Spec,
}

abbrev owner_ref_eq : OwnerRef → OwnerRef → Bool
owner_ref_eq a b = text_eq a.kind b.kind && (text_eq a.name b.name && text_eq a.id b.id)

abbrev interface_eq : Interface → Interface → Bool
interface_eq a b =
    text_eq a.name b.name
    && text_eq a.role b.role
    && text_eq a.bridge b.bridge
    && text_eq a.ovs_port b.ovs_port
    && texts_eq a.addresses b.addresses
    && text_eq a.gateway b.gateway
    && bool_eq a.dhcp_client b.dhcp_client
    && list_eq entry_eq a.port_external_ids b.port_external_ids
    && list_eq entry_eq a.interface_external_ids b.interface_external_ids

abbrev route_eq : Route → Route → Bool
route_eq a b =
    text_eq a.name b.name
    && text_eq a.destination b.destination
    && text_eq a.gateway b.gateway
    && text_eq a.interface b.interface

abbrev dhcp_range_eq : DhcpRange → DhcpRange → Bool
dhcp_range_eq a b = text_eq a.start b.start && text_eq a.end b.end && text_eq a.lease b.lease

abbrev static_lease_eq : StaticLease → StaticLease → Bool
static_lease_eq a b = text_eq a.mac b.mac && text_eq a.ip b.ip && text_eq a.name b.name

abbrev host_record_eq : HostRecord → HostRecord → Bool
host_record_eq a b = text_eq a.domain b.domain && texts_eq a.ips b.ips

abbrev dns_masq_eq : DnsMasq → DnsMasq → Bool
dns_masq_eq a b =
    bool_eq a.enabled b.enabled
    && list_eq dhcp_range_eq a.dhcp_ranges b.dhcp_ranges
    && texts_eq a.servers b.servers
    && list_eq static_lease_eq a.leases b.leases
    && list_eq host_record_eq a.hosts b.hosts
    && text_eq a.pid_file b.pid_file
    && text_eq a.lease_file b.lease_file
    && text_eq a.config_file b.config_file

abbrev snat_rule_eq : SnatRule → SnatRule → Bool
snat_rule_eq a b =
    text_eq a.name b.name
    && text_eq a.source_cidr b.source_cidr
    && text_eq a.out_interface b.out_interface
    && text_eq a.to_source b.to_source

abbrev masquerade_rule_eq : MasqueradeRule → MasqueradeRule → Bool
masquerade_rule_eq a b =
    text_eq a.name b.name
    && text_eq a.source_cidr b.source_cidr
    && text_eq a.out_interface b.out_interface

abbrev dnat_rule_eq : DnatRule → DnatRule → Bool
dnat_rule_eq a b =
    text_eq a.name b.name
    && text_eq a.match_address b.match_address
    && text_eq a.target_address b.target_address
    && text_eq a.in_interface b.in_interface

abbrev port_forward_rule_eq : PortForwardRule → PortForwardRule → Bool
port_forward_rule_eq a b =
    text_eq a.name b.name
    && text_eq a.protocol b.protocol
    && text_eq a.in_interface b.in_interface
    && text_eq a.listen_ip b.listen_ip
    && int_eq a.listen_port b.listen_port
    && text_eq a.target_ip b.target_ip
    && int_eq a.target_port b.target_port

abbrev destination_map_rule_eq : DestinationMapRule → DestinationMapRule → Bool
destination_map_rule_eq a b =
    text_eq a.name b.name
    && text_eq a.match_address b.match_address
    && text_eq a.target_address b.target_address
    && text_eq a.from_cidr b.from_cidr
    && text_eq a.in_interface b.in_interface
    && text_eq a.out_interface b.out_interface
    && text_eq a.source_nat b.source_nat

abbrev nat_eq : Nat → Nat → Bool
nat_eq a b =
    list_eq snat_rule_eq a.snat_rules b.snat_rules
    && list_eq masquerade_rule_eq a.masquerades b.masquerades
    && list_eq dnat_rule_eq a.dnat_rules b.dnat_rules
    && list_eq port_forward_rule_eq a.port_forwards b.port_forwards
    && list_eq destination_map_rule_eq a.destination_maps b.destination_maps

abbrev firewall_rule_eq : FirewallRule → FirewallRule → Bool
firewall_rule_eq a b =
    text_eq a.name b.name
    && text_eq a.action b.action
    && text_eq a.direction b.direction
    && text_eq a.protocol b.protocol
    && texts_eq a.cidrs b.cidrs
    && list_eq int_eq a.ports b.ports

abbrev firewall_eq : Firewall → Firewall → Bool
firewall_eq a b = list_eq firewall_rule_eq a.rules b.rules

abbrev pub spec_eq : Spec → Spec → Bool
spec_eq a b =
    text_eq a.namespace b.namespace
    && owner_ref_eq a.owner b.owner
    && list_eq entry_eq a.labels b.labels
    && list_eq interface_eq a.interfaces b.interfaces
    && list_eq route_eq a.routes b.routes
    && dns_masq_eq a.dnsmasq b.dnsmasq
    && nat_eq a.nat b.nat
    && firewall_eq a.firewall b.firewall
