-- ===== src/Router/Types.antt =====
-- linuxrouter/router.go: the router with its interfaces, routes, DHCP and DNS server, address
-- translation, firewall and observed status, and commands for the host.
use ovnflow.Base.{Bool, List}
use ovnflow.Text.{Text}
use ovnflow.Util.Dict.{Dict}
use ovnflow.Util.Int.{ℤ}
use ovnflow.Owner.{OwnerRef, Labels}

pub record Interface : Type 0 where
  pub name : Text
  pub role : Text
  pub bridge : Text
  pub ovs_port : Text
  pub addresses : List Text
  pub gateway : Text
  pub dhcp_client : Bool
  pub port_external_ids : Dict Text
  pub interface_external_ids : Dict Text

pub record InterfaceStatus : Type 0 where
  pub name : Text
  pub role : Text
  pub addresses : List Text
  pub up : Bool

pub record Route : Type 0 where
  pub name : Text
  pub destination : Text
  pub gateway : Text
  pub interface : Text

pub record RouteStatus : Type 0 where
  pub destination : Text
  pub gateway : Text
  pub interface : Text

pub record DhcpRange : Type 0 where
  pub start : Text
  pub end : Text
  pub lease : Text

pub record StaticLease : Type 0 where
  pub mac : Text
  pub ip : Text
  pub name : Text

pub record HostRecord : Type 0 where
  pub domain : Text
  pub ips : List Text

pub record DnsMasq : Type 0 where
  pub enabled : Bool
  pub dhcp_ranges : List DhcpRange
  pub servers : List Text
  pub leases : List StaticLease
  pub hosts : List HostRecord
  pub pid_file : Text
  pub lease_file : Text
  pub config_file : Text

pub record DnsMasqStatus : Type 0 where
  pub running : Bool
  pub pid : ℤ

pub record SnatRule : Type 0 where
  pub name : Text
  pub source_cidr : Text
  pub out_interface : Text
  pub to_source : Text

pub record MasqueradeRule : Type 0 where
  pub name : Text
  pub source_cidr : Text
  pub out_interface : Text

pub record DnatRule : Type 0 where
  pub name : Text
  pub match_address : Text
  pub target_address : Text
  pub in_interface : Text

pub record PortForwardRule : Type 0 where
  pub name : Text
  pub protocol : Text
  pub in_interface : Text
  pub listen_ip : Text
  pub listen_port : ℤ
  pub target_ip : Text
  pub target_port : ℤ

pub record DestinationMapRule : Type 0 where
  pub name : Text
  pub match_address : Text
  pub target_address : Text
  pub from_cidr : Text
  pub in_interface : Text
  pub out_interface : Text
  pub source_nat : Text

pub record Nat : Type 0 where
  pub snat_rules : List SnatRule
  pub masquerades : List MasqueradeRule
  pub dnat_rules : List DnatRule
  pub port_forwards : List PortForwardRule
  pub destination_maps : List DestinationMapRule

pub record FirewallRule : Type 0 where
  pub name : Text
  pub action : Text
  pub direction : Text
  pub protocol : Text
  pub cidrs : List Text
  pub ports : List ℤ

pub record Firewall : Type 0 where
  pub rules : List FirewallRule

pub record Spec : Type 0 where
  pub namespace : Text
  pub owner : OwnerRef
  pub labels : Labels
  pub interfaces : List Interface
  pub routes : List Route
  pub dnsmasq : DnsMasq
  pub nat : Nat
  pub firewall : Firewall

pub record Status : Type 0 where
  pub exists : Bool
  pub namespace : Text
  pub interfaces : List InterfaceStatus
  pub routes : List RouteStatus
  pub dnsmasq : DnsMasqStatus
  pub nat_backend : Text
  pub installed_nat : List Text
  pub installed_firewall : List Text
  pub resource_version : Text
  pub observed_hash : Text
  pub last_error : Text

pub record Router : Type 0 where
  pub name : Text
  pub spec : Spec
  pub status : Status

pub record Command : Type 0 where
  pub program : Text
  pub args : List Text
  pub ignore_not_found : Bool
  pub ignore_already_exists : Bool
