-- ===== src/Tests/Router.antt =====
-- linuxrouter/router.go: a router with one LAN and one WAN, and the theorems at it.
mod Client
use ovnflow.Base.{ℕ, ◌≡◌, refl, [], ◌∷◌, List, none, some, true, false}
use ovnflow.Base.Sort.{sort_by}
use ovnflow.Text.{Text, codes, text_eq, text_lt, is_blank, has_prefix}
use ovnflow.Text.Trim.{trim_space, to_lower}
use ovnflow.Errors.{ok, err}
use ovnflow.Netip.{parse_addr, parse_prefix}
use ovnflow.Netip.Classic.{is_ip, is_cidr}
use ovnflow.OpenFlow.Mac.{parse_mac}
use ovnflow.Util.{contains_string}
use ovnflow.Util.Dict.{lookup, put}
use ovnflow.Util.Int.{pos, int_text}
use ovnflow.Owner.{validate_owner, validate_labels}
use ovnflow.Router.Types.{
  Interface, Nat, MasqueradeRule, PortForwardRule, Spec, Status, Router, Command,
}
use ovnflow.Router.Names.{
  wrap_validation, validate_name, validate_rule_name, validate_external_ids, valid_port,
  valid_dnsmasq_server, is_one_of, join, stable_rule_name, snat_name, masquerade_name, dnat_name,
  port_forward_name, destination_map_name,
}
use ovnflow.Router.Validate.{
  each, each_named, validate_interface, validate_route, validate_range, validate_lease,
  validate_host, validate_dnsmasq, validate_snat, validate_masquerade, validate_port_forward,
  validate_dnat, validate_destination_map, validate_nat_names, validate_nat, validate_firewall_rule,
  validate_firewall, validate_router,
}
use ovnflow.Router.Validate.Sound.{IsNat, validate_nat-IsNat}
use ovnflow.Router.Render.{
  names_in_role, role_interfaces, infer_interface, infer_each, infer_masquerade, infer_snat,
  infer_port_forward, infer_dnat, infer_destination_map, infer_nat, infer_nat_interfaces,
  namespace_or_default, commands_of, render_apply,
}
use ovnflow.Router.Render.Infers.{Infers}
use ovnflow.Router.Render.Inferred.{inferable, filled_nat, infer_nat_interfaces-Infers}
use ovnflow.Router.Patch.{
  Patch, replace_one, replace_by_name, delete_by_name, validate_patch, patch_interfaces,
  patch_routes, patch_nat, patch_dnsmasq, patch_firewall, apply_to,
}
use ovnflow.Router.Patch.View.{PatchView, apply_to-PatchView}
use ovnflow.Router.Client.{
  Host, State, returned, run_commands, execute_apply_locked, execute_apply, write_status,
  refresh_stored_status, get, apply_checks, referred, apply, patched, patch, fake_run, new_client,
}
use ovnflow.Router.Client.Effect.{ApplyEffect, apply-ApplyEffect}
use ovnflow.Router.Client.PatchEffect.{NamesMatch, PatchEffect, patch-PatchEffect}
use ovnflow.Router.Client.Reachable.{applies, Reachable, starts, steps, Reachable-NamesMatch}
use ovnflow.Router.Client.Progress.{NeverFails, apply-returned}

pub run : ℕ
unfolding sort_by text_eq text_lt is_blank trim_space to_lower parse_addr parse_prefix is_ip is_cidr
    parse_mac contains_string lookup put int_text validate_owner validate_labels wrap_validation
    validate_name validate_rule_name has_prefix validate_external_ids valid_port
    valid_dnsmasq_server is_one_of join stable_rule_name snat_name masquerade_name dnat_name
    port_forward_name destination_map_name each each_named validate_interface validate_route
    validate_range validate_lease validate_host validate_dnsmasq validate_snat validate_masquerade
    validate_port_forward validate_dnat validate_destination_map validate_nat_names validate_nat
    validate_firewall_rule validate_firewall validate_router names_in_role role_interfaces
    infer_interface infer_each infer_masquerade infer_snat infer_port_forward infer_dnat
    infer_destination_map infer_nat infer_nat_interfaces namespace_or_default commands_of
    render_apply inferable filled_nat replace_one replace_by_name delete_by_name validate_patch
    patch_interfaces patch_routes patch_nat patch_dnsmasq patch_firewall apply_to run_commands
    execute_apply_locked execute_apply write_status refresh_stored_status get apply patched patch
    fake_run new_client
run = 0

abbrev lan : Interface
lan = record {
  name = codes "lan0";
  role = codes "lan";
  bridge = codes "br-int";
  ovs_port = codes "lan0";
  addresses = codes "10.0.0.1/24" ∷ [];
  gateway = [];
  dhcp_client = false;
  port_external_ids = [];
  interface_external_ids = [];
}

abbrev wan : Interface
wan = record lan {
  name = codes "wan0";
  role = codes "wan";
  addresses = [];
  gateway = codes "192.0.2.1";
}

abbrev pub masquerade : Text → MasqueradeRule
masquerade out = record { name = []; source_cidr = codes "10.0.0.0/24"; out_interface = out }

abbrev pub web : PortForwardRule
web = record {
  name = codes "web";
  protocol = codes "TCP";
  in_interface = [];
  listen_ip = [];
  listen_port = pos 80;
  target_ip = codes "10.0.0.5";
  target_port = pos 8080;
}

abbrev pub nat : Nat
nat = record {
  snat_rules = [];
  masquerades = masquerade [] ∷ [];
  dnat_rules = [];
  port_forwards = web ∷ [];
  destination_maps = [];
}

abbrev pub edge_spec : Spec
edge_spec = record {
  namespace = [];
  owner = record { kind = []; name = []; id = [] };
  labels = [];
  interfaces = wan ∷ lan ∷ [];
  routes = [];
  dnsmasq = record {
    enabled = false;
    dhcp_ranges = [];
    servers = [];
    leases = [];
    hosts = [];
    pid_file = [];
    lease_file = [];
    config_file = [];
  };
  nat = nat;
  firewall = record { rules = [] };
}

abbrev no_status : Status
no_status = record {
  exists = false;
  namespace = [];
  interfaces = [];
  routes = [];
  dnsmasq = record { running = false; pid = pos 0 };
  nat_backend = [];
  installed_nat = [];
  installed_firewall = [];
  resource_version = [];
  observed_hash = [];
  last_error = [];
}

abbrev pub edge : Router
edge = record { name = codes "edge"; spec = edge_spec; status = no_status }

validate_nat_edge : validate_nat nat ≡ ok tt
unfolding run
validate_nat_edge = refl

validate_nat-IsNat_example : IsNat nat
validate_nat-IsNat_example = validate_nat-IsNat nat validate_nat_edge

infer_nat_interfaces-Infers_example :
    Infers
      (inferable
        (role_interfaces edge_spec.interfaces (codes "lan"))
        (role_interfaces edge_spec.interfaces (codes "wan"))
        nat)
      (infer_nat_interfaces edge_spec)
      (record edge_spec {
        nat =
            filled_nat
              (role_interfaces edge_spec.interfaces (codes "lan"))
              (role_interfaces edge_spec.interfaces (codes "wan"))
              nat;
      })
infer_nat_interfaces-Infers_example = infer_nat_interfaces-Infers edge_spec

-- The interfaces that are inferred.
infer_edge : infer_nat_interfaces edge_spec ≡ (
  record edge_spec {
    nat = record nat {
      masquerades = masquerade (codes "wan0") ∷ [];
      port_forwards = (record web { in_interface = codes "wan0" }) ∷ [];
    };
  },
  none,
)
unfolding run
infer_edge = refl

-- The interfaces of a second router: one is added, one replaced and one deleted.
abbrev pub edit : Patch
edit = record {
  preconditions = record {
    resource_version = [];
    observed_hash = [];
    owner = record { kind = []; name = []; id = [] };
  };
  options = record { require_ownership = false; ignore_not_found = false };
  interfaces = record {
    add = (record wan { name = codes "wan1" }) ∷ [];
    replace = (record lan { bridge = codes "br-lan" }) ∷ [];
    delete = codes "wan0" ∷ [];
  };
  routes = record { add = []; replace = []; delete = [] };
  dnsmasq = record { add_hosts = []; replace = none; delete_hosts = [] };
  nat = record {
    add = record {
      snat_rules = [];
      masquerades = [];
      dnat_rules = [];
      port_forwards = [];
      destination_maps = [];
    };
    replace = none;
    delete = record {
      snat_rules = [];
      masquerades = [];
      dnat_rules = [];
      port_forwards = codes "web" ∷ [];
      destination_maps = [];
    };
  };
  firewall = record { add_rules = []; replace = none; delete_rules = [] };
}

abbrev edited_edge : Router
edited_edge = record edge {
  spec = record edge_spec {
    interfaces =
        (record lan { bridge = codes "br-lan" }) ∷ (record wan { name = codes "wan1" }) ∷ [];
    nat = record nat { port_forwards = [] };
  };
}

apply_to-edge : apply_to edit edge ≡ ok edited_edge
unfolding run
apply_to-edge = refl

apply_to-PatchView_example :
    PatchView edit edge_spec edited_edge.spec
    × (edited_edge.name ≡ edge.name)
    × (edited_edge.status ≡ no_status)
apply_to-PatchView_example = apply_to-PatchView edit edge edited_edge apply_to-edge
