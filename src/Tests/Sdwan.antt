-- ===== src/Tests/Sdwan.antt =====
-- sdwan.go: networks like those of sdwan_test.go, and the theorems at them.
use ovnflow.Base.{ℕ, true, false, ◌≡◌, refl, ap, ◌∙◌, List, [], ◌∷◌, none, some}
use ovnflow.Text.{Text, codes, text_eq, text_lt, is_blank}
use ovnflow.Errors.{ok}
use ovnflow.Netip.{parse_addr, parse_prefix, masked, is_4, contains, as_4, addr_from_4}
use ovnflow.Ipam.State.{parse_ipv4_prefix}
use ovnflow.Util.{validate_name, contains_string}
use ovnflow.Util.Dict.{lookup, put}
use ovnflow.Util.Int.{pos, negsuc, of_offset, add_int}
use ovnflow.Owner.{validate_owner, validate_labels}
use ovnflow.Sdwan.Types.{
  Network, Site, ApplyPlan, ReconcileResult, DryRunResult, no_status, is_layer, is_topology,
  is_transport, is_path_mode, is_relayed, stable_name, pair_name, is_relay_site, is_hub_role,
}
use ovnflow.Sdwan.Validate.{
  validate_network, validate_head, validate_set_owner, validate_sites, validate_site,
  validate_cidrs, validate_links, validate_link, validate_path_endpoint, validate_policies,
  validate_policy,
}
use ovnflow.Sdwan.Validate.Sound.{Sound, validate_network-Sound}
use ovnflow.Sdwan.Normalize.{normalize_network, with_defaults}
use ovnflow.Sdwan.Normalize.Idempotent.{normalize_network_idempotent}
use ovnflow.Sdwan.Plan.{plan_apply}
use ovnflow.Sdwan.Store.{MemoryBackend, new_memory_backend, memory, memory_get, memory_apply}
use ovnflow.Sdwan.Store.Runs.{
  stored, applies, deletes, after, applications, Applied, known, memory_apply-Applied, DeletedView,
  memory_delete-view, last_applied-after, applied_count,
}
use ovnflow.Sdwan.Builder.{
  Builder, reconcile, reconcile_dry, dry_run, plan, apply_plan, current, current_of, diff_of,
  without_status, write_network, written,
}
use ovnflow.Sdwan.Builder.Reconcile.{Settled, reconcile-Settled}

abbrev site : Text → Text → Text → Site
site name cidr role = record {
  name = name;
  router = codes "router0";
  cidrs = cidr ∷ [];
  endpoint = [];
  public_key = [];
  role = role;
  attributes = [];
  l2_segments = [];
  transit = false;
  relay = false;
}

abbrev sites : List Site
sites =
    site (codes "paris") (codes "10.1.0.0/24") (codes "Hub")
    ∷ site (codes "lyon") (codes "10.2.0.0/24") []
    ∷ site (codes "nice") (codes "10.3.0.0/24") []
    ∷ []

abbrev network_of : Text → Network
network_of topology = record {
  name = codes "wan";
  layer = [];
  topology = topology;
  transport = [];
  path_mode = codes "relay";
  sites = sites;
  links = [];
  policies = [];
  owner = record { kind = []; name = []; id = [] };
  labels = [];
  status = no_status;
}

abbrev pub mesh : Network
mesh = network_of (codes "full-mesh")

abbrev pub star : Network
star = network_of (codes "hub-spoke")

normalize_network_idempotent_example :
    normalize_network (normalize_network mesh) ≡ normalize_network mesh
normalize_network_idempotent_example = normalize_network_idempotent mesh

abbrev empty_plan : ApplyPlan
empty_plan = record { network = codes "wan"; operations = [] }

abbrev one : MemoryBackend
one = (memory_apply new_memory_backend mesh empty_plan).0

lookup-stored : lookup (codes "wan") one.networks ≡ some (stored new_memory_backend mesh)
unfolding memory_apply lookup normalize_network with_defaults put text_eq
lookup-stored = refl

memory_apply-Applied_example :
    ((memory_apply one star empty_plan).1 ≡ ok tt)
    × Applied one
        (memory_apply one star empty_plan).0
        star
        empty_plan
        (stored new_memory_backend mesh).status
memory_apply-Applied_example =
    memory_apply-Applied one star empty_plan (stored new_memory_backend mesh).status
      (known (stored new_memory_backend mesh) lookup-stored)

memory_delete-view_example :
    DeletedView one (codes "wan") (codes "wan") (lookup (codes "wan") one.networks)
memory_delete-view_example = memory_delete-view one (codes "wan") (codes "wan")

-- A network that says to have been applied as often as an `int` can tell.
abbrev worn : Network
worn = record star { status = record no_status { last_applied = pos 9223372036854775806 } }

-- Two applications later the count has wrapped around.
last_applied-after_example :
    applied_count (
      lookup
        (codes "wan")
        (after (
          applies mesh empty_plan ∷ deletes (codes "lab") ∷ applies worn empty_plan ∷ [])).networks)
    ≡ some (negsuc 9223372036854775807)
unfolding applications text_eq add_int of_offset
last_applied-after_example =
    last_applied-after
      (applies mesh empty_plan ∷ deletes (codes "lab") ∷ applies worn empty_plan ∷ []) (codes "wan")

abbrev builder : Builder
builder = record { used = false; network = mesh }

abbrev first : ReconcileResult
first = record {
  plan = record { operations = (plan_apply (normalize_network mesh)).operations; warnings = [] };
  diff = diff_of none (without_status (normalize_network mesh));
  applied = true;
}

-- Everything that the validation of a network calls.
run : ℕ
unfolding parse_addr parse_prefix masked is_4 contains as_4 addr_from_4 parse_ipv4_prefix text_eq
    text_lt is_blank validate_name contains_string validate_owner validate_labels is_layer
    is_topology is_transport is_path_mode is_relayed stable_name pair_name is_relay_site is_hub_role
    validate_network validate_head validate_set_owner validate_sites validate_site validate_cidrs
    validate_links validate_link validate_path_endpoint validate_policies validate_policy
run = 0

validate_mesh : validate_network mesh ≡ ok tt
unfolding run
validate_mesh = refl

-- The network with its transport written out.
abbrev pub wireguard_mesh : Network
wireguard_mesh = record mesh { transport = codes "wireguard" }

pub validate_wireguard : validate_network wireguard_mesh ≡ ok tt
unfolding run
validate_wireguard = refl

abbrev first_dry : DryRunResult
first_dry = record { plan = first.plan; diff = first.diff }

dry_mesh : dry_run (some memory) new_memory_backend builder ≡ ok first_dry
unfolding dry_run plan apply_plan current current_of memory_get lookup
dry_mesh = rw validate_mesh refl

plan_mesh : apply_plan builder ≡ ok (plan_apply (normalize_network mesh))
unfolding apply_plan
plan_mesh = rw validate_mesh refl

reconciled : (reconcile (some memory) new_memory_backend builder).1 ≡ ok first
unfolding reconcile reconcile_dry write_network written memory_apply diff_of
reconciled =
    ap (λ d. (reconcile_dry (some memory) new_memory_backend builder d).1) dry_mesh
    ∙ ap (λ p. (write_network memory new_memory_backend builder first_dry p).1) plan_mesh

reconcile-Settled_example : Settled (reconcile (some memory) new_memory_backend builder).0 builder
reconcile-Settled_example = reconcile-Settled new_memory_backend builder first reconciled

validate_network-Sound_example : Sound mesh
validate_network-Sound_example = validate_network-Sound mesh validate_mesh
