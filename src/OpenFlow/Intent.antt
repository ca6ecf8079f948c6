-- ===== src/OpenFlow/Intent.antt =====
-- openflow_intent.go: the builder of a flow. A call on the builder takes it to the builder behind
-- the call.
pub mod Namespace
pub mod Sent
use ovnflow.Base.{
  ℕ, ◌+◌, ◌*◌, ◌-◌, ◌/◌, ◌%◌, ◌^◌, Bool, true, false, not, ◌&&◌, List, [], ◌∷◌, ◌++◌, ◌==◌, Option,
  none, some, if◌then◌else◌,
}
use ovnflow.Text.{Text, codes, is_empty}
use ovnflow.Text.Trim.{to_lower}
use ovnflow.Errors.{
  validation, backend_unavailable, Error, wrap, unavailable_error, Result, ok, err, ◌>>◌, fail_if,
}
use ovnflow.Util.{validate_name, mark}
use ovnflow.Util.Dict.{put}
use ovnflow.Util.Fnv.{fnv_hash}
use ovnflow.Owner.{OwnerRef, validate_owner, validate_labels}
use ovnflow.Sdwan.Types.{Operation, Plan}
use ovnflow.OpenFlow.Match.{Match, no_match}
use ovnflow.OpenFlow.FlowMod.{Action, Instruction, Flow}
use ovnflow.OpenFlow.Session.{Session, add_flow, delete_flow}

-- The top sixteen bits of a cookie are its namespace, 0x0f0f.
abbrev pub namespace_of : ℕ → ℕ
namespace_of cookie = cookie / 2 ^ 48

abbrev pub openflow_cookie_mask : ℕ
openflow_cookie_mask = 0xffff000000000000

-- The namespace, and the hash below it.
unfoldable pub openflow_cookie_for_name : Text → Text → ℕ
openflow_cookie_for_name bridge name =
    0x0f0f * 2 ^ 48 + fnv_hash (to_lower bridge ++ (0 ∷ to_lower name)) % 2 ^ 48

-- `client` tells whether a nil pointer is in the way to the client, and otherwise whether the
-- client is to configure the controller of the bridge.
pub record Builder : Type 0 where
  pub once : Bool
  pub client : Option Bool
  pub flow : Flow
  pub delete : Bool

unfoldable pub ensure_flow : Option Bool → Text → Text → Builder
ensure_flow client bridge name = record {
  once = false;
  client = client;
  flow = record {
    name = name;
    bridge = bridge;
    cookie = openflow_cookie_for_name bridge name;
    cookie_mask = openflow_cookie_mask;
    table_id = 0;
    priority = 100;
    idle_timeout = 0;
    hard_timeout = 0;
    importance = 0;
    match = no_match;
    instructions = [];
    actions = [];
    owner = record { kind = []; name = []; id = [] };
    labels = [];
  };
  delete = false;
}

unfoldable pub delete_flow_builder : Option Bool → Text → Text → Builder
delete_flow_builder client bridge name =
    let builder = ensure_flow client bridge name in
    record builder {
      delete = true;
      flow = record builder.flow { table_id = 0xff; cookie_mask = 2 ^ 64 - 1 };
    }

-- The calls that set a part of the flow, the cookie apart.
pub data Setter : Type 0 where
  table priority cookie_mask in_port eth_type ip_proto : ℕ → Setter
  tcp_src tcp_dst udp_src udp_dst output : ℕ → Setter
  ipv4_src ipv4_dst : Text → Setter
  with_owner with_label set_field : Text → Text → Setter

abbrev pub set_match : Match → Flow → Flow
set_match m flow = record flow { match = m }

unfoldable pub set_flow : Setter → Flow → Flow
set_flow (table id) f = record f { table_id = id }
set_flow (priority p) f = record f { priority = p }
set_flow (cookie_mask mask) f = record f { cookie_mask = mask }
set_flow (in_port p) f = set_match (record f.match { in_port = some p }) f
set_flow (eth_type v) f = set_match (record f.match { eth_type = some v }) f
set_flow (ip_proto v) f = set_match (record f.match { ip_proto = some v }) f
set_flow (tcp_src p) f = set_match (record f.match { tcp_src = some p }) f
set_flow (tcp_dst p) f = set_match (record f.match { tcp_dst = some p }) f
set_flow (udp_src p) f = set_match (record f.match { udp_src = some p }) f
set_flow (udp_dst p) f = set_match (record f.match { udp_dst = some p }) f
set_flow (ipv4_src cidr) f = set_match (record f.match { ipv4_src = cidr }) f
set_flow (ipv4_dst cidr) f = set_match (record f.match { ipv4_dst = cidr }) f
set_flow (with_owner kind name) f = record f {
  owner = record { kind = kind; name = name; id = [] };
}
set_flow (with_label key value) f = record f { labels = put key value f.labels }
set_flow (output p) f = record f {
  actions =
      f.actions ++ ((record { kind = codes "output"; port = p; field = []; value = [] }) ∷ []);
}
set_flow (set_field field value) f = record f {
  actions =
      f.actions
      ++ ((record { kind = codes "set_field"; port = 0; field = field; value = value }) ∷ []);
}

abbrev pub set : Setter → Builder → Builder
set setter b = record b { flow = set_flow setter b.flow }

unfoldable pub set_cookie : ℕ → Builder → Builder
set_cookie cookie b = record b { flow = record b.flow { cookie = cookie } }

abbrev no_client : Option Bool → Bool
no_client none = true
no_client (some auto) = false

abbrev is_nil {ℓ} : {A : Type ℓ} → List A → Bool
is_nil [] = true
is_nil (a ∷ rest) = false

abbrev has_owner : OwnerRef → Bool
has_owner o = not (is_empty o.kind && is_empty o.name && is_empty o.id)

abbrev idle : Builder → Bool
idle b = not b.delete && is_nil b.flow.actions && is_nil b.flow.instructions

-- The checks of `Validate`.
unfoldable pub check_flow : Builder → Result (Unit {0})
check_flow b = do
  fail_if (no_client b.client) unavailable_error
  validate_name "openflow bridge" b.flow.bridge
  validate_name "openflow flow" b.flow.name
  (if has_owner b.flow.owner then validate_owner b.flow.owner else ok tt)
  validate_labels b.flow.labels
  fail_if (idle b) (
      wrap validation "" "validate" b.flow.name
        "at least one OpenFlow action or instruction is required" false)
  fail_if (not (namespace_of b.flow.cookie == 0x0f0f)) (
      wrap validation "" "validate" b.flow.name
        "OpenFlow cookie must stay in the ovnflow ownership namespace" false)

-- `Validate`, which sets a cookie mask that is 0.
abbrev pub with_mask : Builder → Builder
with_mask b =
    if b.flow.cookie_mask == 0
    then record b { flow = record b.flow { cookie_mask = openflow_cookie_mask } }
    else b

abbrev pub checked : Builder → Result (Unit {0}) → Builder × Result (Unit {0})
checked b (err e) = (b, err e)
checked b (ok _) = (with_mask b, ok tt)

unfoldable pub validate_flow : Builder → Builder × Result (Unit {0})
validate_flow b = checked b (check_flow b)

abbrev flow_operation : Builder → Operation
flow_operation b =
    if b.delete
    then record {
      action = codes "delete";
      resource = codes "OpenFlowRule";
      name = b.flow.name;
      description = codes "delete owned native OpenFlow rule";
    }
    else record {
      action = codes "ensure";
      resource = codes "OpenFlowRule";
      name = b.flow.name;
      description = codes "validate and apply native OpenFlow rule";
    }

abbrev controller_operation : Builder → Operation
controller_operation b = record {
  action = codes "ensure";
  resource = codes "OpenFlowController";
  name = b.flow.bridge;
  description = codes "configure bridge controller target before OpenFlow connect";
}

abbrev pub configures : Builder → Bool
configures b = elim b.client [ none ↦ false | some auto ↦ auto ]

abbrev pub planned : Builder → Plan
planned b = record {
  operations =
      if configures b
      then controller_operation b ∷ flow_operation b ∷ []
      else flow_operation b ∷ [];
  warnings = [];
}

abbrev pub plan_checked : Builder × Result (Unit {0}) → Builder × Result Plan
plan_checked (b, err e) = (b, err e)
plan_checked (b, ok _) = (b, ok (planned b))

unfoldable pub plan_flow : Builder → Builder × Result Plan
plan_flow b = plan_checked (validate_flow b)

-- What is left behind a call: the session is there if one was opened, and then it is closed.
pub record Run {ℓ} (W : Type ℓ) : Type ℓ where
  pub builder : Builder
  pub world : W
  pub session : Option Session
  pub result : Result (Unit {0})

abbrev pub used_error : Builder → Error
used_error b = wrap validation "" "execute" b.flow.name "builder already executed" false

-- `send_flow` is `AddFlow` or `DeleteFlow` of the session.
abbrev pub send_flow : Builder → Session → Session × Result (Unit {0})
send_flow b s = if b.delete then delete_flow b.flow s else add_flow b.flow s

-- `ConfigureBridgeController` writes to OVSDB and `Dial` opens a connection; both change a world.
module _ {ℓ} {W : Type ℓ} (configure : Text → W → W × Result (Unit {0}))
    (dial : W → W × Result Session) where
  abbrev pub sent : Builder → W → Session × Result (Unit {0}) → Run W
  sent b w (s, r) = record { builder = b; world = w; session = some s; result = r }

  abbrev pub dialed : Builder → W × Result Session → Run W
  dialed b (w, err e) = record { builder = b; world = w; session = none; result = err e }
  dialed b (w, ok s) = sent b w (send_flow b s)

  abbrev pub configured : Builder → W × Result (Unit {0}) → Run W
  configured b (w, err e) = record { builder = b; world = w; session = none; result = err e }
  configured b (w, ok _) = dialed b (dial w)

  abbrev pub run_planned : W → Builder × Result Plan → Run W
  run_planned w (b, err e) = record { builder = b; world = w; session = none; result = err e }
  run_planned w (b, ok plan) =
      configured b (if configures b then configure b.flow.bridge w else (w, ok tt))

  abbrev pub run_marked : Builder → W → Bool × Bool → Run W
  run_marked b w (false, used) = record {
    builder = record b { once = used };
    world = w;
    session = none;
    result = err (used_error b);
  }
  run_marked b w (true, used) = run_planned w (plan_flow (record b { once = used }))

  unfoldable pub execute_flow : Builder → W → Run W
  execute_flow b w = run_marked b w (mark b.once)
