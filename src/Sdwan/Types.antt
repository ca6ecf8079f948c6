-- ===== src/Sdwan/Types.antt =====
-- sdwan.go, planning.go and status.go: the types of SD-WAN networks, plans and statuses. The types
-- SDWANTransport, SDWANLayer, SDWANTopology, SDWANPathMode, IntentAction and ResourceStatusState
-- are strings in the source, and any string may stand in a field.
use ovnflow.Base.{ℕ, Bool, ◌||◌, List, [], ◌++◌, Option, map, leb, ◌&&◌, ◌+◌}
use ovnflow.Base.{if◌then◌else◌}
use ovnflow.Text.{Text, codes, text_eq, text_lt, is_empty}
use ovnflow.Util.Dict.{Dict}
use ovnflow.Util.Int.{ℤ, pos}
use ovnflow.Owner.{OwnerRef, Labels}

pub record Site : Type 0 where
  pub name : Text
  pub router : Text
  pub cidrs : List Text
  pub endpoint : Text
  pub public_key : Text
  pub role : Text
  pub attributes : Dict Text
  pub l2_segments : List Text
  pub transit : Bool
  pub relay : Bool

pub record Link : Type 0 where
  pub name : Text
  pub source : Text
  pub target : Text
  pub transport : Text
  pub path_mode : Text
  pub endpoint_a : Text
  pub endpoint_b : Text
  pub allowed_ips : List Text
  pub cost : ℤ
  pub enabled : Bool
  pub disabled : Bool
  pub attributes : Dict Text

pub record Policy : Type 0 where
  pub name : Text
  pub layer : Text
  pub source_site : Text
  pub dest_site : Text
  pub source_cidrs : List Text
  pub dest_cidrs : List Text
  pub prefer_links : List Text
  pub avoid_links : List Text
  pub priority : ℤ

pub record StatusFinding : Type 0 where
  pub severity : Text
  pub component : Text
  pub code : Text
  pub message : Text
  pub details : Dict Text

pub record SiteStatus : Type 0 where
  pub name : Text
  pub ready : Bool

pub record LinkStatus : Type 0 where
  pub name : Text
  pub source : Text
  pub target : Text
  pub transport : Text
  pub path_mode : Text
  pub ready : Bool

pub record Status : Type 0 where
  pub state : Text
  pub sites : List SiteStatus
  pub links : List LinkStatus
  pub findings : List StatusFinding
  pub last_applied : ℤ
  pub resource_hash : Text

pub record Network : Type 0 where
  pub name : Text
  pub layer : Text
  pub topology : Text
  pub transport : Text
  pub path_mode : Text
  pub sites : List Site
  pub links : List Link
  pub policies : List Policy
  pub owner : OwnerRef
  pub labels : Labels
  pub status : Status

-- `SDWANOperation`, and `PlannedOperation`, to which it is converted.
pub record Operation : Type 0 where
  pub action : Text
  pub resource : Text
  pub name : Text
  pub description : Text

pub record ApplyPlan : Type 0 where
  pub network : Text
  pub operations : List Operation

pub record Plan : Type 0 where
  pub operations : List Operation
  pub warnings : List Text

-- `Before` and `After` are networks or nil here.
pub record DiffChange : Type 0 where
  pub path : Text
  pub before : Option Network
  pub after : Option Network

pub record Diff : Type 0 where
  pub resource : Text
  pub name : Text
  pub changes : List DiffChange

pub record DryRunResult : Type 0 where
  pub plan : Plan
  pub diff : Diff

pub record ReconcileResult : Type 0 where
  pub plan : Plan
  pub diff : Diff
  pub applied : Bool

-- The zero value of a status.
abbrev pub no_status : Status
no_status = record {
  state = [];
  sites = [];
  links = [];
  findings = [];
  last_applied = pos 0;
  resource_hash = [];
}

unfoldable pub is_layer : Text → Bool
is_layer value = text_eq value (codes "l3") || text_eq value (codes "l2")

unfoldable pub is_topology : Text → Bool
is_topology value =
    text_eq value (codes "partial-mesh")
    || text_eq value (codes "hub-spoke")
    || text_eq value (codes "full-mesh")

unfoldable pub is_path_mode : Text → Bool
is_path_mode value =
    text_eq value (codes "direct")
    || text_eq value (codes "relay")
    || text_eq value (codes "transit")
    || text_eq value (codes "auto")

unfoldable pub is_transport : Text → Bool
is_transport value =
    text_eq value (codes "wireguard")
    || text_eq value (codes "geneve")
    || text_eq value (codes "vxlan")

-- Relay, transit and auto.
unfoldable pub is_relayed : Text → Bool
is_relayed mode =
    text_eq mode (codes "relay") || text_eq mode (codes "transit") || text_eq mode (codes "auto")

-- `SDWANLink.StableName`.
unfoldable pub pair_name : Text → Text → Text
pair_name a b = if text_lt b a then b ++ codes "--" ++ a else a ++ codes "--" ++ b

unfoldable pub stable_name : Link → Text
stable_name l = if is_empty l.name then pair_name l.source l.target else l.name

-- Simple folding of a byte. Only the ASCII letters fold to h, u or b.
abbrev fold_byte : ℕ → ℕ
fold_byte c = if leb b'A' c && leb c b'Z' then c + 32 else c

-- `strings.EqualFold(role, "hub")`.
unfoldable pub is_hub_role : Text → Bool
is_hub_role role = text_eq (map fold_byte role) (codes "hub")

-- A site that other sites' traffic may pass through.
unfoldable pub is_relay_site : Site → Bool
is_relay_site s = is_hub_role s.role || s.transit || s.relay

-- `value`, or the default if it is the empty string.
abbrev pub text_or : Text → Text → Text
text_or value default = if is_empty value then default else value
