-- ===== src/Sdwan/Agent.antt =====
-- sdwan_agent.go: agents, assignments, and the checks and normal forms of their fields. A time is a
-- number, and 0 is the zero time.
use ovnflow.Base.{ℕ, Bool, ◌&&◌, ◌||◌, not, List, [], ◌∷◌, length, leb}
use ovnflow.Base.Sort.{sort_by}
use ovnflow.Text.{Text, codes, text_eq, text_lt, is_empty, is_blank}
use ovnflow.Errors.{validation, Result, ok, ◌>>◌, fail_if}
use ovnflow.Util.{wrapped, validate_name, unique_strings, contains_string}
use ovnflow.Util.Dict.{Dict}
use ovnflow.Owner.{Labels, validate_labels}
use ovnflow.Sdwan.Types.{Network, ApplyPlan, LinkStatus, StatusFinding, is_transport, is_layer}
use ovnflow.Util.Equal.{list_eq, entry_eq}

pub record Capabilities : Type 0 where
  pub transports : List Text
  pub layers : List Text
  pub features : List Text
  pub attributes : Dict Text

pub record AgentStatus : Type 0 where
  pub state : Text
  pub message : Text
  pub last_seen : ℕ
  pub observed : List LinkStatus
  pub findings : List StatusFinding
  pub generation : ℕ
  pub attributes : Dict Text

pub record Agent : Type 0 where
  pub id : Text
  pub site : Text
  pub endpoint : Text
  pub capabilities : Capabilities
  pub labels : Labels
  pub status : AgentStatus

pub record Heartbeat : Type 0 where
  pub agent_id : Text
  pub site : Text
  pub status : AgentStatus
  pub observed : List LinkStatus
  pub attributes : Dict Text
  pub at : ℕ

pub record AssignmentStatus : Type 0 where
  pub state : Text
  pub message : Text
  pub applied_at : ℕ
  pub findings : List StatusFinding
  pub attributes : Dict Text

pub record Assignment : Type 0 where
  pub id : Text
  pub agent_id : Text
  pub network : Text
  pub site : Text
  pub generation : ℕ
  pub desired : Network
  pub plan : ApplyPlan
  pub status : AssignmentStatus
  pub created_at : ℕ
  pub updated_at : ℕ

-- `uniqueSDWANTransports` and `uniqueSDWANLayers`.
unfoldable pub unique_sorted : List Text → List Text
unique_sorted values = sort_by text_lt (unique_strings values)

unfoldable pub normalize_capabilities : Capabilities → Capabilities
normalize_capabilities c = record c {
  transports = unique_sorted c.transports;
  layers = unique_sorted c.layers;
  features = unique_strings c.features;
}

-- `cloneSDWANAgent`: the other copies are equal values.
unfoldable pub clone_agent : Agent → Agent
clone_agent a = record a { capabilities = normalize_capabilities a.capabilities }

-- `reflect.DeepEqual` of capabilities in normal form.
unfoldable pub capabilities_eq : Capabilities → Capabilities → Bool
capabilities_eq a b =
    list_eq text_eq a.transports b.transports
    && list_eq text_eq a.layers b.layers
    && list_eq text_eq a.features b.features
    && list_eq entry_eq a.attributes b.attributes

unfoldable pub validate_transports : Text → List Text → Result (Unit {0})
validate_transports id [] = ok tt
validate_transports id (transport ∷ transports) = do
  fail_if (not (is_transport transport))
      (wrapped validation "validate" id "agent advertises unsupported transport")
  validate_transports id transports

unfoldable pub validate_layers : Text → List Text → Result (Unit {0})
validate_layers id [] = ok tt
validate_layers id (layer ∷ layers) = do
  fail_if (not (is_layer layer))
      (wrapped validation "validate" id "agent advertises unsupported layer")
  validate_layers id layers

unfoldable pub validate_features : Text → List Text → Result (Unit {0})
validate_features id [] = ok tt
validate_features id (value ∷ values) = do
  fail_if (is_blank value) (wrapped validation "validate" id "agent feature must not be empty")
  validate_features id values

unfoldable pub validate_agent : Agent → Result (Unit {0})
validate_agent a = do
  validate_name "sdwan agent" a.id
  validate_name "sdwan site" a.site
  validate_labels a.labels
  validate_labels a.status.attributes
  fail_if (leb (length a.capabilities.transports) 0)
      (wrapped validation "validate" a.id "agent must advertise at least one transport")
  validate_transports a.id a.capabilities.transports
  validate_layers a.id a.capabilities.layers
  validate_labels a.capabilities.attributes
  validate_features a.id a.capabilities.features

unfoldable pub is_assignment_state : Text → Bool
is_assignment_state state =
    text_eq state (codes "pending")
    || text_eq state (codes "applied")
    || text_eq state (codes "rejected")
    || text_eq state (codes "failed")

unfoldable pub validate_assignment_status : AssignmentStatus → Result (Unit {0})
validate_assignment_status s = do
  fail_if (is_empty s.state) (
      wrapped validation "validate" (codes "sdwan assignment status")
        "assignment status state is required")
  fail_if (not (is_assignment_state s.state)) (
      wrapped validation "validate" (codes "sdwan assignment status")
        "unsupported assignment status state")
  validate_labels s.attributes

unfoldable pub agent_can_serve : Agent → Network → Bool
agent_can_serve a n =
    let caps = normalize_capabilities a.capabilities in
    contains_string caps.transports n.transport
    && (leb (length caps.layers) 0 || contains_string caps.layers n.layer)
