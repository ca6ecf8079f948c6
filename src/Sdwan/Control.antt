-- ===== src/Sdwan/Control.antt =====
-- sdwan_agent.go: `InMemorySDWANControlPlane`. The lock makes each method one step; a method that
-- writes takes the state and the readings of the clock, and returns the new state.
pub mod Steps
pub mod Generations
pub mod Serve
use ovnflow.Base.{ℕ, ◌+◌, Bool, true, false, ◌&&◌, ◌||◌, not, List, [], ◌∷◌, ◌++◌, map, ◌==◌}
use ovnflow.Base.{Option, none, some, String, if◌then◌else◌}
use ovnflow.Base.Sort.{sort_by}
use ovnflow.Text.{Text, codes, text_eq, text_lt, is_empty}
use ovnflow.Errors.{
  validation, conflict, not_found, unsupported, Error, Result, ok, err, ◌>>=◌, ◌>>◌, fail_if,
}
use ovnflow.Util.{wrapped, validate_name}
use ovnflow.Util.Dict.{Dict, lookup, put, merge_maps}
use ovnflow.Sdwan.Types.{Network, ApplyPlan, text_or}
use ovnflow.Sdwan.Validate.{validate_network}
use ovnflow.Sdwan.Normalize.{normalize_network}
use ovnflow.Sdwan.Agent.{
  Agent, AgentStatus, Capabilities, Heartbeat, Assignment, AssignmentStatus, normalize_capabilities,
  clone_agent, capabilities_eq, validate_agent, validate_assignment_status, agent_can_serve,
}

pub record ControlPlane : Type 0 where
  pub agents : Dict Agent
  pub assignments : Dict Assignment
  pub generations : Dict ℕ

abbrev pub new_control_plane : ControlPlane
new_control_plane = record { agents = []; assignments = []; generations = [] }

-- The number of a key, 0 if it is missing.
abbrev pub count_of : Option ℕ → ℕ
count_of none = 0
count_of (some n) = n

-- The time, or the clock's if it is the zero time.
abbrev pub time_or : ℕ → ℕ → ℕ
time_or t now = if t == 0 then now else t

-- Whether the agent differs from the registered one in what its generation counts.
unfoldable pub agent_changed : Option Agent → Agent → Bool
agent_changed none agent = true
agent_changed (some c) agent =
    not (capabilities_eq c.capabilities agent.capabilities)
    || not (text_eq c.site agent.site)
    || not (text_eq c.endpoint agent.endpoint)

abbrev pub generation_of : Option Agent → ℕ
generation_of none = 0
generation_of (some c) = c.status.generation

-- The agent that `RegisterAgent` stores a copy of.
unfoldable pub registered : ℕ → Option Agent → Agent → Agent
registered now current agent =
    let a = record agent { capabilities = normalize_capabilities agent.capabilities } in
    record a {
      status = record a.status {
        state = text_or a.status.state (codes "present");
        last_seen = time_or a.status.last_seen now;
        generation =
            if agent_changed current a then generation_of current + 1 else generation_of current;
      };
    }

abbrev pub store_agent : ControlPlane → Agent → ControlPlane
store_agent c a = record c { agents = put a.id a c.agents }

abbrev pub register_checked :
    ControlPlane → ℕ → Agent → Result (Unit {0}) → ControlPlane × Result Agent
register_checked c now agent (err e) = (c, err e)
register_checked c now agent (ok _) =
    let a = clone_agent (registered now (lookup agent.id c.agents) agent) in (store_agent c a, ok a)

unfoldable pub register_agent : ControlPlane → ℕ → Agent → ControlPlane × Result Agent
register_agent c now agent = register_checked c now agent (validate_agent agent)

abbrev pub found_agent : String → Text → Option Agent → Result Agent
found_agent op id (some a) = ok a
found_agent op id none = err (wrapped not_found op id "SD-WAN agent not found")

-- The registered agent that a heartbeat is accepted for.
unfoldable pub heartbeat_agent : ControlPlane → Heartbeat → Result Agent
heartbeat_agent c hb = do
  validate_name "sdwan agent" hb.agent_id
  agent ← found_agent "heartbeat" hb.agent_id (lookup hb.agent_id c.agents)
  fail_if (not (is_empty hb.site) && not (text_eq hb.site agent.site))
      (wrapped conflict "heartbeat" hb.agent_id "heartbeat site does not match registered agent")
  ok agent

unfoldable pub heartbeat_status : ℕ → Heartbeat → ℕ → AgentStatus
heartbeat_status now hb generation = record hb.status {
  state = text_or hb.status.state (codes "present");
  last_seen = time_or hb.at now;
  observed = hb.observed;
  attributes = merge_maps hb.status.attributes hb.attributes;
  generation = generation;
}

abbrev pub beaten : ControlPlane → ℕ → Heartbeat → Result Agent → ControlPlane × Result Agent
beaten c now hb (err e) = (c, err e)
beaten c now hb (ok agent) =
    let a =
      clone_agent (record agent { status = heartbeat_status now hb agent.status.generation }) in
    (store_agent c a, ok a)

unfoldable pub heartbeat : ControlPlane → ℕ → Heartbeat → ControlPlane × Result Agent
heartbeat c now hb = beaten c now hb (heartbeat_agent c hb)

unfoldable pub get_agent : ControlPlane → Text → Result Agent
get_agent c id = do
  validate_name "sdwan agent" id
  agent ← found_agent "get" id (lookup id c.agents)
  ok (clone_agent agent)

unfoldable pub agent_less : Agent → Agent → Bool
agent_less a b = text_lt a.id b.id

unfoldable pub list_agents : ControlPlane → List Agent
list_agents c = sort_by agent_less (map (λ e. clone_agent e.1) c.agents)

-- The agent that a network may be assigned to.
unfoldable pub assignable : ControlPlane → Text → Network → Result Agent
assignable c id network = do
  validate_name "sdwan agent" id
  validate_network network
  agent ← found_agent "assign" id (lookup id c.agents)
  fail_if (not (agent_can_serve agent network))
      (wrapped unsupported "assign" id "agent capabilities do not satisfy SD-WAN network")
  ok agent

abbrev pub pending : AssignmentStatus
pending = record {
  state = codes "pending";
  message = [];
  applied_at = 0;
  findings = [];
  attributes = [];
}

-- The key of an assignment.
unfoldable pub assignment_key : Text → Text → Text
assignment_key agent network = agent ++ codes "/" ++ network

unfoldable pub new_assignment : ℕ → Text → Agent → Network → ApplyPlan → ℕ → Assignment
new_assignment now id agent network plan generation = record {
  id = assignment_key id network.name;
  agent_id = id;
  network = network.name;
  site = agent.site;
  generation = generation;
  desired = normalize_network network;
  plan = plan;
  status = pending;
  created_at = now;
  updated_at = now;
}

abbrev pub assigned :
    ControlPlane → ℕ → Text → Network → ApplyPlan → Result Agent → ControlPlane × Result Assignment
assigned c now id network plan (err e) = (c, err e)
assigned c now id network plan (ok agent) =
    let key = assignment_key id network.name in
    let generation = count_of (lookup key c.generations) + 1 in
    let assignment = new_assignment now id agent network plan generation in
    (
      record c {
        assignments = put key assignment c.assignments;
        generations = put key generation c.generations;
      },
      ok assignment,
    )

unfoldable pub assign_sdwan :
    ControlPlane → ℕ → Text → Network → ApplyPlan → ControlPlane × Result Assignment
assign_sdwan c now id network plan = assigned c now id network plan (assignable c id network)

abbrev pub found_assignment : String → Text → Option Assignment → Result Assignment
found_assignment op id (some a) = ok a
found_assignment op id none = err (wrapped not_found op id "SD-WAN assignment not found")

unfoldable pub get_assignment : ControlPlane → Text → Result Assignment
get_assignment c id = do
  validate_name "sdwan assignment" id
  found_assignment "get" id (lookup id c.assignments)

unfoldable pub assignment_less : Assignment → Assignment → Bool
assignment_less a b = text_lt a.id b.id

-- The assignments of an agent, or of all agents under the empty name.
unfoldable pub assignments_of : Text → Dict Assignment → List Assignment
assignments_of agent [] = []
assignments_of agent (entry ∷ entries) =
    let rest = assignments_of agent entries in
    if not (is_empty agent) && not (text_eq entry.1.agent_id agent) then rest else entry.1 ∷ rest

unfoldable pub list_assignments : ControlPlane → Text → List Assignment
list_assignments c agent = sort_by assignment_less (assignments_of agent c.assignments)

unfoldable pub ackable : ControlPlane → Text → AssignmentStatus → Result Assignment
ackable c id status = do
  validate_name "sdwan assignment" id
  assignment ← found_assignment "ack" id (lookup id c.assignments)
  validate_assignment_status status
  ok assignment

-- The status that is stored: an applied assignment has a time.
unfoldable pub acked_status : ℕ → AssignmentStatus → AssignmentStatus
acked_status now status = record status {
  applied_at =
      if text_eq status.state (codes "applied")
      then time_or status.applied_at now
      else status.applied_at;
}

abbrev pub acked :
    ControlPlane
    → ℕ
    → ℕ
    → Text
    → AssignmentStatus
    → Result Assignment
    → ControlPlane × Result Assignment
acked c now later id status (err e) = (c, err e)
acked c now later id status (ok assignment) =
    let a = record assignment { status = acked_status now status; updated_at = later } in
    (record c { assignments = put id a c.assignments }, ok a)

-- The clock may be read twice.
unfoldable pub ack_assignment :
    ControlPlane → ℕ → ℕ → Text → AssignmentStatus → ControlPlane × Result Assignment
ack_assignment c now later id status = acked c now later id status (ackable c id status)
