-- ===== src/Tests/Control.antt =====
-- sdwan_agent.go: an agent and its assignments, and the theorems at them.
use ovnflow.Base.{ℕ, ◌+◌, true, ◌≡◌, refl, ap, ◌∙◌, [], ◌∷◌, none, some}
use ovnflow.Base.Sort.{sort_by}
use ovnflow.Text.{Text, codes, text_eq, is_blank}
use ovnflow.Errors.{ok}
use ovnflow.Util.{validate_name, contains_string, unique_strings, unique_loop}
use ovnflow.Util.Dict.{lookup, lookup-put}
use ovnflow.Owner.{validate_labels}
use ovnflow.Sdwan.Types.{Network, ApplyPlan, is_transport, is_layer}
use ovnflow.Sdwan.Agent.{
  Agent, Assignment, clone_agent, validate_agent, validate_transports, validate_layers,
  validate_features, normalize_capabilities, unique_sorted, agent_can_serve,
}
use ovnflow.Sdwan.Control.{
  ControlPlane, new_control_plane, count_of, register_agent, register_checked, assigned, registered,
  assign_sdwan, assignable, assignment_key, new_assignment, store_agent,
}
use ovnflow.Sdwan.Control.Steps.{
  registers, assigns, Reachable, start, step, Consistent, Reachable-Consistent,
}
use ovnflow.Sdwan.Control.Generations.{Kept, Step-Kept, assign_sdwan-next}
use ovnflow.Sdwan.Control.Serve.{assignment_key_ambiguous}
use ovnflow.Tests.Sdwan.{wireguard_mesh, validate_wireguard}

abbrev agent : Agent
agent = record {
  id = codes "a1";
  site = codes "paris";
  endpoint = [];
  capabilities = record {
    transports = codes "wireguard" ∷ [];
    layers = [];
    features = [];
    attributes = [];
  };
  labels = [];
  status = record {
    state = [];
    message = [];
    last_seen = 0;
    observed = [];
    findings = [];
    generation = 0;
    attributes = [];
  };
}

abbrev network : Network
network = wireguard_mesh

abbrev no_plan : ApplyPlan
no_plan = record { network = codes "wan"; operations = [] }

abbrev known : Agent
known = clone_agent (registered 5 none agent)

abbrev with_agent : ControlPlane
with_agent = (register_agent new_control_plane 5 agent).0

reachable_agent : Reachable with_agent
reachable_agent = step start (registers new_control_plane 5 agent)

validate-agent : validate_agent agent ≡ ok tt
unfolding validate_agent validate_name validate_labels validate_transports validate_layers
    validate_features is_blank is_transport is_layer text_eq
validate-agent = refl

register-agent : with_agent ≡ store_agent new_control_plane known
unfolding register_agent lookup
register-agent = ap (λ r. (register_checked new_control_plane 5 agent r).0) validate-agent

abbrev assigned_once : ControlPlane
assigned_once = (assign_sdwan with_agent 6 (codes "a1") network no_plan).0

reachable_assigned : Reachable assigned_once
reachable_assigned = step reachable_agent (assigns with_agent 6 (codes "a1") network no_plan)

Reachable-Consistent_example : Consistent assigned_once
Reachable-Consistent_example = Reachable-Consistent reachable_assigned

known_there : lookup (codes "a1") with_agent.agents ≡ some known
unfolding registered clone_agent
known_there =
    ap (λ (c : ControlPlane). lookup (codes "a1") c.agents) register-agent
    ∙ lookup-put (codes "a1") known []

Step-Kept_example : Kept (register_agent with_agent 9 agent).0 (codes "a1") known
Step-Kept_example =
    Step-Kept (codes "a1") known reachable_agent (registers with_agent 9 agent) known_there

-- The first assignment, and the one that replaces it.
abbrev assignment : ℕ → ℕ → Assignment
assignment now generation = new_assignment now (codes "a1") known network no_plan generation

can_serve : agent_can_serve known network ≡ true
unfolding agent_can_serve normalize_capabilities unique_sorted unique_strings unique_loop
    contains_string sort_by registered clone_agent text_eq
can_serve = refl

assignable-network :
    (c : ControlPlane)
    → lookup (codes "a1") c.agents ≡ some known
    → assignable c (codes "a1") network ≡ ok known
unfolding assignable validate_name is_blank
assignable-network c h = rw (validate_wireguard, h, can_serve) refl

abbrev key : Text
key = assignment_key (codes "a1") (codes "wan")

assign_once : assigned_once ≡ (assigned with_agent 6 (codes "a1") network no_plan (ok known)).0
unfolding assign_sdwan
assign_once =
    ap (λ r. (assigned with_agent 6 (codes "a1") network no_plan r).0)
      (assignable-network with_agent known_there)

known_later : lookup (codes "a1") assigned_once.agents ≡ some known
known_later = ap (λ (c : ControlPlane). lookup (codes "a1") c.agents) assign_once ∙ known_there

generation_there : count_of (lookup key with_agent.generations) + 1 ≡ 1
unfolding lookup
generation_there = ap (λ (c : ControlPlane). count_of (lookup key c.generations) + 1) register-agent

generation_later : lookup key assigned_once.generations ≡ some 1
generation_later =
    ap (λ (c : ControlPlane). lookup key c.generations) assign_once
    ∙ lookup-put key (count_of (lookup key with_agent.generations) + 1) with_agent.generations
    ∙ ap some generation_there

old_there : lookup key assigned_once.assignments ≡ some (assignment 6 1)
old_there =
    ap (λ (c : ControlPlane). lookup key c.assignments) assign_once
    ∙ lookup-put key (assignment 6 (count_of (lookup key with_agent.generations) + 1))
        with_agent.assignments
    ∙ ap (λ g. some (assignment 6 g)) generation_there

assign_again : (assign_sdwan assigned_once 7 (codes "a1") network no_plan).1 ≡ ok (assignment 7 2)
unfolding assign_sdwan
assign_again =
    ap (λ r. (assigned assigned_once 7 (codes "a1") network no_plan r).1)
      (assignable-network assigned_once known_later)
    ∙ ap (λ o. ok (assignment 7 (count_of o + 1))) generation_later

assign_sdwan-next_example :
    ((assignment 7 2).generation ≡ (assignment 6 1).generation + 1)
    × (lookup key (assign_sdwan assigned_once 7 (codes "a1") network no_plan).0.assignments
        ≡ some (assignment 7 2))
unfolding new_assignment
assign_sdwan-next_example =
    assign_sdwan-next assigned_once 7 (codes "a1") network no_plan (assignment 7 2) (assignment 6 1)
      reachable_assigned assign_again old_there

shared_key :
    assignment_key (codes "a") (assignment_key (codes "b") (codes "c"))
    ≡ assignment_key (assignment_key (codes "a") (codes "b")) (codes "c")
shared_key = assignment_key_ambiguous (codes "a") (codes "b") (codes "c")
