-- ===== src/Sdwan/Control/Steps.antt =====
-- sdwan_agent.go: the states that the control plane can reach, and what holds in all of them.
use ovnflow.Base.{ℕ, ◌+◌, false, Option, none, some, String}
use ovnflow.Base.{Bool-cases, some_injective, inl, inr, ◌≡◌, refl, sym, ap, ◌∙◌, subst}
use ovnflow.Text.{Text, text_eq}
use ovnflow.Text.Laws.{text_eq→eq}
use ovnflow.Errors.{ok, bind-ok, >>-ok, ok_injective, Result-cases}
use ovnflow.Util.{validate_name}
use ovnflow.Util.Dict.{Dict, lookup, put, lookup-put, lookup-put_other}
use ovnflow.Sdwan.Types.{Network, ApplyPlan}
use ovnflow.Sdwan.Agent.{
  Agent, Heartbeat, Assignment, AssignmentStatus, clone_agent, validate_agent,
  validate_assignment_status,
}
use ovnflow.Sdwan.Control.{
  ControlPlane, new_control_plane, store_agent, count_of, registered, register_agent,
  heartbeat_agent, heartbeat, assignable, assignment_key, new_assignment, assigned, assign_sdwan,
  ackable, found_assignment, ack_assignment,
}

-- One call of a method that writes.
pub data Step : ControlPlane → ControlPlane → Type 0 where
  registers : (c : ControlPlane) (now : ℕ) (agent : Agent) → Step c (register_agent c now agent).0
  beats : (c : ControlPlane) (now : ℕ) (hb : Heartbeat) → Step c (heartbeat c now hb).0
  assigns :
      (c : ControlPlane) (now : ℕ) (id : Text) (network : Network) (plan : ApplyPlan)
      → Step c (assign_sdwan c now id network plan).0
  acks :
      (c : ControlPlane) (now later : ℕ) (id : Text) (status : AssignmentStatus)
      → Step c (ack_assignment c now later id status).0

pub data Reachable : ControlPlane → Type 0 where
  start : Reachable new_control_plane
  step : {c d : ControlPlane} → Reachable c → Step c d → Reachable d

-- An agent is stored under its own id.
abbrev pub AgentsKeyed : Dict Agent → Type 0
AgentsKeyed agents = (id : Text) (a : Agent) → lookup id agents ≡ some a → a.id ≡ id

-- An assignment is stored under its own id, which is its key, and is of the key's generation.
abbrev pub AssignmentFits : Dict ℕ → Text → Assignment → Type 0
AssignmentFits generations key x =
    (x.id ≡ key)
    × (x.id ≡ assignment_key x.agent_id x.network)
    × (lookup key generations ≡ some x.generation)

abbrev pub AssignmentsKeyed : Dict Assignment → Dict ℕ → Type 0
AssignmentsKeyed assignments generations =
    (key : Text) (x : Assignment)
    → lookup key assignments ≡ some x
    → AssignmentFits generations key x

pub record Consistent (c : ControlPlane) : Type 0 where
  pub agents : AgentsKeyed c.agents
  pub assignments : AssignmentsKeyed c.assignments c.generations

-- What is found behind a `put`.
put-cases {ℓ κ} :
    {A : Type ℓ} (P : Text → A → Type κ) (key : Text) (value : A) (d : Dict A)
    → P key value
    → ((k : Text) (a : A) → text_eq k key ≡ false → lookup k d ≡ some a → P k a)
    → (k : Text) (a : A) → lookup k (put key value d) ≡ some a
    → P k a
put-cases P key value d p h k a e = elim (Bool-cases (text_eq k key)) [
  | inl c ↦
      let same : k ≡ key = text_eq→eq k key c in
      let e' = subst (λ t. lookup t (put key value d) ≡ some a) same e in
      let v : value ≡ a = some_injective (sym (lookup-put key value d) ∙ e') in
      subst (λ t. P t a) (sym same) (subst (P key) v p)
  | inr c ↦ h k a c (sym (lookup-put_other key k value d c) ∙ e)
]

store-Consistent : (c : ControlPlane) (a : Agent) → Consistent c → Consistent (store_agent c a)
store-Consistent c a h = record {
  agents = put-cases (λ k x. x.id ≡ k) a.id a c.agents refl (λ k x ne e. h.agents k x e);
  assignments = h.assignments;
}

register_agent-Consistent :
    (c : ControlPlane) (now : ℕ) (agent : Agent)
    → Consistent c
    → Consistent (register_agent c now agent).0
unfolding register_agent
register_agent-Consistent c now agent h = elim (Result-cases (validate_agent agent)) [
  | inl (e, k) ↦ rw k h
  | inr (u, k) ↦
      rw k (store-Consistent c (clone_agent (registered now (lookup agent.id c.agents) agent)) h)
]

heartbeat-Consistent :
    (c : ControlPlane) (now : ℕ) (hb : Heartbeat) → Consistent c → Consistent (heartbeat c now hb).0
unfolding heartbeat
heartbeat-Consistent c now hb h = elim (Result-cases (heartbeat_agent c hb)) [
  | inl (e, k) ↦ rw k h
  | inr (a, k) ↦ rw k (store-Consistent c _ h)
]

assigned-Consistent :
    (c : ControlPlane) (now : ℕ) (id : Text) (n : Network) (plan : ApplyPlan) (a : Agent)
    → Consistent c
    → Consistent (assigned c now id n plan (ok a)).0
unfolding new_assignment
assigned-Consistent c now id n plan a h =
    let key = assignment_key id n.name in
    let generation = count_of (lookup key c.generations) + 1 in
    record {
      agents = h.agents;
      assignments =
          put-cases (AssignmentFits (put key generation c.generations)) key
            (new_assignment now id a n plan generation) c.assignments
            (refl, refl, lookup-put key generation c.generations)
            (λ k y ne e.
              let f = h.assignments k y e in
              (f.0, f.1, lookup-put_other key k generation c.generations ne ∙ f.2));
    }

assign_sdwan-Consistent :
    (c : ControlPlane) (now : ℕ) (id : Text) (n : Network) (plan : ApplyPlan)
    → Consistent c
    → Consistent (assign_sdwan c now id n plan).0
unfolding assign_sdwan
assign_sdwan-Consistent c now id n plan h = elim (Result-cases (assignable c id n)) [
  | inl (e, k) ↦ rw k h
  | inr (a, k) ↦ rw k (assigned-Consistent c now id n plan a h)
]

found_assignment-ok :
    (op : String) (id : Text) (o : Option Assignment) {a : Assignment}
    → found_assignment op id o ≡ ok a
    → o ≡ some a
found_assignment-ok op id none h = cc
found_assignment-ok op id (some x) h = cc

ackable-ok :
    (c : ControlPlane) (id : Text) (status : AssignmentStatus) (a : Assignment)
    → ackable c id status ≡ ok a
    → lookup id c.assignments ≡ some a
unfolding ackable
ackable-ok c id status a h =
    let n = >>-ok (validate_name "sdwan assignment" id) _ h in
    let f = bind-ok (found_assignment "ack" id (lookup id c.assignments)) _ n.1 in
    let v = >>-ok (validate_assignment_status status) _ f.2 in
    found_assignment-ok "ack" id (lookup id c.assignments) f.1 ∙ ap some (ok_injective v.1)

ack_assignment-Consistent :
    (c : ControlPlane) (now later : ℕ) (id : Text) (status : AssignmentStatus)
    → Consistent c
    → Consistent (ack_assignment c now later id status).0
unfolding ack_assignment
ack_assignment-Consistent c now later id status h = elim (Result-cases (ackable c id status)) [
  | inl (e, k) ↦ rw k h
  | inr (a, k) ↦ rw k (record {
    agents = h.agents;
    assignments =
        put-cases (AssignmentFits c.generations) id _ c.assignments
          (h.assignments id a (ackable-ok c id status a k)) (λ k' y ne e. h.assignments k' y e);
  })
]

Step-Consistent : {c d : ControlPlane} → Step c d → Consistent c → Consistent d
Step-Consistent (registers c now agent) h = register_agent-Consistent c now agent h
Step-Consistent (beats c now hb) h = heartbeat-Consistent c now hb h
Step-Consistent (assigns c now id n plan) h = assign_sdwan-Consistent c now id n plan h
Step-Consistent (acks c now later id status) h = ack_assignment-Consistent c now later id status h

start-Consistent : Consistent new_control_plane
unfolding lookup
start-Consistent = record { agents = λ id a h. cc; assignments = λ key x h. cc }

-- In every state that the control plane can reach from its empty one, by any calls with any
-- readings of the clock, each agent is stored under its id, and each assignment is stored under its
-- id, which is the key of its agent and network, and has the latest generation of that key.
pub Reachable-Consistent : {c : ControlPlane} → Reachable c → Consistent c
Reachable-Consistent start = start-Consistent
Reachable-Consistent (step r s) = Step-Consistent s (Reachable-Consistent r)
