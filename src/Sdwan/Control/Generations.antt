-- ===== src/Sdwan/Control/Generations.antt =====
-- sdwan_agent.go: the generations of agents and of assignments.
use ovnflow.Base.{ℕ, ◌+◌, ◌≤◌, Option, none, some, String}
use ovnflow.Base.{Bool-cases, inl, inr, ◌≡◌, refl, sym, ap, ◌∙◌, subst, arith}
use ovnflow.Text.{Text, text_eq}
use ovnflow.Text.Laws.{text_eq→eq}
use ovnflow.Errors.{Result, ok, err, bind-ok, >>-ok, ok_injective, Result-cases, ok≢err}
use ovnflow.Util.{validate_name}
use ovnflow.Util.Dict.{lookup, put, lookup-put, lookup-put_other}
use ovnflow.Sdwan.Types.{Network, ApplyPlan}
use ovnflow.Sdwan.Agent.{
  Agent, Heartbeat, Assignment, AssignmentStatus, clone_agent, validate_agent,
}
use ovnflow.Sdwan.Control.{
  ControlPlane, store_agent, count_of, generation_of, registered, register_agent, heartbeat_agent,
  heartbeat_status, heartbeat, found_agent, assignable, assignment_key, new_assignment, assigned,
  assign_sdwan, ackable, ack_assignment,
}
use ovnflow.Sdwan.Control.Steps.{
  Step, registers, beats, assigns, acks, Reachable, Consistent, Reachable-Consistent,
}

-- An agent is still there, and its generation is not less.
abbrev pub Kept : ControlPlane → Text → Agent → Type 0
Kept c id a =
    (later : Agent) × (lookup id c.agents ≡ some later)
    × (a.status.generation ≤ later.status.generation)

store_agent-Kept :
    (c : ControlPlane) (b : Agent) (id : Text) (a : Agent)
    → generation_of (lookup b.id c.agents) ≤ b.status.generation
    → lookup id c.agents ≡ some a
    → Kept (store_agent c b) id a
store_agent-Kept c b id a le h = elim (Bool-cases (text_eq id b.id)) [
  | inl e ↦
      let same = text_eq→eq id b.id e in
      let found = subst (λ t. lookup t c.agents ≡ some a) same h in
      (
        b,
        subst (λ t. lookup t (put b.id b c.agents) ≡ some b) (sym same)
            (lookup-put b.id b c.agents),
        rw⁻¹ (ap generation_of found) le,
      )
  | inr e ↦ (a, lookup-put_other b.id id b c.agents e ∙ h, omega arith)
]

registered-generation :
    (now : ℕ) (current : Option Agent) (agent : Agent)
    → generation_of current ≤ (clone_agent (registered now current agent)).status.generation
unfolding registered clone_agent
registered-generation now current agent = ground arith

register_agent-Kept :
    (c : ControlPlane) (now : ℕ) (agent : Agent) (id : Text) (a : Agent)
    → lookup id c.agents ≡ some a
    → Kept (register_agent c now agent).0 id a
unfolding register_agent clone_agent registered
register_agent-Kept c now agent id a h = elim (Result-cases (validate_agent agent)) [
  | inl (e, k) ↦ rw k (a, h, omega arith)
  | inr (u, k) ↦
      let current = lookup agent.id c.agents in
      rw k (
        store_agent-Kept c (clone_agent (registered now current agent)) id a
          (registered-generation now current agent) h)
]

found_agent-ok :
    (op : String) (id : Text) (o : Option Agent) {a : Agent}
    → found_agent op id o ≡ ok a
    → o ≡ some a
found_agent-ok op id none h = cc
found_agent-ok op id (some x) h = cc

heartbeat_agent-ok :
    (c : ControlPlane) (hb : Heartbeat) (a : Agent)
    → heartbeat_agent c hb ≡ ok a
    → lookup hb.agent_id c.agents ≡ some a
unfolding heartbeat_agent
heartbeat_agent-ok c hb a h =
    let n = >>-ok (validate_name "sdwan agent" hb.agent_id) _ h in
    let f = bind-ok (found_agent "heartbeat" hb.agent_id (lookup hb.agent_id c.agents)) _ n.1 in
    let v = >>-ok _ (ok f.0) f.2 in
    found_agent-ok "heartbeat" hb.agent_id (lookup hb.agent_id c.agents) f.1
    ∙ ap some (ok_injective v.1)

heartbeat-Kept :
    (c : ControlPlane) (now : ℕ) (hb : Heartbeat) (id : Text) (a : Agent)
    → Consistent c
    → lookup id c.agents ≡ some a
    → Kept (heartbeat c now hb).0 id a
unfolding heartbeat clone_agent heartbeat_status
heartbeat-Kept c now hb id a w h = elim (Result-cases (heartbeat_agent c hb)) [
  | inl (e, k) ↦ rw k (a, h, omega arith)
  | inr (b, k) ↦
      let found = heartbeat_agent-ok c hb b k in
      let own = w.agents hb.agent_id b found in
      let there : lookup b.id c.agents ≡ some b =
        subst (λ t. lookup t c.agents ≡ some b) (sym own) found in
      let level : generation_of (lookup b.id c.agents) ≤ b.status.generation =
        subst (λ (o : Option Agent). generation_of o ≤ b.status.generation) (sym there)
          (omega arith) in
      rw k (store_agent-Kept c _ id a level h)
]

agents-assign_sdwan :
    (c : ControlPlane) (now : ℕ) (id : Text) (n : Network) (plan : ApplyPlan)
    → (assign_sdwan c now id n plan).0.agents ≡ c.agents
unfolding assign_sdwan
agents-assign_sdwan c now id n plan = elim (Result-cases (assignable c id n)) [
  | inl (e, k) ↦ rw k refl
  | inr (a, k) ↦ rw k refl
]

agents-ack_assignment :
    (c : ControlPlane) (now later : ℕ) (id : Text) (status : AssignmentStatus)
    → (ack_assignment c now later id status).0.agents ≡ c.agents
unfolding ack_assignment
agents-ack_assignment c now later id status = elim (Result-cases (ackable c id status)) [
  | inl (e, k) ↦ rw k refl
  | inr (a, k) ↦ rw k refl
]

-- No call removes a registered agent or lowers its generation, in any reachable state.
pub Step-Kept :
    {c d : ControlPlane} (id : Text) (a : Agent)
    → Reachable c
    → Step c d
    → lookup id c.agents ≡ some a
    → Kept d id a
Step-Kept id a r (registers c now agent) h = register_agent-Kept c now agent id a h
Step-Kept id a r (beats c now hb) h = heartbeat-Kept c now hb id a (Reachable-Consistent r) h
Step-Kept id a r (assigns c now key n plan) h =
    (a, ap (λ agents. lookup id agents) (agents-assign_sdwan c now key n plan) ∙ h, omega arith)
Step-Kept id a r (acks c now later key status) h = (
  a,
  ap (λ agents. lookup id agents) (agents-ack_assignment c now later key status) ∙ h,
  omega arith,
)

assign_sdwan-assigned :
    (c : ControlPlane) (now : ℕ) (id : Text) (n : Network) (plan : ApplyPlan) (r : Result Agent)
    → assignable c id n ≡ r
    → assign_sdwan c now id n plan ≡ assigned c now id n plan r
unfolding assign_sdwan
assign_sdwan-assigned c now id n plan r h = ap (assigned c now id n plan) h

-- The next generation of a key.
assigned-next :
    (c : ControlPlane) (old : Assignment) (key : Text)
    → Consistent c
    → lookup key c.assignments ≡ some old
    → count_of (lookup key c.generations) + 1 ≡ old.generation + 1
assigned-next c old key w o =
    let fits = w.assignments key old o in ap (λ o'. count_of o' + 1) fits.2

-- In a reachable state an assignment that succeeds replaces that of the same agent and network, if
-- there was one, by one of the next generation.
pub assign_sdwan-next :
    (c : ControlPlane) (now : ℕ) (id : Text) (n : Network) (plan : ApplyPlan) (x old : Assignment)
    → Reachable c
    → (assign_sdwan c now id n plan).1 ≡ ok x
    → lookup x.id c.assignments ≡ some old
    → (x.generation ≡ old.generation + 1)
      × (lookup x.id (assign_sdwan c now id n plan).0.assignments ≡ some x)
unfolding new_assignment
assign_sdwan-next c now id n plan x old r h o = elim (Result-cases (assignable c id n)) [
  | inl (e, k) ↦
      let failed = ap (λ p. p.1) (assign_sdwan-assigned c now id n plan (err e) k) in
      absurd (ok≢err (sym failed ∙ h))
  | inr (a, k) ↦
      let key = assignment_key id n.name in
      let done = assign_sdwan-assigned c now id n plan (ok a) k in
      let made = ok_injective (sym (ap (λ p. p.1) done) ∙ h) in
      let at : x.id ≡ key = ap (λ (y : Assignment). y.id) (sym made) in
      let there = subst (λ t. lookup t c.assignments ≡ some old) at o in
      let stored : lookup key (assign_sdwan c now id n plan).0.assignments ≡ some x =
        ap (λ p. lookup key p.0.assignments) done
        ∙ (lookup-put key _ c.assignments ∙ ap some made) in
      (
        ap (λ (y : Assignment). y.generation) (sym made)
            ∙ assigned-next c old (assignment_key id n.name) (Reachable-Consistent r) there,
        subst (λ t. lookup t (assign_sdwan c now id n plan).0.assignments ≡ some x) (sym at) stored,
      )
]
