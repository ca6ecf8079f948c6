-- ===== src/Sdwan/Control/Serve.antt =====
-- sdwan_agent.go: which networks an agent can be assigned.
use ovnflow.Base.{false, List, [], ◌∷◌, any, ◌≡◌, refl, ◌∙◌, Bool-cases, inl, inr}
use ovnflow.Base.Sort.Laws.{any-sort_by}
use ovnflow.Base.{append_assoc}
use ovnflow.Text.{Text, text_eq, text_lt}
use ovnflow.Util.{contains_string, unique_loop, unique_strings}
use ovnflow.Sdwan.Types.{Network}
use ovnflow.Sdwan.Agent.{Agent, unique_sorted, normalize_capabilities, agent_can_serve}
use ovnflow.Sdwan.Control.{assignment_key}

unique_loop-no_empty :
    (seen values : List Text) → contains_string (unique_loop seen values) [] ≡ false
unfolding unique_loop contains_string text_eq
unique_loop-no_empty seen [] = refl
unique_loop-no_empty seen ([] ∷ vs) = unique_loop-no_empty seen vs
unique_loop-no_empty seen ((x ∷ v) ∷ vs) =
    elim (Bool-cases (any (λ value. text_eq value (x ∷ v)) seen)) [
      | inl e ↦ rw e (unique_loop-no_empty seen vs)
      | inr e ↦ rw e (unique_loop-no_empty ((x ∷ v) ∷ seen) vs)
    ]

unique_sorted-no_empty : (values : List Text) → contains_string (unique_sorted values) [] ≡ false
unfolding unique_sorted unique_strings contains_string
unique_sorted-no_empty values =
    any-sort_by (λ value. text_eq value []) text_lt (unique_loop [] values)
    ∙ unique_loop-no_empty [] values

-- No agent can serve a network whose transport is left empty, whatever it advertises, although
-- `Validate` accepts such a network and `normalizeSDWANNetwork` makes it a WireGuard one.
pub agent_can_serve-unset :
    (a : Agent) (n : Network) → n.transport ≡ [] → agent_can_serve a n ≡ false
unfolding agent_can_serve normalize_capabilities
agent_can_serve-unset a n e = rw (e, unique_sorted-no_empty a.capabilities.transports) refl

-- The key of an assignment does not determine the agent and the network: a network "b/c" on an
-- agent "a" and a network "c" on an agent "a/b" have the same key, for any names a, b and c.
pub assignment_key_ambiguous :
    (a b c : Text) → assignment_key a (assignment_key b c) ≡ assignment_key (assignment_key a b) c
unfolding assignment_key
assignment_key_ambiguous a b c = simp append_assoc
