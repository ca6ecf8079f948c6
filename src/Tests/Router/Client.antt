-- ===== src/Tests/Router/Client.antt =====
-- linuxrouter/router.go: the client's `Apply` and `Patch` of the router, and the theorems at it.
use ovnflow.Base.{◌≡◌, refl, [], ◌∷◌, List, some, true, false}
use ovnflow.Text.{codes}
use ovnflow.Errors.{ok, err}
use ovnflow.Router.Types.{Spec, Router, Command}
use ovnflow.Router.Names.{wrap_validation}
use ovnflow.Router.Validate.{validate_router}
use ovnflow.Router.Render.{infer_nat_interfaces}
use ovnflow.Router.Client.{Host, State, returned, apply_checks, referred, apply, patch, new_client}
use ovnflow.Router.Client.Effect.{ApplyEffect, apply-ApplyEffect}
use ovnflow.Router.Client.PatchEffect.{NamesMatch, PatchEffect, patch-PatchEffect}
use ovnflow.Router.Client.Reachable.{applies, Reachable, starts, steps, Reachable-NamesMatch}
use ovnflow.Router.Client.Progress.{NeverFails, apply-returned}
use ovnflow.Tests.Router.{run, masquerade, web, nat, edge_spec, edge, edit}

abbrev client : Host (List Command)
client = new_client (λ status. some [])

abbrev empty : State (List Command)
empty = record { world = []; store = [] }

apply-ApplyEffect_example :
    ApplyEffect client
      (codes "edge")
      (referred (codes "edge") edge)
      []
      (apply client true (codes "edge") edge empty)
apply-ApplyEffect_example = apply-ApplyEffect client true (codes "edge") edge empty

abbrev applied : State (List Command)
applied = (apply client true (codes "edge") edge empty).0

applied-Reachable : Reachable client applied
applied-Reachable = steps empty applied (starts []) (applies (codes "edge") edge empty)

Reachable-NamesMatch_example : NamesMatch applied.store
Reachable-NamesMatch_example = Reachable-NamesMatch client applied applied-Reachable

patch-PatchEffect_example :
    PatchEffect client
      (codes "edge")
      edit
      applied.store
      (patch client true (codes "edge") edit applied)
patch-PatchEffect_example =
    patch-PatchEffect client true (codes "edge") edit applied
      (Reachable-NamesMatch client applied applied-Reachable)

client-NeverFails : NeverFails client
unfolding run
client-NeverFails = record { run = λ w c. refl; ensure = λ ensure w r e. cc }

checks_edge : apply_checks true (codes "edge") edge ≡ ok tt
unfolding run
checks_edge = refl

abbrev edge_commands : List Command
edge_commands =
    (record {
      program = codes "ip";
      args = codes "link" ∷ codes "plan" ∷ codes "wan0" ∷ codes "wan" ∷ [];
      ignore_not_found = false;
      ignore_already_exists = false;
    })
    ∷ (record {
      program = codes "ip";
      args = codes "link" ∷ codes "plan" ∷ codes "lan0" ∷ codes "lan" ∷ [];
      ignore_not_found = false;
      ignore_already_exists = false;
    })
    ∷ (record {
      program = codes "nat";
      args =
          codes "masquerade"
          ∷ codes "masquerade-10-0-0-0-24-wan0"
          ∷ codes "10.0.0.0/24"
          ∷ codes "wan0"
          ∷ [];
      ignore_not_found = false;
      ignore_already_exists = false;
    })
    ∷ (record {
      program = codes "nat";
      args =
          codes "port-forward"
          ∷ codes "web"
          ∷ codes "TCP"
          ∷ codes "wan0"
          ∷ []
          ∷ codes "80"
          ∷ codes "10.0.0.5"
          ∷ codes "8080"
          ∷ [];
      ignore_not_found = false;
      ignore_already_exists = false;
    })
    ∷ []

abbrev make_namespace : Command
make_namespace = record {
  program = codes "ip";
  args = codes "netns" ∷ codes "ensure" ∷ codes "ovnflow-edge" ∷ [];
  ignore_not_found = false;
  ignore_already_exists = false;
}

abbrev inferred_spec : Spec
inferred_spec = record edge_spec {
  nat = record nat {
    masquerades = masquerade (codes "wan0") ∷ [];
    port_forwards = (record web { in_interface = codes "wan0" }) ∷ [];
  };
}

render_edge :
    client.render (referred (codes "edge") edge)
    ≡ (inferred_spec, ok (make_namespace ∷ edge_commands))
unfolding run
render_edge = refl

apply-returned_example : (apply client true (codes "edge") edge empty).1 ≡ returned tt
apply-returned_example =
    apply-returned client (codes "edge") edge empty inferred_spec make_namespace edge_commands
      client-NeverFails checks_edge render_edge

-- Two masquerade rules without names, one of which leaves the interface open: they are valid, but
-- once the interface is inferred they have one name, so that the router that was stored is refused.
abbrev twins : Router
twins = record edge {
  spec = record edge_spec {
    nat = record nat { masquerades = masquerade [] ∷ masquerade (codes "wan0") ∷ [] };
  };
}

apply-twins : (apply client true (codes "edge") twins empty).1 ≡ returned tt
unfolding run
apply-twins = refl

twins_invalid :
    validate_router (record twins { spec = (infer_nat_interfaces twins.spec).0 })
    ≡ err (
        wrap_validation "rule"
          (codes "masquerade-10-0-0-0-24-wan0")
          "duplicate stable rule name"
          false)
unfolding run
twins_invalid = refl
