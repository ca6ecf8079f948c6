-- ===== src/Sdwan/Builder/Reconcile.antt =====
-- sdwan.go: a network that was reconciled is settled, on the in-memory backend.
use ovnflow.Base.{true, false, [], Option, some, ◌≡◌, refl, sym, ap, ◌∙◌, subst}
use ovnflow.Base.{Bool-cases, inl, inr}
use ovnflow.Text.{Text}
use ovnflow.Errors.{Error, ok, err, bind-ok, >>-ok, ok_injective, Result-cases, ok≢err}
use ovnflow.Sdwan.Types.{Network, ApplyPlan, Status, DryRunResult, ReconcileResult}
use ovnflow.Sdwan.Validate.{validate_network}
use ovnflow.Sdwan.Normalize.{normalize_network, with_defaults, normalize_links, topology_links}
use ovnflow.Sdwan.Normalize.Idempotent.{normalize_network_idempotent}
use ovnflow.Sdwan.Plan.{plan_apply}
use ovnflow.Sdwan.Equal.{network_eq_refl}
use ovnflow.Sdwan.Store.{Backend, MemoryBackend, memory, memory_get, memory_apply}
use ovnflow.Sdwan.Store.Runs.{stored, normalize_network-name, memory_get-memory_apply}
use ovnflow.Sdwan.Builder.{
  Builder, apply_plan, plan, current, current_of, dry_run, diff_of, without_status,
  current_without_status, is_empty_diff, written, write_network, reconcile_dry, reconcile,
}

module _ {S : Type 0} where
  -- What a dry run is made of, if it succeeds.
  dry_run-ok :
      (backend : Option (Backend S)) (s : S) (b : Builder) (dry : DryRunResult)
      → dry_run backend s b ≡ ok dry
      → (validate_network b.network ≡ ok tt)
        × ((found : Option Network) × (current backend s b ≡ ok found)
            × (dry.diff
                ≡ diff_of
                    (current_without_status found)
                    (without_status (normalize_network b.network))))
  unfolding dry_run plan
  dry_run-ok backend s b dry h =
      let p = bind-ok (plan b) _ h in
      let c = bind-ok (current backend s b) _ p.2 in
      let v = >>-ok (validate_network b.network) _ p.1 in
      (v.0, (c.0, c.1, ap (λ (d : DryRunResult). d.diff) (sym (ok_injective c.2))))

-- The status does not matter to the normal form of the rest.
normalize_network-status :
    (n : Network) (status : Status)
    → normalize_network (record n { status = status })
      ≡ record (normalize_network n) { status = status }
unfolding normalize_network with_defaults normalize_links topology_links
normalize_network-status n status = refl

normalize_network-stored :
    (s : MemoryBackend) (n : Network)
    → without_status (normalize_network (stored s (normalize_network n)))
      ≡ without_status (normalize_network n)
normalize_network-stored s n =
    let m = normalize_network n in
    ap without_status (normalize_network-status (normalize_network m) (stored s m).status)
    ∙ ap (λ k. without_status (normalize_network k)) (normalize_network_idempotent n)
    ∙ ap without_status (normalize_network_idempotent n)

-- What is read back of a network that was just written.
current-memory_apply :
    (s : MemoryBackend) (b : Builder) (planned : ApplyPlan)
    → current (some memory) (memory_apply s (normalize_network b.network) planned).0 b
      ≡ ok (some (normalize_network (stored s (normalize_network b.network))))
unfolding current current_of
current-memory_apply s b planned =
    let m = normalize_network b.network in
    let name = normalize_network-name b.network in
    let got : memory_get (memory_apply s m planned).0 b.network.name ≡ ok (stored s m) =
      subst (λ (t : Text). memory_get (memory_apply s m planned).0 t ≡ ok (stored s m)) name
        (memory_get-memory_apply s m planned) in
    rw got refl

-- The first run found nothing to do, or it wrote the network.
dry_run-again :
    (s : MemoryBackend) (b : Builder) (planned : ApplyPlan)
    → validate_network b.network ≡ ok tt
    → (dry : DryRunResult) × (dry_run
          (some memory)
          (memory_apply s (normalize_network b.network) planned).0
          b
        ≡ ok dry)
      × (is_empty_diff dry.diff ≡ true)
unfolding dry_run plan apply_plan diff_of
dry_run-again s b planned v =
    let desired = without_status (normalize_network b.network) in
    let before = without_status (normalize_network (stored s (normalize_network b.network))) in
    let dry : DryRunResult = record {
      plan = record {
        operations = (plan_apply (normalize_network b.network)).operations;
        warnings = [];
      };
      diff = diff_of (some before) desired;
    } in
    (
      dry,
      rw (v, current-memory_apply s b planned) refl,
      rw (normalize_network-stored s b.network, network_eq_refl desired) refl,
    )

-- On this backend there is nothing left to do for the network.
abbrev pub Settled : MemoryBackend → Builder → Type 0
Settled s b =
    (again : ReconcileResult) × (reconcile (some memory) s b ≡ (s, ok again))
    × (again.applied ≡ false)

Settled-of :
    (s : MemoryBackend) (b : Builder) (dry : DryRunResult)
    → dry_run (some memory) s b ≡ ok dry
    → is_empty_diff dry.diff ≡ true
    → Settled s b
unfolding reconcile reconcile_dry
Settled-of s b dry h e =
    (record { plan = dry.plan; diff = dry.diff; applied = false }, rw (h, e) refl, refl)

reconcile-empty :
    (s : MemoryBackend) (b : Builder) (dry : DryRunResult)
    → dry_run (some memory) s b ≡ ok dry
    → is_empty_diff dry.diff ≡ true
    → (reconcile (some memory) s b).0 ≡ s
unfolding reconcile reconcile_dry
reconcile-empty s b dry h e = rw (h, e) refl

reconcile-failed :
    (s : MemoryBackend) (b : Builder) (e : Error)
    → dry_run (some memory) s b ≡ err e
    → (reconcile (some memory) s b).1 ≡ err e
unfolding reconcile reconcile_dry
reconcile-failed s b e k = rw k refl

reconcile-written :
    (s : MemoryBackend) (b : Builder) (dry : DryRunResult)
    → dry_run (some memory) s b ≡ ok dry
    → is_empty_diff dry.diff ≡ false
    → validate_network b.network ≡ ok tt
    → (reconcile (some memory) s b).0
      ≡ (memory_apply s (normalize_network b.network) (plan_apply (normalize_network b.network))).0
unfolding reconcile reconcile_dry write_network written apply_plan memory_apply
reconcile-written s b dry h e v = rw (h, e, v) refl

-- Once `Reconcile` has succeeded on the in-memory backend, `Reconcile` of the same network succeeds
-- again, applies nothing, and leaves the backend as it is.
pub reconcile-Settled :
    (s : MemoryBackend) (b : Builder) (r : ReconcileResult)
    → (reconcile (some memory) s b).1 ≡ ok r
    → Settled (reconcile (some memory) s b).0 b
reconcile-Settled s b r h = elim (Result-cases (dry_run (some memory) s b)) [
  | inl (e, k) ↦ absurd (ok≢err (sym (reconcile-failed s b e k) ∙ h))
  | inr (dry, k) ↦ elim (Bool-cases (is_empty_diff dry.diff)) [
    | inl e ↦ rw (reconcile-empty s b dry k e) (Settled-of s b dry k e)
    | inr e ↦
        let v = (dry_run-ok (some memory) s b dry k).0 in
        let planned = plan_apply (normalize_network b.network) in
        let again = dry_run-again s b planned v in
        rw (reconcile-written s b dry k e v) (
          Settled-of (memory_apply s (normalize_network b.network) planned).0 b again.0 again.1
            again.2)
  ]
]
