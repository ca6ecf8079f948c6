-- ===== src/Router/Client/PatchEffect.antt =====
-- linuxrouter/router.go: what `Patch` does to the map of a client, and that the map holds each
-- router under its name whatever calls are made.
use ovnflow.Base.{Bool, ◌≡◌, ◌⊎◌, refl, ap, ◌∙◌, sym, subst, List, Option, none, some}
use ovnflow.Base.{Bool-cases, inl, inr, if◌then◌else◌, some_injective}
use ovnflow.Text.{Text, text_eq}
use ovnflow.Text.Laws.{text_eq→eq}
use ovnflow.Errors.{Result, ok, err, bind-ok, >>-ok, ok_injective}
use ovnflow.Util.Dict.{Dict, lookup}
use ovnflow.Router.Types.{Spec, Router, Command}
use ovnflow.Router.Validate.{validate_router}
use ovnflow.Router.Render.{Rendered}
use ovnflow.Router.Patch.{Patch, validate_patch, apply_to}
use ovnflow.Router.Patch.View.{PatchView, apply_to-PatchView}
use ovnflow.Router.Client.{
  Host, State, Outcome, returned, failed_with, panicked, execute_apply, refresh_stored_status,
  patched, patched_from, patch_done, patch_rendered, patch_checked, patch_allowed, outcome_of,
  patch,
}
use ovnflow.Router.Client.View.{named_spec, specs, refresh-specs}
use ovnflow.Router.Client.Effect.{Same, SetTo, Executed, stored-Executed}

-- Each router is stored under its own name.
unfoldable pub NamesMatch : Dict Router → Type 0
NamesMatch store = (x name : Text) (spec : Spec) → specs store x ≡ some (name, spec) → name ≡ x

pub Same-NamesMatch :
    (before after : Dict Router) → Same before after → NamesMatch before → NamesMatch after
unfolding Same NamesMatch
Same-NamesMatch before after same m x name spec h = m x name spec (sym (same x) ∙ h)

pub SetTo-NamesMatch :
    (name : Text) (spec : Spec) (before after : Dict Router)
    → SetTo name spec before after
    → NamesMatch before
    → NamesMatch after
unfolding SetTo NamesMatch
SetTo-NamesMatch name spec before after set m x other old h = elim (Bool-cases (text_eq x name)) [
  | inl here ↦
      let value : some (name, spec) ≡ some (other, old) =
        sym (ap (λ (c : Bool). if c then some (name, spec) else specs before x) here)
        ∙ sym (set x)
        ∙ h in
      sym (ap (λ (p : Text × Spec). p.0) (some_injective value)) ∙ sym (text_eq→eq x name here)
  | inr there ↦ m x other old (
      sym (ap (λ (c : Bool). if c then some (name, spec) else specs before x) there)
      ∙ sym (set x)
      ∙ h)
]

-- A router that a patch makes is valid, has the name of the stored one, and is that one as the
-- patch edits it.
patched_from-ok :
    (p : Patch) (o : Option Router) (next : Router)
    → patched_from p o ≡ ok next
    → (current : Router) × (o ≡ some current)
      × (validate_patch p current ≡ ok tt)
      × PatchView p current.spec next.spec
      × (next.name ≡ current.name)
      × (validate_router next ≡ ok tt)
patched_from-ok p none next h = cc
patched_from-ok p (some current) next h =
    let a = >>-ok (validate_patch p current) _ h in
    let b = bind-ok (apply_to p current) _ a.1 in
    let c = >>-ok (validate_router b.0) _ b.2 in
    let same = ok_injective c.1 in
    let view = apply_to-PatchView p current b.0 b.1 in
    (
      current,
      refl,
      a.0,
      subst (λ (n : Router). PatchView p current.spec n.spec) same view.0,
      ap (λ (n : Router). n.name) (sym same) ∙ view.1,
      subst (λ n. validate_router n ≡ ok tt) same c.0,
    )

patched-name :
    (name : Text) (p : Patch) (store : Dict Router) (next : Router)
    → NamesMatch store
    → patched name p store ≡ ok next
    → next.name ≡ name
unfolding patched NamesMatch specs
patched-name name p store next m h =
    let (current, found, checked, view, same, valid) =
      patched_from-ok p (lookup name store) next h in
    same ∙ m name current.name current.spec (ap named_spec found)

module _ {ℓ} {W : Type ℓ} (h : Host W) where
  -- The specification that a patch has stored: it passed the preconditions, is the stored one as it
  -- is edited, was valid, and was rendered.
  pub record Patched (name : Text) (p : Patch) (before after : Dict Router) : Type 0 where
    pub current : Router
    pub next : Router
    pub spec : Spec
    pub commands : List Command
    pub found : lookup name before ≡ some current
    pub allowed : validate_patch p current ≡ ok tt
    pub view : PatchView p current.spec next.spec
    pub valid : validate_router next ≡ ok tt
    pub rendered : h.render next ≡ (spec, ok commands)
    pub set : SetTo name spec before after

  -- An error may also be that of the refresh behind a patch.
  unfoldable pub PatchEffect : Text → Patch → Dict Router → State W × Outcome Router → Type 0
  PatchEffect name p before (s, returned r) = Patched name p before s.store
  PatchEffect name p before (s, failed_with e) = Same before s.store ⊎ Patched name p before s.store
  PatchEffect name p before (s, panicked) = Same before s.store

  outcome-PatchEffect :
      (name : Text) (p : Patch) (before : Dict Router) (s : State W) (r : Result Router)
      → Patched name p before s.store
      → PatchEffect name p before (s, outcome_of r)
  unfolding PatchEffect
  outcome-PatchEffect name p before s (err e) done = inr done
  outcome-PatchEffect name p before s (ok router) done = done

  done-PatchEffect :
      (name : Text) (p : Patch) (before : Dict Router) (router : Router)
      → (r : State W × Outcome (Unit {0}))
      → ((after : Dict Router)
          → SetTo router.name router.spec before after
          → Patched name p before after)
      → Executed h router before r
      → PatchEffect name p before (patch_done h r router.name)
  unfolding PatchEffect Executed SetTo
  done-PatchEffect name p before router (s, returned u) done e =
      let refreshed = refresh_stored_status h s router.name in
      outcome-PatchEffect name p before refreshed.0 refreshed.1
        (done refreshed.0.store (λ x. refresh-specs h s router.name x ∙ e x))
  done-PatchEffect name p before router (s, failed_with d) done e = inl e
  done-PatchEffect name p before router (s, panicked) done e = e

  rendered-PatchEffect :
      (name : Text) (p : Patch) (s : State W) (next : Router) (r : Rendered)
      → ((spec : Spec) (commands : List Command) (after : Dict Router)
          → r ≡ (spec, ok commands)
          → SetTo next.name spec s.store after
          → Patched name p s.store after)
      → PatchEffect name p s.store (patch_rendered h s next r)
  unfolding PatchEffect Same execute_apply
  rendered-PatchEffect name p s next (spec, err e) done = inl (λ x. refl)
  rendered-PatchEffect name p s next (spec, ok commands) done =
      let router : Router = record next { spec = spec } in
      done-PatchEffect name p s.store router _ (λ after. done spec commands after refl)
        (stored-Executed h s.store router _)

  checked-PatchEffect :
      (name : Text) (p : Patch) (s : State W) (r : Result Router)
      → NamesMatch s.store
      → r ≡ patched name p s.store
      → PatchEffect name p s.store (patch_checked h s r)
  unfolding PatchEffect Same patched
  checked-PatchEffect name p s (err e) m q = inl (λ x. refl)
  checked-PatchEffect name p s (ok next) m q =
      let (current, found, allowed, view, same, valid) =
        patched_from-ok p (lookup name s.store) next (sym q) in
      let own = patched-name name p s.store next m (sym q) in
      rendered-PatchEffect name p s next (h.render next) (λ spec commands after e set. record {
        current = current;
        next = next;
        spec = spec;
        commands = commands;
        found = found;
        allowed = allowed;
        view = view;
        valid = valid;
        rendered = e;
        set = subst (λ n. SetTo n spec s.store after) own set;
      })

  allowed-PatchEffect :
      (name : Text) (p : Patch) (s : State W) (allowed : Result (Unit {0}))
      → NamesMatch s.store
      → PatchEffect name p s.store (patch_allowed h name p s allowed)
  unfolding PatchEffect Same
  allowed-PatchEffect name p s (err e) m = inl (λ x. refl)
  allowed-PatchEffect name p s (ok u) m = checked-PatchEffect name p s _ m refl

  -- A `Patch` that returns has found the router of the name, met the preconditions on it, edited it
  -- as the patch says, found the result valid and stored what the renderer left of it under the
  -- name; no other specification has changed. One that fails has changed no specification, or has
  -- done all of that and failed in the refresh of the status behind it. This holds of a map in which
  -- each router stands under its own name.
  pub patch-PatchEffect :
      (has_client : Bool) (name : Text) (p : Patch) (s : State W)
      → NamesMatch s.store
      → PatchEffect name p s.store (patch h has_client name p s)
  unfolding patch
  patch-PatchEffect has_client name p s m = allowed-PatchEffect name p s _ m
