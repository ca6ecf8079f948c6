-- ===== src/Router/Client/Reachable.antt =====
-- linuxrouter/router.go: the calls of a client in any order.
use ovnflow.Base.{true, refl, inl, inr, []}
use ovnflow.Text.{Text}
use ovnflow.Errors.{Result, ok, err}
use ovnflow.Util.Dict.{Dict, lookup}
use ovnflow.Router.Types.{Router}
use ovnflow.Router.Patch.{Patch}
use ovnflow.Router.Client.{
  Host, State, Outcome, returned, failed_with, panicked, referred, apply, patch, get, get_allowed,
}
use ovnflow.Router.Client.View.{specs, refresh-specs}
use ovnflow.Router.Client.Effect.{Same, ApplyEffect, apply-ApplyEffect}
use ovnflow.Router.Client.PatchEffect.{
  NamesMatch, Same-NamesMatch, SetTo-NamesMatch, PatchEffect, patch-PatchEffect,
}

module _ {ℓ} {W : Type ℓ} (h : Host W) where
  -- A call on a reference.
  pub data Step : State W → State W → Type ℓ where
    applies : (name : Text) (router : Router) (s : State W) → Step s (apply h true name router s).0
    patches : (name : Text) (p : Patch) (s : State W) → Step s (patch h true name p s).0
    reads : (name : Text) (s : State W) → Step s (get h true name s).0

  -- A client that `NewClient` made, and what calls make of it, one after the other.
  pub data Reachable : State W → Type ℓ where
    starts : (w : W) → Reachable (record { world = w; store = [] })
    steps : (s t : State W) → Reachable s → Step s t → Reachable t

  applied-NamesMatch :
      (name : Text) (router : Router) (before : Dict Router) (r : State W × Outcome (Unit {0}))
      → ApplyEffect h name router before r
      → NamesMatch before
      → NamesMatch r.0.store
  unfolding ApplyEffect
  applied-NamesMatch name router before (s, returned u) e m =
      let (spec, commands, valid, rendered, set) = e in
      SetTo-NamesMatch name spec before s.store set m
  applied-NamesMatch name router before (s, failed_with d) e m = Same-NamesMatch before s.store e m
  applied-NamesMatch name router before (s, panicked) e m = Same-NamesMatch before s.store e m

  patched-NamesMatch :
      (name : Text) (p : Patch) (before : Dict Router) (r : State W × Outcome Router)
      → PatchEffect h name p before r
      → NamesMatch before
      → NamesMatch r.0.store
  unfolding PatchEffect
  patched-NamesMatch name p before (s, returned u) e m =
      SetTo-NamesMatch name e.spec before s.store e.set m
  patched-NamesMatch name p before (s, failed_with d) (inl e) m = Same-NamesMatch before s.store e m
  patched-NamesMatch name p before (s, failed_with d) (inr e) m =
      SetTo-NamesMatch name e.spec before s.store e.set m
  patched-NamesMatch name p before (s, panicked) e m = Same-NamesMatch before s.store e m

  read-Same :
      (name : Text) (s : State W) (allowed : Result (Unit {0}))
      → Same s.store (get_allowed h name s allowed).0.store
  unfolding Same
  read-Same name s (err e) x = refl
  read-Same name s (ok u) x = refresh-specs h s name x

  Step-NamesMatch : (s t : State W) → Step s t → NamesMatch s.store → NamesMatch t.store
  unfolding get
  Step-NamesMatch s _ (applies name router s') m =
      applied-NamesMatch name (referred name router) s.store (apply h true name router s)
        (apply-ApplyEffect h true name router s) m
  Step-NamesMatch s _ (patches name p s') m =
      patched-NamesMatch name p s.store (patch h true name p s)
        (patch-PatchEffect h true name p s m) m
  Step-NamesMatch s _ (reads name s') m =
      Same-NamesMatch s.store (get h true name s).0.store (read-Same name s _) m

  -- Whatever calls are made on a new client, each router stands in its map under its own name.
  pub Reachable-NamesMatch : (s : State W) → Reachable s → NamesMatch s.store
  unfolding NamesMatch specs lookup
  Reachable-NamesMatch s (starts w) = λ x name spec e. cc
  Reachable-NamesMatch t (steps s t' r step) = Step-NamesMatch s t step (Reachable-NamesMatch s r)
