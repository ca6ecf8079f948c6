-- ===== src/Router/Client/Effect.antt =====
-- linuxrouter/router.go: what `Apply` and `Patch` of a router do to the map of a client, on success
-- and on failure.
use ovnflow.Base.{Bool, false, not, ◌&&◌, ◌≡◌, refl, ◌∙◌, sym, subst, List, some}
use ovnflow.Base.{Bool-cases, inl, inr, if◌then◌else◌}
use ovnflow.Text.{Text, text_eq, is_empty}
use ovnflow.Text.Laws.{text_eq→eq}
use ovnflow.Errors.{Error, Result, ok, err, fail_if, Result-cases, >>-ok, fail_if-ok}
use ovnflow.Util.Dict.{Dict}
use ovnflow.Router.Types.{Spec, Router, Command}
use ovnflow.Router.Validate.{validate_router}
use ovnflow.Router.Render.{Rendered}
use ovnflow.Router.Client.{
  Host, State, Outcome, returned, failed_with, panicked, execute_apply, stored, referred,
  apply_checks, then_refresh, apply_rendered, apply_checked, apply, unavailable,
}
use ovnflow.Router.Client.View.{specs, specs-put, refresh-specs}

-- The specifications are as they were, or one of them was set.
unfoldable pub Same : Dict Router → Dict Router → Type 0
Same before after = (x : Text) → specs after x ≡ specs before x

unfoldable pub SetTo : Text → Spec → Dict Router → Dict Router → Type 0
SetTo name spec before after =
    (x : Text) → specs after x ≡ (if text_eq x name then some (name, spec) else specs before x)

referred-name :
    (name : Text) (router : Router)
    → (not (is_empty router.name) && not (text_eq router.name name)) ≡ false
    → (referred name router).name ≡ name
referred-name name router e = elim (Bool-cases (is_empty router.name)) [
  | inl empty ↦ rw empty refl
  | inr set ↦ elim (Bool-cases (text_eq router.name name)) [
    | inl same ↦ rw set (text_eq→eq router.name name same)
    | inr other ↦ let e' = rw (set, other) at e in cc
  ]
]

-- The checks of `Apply`: the router has the name of the reference, and is valid.
apply_checks-ok :
    (has_client : Bool) (name : Text) (router : Router) {u : Unit {0}}
    → apply_checks has_client name router ≡ ok u
    → ((referred name router).name ≡ name) × (validate_router (referred name router) ≡ ok tt)
apply_checks-ok has_client name router h =
    let a = >>-ok (fail_if (not has_client) unavailable) _ h in
    let b =
      >>-ok (fail_if (not (is_empty router.name) && not (text_eq router.name name)) _) _ a.1 in
    (referred-name name router (fail_if-ok _ _ b.0), b.1)

module _ {ℓ} {W : Type ℓ} (h : Host W) where
  -- What an `Apply` has done: the specification that the renderer left is stored under the name, or
  -- no specification has changed.
  unfoldable pub ApplyEffect : Text → Router → Dict Router → State W × Outcome (Unit {0}) → Type 0
  ApplyEffect name router before (s, returned u) =
      (spec : Spec) × (commands : List Command) × (validate_router router ≡ ok tt)
      × (h.render router ≡ (spec, ok commands))
      × SetTo name spec before s.store
  ApplyEffect name router before (s, failed_with e) = Same before s.store
  ApplyEffect name router before (s, panicked) = Same before s.store

  -- A run of the commands: the router is stored exactly if they all succeed.
  unfoldable pub Executed : Router → Dict Router → State W × Outcome (Unit {0}) → Type 0
  Executed router before (s, returned u) = SetTo router.name router.spec before s.store
  Executed router before (s, failed_with e) = Same before s.store
  Executed router before (s, panicked) = Same before s.store

  pub stored-Executed :
      (store : Dict Router) (router : Router) (r : W × Outcome (Unit {0}))
      → Executed router store (stored h store router r)
  unfolding Executed SetTo Same
  stored-Executed store router (w, returned u) = λ x. specs-put router.name router store x
  stored-Executed store router (w, failed_with e) = λ x. refl
  stored-Executed store router (w, panicked) = λ x. refl

  then_refresh-Executed :
      (router : Router) (before : Dict Router) (r : State W × Outcome (Unit {0}))
      → Executed router before r
      → Executed router before (then_refresh h router.name r)
  unfolding Executed SetTo
  then_refresh-Executed router before (s, returned u) e = λ x. refresh-specs h s router.name x ∙ e x
  then_refresh-Executed router before (s, failed_with d) e = e
  then_refresh-Executed router before (s, panicked) e = e

  Executed-ApplyEffect :
      (router : Router) (spec : Spec) (commands : List Command) (before : Dict Router)
      → (r : State W × Outcome (Unit {0})) → validate_router router ≡ ok tt
      → h.render router ≡ (spec, ok commands)
      → Executed (record router { spec = spec }) before r
      → ApplyEffect router.name router before r
  unfolding Executed ApplyEffect
  Executed-ApplyEffect router spec commands before (s, returned u) v q e = (spec, commands, v, q, e)
  Executed-ApplyEffect router spec commands before (s, failed_with d) v q e = e
  Executed-ApplyEffect router spec commands before (s, panicked) v q e = e

  rendered-ApplyEffect :
      (s : State W) (router : Router) (r : Rendered)
      → validate_router router ≡ ok tt
      → h.render router ≡ r
      → ApplyEffect router.name router s.store (apply_rendered h s router r)
  unfolding ApplyEffect Same execute_apply
  rendered-ApplyEffect s router (spec, err e) v q = λ x. refl
  rendered-ApplyEffect s router (spec, ok commands) v q =
      Executed-ApplyEffect router spec commands s.store _ v q (
        then_refresh-Executed (record router { spec = spec }) s.store _
          (stored-Executed s.store (record router { spec = spec }) _))

  checked-ApplyEffect :
      (s : State W) (router : Router) (checks : Result (Unit {0}))
      → (checks ≡ ok tt → validate_router router ≡ ok tt)
      → ApplyEffect router.name router s.store (apply_checked h s router checks)
  unfolding ApplyEffect Same
  checked-ApplyEffect s router (err e) v = λ x. refl
  checked-ApplyEffect s router (ok u) v =
      rendered-ApplyEffect s router (h.render router) (v refl) refl

  refused-ApplyEffect :
      (name : Text) (router : Router) (s : State W) (e : Error)
      → ApplyEffect name router s.store (s, failed_with e)
  unfolding ApplyEffect Same
  refused-ApplyEffect name router s e x = refl

  -- An `Apply` that returns has checked the router, and has stored under the name of the reference
  -- the specification that the renderer has left, and no other specification has changed. One that
  -- fails, or that panics, has changed no specification, whatever commands it has run.
  pub apply-ApplyEffect :
      (has_client : Bool) (name : Text) (router : Router) (s : State W)
      → ApplyEffect name (referred name router) s.store (apply h has_client name router s)
  unfolding apply
  apply-ApplyEffect has_client name router s =
      let r = referred name router in
      let checks = apply_checks has_client name router in
      elim (Result-cases checks) [
        | inl (e, q) ↦
            subst (λ c. ApplyEffect name r s.store (apply_checked h s r c)) (sym q)
              (refused-ApplyEffect name r s e)
        | inr (u, q) ↦
            let checked = apply_checks-ok has_client name router q in
            subst (λ n. ApplyEffect n r s.store (apply_checked h s r checks)) checked.0
              (checked-ApplyEffect s r checks (λ e. checked.1))
      ]
