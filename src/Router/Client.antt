-- ===== src/Router/Client.antt =====
-- linuxrouter/router.go: `Client` and the operations of `Ref`. The interfaces that a client is made
-- of are functions over the state `W` of the host; a critical section is one step.
pub mod View
pub mod Effect
pub mod PatchEffect
pub mod Reachable
pub mod Progress
use ovnflow.Base.{
  ℕ, Bool, true, false, ◌&&◌, not, List, [], ◌∷◌, ◌++◌, Option, none, some, if◌then◌else◌,
}
use ovnflow.Text.{Text, codes, text_eq, is_empty}
use ovnflow.Errors.{
  not_found, backend_unavailable, conflict, Error, wrap, Result, ok, err, ◌>>=◌, ◌>>◌, fail_if,
}
use ovnflow.Util.Dict.{Dict, lookup, put}
use ovnflow.Router.Types.{Spec, Status, Router, Command}
use ovnflow.Router.Equal.{spec_eq}
use ovnflow.Router.Names.{validate_name}
use ovnflow.Router.Validate.{validate_router}
use ovnflow.Router.Render.{Rendered, namespace_or_default, render_apply}
use ovnflow.Router.Patch.{Patch, validate_patch, apply_to}
use ovnflow.Router.Status.{normalize_observed_status}

-- What `Observe` returns: a status, the error of a context that has ended, or the text of another.
pub data Observed : Type 0 where
  observed : Status → Observed
  canceled : Error → Observed
  failed : Text → Observed

-- `Executor`, `Renderer`, `Observer` and `routerOVSManager`; the last two may be nil.
pub record Host {ℓ} (W : Type ℓ) : Type ℓ where
  pub run : W → Command → W × Option Error
  pub render : Router → Rendered
  pub observe : Option (W → Router → W × Observed)
  pub ensure : Option (W → Router → W × Option Error)
  pub json : Status → Option (List ℕ)

-- The host and the map of a client.
pub record State {ℓ} (W : Type ℓ) : Type ℓ where
  pub world : W
  pub store : Dict Router

-- How a call ends: `commands[1:]` of no commands is out of range.
pub data Outcome {ℓ} (A : Type ℓ) : Type ℓ where
  returned : A → Outcome A
  failed_with : Error → Outcome A
  panicked : Outcome A

-- `ErrNotFound` and `ErrBackendUnavailable`.
abbrev pub not_found_error : Error
not_found_error = wrap not_found "" "" [] "" false

abbrev pub unavailable : Error
unavailable = wrap backend_unavailable "" "" [] "" false

-- The second critical section of `refreshStoredStatus`: the status is kept if the specification
-- under the name is still that of the router that was observed.
abbrev pub kept_status : Text → Router → Status → Dict Router → Option Router → Dict Router
kept_status name router status store none = store
kept_status name router status store (some current) =
    if spec_eq current.spec router.spec
    then put name (record current { status = status }) store
    else store

unfoldable pub write_status : Text → Router → Status → Dict Router → Dict Router
write_status name router status store = kept_status name router status store (lookup name store)

-- The name of the reference stands in for one that is not set.
abbrev pub referred : Text → Router → Router
referred name router = if is_empty router.name then record router { name = name } else router

abbrev pub apply_checks : Bool → Text → Router → Result (Unit {0})
apply_checks has_client name router = do
  fail_if (not has_client) unavailable
  fail_if (not (is_empty router.name) && not (text_eq router.name name))
      (wrap conflict "" "apply" router.name "router name does not match reference" false)
  validate_router (referred name router)

-- The router that a patch makes of the stored one.
abbrev pub patched_from : Patch → Option Router → Result Router
patched_from p none = err not_found_error
patched_from p (some current) = do
  validate_patch p current
  next ← apply_to p current
  validate_router next
  ok next

unfoldable pub patched : Text → Patch → Dict Router → Result Router
patched name p store = patched_from p (lookup name store)

abbrev pub outcome_of : Result Router → Outcome Router
outcome_of (err e) = failed_with e
outcome_of (ok router) = returned router

module _ {ℓ} {W : Type ℓ} (h : Host W) where
  -- What follows a call that returned no error.
  abbrev pub unless_failed : W × Option Error → (W → W × Option Error) → W × Option Error
  unless_failed (w, some e) next = (w, some e)
  unless_failed (w, none) next = next w

  -- The commands one after the other, up to the first that fails.
  unfoldable pub run_commands : W → List Command → W × Option Error
  run_commands w [] = (w, none)
  run_commands w (command ∷ commands) =
      unless_failed (h.run w command) (λ after. run_commands after commands)

  abbrev pub ended : W × Option Error → W × Outcome (Unit {0})
  ended (w, none) = (w, returned tt)
  ended (w, some e) = (w, failed_with e)

  -- The ports are made behind the first command, which makes the namespace.
  abbrev pub run_rest : List Command → W × Option Error → W × Outcome (Unit {0})
  run_rest commands (w, some e) = (w, failed_with e)
  run_rest [] (w, none) = (w, panicked)
  run_rest (command ∷ commands) (w, none) = ended (run_commands w commands)

  abbrev pub run_first : W → List Command → W × Option Error
  run_first w [] = (w, none)
  run_first w (command ∷ commands) = h.run w command

  abbrev pub execute_with :
      Option (W → Router → W × Option Error) → W → Router → List Command → W × Outcome (Unit {0})
  execute_with none w router commands = ended (run_commands w commands)
  execute_with (some ensure) w router commands =
      run_rest commands (unless_failed (run_first w commands) (λ after. ensure after router))

  unfoldable pub execute_apply_locked : W → Router → List Command → W × Outcome (Unit {0})
  execute_apply_locked w router commands = execute_with h.ensure w router commands

  -- The router is stored if everything was executed.
  abbrev pub stored : Dict Router → Router → W × Outcome (Unit {0}) → State W × Outcome (Unit {0})
  stored store router (w, returned u) =
      (record { world = w; store = put router.name router store }, returned u)
  stored store router (w, failed_with e) = (record { world = w; store = store }, failed_with e)
  stored store router (w, panicked) = (record { world = w; store = store }, panicked)

  unfoldable pub execute_apply : State W → Router → List Command → State W × Outcome (Unit {0})
  execute_apply s router commands =
      stored s.store router (execute_apply_locked s.world router commands)

  -- The status that an observation makes, or the error of a context.
  unfoldable pub observed_status : Router → Observed → Result Status
  observed_status router (canceled e) = err e
  observed_status router (observed status) =
      ok (normalize_observed_status h.json (record status { last_error = [] }))
  observed_status router (failed text) = ok (
      normalize_observed_status h.json (record router.status {
        namespace = namespace_or_default router.spec router.name;
        last_error = text;
      }))

  abbrev pub refreshed : Text → Router → Dict Router → W → Result Status → State W × Result Router
  refreshed name router store w (err e) = (record { world = w; store = store }, err e)
  refreshed name router store w (ok status) = (
    record { world = w; store = write_status name router status store },
    ok (record router { status = status }),
  )

  abbrev pub observe_router :
      State W → Text → Router → Option (W → Router → W × Observed) → State W × Result Router
  observe_router s name router none = (s, ok router)
  observe_router s name router (some observe) =
      let (w, o) = observe s.world router in
      refreshed name router s.store w (observed_status router o)

  abbrev pub refresh_found : State W → Text → Option Router → State W × Result Router
  refresh_found s name none = (s, err not_found_error)
  refresh_found s name (some router) = observe_router s name router h.observe

  unfoldable pub refresh_stored_status : State W → Text → State W × Result Router
  refresh_stored_status s name = refresh_found s name (lookup name s.store)

  -- A `Ref` has a name, and a client that may be nil.
  abbrev pub get_allowed : Text → State W → Result (Unit {0}) → State W × Result Router
  get_allowed name s (err e) = (s, err e)
  get_allowed name s (ok u) = refresh_stored_status s name

  unfoldable pub get : Bool → Text → State W → State W × Result Router
  get has_client name s =
      get_allowed name s (do validate_name "router" name; fail_if (not has_client) unavailable)

  -- The status is refreshed behind an apply, and what comes of that is dropped.
  abbrev pub then_refresh : Text → State W × Outcome (Unit {0}) → State W × Outcome (Unit {0})
  then_refresh name (s, returned u) = ((refresh_stored_status s name).0, returned u)
  then_refresh name (s, failed_with e) = (s, failed_with e)
  then_refresh name (s, panicked) = (s, panicked)

  abbrev pub apply_rendered : State W → Router → Rendered → State W × Outcome (Unit {0})
  apply_rendered s router (spec, err e) = (s, failed_with e)
  apply_rendered s router (spec, ok commands) =
      then_refresh router.name (execute_apply s (record router { spec = spec }) commands)

  abbrev pub apply_checked : State W → Router → Result (Unit {0}) → State W × Outcome (Unit {0})
  apply_checked s router (err e) = (s, failed_with e)
  apply_checked s router (ok u) = apply_rendered s router (h.render router)

  unfoldable pub apply : Bool → Text → Router → State W → State W × Outcome (Unit {0})
  apply has_client name router s =
      apply_checked s (referred name router) (apply_checks has_client name router)

  -- The result of a patch is that of the refresh behind it.
  abbrev pub patch_done : State W × Outcome (Unit {0}) → Text → State W × Outcome Router
  patch_done (s, failed_with e) name = (s, failed_with e)
  patch_done (s, panicked) name = (s, panicked)
  patch_done (s, returned u) name =
      let (after, result) = refresh_stored_status s name in (after, outcome_of result)

  abbrev pub patch_rendered : State W → Router → Rendered → State W × Outcome Router
  patch_rendered s next (spec, err e) = (s, failed_with e)
  patch_rendered s next (spec, ok commands) =
      patch_done (execute_apply s (record next { spec = spec }) commands) next.name

  abbrev pub patch_checked : State W → Result Router → State W × Outcome Router
  patch_checked s (err e) = (s, failed_with e)
  patch_checked s (ok next) = patch_rendered s next (h.render next)

  abbrev pub patch_allowed : Text → Patch → State W → Result (Unit {0}) → State W × Outcome Router
  patch_allowed name p s (err e) = (s, failed_with e)
  patch_allowed name p s (ok u) = patch_checked s (patched name p s.store)

  unfoldable pub patch : Bool → Text → Patch → State W → State W × Outcome Router
  patch has_client name p s =
      patch_allowed name p s (do validate_name "router" name; fail_if (not has_client) unavailable)

-- `FakeExecutor.Run`: the command is appended to those that were run.
unfoldable pub fake_run : List Command → Command → List Command × Option Error
fake_run commands command = (commands ++ (command ∷ []), none)

-- The client of `NewClient` with a nil executor and a nil renderer.
unfoldable pub new_client : (Status → Option (List ℕ)) → Host (List Command)
new_client json = record {
  run = fake_run;
  render = render_apply;
  observe = none;
  ensure = none;
  json = json;
}

-- `Router.Plan`, with what the renderer leaves in the caller's slices.
abbrev planned : (Router → Rendered) → Router → Result (Unit {0}) → Rendered
planned render router (err e) = (router.spec, err e)
planned render router (ok u) = render router

unfoldable pub plan_router : (Router → Rendered) → Router → Rendered
plan_router render router = planned render router (validate_router router)
