-- ===== src/Router/Client/Progress.antt =====
-- linuxrouter/router.go: an `Apply` on a host where nothing fails.
use ovnflow.Base.{true, ◌≡◌, refl, List, [], ◌∷◌, Option, none, some}
use ovnflow.Text.{Text}
use ovnflow.Errors.{ok, Error}
use ovnflow.Util.Dict.{Dict}
use ovnflow.Router.Types.{Spec, Router, Command}
use ovnflow.Router.Client.{
  Host, State, Outcome, returned, run_commands, ended, unless_failed, run_rest, execute_with,
  execute_apply_locked, execute_apply, stored, then_refresh, apply_checks, referred, apply,
}

module _ {ℓ} {W : Type ℓ} (h : Host W) where
  -- No command fails, and the ports of a router are always made.
  pub record NeverFails : Type ℓ where
    pub run : (w : W) (command : Command) → (h.run w command).1 ≡ none
    pub ensure :
        (ensure : W → Router → W × Option Error) (w : W) (router : Router)
        → h.ensure ≡ some ensure
        → (ensure w router).1 ≡ none

  unless_failed-none :
      (r : W × Option Error) (next : W → W × Option Error)
      → r.1 ≡ none
      → (next r.0).1 ≡ none
      → (unless_failed h r next).1 ≡ none
  unless_failed-none (w, none) next e f = f
  unless_failed-none (w, some d) next e f = cc

  run_commands-none :
      (w : W) (commands : List Command) → NeverFails → (run_commands h w commands).1 ≡ none
  unfolding run_commands
  run_commands-none w [] n = refl
  run_commands-none w (command ∷ commands) n =
      unless_failed-none (h.run w command) (λ after. run_commands h after commands)
        (n.run w command) (run_commands-none (h.run w command).0 commands n)

  ended-returned : (r : W × Option Error) → r.1 ≡ none → (ended h r).1 ≡ returned tt
  ended-returned (w, none) e = refl
  ended-returned (w, some d) e = cc

  run_rest-returned :
      (command : Command) (commands : List Command) (r : W × Option Error)
      → NeverFails
      → r.1 ≡ none
      → (run_rest h (command ∷ commands) r).1 ≡ returned tt
  run_rest-returned command commands (w, some e) n f = cc
  run_rest-returned command commands (w, none) n f =
      ended-returned _ (run_commands-none w commands n)

  execute_with-returned :
      (o : Option (W → Router → W × Option Error)) (w : W) (router : Router) (command : Command)
      → (commands : List Command) → h.ensure ≡ o
      → NeverFails
      → (execute_with h o w router (command ∷ commands)).1 ≡ returned tt
  execute_with-returned none w router command commands q n =
      ended-returned _ (run_commands-none w (command ∷ commands) n)
  execute_with-returned (some ensure) w router command commands q n =
      run_rest-returned command commands _ n (
        unless_failed-none (h.run w command) (λ after. ensure after router) (n.run w command)
          (n.ensure ensure _ router q))

  stored-returned :
      (store : Dict Router) (router : Router) (r : W × Outcome (Unit {0}))
      → r.1 ≡ returned tt
      → (then_refresh h router.name (stored h store router r)).1 ≡ returned tt
  stored-returned store router (w, o) e = rw e refl

  -- On a host where no command fails and the ports are always made, an `Apply` of a valid router
  -- that bears the name of the reference, or none, and that the renderer makes commands of,
  -- returns without an error.
  pub apply-returned :
      (name : Text) (router : Router) (s : State W)
      → (spec : Spec) (command : Command) (commands : List Command) → NeverFails
      → apply_checks true name router ≡ ok tt
      → h.render (referred name router) ≡ (spec, ok (command ∷ commands))
      → (apply h true name router s).1 ≡ returned tt
  unfolding apply execute_apply execute_apply_locked
  apply-returned name router s spec command commands n checked rendered =
      let next : Router = record (referred name router) { spec = spec } in
      rw (checked, rendered)
        (stored-returned s.store next _
          (execute_with-returned h.ensure s.world next command commands refl n))
