-- ===== src/Router/Client/View.antt =====
-- linuxrouter/router.go: a client as a map from names to specifications, and what its operations do
-- to that map.
use ovnflow.Base.{Bool, ◌≡◌, refl, ap, ◌∙◌, sym, Option, none, some}
use ovnflow.Base.{Bool-cases, inl, inr, if◌then◌else◌}
use ovnflow.Text.{Text, text_eq}
use ovnflow.Text.Laws.{text_eq→eq}
use ovnflow.Errors.{Result, ok, err}
use ovnflow.Util.Dict.{Dict, lookup, put, lookup-put, lookup-put_other}
use ovnflow.Router.Types.{Spec, Status, Router}
use ovnflow.Router.Equal.{spec_eq}
use ovnflow.Router.Client.{
  Host, State, Observed, kept_status, write_status, refreshed, observe_router, refresh_found,
  refresh_stored_status,
}

abbrev pub named_spec : Option Router → Option (Text × Spec)
named_spec none = none
named_spec (some r) = some (r.name, r.spec)

-- The name and the specification of the router that is stored under a name.
unfoldable pub specs : Dict Router → Text → Option (Text × Spec)
specs store x = named_spec (lookup x store)

pub specs-put :
    (name : Text) (r : Router) (store : Dict Router) (x : Text)
    → specs (put name r store) x ≡ (if text_eq x name then some (r.name, r.spec) else specs store x)
unfolding specs
specs-put name r store x = elim (Bool-cases (text_eq x name)) [
  | inl same ↦ rw (same, text_eq→eq x name same) (ap named_spec (lookup-put name r store))
  | inr other ↦ rw other (ap named_spec (lookup-put_other name x r store other))
]

kept_status-specs :
    (name : Text) (router : Router) (status : Status) (store : Dict Router) (o : Option Router)
    (x : Text)
    → o ≡ lookup name store
    → specs (kept_status name router status store o) x ≡ specs store x
unfolding specs
kept_status-specs name router status store none x e = refl
kept_status-specs name router status store (some current) x e =
    elim (Bool-cases (spec_eq current.spec router.spec)) [
      | inr changed ↦ rw changed refl
      | inl same ↦
          let written = specs-put name (record current { status = status }) store x in
          elim (Bool-cases (text_eq x name)) [
            | inl here ↦
                let there : some (current.name, current.spec) ≡ specs store x =
                  ap named_spec e ∙ ap (λ n. specs store n) (sym (text_eq→eq x name here)) in
                rw same (
                  written
                  ∙ ap
                      (λ (c : Bool). if c then some (current.name, current.spec) else specs store x)
                      here
                  ∙ there)
            | inr other ↦ rw same (
                written
                ∙ ap (λ (c : Bool). if c then some (current.name, current.spec) else specs store x)
                    other)
          ]
    ]

-- A status changes no specification.
write_status-specs :
    (name : Text) (router : Router) (status : Status) (store : Dict Router) (x : Text)
    → specs (write_status name router status store) x ≡ specs store x
unfolding write_status
write_status-specs name router status store x =
    kept_status-specs name router status store (lookup name store) x refl

module _ {ℓ} {W : Type ℓ} (h : Host W) where
  refreshed-specs :
      (name : Text) (router : Router) (store : Dict Router) (w : W) (r : Result Status) (x : Text)
      → specs (refreshed h name router store w r).0.store x ≡ specs store x
  refreshed-specs name router store w (err e) x = refl
  refreshed-specs name router store w (ok status) x = write_status-specs name router status store x

  observe-specs :
      (s : State W) (name : Text) (router : Router) (o : Option (W → Router → W × Observed))
      (x : Text)
      → specs (observe_router h s name router o).0.store x ≡ specs s.store x
  observe-specs s name router none x = refl
  observe-specs s name router (some observe) x = refreshed-specs name router s.store _ _ x

  refresh_found-specs :
      (s : State W) (name : Text) (o : Option Router) (x : Text)
      → specs (refresh_found h s name o).0.store x ≡ specs s.store x
  refresh_found-specs s name none x = refl
  refresh_found-specs s name (some router) x = observe-specs s name router h.observe x

  -- A refresh changes no specification.
  pub refresh-specs :
      (s : State W) (name x : Text)
      → specs (refresh_stored_status h s name).0.store x ≡ specs s.store x
  unfolding refresh_stored_status
  refresh-specs s name x = refresh_found-specs s name (lookup name s.store) x
