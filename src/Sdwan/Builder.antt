-- ===== src/Sdwan/Builder.antt =====
-- sdwan.go: the builders of networks and deletions (`Plan`, `DryRun`, `Reconcile`, `Execute`), over
-- any backend, or none.
pub mod Reconcile
pub mod Single
use ovnflow.Base.{Bool, true, false, not, List, [], ◌∷◌, Option, none, some, if◌then◌else◌}
use ovnflow.Text.{Text, codes, text_eq, is_empty}
use ovnflow.Errors.{
  unavailable_error, ErrorKind, validation, not_found, backend_unavailable, Error, Result, ok, err,
  ◌>>=◌, ◌>>◌,
}
use ovnflow.Util.{wrapped, validate_name, mark}
use ovnflow.Util.Dict.{put}
use ovnflow.Sdwan.Types.{
  Network, Site, Link, Policy, Operation, ApplyPlan, Plan, Diff, DiffChange, DryRunResult,
  ReconcileResult, no_status, stable_name,
}
use ovnflow.Sdwan.Validate.{validate_network}
use ovnflow.Sdwan.Normalize.{normalize_network, replace_site, replace_link, replace_policy}
use ovnflow.Sdwan.Plan.{plan_apply}
use ovnflow.Sdwan.Equal.{network_eq}
use ovnflow.Sdwan.Store.{Backend}

-- `SDWANNetworkBuilder`: whether it was executed, and the network it describes.
pub record Builder : Type 0 where
  pub used : Bool
  pub network : Network

-- `Ensure` of a network's reference.
unfoldable pub ensure : Text → Builder
ensure name = record {
  used = false;
  network = record {
    name = name;
    layer = codes "l3";
    topology = codes "partial-mesh";
    transport = codes "wireguard";
    path_mode = [];
    sites = [];
    links = [];
    policies = [];
    owner = record { kind = []; name = []; id = [] };
    labels = [];
    status = no_status;
  };
}

abbrev with_network : Builder → Network → Builder
with_network b n = record b { network = n }

unfoldable pub with_layer : Text → Builder → Builder
with_layer layer b = with_network b (record b.network { layer = layer })

unfoldable pub with_topology : Text → Builder → Builder
with_topology topology b = with_network b (record b.network { topology = topology })

unfoldable pub with_transport : Text → Builder → Builder
with_transport transport b = with_network b (record b.network { transport = transport })

unfoldable pub with_path_mode : Text → Builder → Builder
with_path_mode mode b = with_network b (record b.network { path_mode = mode })

unfoldable pub add_site : Text → Site → Builder → Builder
add_site name site b =
    with_network b
      (record b.network { sites = replace_site b.network.sites (record site { name = name }) })

unfoldable pub add_link : Link → Builder → Builder
add_link link b = with_network b (record b.network { links = replace_link b.network.links link })

unfoldable pub add_policy : Text → Policy → Builder → Builder
add_policy name policy b = with_network b (record b.network {
  policies = replace_policy b.network.policies (record policy { name = name });
})

-- The first site of that name gets the attribute.
unfoldable pub set_site_attribute : Text → Text → Text → List Site → List Site
set_site_attribute name key value [] = []
set_site_attribute name key value (s ∷ sites) =
    let rest = set_site_attribute name key value sites in
    if text_eq s.name name
    then record s { attributes = put key value s.attributes } ∷ sites
    else s ∷ rest

unfoldable pub with_site_attribute : Text → Text → Text → Builder → Builder
with_site_attribute name key value b =
    with_network b (record b.network { sites = set_site_attribute name key value b.network.sites })

-- The first link of that name or stable name gets the attribute.
unfoldable pub set_link_attribute : Text → Text → Text → List Link → List Link
set_link_attribute name key value [] = []
set_link_attribute name key value (l ∷ links) =
    let rest = set_link_attribute name key value links in
    if text_eq (stable_name l) name
    then record l { attributes = put key value l.attributes } ∷ links
    else if text_eq l.name name
    then record l { attributes = put key value l.attributes } ∷ links
    else l ∷ rest

unfoldable pub with_link_attribute : Text → Text → Text → Builder → Builder
with_link_attribute name key value b =
    with_network b (record b.network { links = set_link_attribute name key value b.network.links })

unfoldable pub with_owner : Text → Text → Builder → Builder
with_owner kind name b =
    with_network b (record b.network { owner = record { kind = kind; name = name; id = [] } })

unfoldable pub with_label : Text → Text → Builder → Builder
with_label key value b =
    with_network b (record b.network { labels = put key value b.network.labels })

unfoldable pub apply_plan : Builder → Result ApplyPlan
apply_plan b = do validate_network b.network; ok (plan_apply (normalize_network b.network))

unfoldable pub plan : Builder → Result Plan
plan b = do
  validate_network b.network
  planned ← apply_plan b
  ok (record { operations = planned.operations; warnings = [] })

abbrev pub is_not_found : ErrorKind → Bool
is_not_found not_found = true
is_not_found _ = false

-- A network that was asked for: none if the backend says that there is no such network.
unfoldable pub current_of : Result Network → Result (Option Network)
current_of (ok n) = ok (some (normalize_network n))
current_of (err e) = if is_not_found e.kind then ok none else err e

module _ {S : Type 0} where
  unfoldable pub current : Option (Backend S) → S → Builder → Result (Option Network)
  current none s b = ok none
  current (some backend) s b = current_of (backend.get_sdwan s b.network.name)

abbrev forget_result : Result ReconcileResult → Result (Unit {0})
forget_result (ok _) = ok tt
forget_result (err e) = err e

-- `Plan` of a deletion.
unfoldable pub delete_plan : Text → Result Plan
delete_plan name = do
  validate_name "sdwan network" name
  ok (record {
    operations =
        (record {
          action = codes "delete";
          resource = codes "SDWANNetwork";
          name = name;
          description = codes "delete SD-WAN network desired state";
        })
        ∷ [];
    warnings = [];
  })

abbrev no_diff : Network → Diff
no_diff desired = record { resource = codes "SDWANNetwork"; name = desired.name; changes = [] }

-- The difference of what is stored, if anything is, and the desired network.
unfoldable pub diff_of : Option Network → Network → Diff
diff_of none desired = record (no_diff desired) {
  changes = (record { path = codes "/"; before = none; after = some desired }) ∷ [];
}
diff_of (some n) desired =
    if network_eq n desired then no_diff desired else record (no_diff desired) {
      changes = (record { path = codes "/"; before = some n; after = some desired }) ∷ [];
    }

abbrev pub without_status : Network → Network
without_status n = record n { status = no_status }

abbrev pub current_without_status : Option Network → Option Network
current_without_status none = none
current_without_status (some n) = some (without_status n)

abbrev pub is_empty_diff : Diff → Bool
is_empty_diff d = elim d.changes [ [] ↦ true | _ ∷ _ ↦ false ]

module _ {S : Type 0} where
  unfoldable pub dry_run : Option (Backend S) → S → Builder → Result DryRunResult
  dry_run backend s b = do
    planned ← plan b
    found ← current backend s b
    ok (record {
      plan = planned;
      diff = diff_of (current_without_status found) (without_status (normalize_network b.network));
    })

  -- What a write to the backend makes of a reconciliation.
  unfoldable pub written : DryRunResult → S × Result (Unit {0}) → S × Result ReconcileResult
  written dry (s, ok _) = (s, ok (record { plan = dry.plan; diff = dry.diff; applied = true }))
  written dry (s, err e) = (s, err e)

  unfoldable pub write_network :
      Backend S → S → Builder → DryRunResult → Result ApplyPlan → S × Result ReconcileResult
  write_network backend s b dry (err e) = (s, err e)
  write_network backend s b dry (ok planned) =
      written dry (backend.apply_sdwan s (normalize_network b.network) planned)

  unfoldable pub reconcile_dry :
      Option (Backend S) → S → Builder → Result DryRunResult → S × Result ReconcileResult
  reconcile_dry backend s b (err e) = (s, err e)
  reconcile_dry none s b (ok dry) =
      if is_empty_diff dry.diff
      then (s, ok (record { plan = dry.plan; diff = dry.diff; applied = false }))
      else (s, err unavailable_error)
  reconcile_dry (some backend) s b (ok dry) =
      if is_empty_diff dry.diff
      then (s, ok (record { plan = dry.plan; diff = dry.diff; applied = false }))
      else write_network backend s b dry (apply_plan b)

  unfoldable pub reconcile : Option (Backend S) → S → Builder → S × Result ReconcileResult
  reconcile backend s b = reconcile_dry backend s b (dry_run backend s b)

  -- `Execute` of a builder, which is marked by it.
  unfoldable pub execute : Option (Backend S) → S → Builder → Builder × S × Result (Unit {0})
  execute backend s b =
      let marked = mark b.used in
      let done = reconcile backend s b in
      if marked.0 then (record b { used = marked.1 }, done.0, forget_result done.1) else (
        record b { used = marked.1 },
        s,
        err (wrapped validation "execute" b.network.name "builder already executed"),
      )

  -- `Get` of a network's reference.
  unfoldable pub get_network : Option (Backend S) → S → Text → Result Network
  get_network none s name = do validate_name "sdwan network" name; err unavailable_error
  get_network (some backend) s name = do
    validate_name "sdwan network" name
    backend.get_sdwan s name

  -- `Execute` of a deletion, with the flag of its single use.
  abbrev delete_planned : Option (Backend S) → S → Text → Result Plan → S × Result (Unit {0})
  delete_planned backend s name (err e) = (s, err e)
  delete_planned none s name (ok _) = (s, err unavailable_error)
  delete_planned (some backend) s name (ok _) = backend.delete_sdwan s name

  unfoldable pub execute_delete :
      Option (Backend S) → Bool → S → Text → Bool × S × Result (Unit {0})
  execute_delete backend used s name =
      let marked = mark used in
      let done = delete_planned backend s name (delete_plan name) in
      if marked.0
      then (marked.1, done.0, done.1)
      else (marked.1, s, err (wrapped validation "delete" name "builder already executed"))
