-- ===== src/Sdwan/Store.antt =====
-- sdwan.go: the interface `SDWANBackend` and `InMemorySDWANBackend`. The lock makes each method one
-- step; a method that writes takes the backend and returns the new one.
pub mod Runs
use ovnflow.Base.{ℕ, ◌+◌, Bool, true, false, List, [], ◌∷◌, Option, none, some}
use ovnflow.Text.{Text, codes}
use ovnflow.Errors.{not_found, Result, ok, err}
use ovnflow.Util.{wrapped}
use ovnflow.Util.Dict.{Dict, lookup, put, remove}
use ovnflow.Util.Int.{add_int}
use ovnflow.Sdwan.Types.{Network, Status, ApplyPlan, no_status}
use ovnflow.Sdwan.Normalize.{normalize_network}

-- The three methods, over the state `S` of the backend.
pub record Backend (S : Type 0) : Type 0 where
  pub get_sdwan : S → Text → Result Network
  pub apply_sdwan : S → Network → ApplyPlan → S × Result (Unit {0})
  pub delete_sdwan : S → Text → S × Result (Unit {0})

pub record MemoryBackend : Type 0 where
  pub networks : Dict Network
  pub plans : Dict ApplyPlan

-- `NewInMemorySDWANBackend`.
abbrev pub new_memory_backend : MemoryBackend
new_memory_backend = record { networks = []; plans = [] }

abbrev pub found_network : Text → Option Network → Result Network
found_network name (some network) = ok network
found_network name none = err (wrapped not_found "get" name "SD-WAN network not found")

unfoldable pub memory_get : MemoryBackend → Text → Result Network
memory_get b name = found_network name (lookup name b.networks)

-- The status that the next one is made from: the stored one, if there is a network of that name.
abbrev pub known_status : Status → Option Network → Status
known_status own (some current) = current.status
known_status own none = own

unfoldable pub applied_status : Status → Status
applied_status status = record status {
  state = codes "present";
  last_applied = add_int status.last_applied 1;
}

unfoldable pub memory_apply :
    MemoryBackend → Network → ApplyPlan → MemoryBackend × Result (Unit {0})
memory_apply b network plan =
    let n = normalize_network network in
    let stored = record n {
      status = applied_status (known_status n.status (lookup n.name b.networks));
    } in
    (record { networks = put n.name stored b.networks; plans = put n.name plan b.plans }, ok tt)

abbrev pub deleted : MemoryBackend → Text → Option Network → MemoryBackend × Result (Unit {0})
deleted b name none = (b, err (wrapped not_found "delete" name "SD-WAN network not found"))
deleted b name (some n) =
    (record { networks = remove name b.networks; plans = remove name b.plans }, ok tt)

unfoldable pub memory_delete : MemoryBackend → Text → MemoryBackend × Result (Unit {0})
memory_delete b name = deleted b name (lookup name b.networks)

unfoldable pub last_plan : MemoryBackend → Text → Option ApplyPlan
last_plan b name = lookup name b.plans

abbrev pub memory : Backend MemoryBackend
memory = record { get_sdwan = memory_get; apply_sdwan = memory_apply; delete_sdwan = memory_delete }
