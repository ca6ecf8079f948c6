-- ===== src/Ipam/Pool.antt =====
-- ipam.go: the exported operations of a pool. A receiver that may be nil is an `Option`, and an
-- operation that changes the pool returns the new one; an error leaves the pool as it was.
pub mod Allocate
pub mod Release
pub mod Plan
use ovnflow.Base.{ℕ, Bool, Option, none, some, List, [], ◌∷◌, ◌++◌, if◌then◌else◌}
use ovnflow.Text.{Text}
use ovnflow.Errors.{ErrorKind, validation, not_found, Error, Result, ok, err, ◌>>=◌, ◌>>◌}
use ovnflow.Netip.{Addr, no_addr, Prefix, contains, addr_string, prefix_string}
use ovnflow.Ipam.Range.{prefixes_overlap}
use ovnflow.Ipam.State.{Pool, State, ipam_error, addr_eq, parse_ipv4_addr, parse_ipv4_prefix}
use ovnflow.Ipam.State.{pool_state, next_available, ensure_available, available}

unfoldable pub new_ipam_pool : Text → Pool
new_ipam_pool cidr = record {
  cidr = cidr;
  gateway = [];
  reserved = [];
  allocated = [];
  excluded = [];
}

pub record AllocationPlan : Type 0 where
  pub pool_cidr : Text
  pub gateway : Text
  pub reserved : List Text
  pub allocated : List Text
  pub excluded : List Text
  pub available : ℕ
  pub next : Text

-- The address that `nextAvailable` returns beside its error, and the test that lets only
-- `ErrorNotFound` pass.
unfoldable pub pass_not_found : Error → ErrorKind → Result Addr
pass_not_found e not_found = ok no_addr
pass_not_found e _ = err e

unfoldable pub found_or_zero : Result Addr → Result Addr
found_or_zero (ok ip) = ok ip
found_or_zero (err e) = pass_not_found e e.kind

-- `available, err := ...` assigns the same `err` again, so that `plan.Next` is set on every path.
unfoldable pub plan_ip_allocation : Pool → Result AllocationPlan
plan_ip_allocation pool = do
  st ← pool_state pool "plan"
  next ← found_or_zero (next_available st)
  count ← available st
  ok (record {
    pool_cidr = prefix_string st.prefix;
    gateway = addr_string st.gateway;
    reserved = pool.reserved;
    allocated = pool.allocated;
    excluded = pool.excluded;
    available = count;
    next = addr_string next;
  })

-- The address that is asked for, or the next one where none is or the text is empty.
unfoldable pub choose : State → List Text → Result Addr
choose st [] = next_available st
choose st ([] ∷ more) = next_available st
choose st ((c ∷ raw) ∷ more) = do
  ip ← parse_ipv4_addr (c ∷ raw) "allocate"
  ensure_available st ip
  ok ip

-- `Allocate` behind its two checks of the arguments.
unfoldable pub allocate_from : Pool → List Text → Result (Text × Pool)
allocate_from pool requested = do
  st ← pool_state pool "allocate"
  ip ← choose st requested
  ok (addr_string ip, record pool { allocated = pool.allocated ++ (addr_string ip ∷ []) })

unfoldable pub allocate : Option Pool → List Text → Result (Text × Pool)
allocate none requested = err (ipam_error validation "allocate" [] "pool must not be nil")
allocate (some pool) (a ∷ b ∷ more) =
    err (ipam_error validation "allocate" [] "at most one requested IP is supported")
allocate (some pool) requested = allocate_from pool requested

-- The loop of `Release`: the first entry that parses to the address is taken out.
unfoldable pub remove_addr : Addr → List Text → Result (List Text)
remove_addr ip [] = err (ipam_error not_found "release" (addr_string ip) "IP is not allocated")
remove_addr ip (raw ∷ rest) = do
  current ← parse_ipv4_addr raw "release"
  let more = remove_addr ip rest
  if addr_eq current ip then ok rest else do kept ← more; ok (raw ∷ kept)

unfoldable pub release : Option Pool → Text → Result Pool
release none ip = err (ipam_error validation "release" [] "pool must not be nil")
release (some pool) ip = do
  parsed ← parse_ipv4_addr ip "release"
  kept ← remove_addr parsed pool.allocated
  ok (record pool { allocated = kept })

unfoldable pub pool_contains : Pool → Text → Result Bool
pool_contains pool ip = do
  st ← pool_state pool "contains"
  parsed ← parse_ipv4_addr ip "contains"
  ok (contains st.prefix parsed)

unfoldable pub pool_available : Pool → Result ℕ
pool_available pool = do st ← pool_state pool "available"; available st

unfoldable pub pool_overlaps : Pool → Text → Result Bool
pool_overlaps pool cidr = do
  st ← pool_state pool "overlaps"
  other ← parse_ipv4_prefix cidr "overlaps"
  ok (prefixes_overlap st.prefix other)
