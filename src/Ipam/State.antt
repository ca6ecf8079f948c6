-- ===== src/Ipam/State.antt =====
-- ipam.go: the effective state of a pool (`ipamState`), how it is read from the pool's texts
-- (`IPAMPool.state`), and its queries. A Go set is a list without repetitions, in the order of
-- insertion; where the program ranges over a set, Go leaves the order open, and it decides only
-- which of several errors of one kind is reported.
pub mod Fields
pub mod Operation
pub mod Read
pub mod Valid
pub mod Next
pub mod Count
use ovnflow.Base.{ℕ, zero, suc, ◌+◌, ◌-◌, ◌*◌, ◌%◌, ◌^◌, Bool, true, false, ◌&&◌, ◌||◌, not}
use ovnflow.Base.{Option, none, some, List, [], ◌∷◌, ◌++◌, any, map, ltb, leb, ◌==◌, String}
use ovnflow.Base.{if◌then◌else◌}
use ovnflow.Text.{Text, text_eq, is_empty}
use ovnflow.Errors.{
  ErrorKind, validation, unsupported, conflict, not_found, Error, wrap, Result, ok, err,
}
use ovnflow.Errors.{◌>>=◌, ◌>>◌, fail_if}
use ovnflow.Netip.{Addr, v4, v6, no_addr, Prefix, parse_addr, parse_prefix, is_4, masked, contains}
use ovnflow.Netip.{addr_string, prefix_string}
use ovnflow.Ipam.Range.{IpRange, addr_to_uint32, uint32_to_addr, prefix_range, usable_range}
use ovnflow.Ipam.Range.{prefixes_overlap, min32, max32, merge_ranges, sub64}
use Prim.Native.String.{◌++◌ as str_append}

pub record Pool : Type 0 where
  pub cidr : Text
  pub gateway : Text
  pub reserved : List Text
  pub allocated : List Text
  pub excluded : List Text

pub record State : Type 0 where
  pub prefix : Prefix
  pub gateway : Addr
  pub reserved : List Addr
  pub allocated : List Addr
  pub excluded : List Prefix

-- `wrap` as ipam.go calls it, with its table.
abbrev pub ipam_error : ErrorKind → String → Text → String → Error
ipam_error kind op object message = wrap kind "ipam" op object message false

abbrev pub addr_eq : Addr → Addr → Bool
addr_eq (v4 n) (v4 m) = n == m
addr_eq (v6 s) (v6 t) = text_eq s t
addr_eq no_addr no_addr = true
addr_eq _ _ = false

abbrev pub has_addr : List Addr → Addr → Bool
has_addr set ip = any (addr_eq ip) set

-- `set[ip] = struct{}{}`
abbrev pub add_addr : List Addr → Addr → List Addr
add_addr set ip = if has_addr set ip then set else set ++ (ip ∷ [])

checked_prefix : Text → String → Option Prefix → Result Prefix
checked_prefix raw op none = err (wrap validation "ipam" op raw "invalid CIDR" true)
checked_prefix raw op (some p) =
    if is_4 (masked p).addr
    then ok (masked p)
    else err (ipam_error unsupported op raw "IPv6 IPAM is not supported")

unfoldable pub parse_ipv4_prefix : Text → String → Result Prefix
unfolding checked_prefix
parse_ipv4_prefix raw op = checked_prefix raw op (parse_prefix raw)

checked_addr : Text → String → Option Addr → Result Addr
checked_addr raw op none = err (wrap validation "ipam" op raw "invalid IP" true)
checked_addr raw op (some ip) =
    if is_4 ip then ok ip else err (ipam_error unsupported op raw "IPv6 IPAM is not supported")

unfoldable pub parse_ipv4_addr : Text → String → Result Addr
unfolding checked_addr
parse_ipv4_addr raw op = checked_addr raw op (parse_addr raw)

unfoldable pub validate_usable : Prefix → Addr → String → String → Result (Unit {0})
validate_usable prefix ip op label = do
  fail_if (not (contains prefix ip))
      (ipam_error validation op (addr_string ip) (str_append label " is outside pool CIDR"))
  let r = usable_range prefix
  let value = addr_to_uint32 ip
  fail_if (ltb value r.start || ltb r.end value)
      (ipam_error validation op (addr_string ip) (str_append label " is not a usable host address"))

unfoldable pub is_reserved : Addr → List Addr → Addr → Bool
is_reserved gateway reserved ip = addr_eq ip gateway || has_addr reserved ip

unfoldable pub in_excluded : List Prefix → Addr → Bool
in_excluded excluded ip = any (λ p. contains p ip) excluded

-- The parts of `IPAMPool.state`, one for each of its loops.
unfoldable pub read_gateway : Prefix → Text → String → Result Addr
read_gateway prefix [] op = ok (uint32_to_addr (usable_range prefix).start)
read_gateway prefix (c ∷ raw) op = do
  ip ← parse_ipv4_addr (c ∷ raw) op
  validate_usable prefix ip op "gateway"
  ok ip

unfoldable pub read_reserved : Prefix → String → List Addr → List Text → Result (List Addr)
read_reserved prefix op set [] = ok set
read_reserved prefix op set (raw ∷ rest) = do
  ip ← parse_ipv4_addr raw op
  validate_usable prefix ip op "reserved IP"
  read_reserved prefix op (add_addr set ip) rest

unfoldable pub read_allocated :
    Prefix → String → (Addr → Bool) → List Addr → List Text → Result (List Addr)
read_allocated prefix op reserved set [] = ok set
read_allocated prefix op reserved set (raw ∷ rest) = do
  ip ← parse_ipv4_addr raw op
  validate_usable prefix ip op "allocated IP"
  fail_if (has_addr set ip)
      (ipam_error conflict op (addr_string ip) "IP is allocated more than once")
  fail_if (reserved ip) (ipam_error conflict op (addr_string ip) "allocated IP is reserved")
  read_allocated prefix op reserved (add_addr set ip) rest

unfoldable pub read_excluded : Prefix → String → List Prefix → List Text → Result (List Prefix)
read_excluded prefix op excluded [] = ok excluded
read_excluded prefix op excluded (raw ∷ rest) = do
  p ← parse_ipv4_prefix raw op
  fail_if (not (prefixes_overlap prefix p))
      (ipam_error conflict op (prefix_string p) "excluded CIDR does not overlap pool")
  read_excluded prefix op (excluded ++ (p ∷ [])) rest

-- The last three checks: an address of the list that lies in an excluded prefix is an error.
unfoldable pub refuse_excluded : List Prefix → String → String → List Addr → Result (Unit {0})
refuse_excluded excluded op message [] = ok tt
refuse_excluded excluded op message (ip ∷ rest) = do
  fail_if (in_excluded excluded ip) (ipam_error conflict op (addr_string ip) message)
  refuse_excluded excluded op message rest

unfoldable pub pool_state : Pool → String → Result State
pool_state pool op = do
  prefix ← parse_ipv4_prefix pool.cidr op
  fail_if (ltb (usable_range prefix).end (usable_range prefix).start)
      (ipam_error conflict op (prefix_string prefix) "pool has no usable IPv4 addresses")
  gateway ← read_gateway prefix pool.gateway op
  reserved ← read_reserved prefix op [] pool.reserved
  allocated ← read_allocated prefix op (is_reserved gateway reserved) [] pool.allocated
  excluded ← read_excluded prefix op [] pool.excluded
  refuse_excluded excluded op "gateway IP is excluded" (gateway ∷ [])
  refuse_excluded excluded op "reserved IP is excluded" reserved
  refuse_excluded excluded op "allocated IP is excluded" allocated
  ok (record {
    prefix = prefix;
    gateway = gateway;
    reserved = reserved;
    allocated = allocated;
    excluded = excluded;
  })

abbrev pub is_ok {ℓ} : {A : Type ℓ} → Result A → Bool
is_ok (ok a) = true
is_ok (err e) = false

unfoldable pub is_available : State → Addr → Bool
is_available st ip =
    is_ok (validate_usable st.prefix ip "allocate" "IP")
    && not (is_reserved st.gateway st.reserved ip)
    && not (in_excluded st.excluded ip)
    && not (has_addr st.allocated ip)

-- The loop of `nextAvailable` from `current`, with the rounds that are left.
scan : State → ℕ → ℕ → ℕ → Option Addr
scan st end zero current = none
scan st end (suc rounds) current =
    let more = scan st end rounds (current + 1) in
    if leb current end
    then (if is_available st (uint32_to_addr current)
        then some (uint32_to_addr current)
        else if current == 2 ^ 32 - 1
        then none
        else more)
    else none

scan_result : Prefix → Option Addr → Result Addr
scan_result prefix (some ip) = ok ip
scan_result prefix none =
    err (ipam_error not_found "allocate" (prefix_string prefix) "pool exhausted")

-- Each round takes one address of the usable range, so that many rounds and one are enough.
unfoldable pub next_available : State → Result Addr
unfolding scan_result scan
next_available st =
    let r = usable_range st.prefix in
    scan_result st.prefix (scan st r.end (r.end + 2 - r.start) r.start)

unfoldable pub ensure_available : State → Addr → Result (Unit {0})
ensure_available st ip = do
  validate_usable st.prefix ip "allocate" "requested IP"
  fail_if (is_reserved st.gateway st.reserved ip)
      (ipam_error conflict "allocate" (addr_string ip) "IP is reserved")
  fail_if (has_addr st.allocated ip)
      (ipam_error conflict "allocate" (addr_string ip) "IP is already allocated")
  fail_if (in_excluded st.excluded ip)
      (ipam_error conflict "allocate" (addr_string ip) "IP is excluded")

abbrev pub single : Addr → IpRange
single ip = record { start = addr_to_uint32 ip; end = addr_to_uint32 ip }

-- The excluded ranges that meet the usable range, cut to it.
unfoldable pub clip_excluded : IpRange → List Prefix → List IpRange
clip_excluded r [] = []
clip_excluded r (p ∷ rest) =
    let e = prefix_range p in
    let more = clip_excluded r rest in
    if ltb e.end r.start || ltb r.end e.start
    then more
    else record { start = max32 r.start e.start; end = min32 r.end e.end } ∷ more

abbrev pub blocked : State → List IpRange
blocked st =
    single st.gateway
    ∷ (map single st.reserved
        ++ (map single st.allocated ++ clip_excluded (usable_range st.prefix) st.excluded))

-- `total -= size` for each range, in uint64.
unfoldable pub subtract_sizes : ℕ → List IpRange → ℕ
subtract_sizes total [] = total
subtract_sizes total (item ∷ rest) =
    subtract_sizes (sub64 total ((sub64 item.end item.start + 1) % 2 ^ 64)) rest

-- The largest int of a 64-bit platform.
abbrev pub max_int : ℕ
max_int = 2 ^ 63 - 1

unfoldable pub available : State → Result ℕ
available st =
    let r = usable_range st.prefix in
    let total = subtract_sizes (r.end - r.start + 1) (merge_ranges (blocked st)) in
    if ltb r.end r.start
    then ok 0
    else if ltb max_int total
    then err (
        ipam_error conflict "available" (prefix_string st.prefix)
          "available count exceeds int range")
    else ok total
