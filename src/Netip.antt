-- ===== src/Netip.antt =====
-- The parts of Go's `net/netip` that ipam.go and openflow_protocol.go call, over byte texts.
-- An IPv4 address is its 32 bits as a number. Of an IPv6 address only its text is kept: the
-- program refuses every one of them. `no_addr` is the zero `Addr`.
pub mod V6
pub mod Laws
pub mod Width
pub mod Classic
use ovnflow.Base.{ℕ, zero, suc, ◌+◌, ◌-◌, ◌*◌, ◌/◌, ◌%◌, ◌^◌, Bool, true, false, ◌&&◌, ◌||◌, not}
use ovnflow.Base.{Option, none, some, List, [], ◌∷◌, ◌++◌, ltb, leb, ◌==◌, if◌then◌else◌}
use ovnflow.Text.{Text, codes, is_empty}
use V6.{is_digit, ipv4_fields, valid_ipv6, has_zone}

pub data Addr : Type 0 where
  v4 : ℕ → Addr
  v6 : Text → Addr
  no_addr : Addr

pub record Prefix : Type 0 where
  pub addr : Addr
  pub bits : ℕ

-- `ParseAddr` decides by the first of the bytes '.', ':' and '%'.
parse_from : Text → Text → Option Addr
parse_from s [] = none
parse_from s (c ∷ r) =
    let more = parse_from s r in
    if c == b'.'
    then elim (ipv4_fields s true 0 0 0 0) [ none ↦ none | some n ↦ some (v4 n) ]
    else if c == b':'
    then (if valid_ipv6 s then some (v6 s) else none)
    else if c == b'%'
    then none
    else more

unfoldable pub parse_addr : Text → Option Addr
unfolding parse_from ipv4_fields valid_ipv6 is_digit
parse_addr s = parse_from s s

-- The parts before and after the last '/'.
split_slash : Text → Option (Text × Text)
split_slash [] = none
split_slash (c ∷ r) = elim (split_slash r) [
  | some (a, b) ↦ some (c ∷ a, b)
  | none ↦ if c == b'/' then some ([], r) else none
]

-- `Atoi` on digits, with no bound: what is out of range is refused by the caller.
decimal_from : ℕ → Text → Option ℕ
decimal_from n [] = some n
decimal_from n (c ∷ r) =
    let more = decimal_from (n * 10 + (c - b'0')) r in if is_digit c then more else none

-- More than one byte must begin with '1' to '9', so that no sign and no leading zero is read.
parse_bits : Text → Option ℕ
parse_bits [] = none
parse_bits (c ∷ []) = decimal_from 0 (c ∷ [])
parse_bits (c ∷ d ∷ r) = if leb b'1' c && leb c b'9' then decimal_from 0 (c ∷ d ∷ r) else none

prefix_from : Addr → Option ℕ → Option Prefix
prefix_from a none = none
prefix_from (v4 n) (some b) = if leb b 32 then some (record { addr = v4 n; bits = b }) else none
prefix_from (v6 t) (some b) =
    if has_zone t || ltb 128 b then none else some (record { addr = v6 t; bits = b })
prefix_from no_addr (some b) = none

prefix_at : Option Addr → Text → Option Prefix
prefix_at none b = none
prefix_at (some ip) b = prefix_from ip (parse_bits b)

prefix_parts : Option (Text × Text) → Option Prefix
prefix_parts none = none
prefix_parts (some (a, b)) = prefix_at (parse_addr a) b

unfoldable pub parse_prefix : Text → Option Prefix
unfolding split_slash parse_bits decimal_from prefix_from prefix_at prefix_parts parse_addr has_zone
parse_prefix s = prefix_parts (split_slash s)

unfoldable pub is_4 : Addr → Bool
is_4 (v4 n) = true
is_4 (v6 t) = false
is_4 no_addr = false

-- `Masked` clears the host bits. The bits of an IPv6 address are not kept.
unfoldable pub masked : Prefix → Prefix
masked p = elim p.addr [
  | v4 n ↦ record { addr = v4 (n / 2 ^ (32 - p.bits) * 2 ^ (32 - p.bits)); bits = p.bits }
  | v6 t ↦ p
  | no_addr ↦ p
]

-- `Contains` compares the bits above the host bits, of two addresses of one family.
unfoldable pub contains : Prefix → Addr → Bool
contains p (v4 n) = elim p.addr [
  | v4 m ↦ n / 2 ^ (32 - p.bits) == m / 2 ^ (32 - p.bits)
  | v6 t ↦ false
  | no_addr ↦ false
]
contains p (v6 t) = false
contains p no_addr = false

-- The four bytes of an IPv4 address (`As4`), and the address of four bytes (`AddrFrom4`).
unfoldable pub as_4 : Addr → ℕ × ℕ × ℕ × ℕ
as_4 (v4 n) = (n / 2 ^ 24 % 256, n / 2 ^ 16 % 256, n / 2 ^ 8 % 256, n % 256)
as_4 (v6 t) = (0, 0, 0, 0)
as_4 no_addr = (0, 0, 0, 0)

unfoldable pub addr_from_4 : ℕ → ℕ → ℕ → ℕ → Addr
addr_from_4 a b c d = v4 (a * 2 ^ 24 + b * 2 ^ 16 + c * 2 ^ 8 + d)

-- A byte in decimal.
unfoldable pub decimal : ℕ → Text
decimal x =
    if ltb x 10
    then (b'0' + x) ∷ []
    else if ltb x 100
    then (b'0' + x / 10) ∷ (b'0' + x % 10) ∷ []
    else (b'0' + x / 100) ∷ (b'0' + x / 10 % 10) ∷ (b'0' + x % 10) ∷ []

dotted : ℕ × ℕ × ℕ × ℕ → Text
dotted (a, b, c, d) =
    decimal a ++ (b'.' ∷ (decimal b ++ (b'.' ∷ (decimal c ++ (b'.' ∷ decimal d)))))

-- `String`. Of an IPv6 address the text that was parsed stands for the canonical one.
unfoldable pub addr_string : Addr → Text
unfolding as_4 decimal dotted
addr_string (v4 n) = dotted (as_4 (v4 n))
addr_string (v6 t) = t
addr_string no_addr = codes "invalid IP"

unfoldable pub prefix_string : Prefix → Text
unfolding addr_string decimal
prefix_string p = addr_string p.addr ++ (b'/' ∷ decimal p.bits)
