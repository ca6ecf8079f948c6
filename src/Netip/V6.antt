-- ===== src/Netip/V6.antt =====
-- Field parsers of `net/netip`: the four numbers of an IPv4 address, and which texts are IPv6.
use ovnflow.Base.{ℕ, zero, suc, ◌+◌, ◌-◌, ◌*◌, Bool, true, false, ◌&&◌, ◌||◌, not}
use ovnflow.Base.{Option, none, some, [], ◌∷◌, ltb, leb, ◌==◌, if◌then◌else◌}
use ovnflow.Text.{Text, is_empty}

unfoldable pub is_digit : ℕ → Bool
is_digit c = leb b'0' c && leb c b'9'

-- `parseIPv4Fields`: what is left, whether a field begins here, the field's value, how many fields
-- are complete, the digits of this one, and the complete fields as a number.
unfoldable pub ipv4_fields : Text → Bool → ℕ → ℕ → ℕ → ℕ → Option ℕ
unfolding is_digit
ipv4_fields [] begins val pos digits acc = if ltb pos 3 then none else some (acc * 256 + val)
ipv4_fields (c ∷ r) begins val pos digits acc =
    let val' = val * 10 + (c - b'0') in
    let digit = ipv4_fields r false val' pos (digits + 1) acc in
    let dot = ipv4_fields r true 0 (pos + 1) 0 (acc * 256 + val) in
    if is_digit c
    then (if digits == 1 && val == 0 then none else if ltb 255 val' then none else digit)
    else if c == b'.'
    then (if begins || is_empty r || pos == 3 then none else dot)
    else none

is_hex : ℕ → Bool
is_hex c = is_digit c || leb b'a' c && leb c b'f' || leb b'A' c && leb c b'F'

-- A text up to its first '%', and whether the zone behind a '%' is there and not empty.
before_zone : Text → Text
before_zone [] = []
before_zone (c ∷ r) = let rest = c ∷ before_zone r in if c == b'%' then [] else rest

unfoldable pub has_zone : Text → Bool
has_zone [] = false
has_zone (c ∷ r) = c == b'%' || has_zone r

empty_zone : Text → Bool
empty_zone [] = false
empty_zone (c ∷ r) = if c == b'%' then is_empty r else empty_zone r

-- The hexadecimal digits at the front, and what follows them.
hex_digits : Text → ℕ × Text
hex_digits [] = (0, [])
hex_digits (c ∷ r) =
    let rest = hex_digits r in if is_hex c then (rest.0 + 1, rest.1) else (0, c ∷ r)

-- The text must be used up, and an ellipsis must stand for at least one field.
finish : Text → ℕ → Bool → Bool
finish s i ellipsis = is_empty s && (if ltb i 16 then ellipsis else not ellipsis)

-- What follows a field: the end, or a colon and more, with the ellipsis at most once.
after_group : (Text → ℕ → Bool → Bool) → Text → ℕ → Bool → Bool
after_group next [] i ellipsis = finish [] i ellipsis
after_group next (c ∷ []) i ellipsis = false
after_group next (c ∷ d ∷ r) i ellipsis =
    if not (c == b':')
    then false
    else if d == b':'
    then (if ellipsis then false else if is_empty r then finish [] i true else next r i true)
    else next (d ∷ r) i ellipsis

-- The loop of `parseIPv6`: `i` bytes are known. A round reads two bytes at least, so nine rounds
-- are enough.
groups : ℕ → Text → ℕ → Bool → Bool
groups zero s i ellipsis = false
groups (suc fuel) s i ellipsis =
    let next = groups fuel in
    let (digits, r) = hex_digits s in
    if leb 16 i
    then finish s i ellipsis
    else if digits == 0 || ltb 4 digits
    then false
    else elim r [
      | [] ↦ finish [] (i + 2) ellipsis
      | c ∷ r' ↦
          if c == b'.'
          then ((ellipsis || i == 12) && leb (i + 4) 16 && (elim (ipv4_fields s true 0 0 0 0) [
            | some n ↦ finish [] (i + 4) ellipsis
            | none ↦ false
          ]))
          else after_group next (c ∷ r') (i + 2) ellipsis
    ]

start : Text → Bool
start (c ∷ d ∷ r) =
    if c == b':' && d == b':'
    then (is_empty r || groups 9 r 0 true)
    else groups 9 (c ∷ d ∷ r) 0 false
start s = groups 9 s 0 false

unfoldable pub valid_ipv6 : Text → Bool
unfolding is_hex before_zone empty_zone hex_digits finish after_group groups start is_digit
    ipv4_fields
valid_ipv6 s = not (empty_zone s) && start (before_zone s)
