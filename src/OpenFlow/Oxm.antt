-- ===== src/OpenFlow/Oxm.antt =====
-- openflow_protocol.go: one field of a match in OXM form, and the texts of IPv4 addresses and
-- prefixes in such fields.
pub mod Ipv4
use ovnflow.Base.{
  ℕ, zero, suc, ◌+◌, ◌-◌, ◌*◌, ◌/◌, ◌%◌, ◌^◌, Bool, true, false, not, Option, none, some,
}
use ovnflow.Base.{List, [], ◌∷◌, ◌++◌, length, ltb, ◌==◌, if◌then◌else◌, String}
use ovnflow.Text.{Text, codes}
use ovnflow.Errors.{validation, unsupported, Error, wrap, Result, ok, err, ◌>>=◌, ◌>>◌, fail_if}
use ovnflow.Netip.{Addr, Prefix, parse_addr, parse_prefix, is_4, masked, as_4, addr_from_4}
use ovnflow.Netip.{addr_string, prefix_string}
use ovnflow.OpenFlow.Bytes.{Bytes}
use ovnflow.OpenFlow.Message.{flow_error}
use Prim.Native.Nat.{bit_or, bit_and}
use Prim.Native.String.{◌++◌ as str_append}

-- `%d` of a number below 1000.
abbrev digit_text : ℕ → String
digit_text n =
    if n == 0
    then "0"
    else if n == 1
    then "1"
    else if n == 2
    then "2"
    else if n == 3
    then "3"
    else if n == 4
    then "4"
    else if n == 5
    then "5"
    else if n == 6
    then "6"
    else if n == 7
    then "7"
    else if n == 8
    then "8"
    else "9"

number_text : ℕ → String
number_text n =
    if ltb n 10
    then digit_text n
    else if ltb n 100
    then str_append (digit_text (n / 10)) (digit_text (n % 10))
    else str_append (digit_text (n / 100))
        (str_append (digit_text (n / 10 % 10)) (digit_text (n % 10)))

unfoldable pub invalid_oxm_length : ℕ → Error
unfolding number_text
invalid_oxm_length field =
    flow_error validation "parse" "match"
      (str_append "invalid OXM field " (str_append (number_text field) " length"))

unfoldable pub unsupported_oxm_field : ℕ → Error
unfolding number_text
unsupported_oxm_field field =
    flow_error unsupported "parse" "match" (str_append "unsupported OXM field " (number_text field))

-- The class, the field with the mask's bit, the length in a byte, the value and the mask.
unfoldable pub marshal_oxm : ℕ → Bool → Bytes → Bytes → Bytes
marshal_oxm field true value mask =
    0x80 ∷ 0 ∷ (field * 2 % 256 + 1) ∷ ((length value + length mask) % 256) ∷ (value ++ mask)
marshal_oxm field false value mask = 0x80 ∷ 0 ∷ (field * 2 % 256) ∷ (length value % 256) ∷ value

-- What `ParseAddr` reads where `ParsePrefix` failed.
abbrev checked_addr : Text → Option Addr → Result Prefix
checked_addr raw none = err (wrap validation "" "parse" raw "invalid IPv4 address or CIDR" true)
checked_addr raw (some addr) = do
  fail_if (not (is_4 addr))
      (wrap unsupported "" "parse" raw "only IPv4 OpenFlow matches are supported" false)
  ok (record { addr = addr; bits = 32 })

abbrev checked_cidr : Text → Option Prefix → Result Prefix
checked_cidr raw none = checked_addr raw (parse_addr raw)
checked_cidr raw (some p) = do
  fail_if (not (is_4 p.addr))
      (wrap unsupported "" "parse" raw "only IPv4 OpenFlow matches are supported" false)
  ok (masked p)

unfoldable pub parse_openflow_ipv4_prefix : Text → Result Prefix
parse_openflow_ipv4_prefix raw = checked_cidr raw (parse_prefix raw)

abbrev pub four_bytes : ℕ × ℕ × ℕ × ℕ → Bytes
four_bytes (a, b, c, d) = a ∷ b ∷ c ∷ d ∷ []

-- `mask[i] |= bit`.
unfoldable pub or_at : ℕ → ℕ → Bytes → Bytes
or_at i bit [] = []
or_at zero bit (b ∷ mask) = bit_or b bit ∷ mask
or_at (suc i) bit (b ∷ mask) = b ∷ or_at i bit mask

-- The loop over the bits of the mask, from bit `i` on.
unfoldable pub mask_loop : ℕ → ℕ → Bytes → Bytes
mask_loop zero i mask = mask
mask_loop (suc rounds) i mask = mask_loop rounds (i + 1) (or_at (i / 8) (2 ^ (7 - i % 8)) mask)

unfoldable pub ipv4_mask : ℕ → Bytes
unfolding mask_loop or_at
ipv4_mask bits = mask_loop bits 0 (0 ∷ 0 ∷ 0 ∷ 0 ∷ [])

-- The value and, unless the prefix is a single address, the mask.
abbrev pub ipv4_value : Prefix → Bytes × Option Bytes
ipv4_value p = (four_bytes (as_4 p.addr), if p.bits == 32 then none else some (ipv4_mask p.bits))

unfoldable pub ipv4_oxm : Text → Result (Bytes × Option Bytes)
ipv4_oxm raw = do prefix ← parse_openflow_ipv4_prefix raw; ok (ipv4_value prefix)

-- The inner loop of `formatParsedIPv4` over the bits of a byte, the highest first: the count, and
-- whether a zero was met.
unfoldable pub byte_bits : ℕ → ℕ → ℕ → ℕ × Bool
byte_bits zero b bits = (bits, false)
byte_bits (suc i) b bits =
    let more = byte_bits i b (bits + 1) in if bit_and b (2 ^ i) == 0 then (bits, true) else more

unfoldable pub mask_bits : Bytes → ℕ → ℕ × Bool
unfolding byte_bits
mask_bits [] bits = (bits, false)
mask_bits (b ∷ mask) bits =
    let (n, stopped) = byte_bits 8 b bits in
    elim stopped [ true ↦ (n, true) | false ↦ mask_bits mask n ]

-- What the loops leave: the prefix of that many bits, or of all 32 without a zero.
abbrev prefix_text : Addr → ℕ × Bool → Text
prefix_text addr (bits, true) = prefix_string (masked (record { addr = addr; bits = bits }))
prefix_text addr (bits, false) = prefix_string (record { addr = addr; bits = 32 })

unfoldable pub format_ipv4 : Bytes → Bytes → Result Text
format_ipv4 (a ∷ b ∷ c ∷ d ∷ []) [] = ok (addr_string (addr_from_4 a b c d))
format_ipv4 (a ∷ b ∷ c ∷ d ∷ []) (x ∷ mask) = do
  fail_if (not (length (x ∷ mask) == 4))
      (flow_error validation "parse" "match" "invalid IPv4 mask length")
  ok (prefix_text (addr_from_4 a b c d) (mask_bits (x ∷ mask) 0))
format_ipv4 _ mask = err (invalid_oxm_length 12)
