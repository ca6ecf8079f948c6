-- ===== src/OpenFlow/Oxm/Ipv4.antt =====
-- openflow_protocol.go: the texts of `formatParsedIPv4` for what `ipv4OXM` makes of a prefix.
use ovnflow.Base.{ℕ, zero, suc, ◌-◌, ◌*◌, ◌/◌, ◌^◌, ◌≤◌, ◌<◌, ◌≡◌, refl, ap, ◌∙◌, sym, subst, arith}
use ovnflow.Base.{Bool, true, false, ◌&&◌, Option, none, some, [], ◌∷◌, length}
use ovnflow.Base.{◌==◌, eq→==, if◌then◌else◌}
use ovnflow.Base.Pow.{pow2_pos}
use ovnflow.Text.{Text}
use ovnflow.Errors.{ok, ok_injective}
use ovnflow.Netip.{
  Addr, v4, v6, no_addr, Prefix, parse_addr, parse_prefix, is_4, masked, as_4, addr_from_4,
  addr_string, prefix_string,
}
use ovnflow.Netip.Laws.{parse_addr-lt, parse_prefix-lt}
use ovnflow.Netip.Width.{parse_prefix-bits}
use ovnflow.Ipam.Range.Bounds.{IsNet, IsNet-masked}
use ovnflow.OpenFlow.Bytes.{Bytes}
use ovnflow.OpenFlow.Oxm.{
  parse_openflow_ipv4_prefix, checked_addr, checked_cidr, four_bytes, ipv4_mask, mask_bits,
  format_ipv4, prefix_text,
}
use native.Mathlib.Nat.{div-add-mod}

-- A block of addresses, given by 32 bits at most.
pub record IsBlock (p : Prefix) : Type 0 where
  pub base : ℕ
  pub net : IsNet p base
  pub bits : p.bits ≤ 32

-- Over a small range, every value is tested by evaluation.
all_below : ℕ → (ℕ → Bool) → Bool
all_below zero p = true
all_below (suc n) p = p n && all_below n p

all_below-lem : (n : ℕ) (p : ℕ → Bool) (x : ℕ) → all_below n p ≡ true → x < n → p x ≡ true
unfolding all_below
all_below-lem zero p x h lt = absurd (omega arith)
all_below-lem (suc n) p x h lt = ground (arith, all_below-lem n p x)

abbrev mask_test : ℕ → Bool
mask_test b =
    let (n, stopped) = mask_bits (ipv4_mask b) 0 in length (ipv4_mask b) == 4 && (n == b && stopped)

mask_table : all_below 32 mask_test ≡ true
unfolding all_below mask_bits ipv4_mask
mask_table = refl

mask-bits : (b : ℕ) → b < 32 → (length (ipv4_mask b) ≡ 4) × (mask_bits (ipv4_mask b) 0 ≡ (b, true))
mask-bits b h =
    let t = all_below-lem 32 mask_test b mask_table h in
    let (n, stopped) = mask_bits (ipv4_mask b) 0 in (ground arith, ground arith)

-- The text of a prefix, or of an address where the prefix has all 32 bits.
abbrev pub ipv4_text : Prefix → Text
ipv4_text p = if p.bits == 32 then addr_string p.addr else prefix_string p

masked-IsNet : (p : Prefix) (n : ℕ) → IsNet p n → masked (record { addr = v4 n; bits = p.bits }) ≡ p
unfolding masked
masked-IsNet p n net =
    let k = 2 ^ (32 - p.bits) in
    let whole : n / k * k ≡ n = omega (arith, net.aligned, div-add-mod n k) in
    let same : p ≡ record { addr = v4 n; bits = p.bits } =
      ap (λ (a : Addr). record { addr = a; bits = p.bits }) net.addr in
    rw whole (sym same)

four-bytes : (n : ℕ) → n < 2 ^ 32 → let (a, b, c, d) = as_4 (v4 n) in addr_from_4 a b c d ≡ v4 n
unfolding as_4 addr_from_4
four-bytes n h = ap v4 (omega arith)

format_masked :
    (n : ℕ) (mask : Bytes)
    → n < 2 ^ 32
    → length mask ≡ 4
    → format_ipv4 (four_bytes (as_4 (v4 n))) mask ≡ ok (prefix_text (v4 n) (mask_bits mask 0))
unfolding format_ipv4 as_4
format_masked n [] h l = absurd (omega arith)
format_masked n (x ∷ mask) h l =
    let four : (length (x ∷ mask) == 4) ≡ true = eq→== _ _ l in
    let whole = four-bytes n h in rw (four, whole) refl

-- The address and the mask of a block of fewer than 32 bits are printed as the block.
pub format_ipv4-block :
    (p : Prefix)
    → IsBlock p
    → (p.bits == 32) ≡ false
    → (length (ipv4_mask p.bits) ≡ 4)
      × (format_ipv4 (four_bytes (as_4 p.addr)) (ipv4_mask p.bits) ≡ ok (ipv4_text p))
format_ipv4-block p block few =
    let n = block.base in
    let mask = mask-bits p.bits (ground (arith, block.bits)) in
    let fits : n < 2 ^ 32 = omega (arith, block.net.fits, pow2_pos (32 - p.bits)) in
    let text : ipv4_text p ≡ prefix_string p = rw few refl in
    (
      mask.0,
      ap (λ (a : Addr). format_ipv4 (four_bytes (as_4 a)) (ipv4_mask p.bits)) block.net.addr
          ∙ format_masked n (ipv4_mask p.bits) fits mask.0
          ∙ ap (λ r. ok (prefix_text (v4 n) r)) mask.1
          ∙ ap (λ q. ok (prefix_string q)) (masked-IsNet p n block.net)
          ∙ sym (ap ok text),
    )

-- The address of a block of all 32 bits is printed as it is.
pub format_ipv4-address :
    (p : Prefix)
    → IsBlock p
    → (p.bits == 32) ≡ true
    → format_ipv4 (four_bytes (as_4 p.addr)) [] ≡ ok (ipv4_text p)
unfolding format_ipv4 as_4
format_ipv4-address p block all =
    let n = block.base in
    let fits : n < 2 ^ 32 = omega (arith, block.net.fits, pow2_pos (32 - p.bits)) in
    let text : ipv4_text p ≡ addr_string p.addr = rw all refl in
    ap (λ (a : Addr). format_ipv4 (four_bytes (as_4 a)) []) block.net.addr
    ∙ ap (λ a. ok (addr_string a)) (four-bytes n fits)
    ∙ sym (ap ok (text ∙ ap addr_string block.net.addr))

checked_addr-IsBlock :
    (raw : Text) (o : Option Addr) (p : Prefix)
    → ((n : ℕ) → o ≡ some (v4 n) → n < 2 ^ 32)
    → checked_addr raw o ≡ ok p
    → IsBlock p
unfolding is_4
checked_addr-IsBlock raw none p lt h = cc
checked_addr-IsBlock raw (some (v4 n)) p lt h = subst IsBlock (ok_injective h) (record {
  base = n;
  net = record { addr = refl; aligned = omega arith; fits = omega (arith, lt n refl) };
  bits = omega arith;
})
checked_addr-IsBlock raw (some (v6 t)) p lt h = cc
checked_addr-IsBlock raw (some no_addr) p lt h = cc

masked-IsBlock :
    (raw : Text) (a : Addr) (b : ℕ) (p : Prefix)
    → ((n : ℕ) → a ≡ v4 n → (n < 2 ^ 32) × (b ≤ 32))
    → checked_cidr raw (some (record { addr = a; bits = b })) ≡ ok p
    → IsBlock p
unfolding is_4 masked
masked-IsBlock raw (v4 n) b p lt h =
    let net = IsNet-masked n b (lt n refl).0 in
    subst IsBlock (ok_injective h) (record { base = _; net = net; bits = (lt n refl).1 })
masked-IsBlock raw (v6 t) b p lt h = cc
masked-IsBlock raw no_addr b p lt h = cc

checked_cidr-IsBlock :
    (raw : Text) (o : Option Prefix) (p : Prefix)
    → ((q : Prefix) (n : ℕ) → o ≡ some q → q.addr ≡ v4 n → (n < 2 ^ 32) × (q.bits ≤ 32))
    → checked_cidr raw o ≡ ok p
    → IsBlock p
checked_cidr-IsBlock raw none p lt h =
    checked_addr-IsBlock raw (parse_addr raw) p (λ n. parse_addr-lt raw n) h
checked_cidr-IsBlock raw (some q) p lt h =
    masked-IsBlock raw q.addr q.bits p (λ n e. lt q n refl e) h

-- What `parseOpenFlowIPv4Prefix` returns is an aligned block of IPv4 addresses.
pub parse_openflow_ipv4_prefix-IsBlock :
    (raw : Text) (p : Prefix) → parse_openflow_ipv4_prefix raw ≡ ok p → IsBlock p
unfolding parse_openflow_ipv4_prefix
parse_openflow_ipv4_prefix-IsBlock raw p h =
    checked_cidr-IsBlock raw (parse_prefix raw) p
      (λ q n e a. (parse_prefix-lt raw q n e a, parse_prefix-bits raw q n e a)) h
