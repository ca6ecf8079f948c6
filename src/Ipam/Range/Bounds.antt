-- ===== src/Ipam/Range/Bounds.antt =====
-- The range of a prefix without wrap-around, and what `Contains` tests.
use ovnflow.Base.{ℕ, ◌+◌, ◌-◌, ◌*◌, ◌/◌, ◌%◌, ◌^◌, ◌≤◌, ◌<◌, true, ◌≡◌, refl}
use ovnflow.Base.{arith, ap, sym, ◌⊎◌, inl, inr, ◌↔◌, Bool-cases, leb}
use ovnflow.Base.{==→eq, eq→==, leb→lt}
use ovnflow.Base.Pow.{pow2_pos, pow2-split}
use native.Mathlib.Nat.{div-add-mod, mod-lt, div-lt_iff_lt-mul, mul-mod_left}
use ovnflow.Netip.{v4, Prefix, contains, masked}
use ovnflow.Ipam.Range.{IpRange, addr_to_uint32, uint32_to_addr, prefix_range, usable_range}
use ovnflow.Ipam.Range.{prefixes_overlap, add32, sub32}

pub addr_to_uint32-v4 : (n : ℕ) → n < 2 ^ 32 → addr_to_uint32 (v4 n) ≡ n
unfolding addr_to_uint32
addr_to_uint32-v4 n h = omega arith

pub uint32_to_addr-v4 : (n : ℕ) → n < 2 ^ 32 → uint32_to_addr n ≡ v4 n
unfolding uint32_to_addr
uint32_to_addr-v4 n h = ap v4 (omega arith)

-- How many addresses a prefix has.
abbrev pub size : Prefix → ℕ
size p = 2 ^ (32 - p.bits)

-- A masked IPv4 prefix with the base address `n`.
pub record IsNet (p : Prefix) (n : ℕ) : Type 0 where
  pub addr : p.addr ≡ v4 n
  pub aligned : n % size p ≡ 0
  pub fits : n + size p ≤ 2 ^ 32

div-eq_of_between : (m b k : ℕ) → b * k ≤ m → m < b * k + k → m / k ≡ b
div-eq_of_between m b k h l = grind arith

between_iff : (m n k : ℕ) → 0 < k → n % k ≡ 0 → (m / k ≡ n / k) ↔ ((n ≤ m) × (m < n + k))
between_iff m n k h e = (
  (λ q.
      let s = mod-lt m h in
      omega (arith, e, div-add-mod n k, div-add-mod m k, s, ap (λ (t : ℕ). k * t) q)),
  (λ q.
      div-eq_of_between m (n / k) k (omega (arith, e, div-add-mod n k))
        (omega (arith, e, div-add-mod n k))),
)

pub net-lt : (p : Prefix) (n : ℕ) → IsNet p n → n < 2 ^ 32
net-lt p n h = omega (arith, h.fits, pow2_pos (32 - p.bits))

-- The range of a prefix is its aligned block: nothing wraps around.
pub prefix_range-net :
    (p : Prefix) (n : ℕ) → IsNet p n → prefix_range p ≡ record { start = n; end = n + size p - 1 }
unfolding prefix_range
prefix_range-net p n h = rw h.addr (
    rw (addr_to_uint32-v4 n (net-lt p n h)) (
      ap (λ (e : ℕ). let r : IpRange = record { start = n; end = e } in r)
        (omega (arith, h.fits, pow2_pos (32 - p.bits)))))

-- `Contains` is membership in the block.
pub contains-net :
    (p : Prefix) (n m : ℕ) → IsNet p n → (contains p (v4 m) ≡ true) ↔ ((n ≤ m) × (m < n + size p))
unfolding contains
contains-net p n m h =
    let k = size p in
    let iff = between_iff m n k (pow2_pos (32 - p.bits)) h.aligned in
    rw h.addr ((λ e. iff.0 (==→eq _ _ e)), (λ b. eq→== _ _ (iff.1 b)))

-- The host addresses of a block: none, or all but the first and the last.
pub usable_range-net :
    (p : Prefix) (n : ℕ)
    → IsNet p n
    → (usable_range p ≡ record { start = 1; end = 0 })
      ⊎ ((usable_range p ≡ record { start = n + 1; end = n + size p - 2 })
          × (3 ≤ size p)
          × (size p < 2 ^ 32))
unfolding usable_range
usable_range-net p n h =
    rw (usable_range, prefix_range-net p n h)
      (elim (Bool-cases (leb (add32 (sub32 (n + size p - 1) n) 1) 2)) [
        | inl few ↦ inl (rw few)
        | inr many ↦ inr (
          ground (arith, many, h.fits, pow2_pos (32 - p.bits)),
          omega (arith, leb→lt _ _ many, h.fits, pow2_pos (32 - p.bits)),
          omega (arith, leb→lt _ _ many, h.fits, pow2_pos (32 - p.bits)),
        )
      ])

-- Two blocks overlap exactly when some address lies in both.
pub overlap-net :
    (p q : Prefix) (n m : ℕ)
    → IsNet p n
    → IsNet q m
    → (prefixes_overlap p q ≡ true) ↔ ((n < m + size q) × (m < n + size p))
unfolding prefixes_overlap
overlap-net p q n m hp hq =
    rw (prefix_range-net p n hp, prefix_range-net q m hq)
      (
        (λ e. ground (arith, pow2_pos (32 - p.bits), pow2_pos (32 - q.bits))),
        (λ b. ground (arith, pow2_pos (32 - p.bits), pow2_pos (32 - q.bits))),
      )

block_fits : (q a k c : ℕ) → q < a → a * k ≡ c → q * k + k ≤ c
block_fits q a k c h e = grind arith

-- A masked 32-bit address is the base of a block.
masked_fits : (n k : ℕ) → n < 2 ^ 32 → k ≤ 32 → n / 2 ^ k * 2 ^ k + 2 ^ k ≤ 2 ^ 32
masked_fits n k h l =
    let e = sym (pow2-split k 32 l) in
    block_fits (n / 2 ^ k) (2 ^ (32 - k)) (2 ^ k) (2 ^ 32)
      ((div-lt_iff_lt-mul (pow2_pos k)).1 (omega (arith, e))) e

pub IsNet-masked :
    (n b : ℕ)
    → n < 2 ^ 32
    → IsNet (masked (record { addr = v4 n; bits = b })) (n / 2 ^ (32 - b) * 2 ^ (32 - b))
unfolding masked
IsNet-masked n b h = record {
  addr = refl;
  aligned = mul-mod_left (n / 2 ^ (32 - b)) (2 ^ (32 - b));
  fits = masked_fits n (32 - b) h (omega arith);
}
