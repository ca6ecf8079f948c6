-- ===== src/Netip/Width.antt =====
-- The bits of a prefix that `ParsePrefix` of net/netip accepts.
use ovnflow.Base.{ℕ, ◌≤◌, ◌≡◌, ap, arith, inl, inr, Option, none, some, some_injective}
use ovnflow.Base.{leb, leb→le, Bool-cases, ltb, ◌||◌}
use ovnflow.Text.{Text}
use ovnflow.Netip.{
  Addr, v4, v6, no_addr, Prefix, parse_addr, parse_prefix, prefix_from, prefix_at, prefix_parts,
  split_slash, parse_bits,
}
use ovnflow.Netip.V6.{has_zone}

prefix_from-bits :
    (a : Addr) (b : Option ℕ) (p : Prefix) (n : ℕ)
    → prefix_from a b ≡ some p
    → p.addr ≡ v4 n
    → p.bits ≤ 32
unfolding prefix_from
prefix_from-bits a none p n e q = cc
prefix_from-bits (v4 m) (some b) p n e q = elim (Bool-cases (leb b 32)) [
  | inl h ↦
      let e' = rw h at e in
      let bits : b ≡ p.bits = ap (λ q. q.bits) (some_injective e') in omega (arith, leb→le b 32 h)
  | inr h ↦ let e' = rw h at e in cc
]
prefix_from-bits (v6 t) (some b) p n e q = elim (Bool-cases (has_zone t || ltb 128 b)) [
  | inl h ↦ let e' = rw h at e in cc
  | inr h ↦
      let e' = rw h at e in let addr : v6 t ≡ p.addr = ap (λ q. q.addr) (some_injective e') in cc
]
prefix_from-bits no_addr (some b) p n e q = cc

-- An IPv4 prefix has 32 bits at most.
pub parse_prefix-bits :
    (s : Text) (p : Prefix) (n : ℕ) → parse_prefix s ≡ some p → p.addr ≡ v4 n → p.bits ≤ 32
unfolding parse_prefix prefix_at prefix_parts
parse_prefix-bits s p n e q = parts-bits (split_slash s) e q
  where
    at-bits : (o : Option Addr) (b : Text) → prefix_at o b ≡ some p → p.addr ≡ v4 n → p.bits ≤ 32
    at-bits none b e q = cc
    at-bits (some a) b e q = prefix_from-bits a (parse_bits b) p n e q

    parts-bits : (o : Option (Text × Text)) → prefix_parts o ≡ some p → p.addr ≡ v4 n → p.bits ≤ 32
    parts-bits none e q = cc
    parts-bits (some (a, b)) e q = at-bits (parse_addr a) b e q
