-- ===== src/Ipam/State/Fields.antt =====
-- What the texts of a pool are read as: parsed addresses, parsed prefixes and host addresses.
use ovnflow.Base.{ℕ, ◌+◌, ◌-◌, ◌^◌, ◌≤◌, ◌<◌, false, ◌≡◌, refl}
use ovnflow.Base.{arith, ap, subst, inl, inr, ◌↔◌, ltb}
use ovnflow.Base.{Option, none, some, String}
use ovnflow.Text.{Text}
use ovnflow.Errors.{ok}
use ovnflow.Netip.{Addr, v4, v6, no_addr, Prefix, masked, is_4, parse_addr, parse_prefix}
use ovnflow.Netip.Laws.{parse_addr-lt, parse_prefix-lt}
use ovnflow.Ipam.Range.{usable_range}
use ovnflow.Ipam.Range.Bounds.{
  IsNet, size, IsNet-masked, contains-net, usable_range-net, addr_to_uint32-v4,
}
use ovnflow.Ipam.State.{
  parse_ipv4_addr, parse_ipv4_prefix, validate_usable, checked_addr, checked_prefix,
}

checked_addr-ok :
    (raw : Text) (op : String) (o : Option Addr) (ip : Addr)
    → checked_addr raw op o ≡ ok ip
    → (n : ℕ) × (o ≡ some (v4 n)) × (ip ≡ v4 n)
unfolding checked_addr is_4
checked_addr-ok raw op none ip h = cc
checked_addr-ok raw op (some (v4 n)) ip h = (n, refl, cc)
checked_addr-ok raw op (some (v6 t)) ip h = cc
checked_addr-ok raw op (some no_addr) ip h = cc

pub parse_ipv4_addr-ok :
    (raw : Text) (op : String) (ip : Addr)
    → parse_ipv4_addr raw op ≡ ok ip
    → (n : ℕ) × (ip ≡ v4 n) × (n < 2 ^ 32) × (parse_addr raw ≡ some (v4 n))
unfolding parse_ipv4_addr
parse_ipv4_addr-ok raw op ip h =
    let (n, e, i) = checked_addr-ok raw op (parse_addr raw) ip h in (n, i, parse_addr-lt raw n e, e)

pub parse_ipv4_addr-some :
    (raw : Text) (op : String) (n : ℕ)
    → parse_addr raw ≡ some (v4 n)
    → parse_ipv4_addr raw op ≡ ok (v4 n)
unfolding parse_ipv4_addr is_4
parse_ipv4_addr-some raw op n e = ap (checked_addr raw op) e

checked_prefix-ok :
    (raw : Text) (op : String) (a : Addr) (b : ℕ) (p : Prefix)
    → ((n : ℕ) → a ≡ v4 n → n < 2 ^ 32)
    → checked_prefix raw op (some (record { addr = a; bits = b })) ≡ ok p
    → (n : ℕ) × IsNet p n
unfolding checked_prefix is_4 masked
checked_prefix-ok raw op (v4 n) b p lt h =
    let q : Prefix = masked (record { addr = v4 n; bits = b }) in
    let e : q ≡ p = cc in subst (λ z. (n : ℕ) × IsNet z n) e (_, IsNet-masked n b (lt n refl))
checked_prefix-ok raw op (v6 t) b p lt h = cc
checked_prefix-ok raw op no_addr b p lt h = cc

checked_option :
    (raw : Text) (op : String) (o : Option Prefix) (p : Prefix)
    → ((q : Prefix) (n : ℕ) → o ≡ some q → q.addr ≡ v4 n → n < 2 ^ 32)
    → checked_prefix raw op o ≡ ok p
    → (n : ℕ) × IsNet p n
checked_option raw op none p lt h = unfold checked_prefix in cc
checked_option raw op (some q) p lt h =
    checked_prefix-ok raw op q.addr q.bits p (λ n e. lt q n refl e) h

-- A parsed prefix is an aligned block of IPv4 addresses.
pub parse_ipv4_prefix-ok :
    (raw : Text) (op : String) (p : Prefix) → parse_ipv4_prefix raw op ≡ ok p → (n : ℕ) × IsNet p n
unfolding parse_ipv4_prefix
parse_ipv4_prefix-ok raw op p h =
    checked_option raw op (parse_prefix raw) p (λ q n. parse_prefix-lt raw q n) h

-- The prefix does not depend on the operation, which is named in errors only.
checked_prefix_op :
    (raw : Text) (op op' : String) (o : Option Prefix) (p : Prefix)
    → checked_prefix raw op o ≡ ok p
    → checked_prefix raw op' o ≡ ok p
unfolding checked_prefix
checked_prefix_op raw op op' none p h = cc
checked_prefix_op raw op op' (some q) p h = ground arith

pub parse_ipv4_prefix_op :
    (raw : Text) (op op' : String) (p : Prefix)
    → parse_ipv4_prefix raw op ≡ ok p
    → parse_ipv4_prefix raw op' ≡ ok p
unfolding parse_ipv4_prefix
parse_ipv4_prefix_op raw op op' p h = checked_prefix_op raw op op' (parse_prefix raw) p h

-- A prefix with host addresses, which are those between its first and its last address.
pub record HasRoom (p : Prefix) (n : ℕ) : Type 0 where
  pub net : IsNet p n
  pub usable : usable_range p ≡ record { start = n + 1; end = n + size p - 2 }
  pub wide : 3 ≤ size p
  pub narrow : size p < 2 ^ 32

-- A number in the usable range.
abbrev pub IsHost : Prefix → ℕ → ℕ → Type 0
IsHost p n m = (n < m) × (m + 1 < n + size p)

pub HasRoom-of :
    (p : Prefix) (n : ℕ)
    → IsNet p n
    → ltb (usable_range p).end (usable_range p).start ≡ false
    → HasRoom p n
HasRoom-of p n h r = elim (usable_range-net p n h) [
  | inl e ↦ let r' : ltb 0 1 ≡ false = rw e at r in cc
  | inr (e, wide, narrow) ↦ record { net = h; usable = e; wide = wide; narrow = narrow }
]

pub host-lt : (p : Prefix) (n m : ℕ) → HasRoom p n → IsHost p n m → m < 2 ^ 32
host-lt p n m r h = omega (arith, (r.net).fits)

-- `validate_usable` succeeds on the host addresses and on nothing else.
pub validate_usable_iff :
    (p : Prefix) (n m : ℕ) (op label : String)
    → HasRoom p n
    → m < 2 ^ 32
    → (validate_usable p (v4 m) op label ≡ ok tt) ↔ IsHost p n m
unfolding validate_usable
validate_usable_iff p n m op label r l =
    let c = contains-net p n m r.net in
    let v = addr_to_uint32-v4 m l in
    (
      (λ h. ground (arith, c.0, r.usable, v)),
      (λ h. ground (arith, c.1 (omega arith, omega arith), r.usable, v)),
    )
