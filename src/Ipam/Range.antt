-- ===== src/Ipam/Range.antt =====
-- ipam.go: addresses as uint32, the range of a prefix, and the merging of ranges.
pub mod Bounds
pub mod Merge
use ovnflow.Base.{ℕ, ◌+◌, ◌-◌, ◌*◌, ◌/◌, ◌%◌, ◌^◌, Bool, ◌&&◌, ltb, leb, ◌==◌, if◌then◌else◌}
use ovnflow.Base.{List, [], ◌∷◌}
use ovnflow.Base.Sort.{sort_by}
use ovnflow.Netip.{Addr, Prefix, as_4, addr_from_4}

-- uint32 and uint64 arithmetic wraps around.
abbrev pub add32 : ℕ → ℕ → ℕ
add32 a b = (a + b) % 2 ^ 32

abbrev pub sub32 : ℕ → ℕ → ℕ
sub32 a b = (a + 2 ^ 32 - b) % 2 ^ 32

abbrev pub sub64 : ℕ → ℕ → ℕ
sub64 a b = (a + 2 ^ 64 - b) % 2 ^ 64

-- The bytes shifted into disjoint places, where `|` is `+`.
abbrev join_bytes : ℕ × ℕ × ℕ × ℕ → ℕ
join_bytes (a, b, c, d) = a * 2 ^ 24 + b * 2 ^ 16 + c * 2 ^ 8 + d

unfoldable pub addr_to_uint32 : Addr → ℕ
unfolding as_4
addr_to_uint32 ip = join_bytes (as_4 ip)

unfoldable pub uint32_to_addr : ℕ → Addr
unfolding addr_from_4
uint32_to_addr ip =
    addr_from_4 (ip / 2 ^ 24 % 256) (ip / 2 ^ 16 % 256) (ip / 2 ^ 8 % 256) (ip % 256)

pub record IpRange : Type 0 where
  pub start : ℕ
  pub end : ℕ

-- `size` is a uint64, and `uint32(size-1)` is cut to 32 bits.
unfoldable pub prefix_range : Prefix → IpRange
unfolding addr_to_uint32
prefix_range prefix =
    let start = addr_to_uint32 prefix.addr in
    let size = 2 ^ (32 - prefix.bits) in
    record { start = start; end = add32 start ((size - 1) % 2 ^ 32) }

-- The host addresses; (1, 0) is the empty range.
unfoldable pub usable_range : Prefix → IpRange
usable_range prefix =
    let r = prefix_range prefix in
    if leb (add32 (sub32 r.end r.start) 1) 2
    then record { start = 1; end = 0 }
    else record { start = add32 r.start 1; end = sub32 r.end 1 }

unfoldable pub prefixes_overlap : Prefix → Prefix → Bool
prefixes_overlap a b =
    let r = prefix_range a in let s = prefix_range b in leb r.start s.end && leb s.start r.end

unfoldable pub min32 : ℕ → ℕ → ℕ
min32 a b = if ltb a b then a else b

unfoldable pub max32 : ℕ → ℕ → ℕ
max32 a b = if ltb b a then a else b

range_less : IpRange → IpRange → Bool
range_less a b = if a.start == b.start then ltb a.end b.end else ltb a.start b.start

-- The loop of `mergeRanges` behind the last range that it has put out.
merge_loop : IpRange → List IpRange → List IpRange
merge_loop last [] = last ∷ []
merge_loop last (item ∷ rest) =
    let joined =
      merge_loop (if ltb last.end item.end then record last { end = item.end } else last) rest in
    let apart = last ∷ merge_loop item rest in
    if leb item.start (add32 last.end 1) then joined else apart

merge_sorted : List IpRange → List IpRange
merge_sorted [] = []
merge_sorted (first ∷ rest) = merge_loop first rest

unfoldable pub merge_ranges : List IpRange → List IpRange
unfolding merge_loop merge_sorted range_less sort_by
merge_ranges ranges = merge_sorted (sort_by range_less ranges)
