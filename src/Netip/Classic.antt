-- ===== src/Netip/Classic.antt =====
-- Go's `net.ParseIP` and `net.ParseCIDR`, as tests on a text.
use ovnflow.Base.{
  ℕ, Bool, true, false, ◌&&◌, not, Option, none, some, [], ◌∷◌, leb, ◌==◌, if◌then◌else◌,
}
use ovnflow.Text.{Text}
use ovnflow.Netip.{Addr, v4, v6, no_addr, parse_addr, decimal_from}
use ovnflow.Netip.V6.{has_zone}

-- The addresses that `ParseIP` accepts have no zone.
without_zone : Option Addr → Bool
without_zone none = false
without_zone (some (v4 n)) = true
without_zone (some (v6 t)) = not (has_zone t)
without_zone (some no_addr) = false

unfoldable pub is_ip : Text → Bool
unfolding without_zone parse_addr has_zone
is_ip s = without_zone (parse_addr s)

-- The parts before and after the first '/'.
cut_slash : Text → Option (Text × Text)
cut_slash [] = none
cut_slash (c ∷ r) =
    let rest = cut_slash r in
    if c == b'/' then some ([], r) else elim rest [ none ↦ none | some (a, b) ↦ some (c ∷ a, b) ]

-- One decimal digit at least, and a number up to the width of an address.
mask_fits : ℕ → Text → Bool
mask_fits width [] = false
mask_fits width (c ∷ r) = elim (decimal_from 0 (c ∷ r)) [ none ↦ false | some n ↦ leb n width ]

mask_of : Option Addr → Text → Bool
mask_of none mask = false
mask_of (some (v4 n)) mask = mask_fits 32 mask
mask_of (some (v6 t)) mask = not (has_zone t) && mask_fits 128 mask
mask_of (some no_addr) mask = false

cidr_parts : Option (Text × Text) → Bool
cidr_parts none = false
cidr_parts (some (a, b)) = mask_of (parse_addr a) b

unfoldable pub is_cidr : Text → Bool
unfolding cut_slash mask_fits mask_of cidr_parts parse_addr decimal_from has_zone
is_cidr s = cidr_parts (cut_slash s)
