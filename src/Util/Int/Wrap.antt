-- ===== src/Util/Int/Wrap.antt =====
-- Go's `int`: sums that wrap around.
use ovnflow.Base.{ℕ, ◌+◌, ◌-◌, ◌%◌, ◌^◌, ◌≡◌, ap, arith}
use ovnflow.Base.{ltb, if◌then◌else◌}
use ovnflow.Util.Int.{ℤ, pos, negsuc, offset, of_offset, add_int}

offset-of_offset : (u : ℕ) → offset (of_offset u) ≡ u % 2 ^ 64
unfolding of_offset
offset-of_offset u = ground arith

of_offset-mod : (u v : ℕ) → u % 2 ^ 64 ≡ v % 2 ^ 64 → of_offset u ≡ of_offset v
unfolding of_offset
of_offset-mod u v h =
    ap (λ w. if ltb w (2 ^ 63) then negsuc (2 ^ 63 - 1 - w) else pos (w - 2 ^ 63)) h

-- Adding twice is adding the sum.
pub add_int_twice : (z : ℤ) (m n : ℕ) → add_int (add_int z m) n ≡ add_int z (m + n)
unfolding add_int
add_int_twice z m n =
    let inner = offset-of_offset (offset z + m) in
    of_offset-mod (offset (of_offset (offset z + m)) + n) (offset z + (m + n))
      (omega (arith, inner))
