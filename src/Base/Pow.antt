-- ===== src/Base/Pow.antt =====
-- Powers of two at a variable exponent.
use native.Mathlib.Nat.{pow-suc, one-le-pow, pow-le-pow_right}
use Prim.Native.Nat.{ℕ, zero, suc, ◌+◌, ◌-◌, ◌*◌, ◌^◌, ◌≤◌}
use mathlib.Core.Path.{◌≡◌, ap, ◌∙◌}
use native.Mathlib.Omega.{arith}

pub pow2_pos : (k : ℕ) → 1 ≤ 2 ^ k
pow2_pos k = one-le-pow k 2 (omega arith)

pub pow2-add : (j k : ℕ) → 2 ^ (j + k) ≡ 2 ^ j * 2 ^ k
pow2-add zero k = let e : 0 + k ≡ k = omega arith in rw e (omega arith)
pow2-add (suc j) k =
    let e : suc j + k ≡ suc (j + k) = omega arith in
    rw e (rw (pow-suc 2 (j + k), pow-suc 2 j, pow2-add j k) (omega arith))

-- 2 ^ k divides 2 ^ n for every k up to n.
pub pow2-split : (k n : ℕ) → k ≤ n → 2 ^ n ≡ 2 ^ (n - k) * 2 ^ k
pow2-split k n h = let e : n ≡ n - k + k = omega arith in ap (λ m. 2 ^ m) e ∙ pow2-add (n - k) k

pub pow2-le : (k n : ℕ) → k ≤ n → 2 ^ k ≤ 2 ^ n
pow2-le k n h = pow-le-pow_right (omega arith) h
