-- ===== src/Base/Count.antt =====
-- How many numbers of an interval pass a test.
use ovnflow.Base.Tests.{if◌then◌else◌}
use Prim.Native.Nat.{ℕ, zero, suc, ◌+◌, ◌-◌, ◌≤◌, ◌<◌}
use mathlib.Core.Path.{◌≡◌, refl, ap, sym, subst, ◌∙◌}
use mathlib.Core.Bool.{Bool, true, false, not}
use mathlib.Core.Logic.{◌≢◌}
use native.Mathlib.Omega.{arith}

-- The numbers from `a` on, `n` of them, that pass `f`.
unfoldable pub count_from : (ℕ → Bool) → ℕ → ℕ → ℕ
count_from f a zero = 0
count_from f a (suc n) = (if f a then 1 else 0) + count_from f (a + 1) n

abbrev one_if : Bool → ℕ
one_if b = if b then 1 else 0

pub count_from-cong :
    (f g : ℕ → Bool) (a n : ℕ)
    → ((x : ℕ) → a ≤ x → x < a + n → f x ≡ g x)
    → count_from f a n ≡ count_from g a n
unfolding count_from
count_from-cong f g a zero h = refl
count_from-cong f g a (suc n) h =
    let head : one_if (f a) ≡ one_if (g a) = ap one_if (h a (omega arith) (omega arith)) in
    let rest = count_from-cong f g (a + 1) n (λ x l u. h x (omega arith) (omega arith)) in
    omega (arith, head, rest)

pub count_from-true :
    (f : ℕ → Bool) (a n : ℕ) → ((x : ℕ) → a ≤ x → x < a + n → f x ≡ true) → count_from f a n ≡ n
unfolding count_from
count_from-true f a zero h = refl
count_from-true f a (suc n) h =
    let head : one_if (f a) ≡ 1 = ap one_if (h a (omega arith) (omega arith)) in
    omega (arith, head, count_from-true f (a + 1) n (λ x l u. h x (omega arith) (omega arith)))

pub count_from-false :
    (f : ℕ → Bool) (a n : ℕ) → ((x : ℕ) → a ≤ x → x < a + n → f x ≡ false) → count_from f a n ≡ 0
unfolding count_from
count_from-false f a zero h = refl
count_from-false f a (suc n) h =
    let head : one_if (f a) ≡ 0 = ap one_if (h a (omega arith) (omega arith)) in
    omega (arith, head, count_from-false f (a + 1) n (λ x l u. h x (omega arith) (omega arith)))

pub count_from-add :
    (f : ℕ → Bool) (a m n : ℕ) → count_from f a (m + n) ≡ count_from f a m + count_from f (a + m) n
unfolding count_from
count_from-add f a zero n =
    let e : 0 + n ≡ n = omega arith in let e' : a + 0 ≡ a = omega arith in rw (e, e') (omega arith)
count_from-add f a (suc m) n =
    let e : suc m + n ≡ suc (m + n) = omega arith in
    let e' : a + suc m ≡ a + 1 + m = omega arith in
    rw (e, e') (omega (arith, count_from-add f (a + 1) m n))

pub count_from-le : (f : ℕ → Bool) (a n : ℕ) → count_from f a n ≤ n
unfolding count_from
count_from-le f a zero = omega arith
count_from-le f a (suc n) = ground (arith, count_from-le f (a + 1) n)

-- What passes and what does not make up the interval.
pub count_from-not :
    (f : ℕ → Bool) (a n : ℕ) → count_from f a n + count_from (λ x. not (f x)) a n ≡ n
unfolding count_from
count_from-not f a zero = refl
count_from-not f a (suc n) = ground (arith, count_from-not f (a + 1) n)

less_at :
    (f g : ℕ → Bool) (a d r : ℕ)
    → f (a + d) ≡ true
    → g (a + d) ≡ false
    → ((x : ℕ) → x ≢ a + d → f x ≡ g x)
    → count_from f a (d + suc r) ≡ count_from g a (d + suc r) + 1
less_at f g a d r p q h =
    let low = count_from-cong f g a d (λ x l u. h x (omega arith)) in
    let high = count_from-cong f g (a + d + 1) r (λ x l u. h x (omega arith)) in
    rw (count_from-add f a d (suc r), count_from-add g a d (suc r))
      (unfold count_from in rw (p, q) (omega (arith, low, high)))

-- One number more passes.
pub count_from-less :
    (f g : ℕ → Bool) (a n y : ℕ)
    → a ≤ y
    → y < a + n
    → f y ≡ true
    → g y ≡ false
    → ((x : ℕ) → x ≢ y → f x ≡ g x)
    → count_from f a n ≡ count_from g a n + 1
count_from-less f g a n y l u p q h =
    let e : y ≡ a + (y - a) = omega arith in
    let e' : n ≡ y - a + suc (a + n - suc y) = omega arith in
    subst (λ (m : ℕ). count_from f a m ≡ count_from g a m + 1) (sym e')
      (less_at f g a (y - a) (a + n - suc y) (subst (λ (z : ℕ). f z ≡ true) e p)
        (subst (λ (z : ℕ). g z ≡ false) e q) (λ x ne. h x (λ i. ne (i ∙ e))))

-- Some number passes unless the count is zero.
pub count_from-pos :
    (f : ℕ → Bool) (a n x : ℕ) → a ≤ x → x < a + n → f x ≡ true → 1 ≤ count_from f a n
count_from-pos f a n x l u p =
    let e : n ≡ x - a + suc (a + n - suc x) = omega arith in
    let e' : a + (x - a) ≡ x = omega arith in
    subst (λ (m : ℕ). 1 ≤ count_from f a m) (sym e)
      (rw (count_from-add f a (x - a) (suc (a + n - suc x)))
        (unfold count_from in rw (e', p) (omega arith)))
