-- ===== src/Util/Int.antt =====
-- Go's `int`, and `fmt.Sprint` of it.
use ovnflow.Base.{
  ℕ, zero, suc, ◌+◌, ◌-◌, ◌/◌, ◌%◌, ◌^◌, Bool, false, [], ◌∷◌, ◌++◌, ltb, ◌==◌, if◌then◌else◌,
}
use ovnflow.Text.{Text}
pub mod Wrap

-- A number, or the negative of the number's successor.
pub data ℤ : Type 0 where
  pos : ℕ → ℤ
  negsuc : ℕ → ℤ

unfoldable pub int_eq : ℤ → ℤ → Bool
int_eq (pos a) (pos b) = a == b
int_eq (negsuc a) (negsuc b) = a == b
int_eq (pos a) (negsuc b) = false
int_eq (negsuc a) (pos b) = false

-- How far a number lies above the least `int`, and the `int` that far above it: numbers of 64 bits
-- wrap around.
abbrev pub offset : ℤ → ℕ
offset (pos n) = 2 ^ 63 + n
offset (negsuc n) = 2 ^ 63 - 1 - n

unfoldable pub of_offset : ℕ → ℤ
of_offset u =
    let v = u % 2 ^ 64 in if ltb v (2 ^ 63) then negsuc (2 ^ 63 - 1 - v) else pos (v - 2 ^ 63)

-- `z + n` of an `int`.
unfoldable pub add_int : ℤ → ℕ → ℤ
add_int z n = of_offset (offset z + n)

-- The decimal digits of a number, at most that many; a number of 64 bits has twenty at most.
unfoldable pub digits_of : ℕ → ℕ → Text
digits_of zero n = []
digits_of (suc more) n =
    let front = digits_of more (n / 10) in
    if ltb n 10 then (b'0' + n) ∷ [] else front ++ ((b'0' + n % 10) ∷ [])

unfoldable pub int_text : ℤ → Text
unfolding digits_of
int_text (pos n) = digits_of 20 n
int_text (negsuc n) = b'-' ∷ digits_of 20 (suc n)
