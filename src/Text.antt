-- ===== src/Text.antt =====
-- Go strings as lists of bytes: literals, equality and order (`==`, `<`), and the test
-- `strings.TrimSpace(s) == ""` of `validateName` (util.go) and its like.
use ovnflow.Base.{ℕ, Bool, true, false, ◌&&◌, ◌||◌, String, List, [], ◌∷◌, ltb, leb, ◌==◌}
use ovnflow.Base.{if◌then◌else◌, ◌≡◌, refl, arith, ==_refl, ap, zero, suc}
use Prim.Native.Char.{code}
pub mod Laws
pub mod Trim
pub mod Base64

abbrev pub Text : Type 0
Text = List ℕ

-- The bytes of an ASCII literal.
abbrev pub codes : String → Text
codes String.[] = []
codes (String.◌∷◌ c s) = code c ∷ codes s

unfoldable pub text_eq : Text → Text → Bool
text_eq [] [] = true
text_eq [] (y ∷ ys) = false
text_eq (x ∷ xs) [] = false
text_eq (x ∷ xs) (y ∷ ys) = x == y && text_eq xs ys

-- Go compares strings byte by byte.
unfoldable pub text_lt : Text → Text → Bool
text_lt [] [] = false
text_lt [] (y ∷ ys) = true
text_lt (x ∷ xs) [] = false
text_lt (x ∷ xs) (y ∷ ys) = ltb x y || x == y && text_lt xs ys

-- `strings.HasPrefix`.
unfoldable pub has_prefix : Text → Text → Bool
has_prefix s [] = true
has_prefix [] (p ∷ prefix) = false
has_prefix (c ∷ s) (p ∷ prefix) = c == p && has_prefix s prefix

abbrev pub is_empty : Text → Bool
is_empty [] = true
is_empty (x ∷ xs) = false

-- A byte that is an ASCII white space.
is_ascii_space : ℕ → Bool
is_ascii_space c = c == 0x20 || leb 0x09 c && leb c 0x0d

-- The other white space of Unicode in UTF-8: U+0085 and U+00A0 in two bytes, and in three bytes
-- U+1680, U+2000 to U+200A, U+2028, U+2029, U+202F, U+205F and U+3000.
is_space2 : ℕ → ℕ → Bool
is_space2 a b = a == 0xc2 && (b == 0x85 || b == 0xa0)

is_space3 : ℕ → ℕ → ℕ → Bool
is_space3 a b c =
    a == 0xe1 && b == 0x9a && c == 0x80
    || a == 0xe2 && b == 0x80 && (leb 0x80 c && leb c 0x8a || c == 0xa8 || c == 0xa9 || c == 0xaf)
    || a == 0xe2 && b == 0x81 && c == 0x9f
    || a == 0xe3 && b == 0x80 && c == 0x80

-- `strings.TrimSpace(s) == ""`: the text is white space throughout.
unfoldable pub is_blank : Text → Bool
unfolding is_ascii_space is_space2 is_space3
is_blank [] = true
is_blank (a ∷ []) = is_ascii_space a
is_blank (a ∷ b ∷ []) = is_ascii_space a && is_ascii_space b || is_space2 a b
is_blank (a ∷ b ∷ c ∷ r) =
    let wide = is_blank r in
    let pair = is_blank (c ∷ r) in
    let one = is_blank (b ∷ c ∷ r) in
    if is_ascii_space a then one else if is_space2 a b then pair else is_space3 a b c && wide
