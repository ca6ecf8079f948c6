-- ===== src/Text/Base64.antt =====
-- encoding/base64: `RawURLEncoding`, which ownership.go writes label keys with.
use ovnflow.Base.{ℕ, ◌+◌, ◌-◌, ◌*◌, ◌/◌, ◌%◌, ◌<◌, Bool, true, false, ◌||◌, ◌&&◌}
use ovnflow.Base.{
  List, [], ◌∷◌, Option, none, some, ltb, leb, ◌==◌, if◌then◌else◌, ◌≡◌, refl, arith,
}
use ovnflow.Text.{Text}
pub mod RoundTrip

-- The character of a digit: A-Z, a-z, 0-9, "-" and "_".
unfoldable pub base64_char : ℕ → ℕ
base64_char d =
    if ltb d 26
    then 65 + d
    else if ltb d 52
    then 71 + d
    else if ltb d 62
    then d - 4
    else if d == 62
    then 45
    else 95

unfoldable pub base64_digit : ℕ → Option ℕ
base64_digit c =
    if leb 65 c && leb c 90
    then some (c - 65)
    else if leb 97 c && leb c 122
    then some (c - 71)
    else if leb 48 c && leb c 57
    then some (c + 4)
    else if c == 45
    then some 62
    else if c == 95
    then some 63
    else none

-- `EncodeToString`: four digits for three bytes, and two or three for one or two that are left.
unfoldable pub base64_encode : List ℕ → Text
base64_encode [] = []
base64_encode (a ∷ []) = base64_char (a / 4) ∷ base64_char (a % 4 * 16) ∷ []
base64_encode (a ∷ b ∷ []) =
    base64_char (a / 4) ∷ base64_char (a % 4 * 16 + b / 16) ∷ base64_char (b % 16 * 4) ∷ []
base64_encode (a ∷ b ∷ c ∷ bytes) =
    base64_char (a / 4)
    ∷ base64_char (a % 4 * 16 + b / 16)
    ∷ base64_char (b % 16 * 4 + c / 64)
    ∷ base64_char (c % 64)
    ∷ base64_encode bytes

abbrev before : ℕ → Option (List ℕ) → Option (List ℕ)
before d none = none
before d (some digits) = some (d ∷ digits)

abbrev digit_before : Option ℕ → Option (List ℕ) → Option (List ℕ)
digit_before none rest = none
digit_before (some d) rest = before d rest

-- The digits of a text, in which line feeds and carriage returns are skipped.
unfoldable pub base64_digits : Text → Option (List ℕ)
base64_digits [] = some []
base64_digits (c ∷ text) =
    let rest = base64_digits text in
    if c == 10 || c == 13 then rest else digit_before (base64_digit c) rest

-- The bytes of digits. One digit alone is an error; the bits that are left over are dropped.
unfoldable pub base64_bytes : List ℕ → Option (List ℕ)
base64_bytes [] = some []
base64_bytes (d ∷ []) = none
base64_bytes (d ∷ e ∷ []) = some ((d * 4 + e / 16) ∷ [])
base64_bytes (d ∷ e ∷ f ∷ []) = some ((d * 4 + e / 16) ∷ (e % 16 * 16 + f / 4) ∷ [])
base64_bytes (d ∷ e ∷ f ∷ g ∷ digits) =
    before (d * 4 + e / 16)
      (before (e % 16 * 16 + f / 4) (before (f % 4 * 64 + g) (base64_bytes digits)))

abbrev bytes_of : Option (List ℕ) → Option (List ℕ)
bytes_of none = none
bytes_of (some digits) = base64_bytes digits

-- `DecodeString`.
unfoldable pub base64_decode : Text → Option (List ℕ)
base64_decode text = bytes_of (base64_digits text)
