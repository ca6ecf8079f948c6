-- ===== src/Text/Base64/RoundTrip.antt =====
-- encoding/base64: what `RawURLEncoding` writes is decoded to the bytes it was written from.
use ovnflow.Base.{ℕ, ◌+◌, ◌*◌, ◌/◌, ◌%◌, ◌<◌, false, ◌||◌, List, [], ◌∷◌, some, ◌==◌}
use ovnflow.Base.{◌≡◌, refl, arith}
use ovnflow.Text.{Text}
use ovnflow.Text.Base64.{
  base64_char, base64_digit, base64_encode, base64_digits, base64_bytes, base64_decode,
}

-- Each number is a byte.
pub data IsBytes : List ℕ → Type 0 where
  nil : IsBytes []
  cons : (b : ℕ) (bytes : List ℕ) → b < 256 → IsBytes bytes → IsBytes (b ∷ bytes)

digit-char : (d : ℕ) → d < 64 → base64_digit (base64_char d) ≡ some d
unfolding base64_char base64_digit
digit-char d h = ground arith

char-plain : (d : ℕ) → (base64_char d == 10 || base64_char d == 13) ≡ false
unfolding base64_char
char-plain d = ground arith

-- The digits that stand for bytes.
abbrev digits_of : List ℕ → List ℕ
digits_of [] = []
digits_of (a ∷ []) = (a / 4) ∷ (a % 4 * 16) ∷ []
digits_of (a ∷ b ∷ []) = (a / 4) ∷ (a % 4 * 16 + b / 16) ∷ (b % 16 * 4) ∷ []
digits_of (a ∷ b ∷ c ∷ bytes) =
    (a / 4) ∷ (a % 4 * 16 + b / 16) ∷ (b % 16 * 4 + c / 64) ∷ (c % 64) ∷ digits_of bytes

digits-char :
    (d : ℕ) (text : Text) (digits : List ℕ)
    → d < 64
    → base64_digits text ≡ some digits
    → base64_digits (base64_char d ∷ text) ≡ some (d ∷ digits)
unfolding base64_digits
digits-char d text digits h k = rw (char-plain d, digit-char d h, k) refl

digits-encode :
    (bytes : List ℕ) → IsBytes bytes → base64_digits (base64_encode bytes) ≡ some (digits_of bytes)
unfolding base64_encode base64_digits
digits-encode [] h = refl
digits-encode (a ∷ []) (cons _ _ l nil) =
    let last = base64_char (a % 4 * 16) ∷ [] in
    digits-char (a / 4) last _ (omega arith) (digits-char (a % 4 * 16) [] [] (omega arith) refl)
digits-encode (a ∷ b ∷ []) (cons _ _ l (cons _ _ k nil)) =
    let last = base64_char (b % 16 * 4) ∷ [] in
    digits-char (a / 4) (base64_char (a % 4 * 16 + b / 16) ∷ last) _ (omega arith) (
      digits-char (a % 4 * 16 + b / 16) last _ (omega arith)
        (digits-char (b % 16 * 4) [] [] (omega arith) refl))
digits-encode (a ∷ b ∷ c ∷ bytes) (cons _ _ l (cons _ _ k (cons _ _ j h))) =
    let last = base64_char (c % 64) ∷ base64_encode bytes in
    let third = base64_char (b % 16 * 4 + c / 64) ∷ last in
    digits-char (a / 4) (base64_char (a % 4 * 16 + b / 16) ∷ third) _ (omega arith) (
      digits-char (a % 4 * 16 + b / 16) third _ (omega arith) (
        digits-char (b % 16 * 4 + c / 64) last _ (omega arith)
          (digits-char (c % 64) (base64_encode bytes) _ (omega arith) (digits-encode bytes h))))

bytes-digits : (bytes : List ℕ) → IsBytes bytes → base64_bytes (digits_of bytes) ≡ some bytes
unfolding base64_bytes
bytes-digits [] h = refl
bytes-digits (a ∷ []) (cons _ _ l nil) =
    let e : a / 4 * 4 + a % 4 * 16 / 16 ≡ a = omega arith in rw e refl
bytes-digits (a ∷ b ∷ []) (cons _ _ l (cons _ _ k nil)) =
    let e : a / 4 * 4 + (a % 4 * 16 + b / 16) / 16 ≡ a = omega arith in
    let f : (a % 4 * 16 + b / 16) % 16 * 16 + b % 16 * 4 / 4 ≡ b = omega arith in rw (e, f) refl
bytes-digits (a ∷ b ∷ c ∷ bytes) (cons _ _ l (cons _ _ k (cons _ _ j h))) =
    let e : a / 4 * 4 + (a % 4 * 16 + b / 16) / 16 ≡ a = omega arith in
    let f : (a % 4 * 16 + b / 16) % 16 * 16 + (b % 16 * 4 + c / 64) / 4 ≡ b = omega arith in
    let g : (b % 16 * 4 + c / 64) % 4 * 64 + c % 64 ≡ c = omega arith in
    rw (bytes-digits bytes h, e, f, g) refl

-- Bytes that are encoded are decoded as they were.
pub decode-encode :
    (bytes : List ℕ) → IsBytes bytes → base64_decode (base64_encode bytes) ≡ some bytes
unfolding base64_decode
decode-encode bytes h = rw (digits-encode bytes h) (bytes-digits bytes h)
