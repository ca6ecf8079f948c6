-- ===== src/Netip/Laws.antt =====
-- What the program relies on: parsed values are in range, and a printed address parses back.
use ovnflow.Base.{
  ℕ, zero, suc, ◌+◌, ◌-◌, ◌*◌, ◌/◌, ◌%◌, ◌^◌, ◌≤◌, ◌<◌, Bool, true, false, ◌≡◌, refl, arith,
}
use ovnflow.Base.{Option, none, some, [], ◌∷◌, ◌++◌, sym, ap, ◌∙◌, ltb, Bool-cases, inl, inr, ◌⊎◌}
use ovnflow.Base.{append-nil, ltb→lt, ltb→le, if◌then◌else◌}
use ovnflow.Text.{Text}
use ovnflow.Netip.{
  Addr, v4, v6, no_addr, Prefix, parse_from, parse_addr, parse_prefix, prefix_from, prefix_at,
  prefix_parts,
}
use ovnflow.Netip.{decimal, dotted, addr_string, parse_bits, split_slash}
use ovnflow.Netip.V6.{ipv4_fields, is_digit}

-- 256 ^ pos
abbrev limit : ℕ → ℕ
limit zero = 1
limit (suc n) = 256 * limit n

fields_end :
    (b : Bool) (val pos digits acc n : ℕ)
    → val < 256
    → acc < limit pos
    → pos ≤ 3
    → ipv4_fields [] b val pos digits acc ≡ some n
    → n < 2 ^ 32
unfolding ipv4_fields
fields_end b val zero digits acc n hv ha hp e = ground arith
fields_end b val (suc zero) digits acc n hv ha hp e = ground arith
fields_end b val (suc (suc zero)) digits acc n hv ha hp e = ground arith
fields_end b val (suc (suc (suc zero))) digits acc n hv ha hp e = ground arith
fields_end b val (suc (suc (suc (suc k)))) digits acc n hv ha hp e = absurd (omega arith)

limit_next : (pos acc val : ℕ) → acc < limit pos → val < 256 → acc * 256 + val < limit (pos + 1)
limit_next pos acc val h k = let e : pos + 1 ≡ suc pos = omega arith in rw e (omega arith)

fields_lt :
    (s : Text) (b : Bool) (val pos digits acc n : ℕ)
    → val < 256
    → acc < limit pos
    → pos ≤ 3
    → ipv4_fields s b val pos digits acc ≡ some n
    → n < 2 ^ 32
unfolding ipv4_fields
fields_lt [] b val pos digits acc n hv ha hp e = fields_end b val pos digits acc n hv ha hp e
fields_lt (c ∷ r) b val pos digits acc n hv ha hp e = ground (
  arith,
  limit_next pos acc val,
  fields_lt r false (val * 10 + (c - b'0')) pos (digits + 1) acc n,
  fields_lt r true 0 (pos + 1) 0 (acc * 256 + val) n,
)

parse_from-lt : (s r : Text) (n : ℕ) → parse_from s r ≡ some (v4 n) → n < 2 ^ 32
unfolding parse_from
parse_from-lt s [] n e = cc
parse_from-lt s (c ∷ r) n e = ground (arith, parse_from-lt s r n, fields_lt s true 0 0 0 0 n)

-- A parsed IPv4 address is a 32-bit number.
pub parse_addr-lt : (s : Text) (n : ℕ) → parse_addr s ≡ some (v4 n) → n < 2 ^ 32
unfolding parse_addr
parse_addr-lt s n e = parse_from-lt s s n e

-- A digit of a field whose value stays below 256.
field_digit :
    (d : ℕ) (r : Text) (b : Bool) (val pos digits acc : ℕ)
    → d < 10
    → val * 10 + d < 256
    → ((digits ≡ 0) ⊎ (1 ≤ val))
    → ipv4_fields ((b'0' + d) ∷ r) b val pos digits acc
      ≡ ipv4_fields r false (val * 10 + d) pos (digits + 1) acc
unfolding ipv4_fields
field_digit d r b val pos digits acc hd hv h =
    let e : b'0' + d - b'0' ≡ d = omega arith in rw e (ground arith)

module _ (r : Text) (begins : Bool) (pos acc : ℕ) where
  one_digit :
      (x : ℕ)
      → x < 10
      → ipv4_fields ((b'0' + x) ∷ r) begins 0 pos 0 acc ≡ ipv4_fields r false x pos 1 acc
  one_digit x h = ground (arith, field_digit x r begins 0 pos 0 acc)

  two_digits :
      (x : ℕ)
      → 10 ≤ x
      → x < 100
      → ipv4_fields ((b'0' + x / 10) ∷ (b'0' + x % 10) ∷ r) begins 0 pos 0 acc
        ≡ ipv4_fields r false x pos 2 acc
  two_digits x h k = ground (
    arith,
    field_digit (x / 10) ((b'0' + x % 10) ∷ r) begins 0 pos 0 acc,
    field_digit (x % 10) r false (x / 10) pos 1 acc,
  )

  three_digits :
      (x : ℕ)
      → 100 ≤ x
      → x < 256
      → ipv4_fields
          ((b'0' + x / 100) ∷ (b'0' + x / 10 % 10) ∷ (b'0' + x % 10) ∷ r)
          begins
          0
          pos
          0
          acc
        ≡ ipv4_fields r false x pos 3 acc
  three_digits x h k =
      let e : x / 100 * 10 + x / 10 % 10 ≡ x / 10 = omega arith in
      ground (
        arith,
        field_digit (x / 100) ((b'0' + x / 10 % 10) ∷ (b'0' + x % 10) ∷ r) begins 0 pos 0 acc,
        field_digit (x / 10 % 10) ((b'0' + x % 10) ∷ r) false (x / 100) pos 1 acc,
        field_digit (x % 10) r false (x / 10) pos 2 acc,
      )

-- How many digits a byte has.
digits_of : ℕ → ℕ
digits_of x = if ltb x 10 then 1 else if ltb x 100 then 2 else 3

-- The decimal digits of a byte are read as that byte.
field-decimal :
    (x : ℕ) (r : Text) (begins : Bool) (pos acc : ℕ)
    → x < 256
    → ipv4_fields (decimal x ++ r) begins 0 pos 0 acc ≡ ipv4_fields r false x pos (digits_of x) acc
unfolding decimal digits_of
field-decimal x r begins pos acc h = elim (Bool-cases (ltb x 10)) [
  | inl one ↦ rw one (one_digit r begins pos acc x (ltb→lt _ _ one))
  | inr more ↦ elim (Bool-cases (ltb x 100)) [
    | inl two ↦ rw (more, two) (two_digits r begins pos acc x (ltb→le _ _ more) (ltb→lt _ _ two))
    | inr three ↦ rw (more, three) (three_digits r begins pos acc x (ltb→le _ _ three) h)
  ]
]

field_dot :
    (c : ℕ) (r : Text) (x pos k acc : ℕ)
    → pos < 3
    → ipv4_fields (b'.' ∷ c ∷ r) false x pos k acc
      ≡ ipv4_fields (c ∷ r) true 0 (pos + 1) 0 (acc * 256 + x)
unfolding ipv4_fields is_digit
field_dot c r x pos k acc h = ground arith

last_field : (x k acc : ℕ) → ipv4_fields [] false x 3 k acc ≡ some (acc * 256 + x)
unfolding ipv4_fields
last_field x k acc = refl

-- The byte that a decimal number begins with.
lead : ℕ → ℕ
lead x = if ltb x 10 then b'0' + x else if ltb x 100 then b'0' + x / 10 else b'0' + x / 100

lead_rest : ℕ → Text
lead_rest x =
    if ltb x 10
    then []
    else if ltb x 100
    then (b'0' + x % 10) ∷ []
    else (b'0' + x / 10 % 10) ∷ (b'0' + x % 10) ∷ []

decimal-lead : (x : ℕ) → decimal x ≡ lead x ∷ lead_rest x
unfolding decimal lead lead_rest
decimal-lead x = ground arith

-- A field and the dot behind it.
field_step :
    (x y : ℕ) (r : Text) (pos acc : ℕ)
    → x < 256
    → pos < 3
    → ipv4_fields (decimal x ++ (b'.' ∷ (decimal y ++ r))) true 0 pos 0 acc
      ≡ ipv4_fields (decimal y ++ r) true 0 (pos + 1) 0 (acc * 256 + x)
field_step x y r pos acc hx hp =
    field-decimal x (b'.' ∷ (decimal y ++ r)) true pos acc hx
    ∙ rw (decimal-lead y) (field_dot (lead y) (lead_rest y ++ r) x pos (digits_of x) acc hp)

-- The text of four bytes is read as their number.
fields-dotted :
    (a b c d : ℕ)
    → a < 256
    → b < 256
    → c < 256
    → d < 256
    → ipv4_fields (dotted (a, b, c, d)) true 0 0 0 0
      ≡ some (a * 2 ^ 24 + b * 2 ^ 16 + c * 2 ^ 8 + d)
unfolding dotted
fields-dotted a b c d ha hb hc hd =
    field_step a b (b'.' ∷ (decimal c ++ (b'.' ∷ decimal d))) 0 0 ha (omega arith)
    ∙ field_step b c (b'.' ∷ decimal d) 1 (0 * 256 + a) hb (omega arith)
    ∙ rw append-nil at (field_step c d [] 2 ((0 * 256 + a) * 256 + b) hc (omega arith))
    ∙ rw append-nil at (field-decimal d [] true 3 (((0 * 256 + a) * 256 + b) * 256 + c) hd)
    ∙ last_field d (digits_of d) (((0 * 256 + a) * 256 + b) * 256 + c)
    ∙ ap some (omega arith)

-- What `parse_addr` does with a text whose first separator is a dot.
abbrev as_v4 : Option ℕ → Option Addr
as_v4 none = none
as_v4 (some n) = some (v4 n)

scan_digit : (s r : Text) (c : ℕ) → b'0' ≤ c → c ≤ b'9' → parse_from s (c ∷ r) ≡ parse_from s r
unfolding parse_from
scan_digit s r c h k = ground arith

scan_dot : (s r : Text) → parse_from s (b'.' ∷ r) ≡ as_v4 (ipv4_fields s true 0 0 0 0)
unfolding parse_from
scan_dot s r = ground arith

scan_decimal : (s r : Text) (x : ℕ) → x < 256 → parse_from s (decimal x ++ r) ≡ parse_from s r
unfolding decimal
scan_decimal s r x h = elim (Bool-cases (ltb x 10)) [
  | inl one ↦ rw one (scan_digit s r _ (omega arith) (omega (arith, ltb→lt x 10 one)))
  | inr more ↦ elim (Bool-cases (ltb x 100)) [
    | inl two ↦
        rw (more, two)
          (scan_digit s ((b'0' + x % 10) ∷ r) _ (omega arith) (omega (arith, ltb→lt x 100 two))
            ∙ scan_digit s r _ (omega arith) (omega arith))
    | inr three ↦
        rw (more, three)
          (scan_digit s ((b'0' + x / 10 % 10) ∷ (b'0' + x % 10) ∷ r) _ (omega arith) (omega arith)
            ∙ scan_digit s ((b'0' + x % 10) ∷ r) _ (omega arith) (omega arith)
            ∙ scan_digit s r _ (omega arith) (omega arith))
  ]
]

parse-dotted :
    (a b c d : ℕ)
    → a < 256
    → b < 256
    → c < 256
    → d < 256
    → parse_addr (dotted (a, b, c, d)) ≡ some (v4 (a * 2 ^ 24 + b * 2 ^ 16 + c * 2 ^ 8 + d))
unfolding parse_addr
parse-dotted a b c d ha hb hc hd =
    let rest : Text = decimal b ++ (b'.' ∷ (decimal c ++ (b'.' ∷ decimal d))) in
    unfold dotted in
    scan_decimal (dotted (a, b, c, d)) (b'.' ∷ rest) a ha
    ∙ scan_dot (dotted (a, b, c, d)) rest
    ∙ ap as_v4 (fields-dotted a b c d ha hb hc hd)

-- A 32-bit address that is printed parses back.
pub parse_addr-string : (n : ℕ) → n < 2 ^ 32 → parse_addr (addr_string (v4 n)) ≡ some (v4 n)
unfolding addr_string
parse_addr-string n h =
    parse-dotted (n / 2 ^ 24 % 256) (n / 2 ^ 16 % 256) (n / 2 ^ 8 % 256) (n % 256) (omega arith)
      (omega arith) (omega arith) (omega arith)
    ∙ ap (λ m. some (v4 m)) (omega arith)

prefix_from-addr : (a : Addr) (b : Option ℕ) (p : Prefix) → prefix_from a b ≡ some p → p.addr ≡ a
unfolding prefix_from
prefix_from-addr a none p e = cc
prefix_from-addr (v4 n) (some b) p e = ground arith
prefix_from-addr (v6 t) (some b) p e = ground arith
prefix_from-addr no_addr (some b) p e = cc

prefix_at-lt :
    (o : Option Addr) (b : Text) (p : Prefix) (n : ℕ)
    → ((m : ℕ) → o ≡ some (v4 m) → m < 2 ^ 32)
    → prefix_at o b ≡ some p
    → p.addr ≡ v4 n
    → n < 2 ^ 32
unfolding prefix_at
prefix_at-lt none b p n h e q = cc
prefix_at-lt (some ip) b p n h e q =
    h n (ap some (sym (prefix_from-addr ip (parse_bits b) p e) ∙ q))

parts-lt :
    (o : Option (Text × Text)) (p : Prefix) (n : ℕ)
    → prefix_parts o ≡ some p
    → p.addr ≡ v4 n
    → n < 2 ^ 32
unfolding prefix_parts
parts-lt none p n e q = cc
parts-lt (some (a, b)) p n e q = prefix_at-lt (parse_addr a) b p n (λ m. parse_addr-lt a m) e q

-- The address of a parsed IPv4 prefix is a 32-bit number.
pub parse_prefix-lt :
    (s : Text) (p : Prefix) (n : ℕ) → parse_prefix s ≡ some p → p.addr ≡ v4 n → n < 2 ^ 32
unfolding parse_prefix
parse_prefix-lt s p n e q = parts-lt (split_slash s) p n e q
