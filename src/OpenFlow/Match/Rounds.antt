-- ===== src/OpenFlow/Match/Rounds.antt =====
-- openflow_protocol.go: the rounds of the loop of `ParseOpenFlowMatch`, and what it makes of fields
-- one behind the other.
use ovnflow.Base.{ℕ, zero, suc, ◌+◌, ◌*◌, ◌/◌, ◌%◌, ◌≤◌, ◌<◌, ◌≡◌, refl, ap, ◌∙◌, sym, subst, arith}
use ovnflow.Base.{inl, inr, true, false, not, [], ◌∷◌, ◌++◌, append_assoc, append-nil}
use ovnflow.Base.{
  length, length-append, length-drop, take, drop, take-append, drop-append, ltb, le→ltb, ◌==◌,
}
use ovnflow.Errors.{Result, ok, err, fail_if, bind-ok, >>-ok, ok_injective, Result-cases, Error}
use ovnflow.OpenFlow.Bytes.{Bytes, get16}
use ovnflow.OpenFlow.Oxm.{marshal_oxm}
use ovnflow.OpenFlow.Match.{Match, apply_oxm, apply_raw, parse_oxm, parse_oxms}

-- A round leaves fewer bytes.
pub parse_oxm-shorter :
    (m : Match) (bytes : Bytes) (r : Match × Bytes)
    → parse_oxm m bytes ≡ ok r
    → length r.1 < length bytes
unfolding parse_oxm
parse_oxm-shorter m [] r h = cc
parse_oxm-shorter m (a ∷ []) r h = cc
parse_oxm-shorter m (a ∷ b ∷ []) r h = cc
parse_oxm-shorter m (a ∷ b ∷ c ∷ []) r h = cc
parse_oxm-shorter m (c ∷ d ∷ field_mask ∷ size ∷ rest) r h =
    let class = >>-ok (fail_if (not (get16 c d == 0x8000)) _) _ h in
    let whole = >>-ok (fail_if (ltb (length rest) size) _) _ class.1 in
    let applied =
      bind-ok (apply_raw m (field_mask / 2) (field_mask % 2 == 1) size (take size rest)) _
        whole.1 in
    let left : drop size rest ≡ r.1 = ap (λ p. p.1) (ok_injective applied.2) in
    omega (arith, length-drop size rest, ap length left)

parse_oxms-suc :
    (rounds : ℕ) (m : Match) (b : ℕ) (bytes : Bytes) (r : Match × Bytes)
    → parse_oxm m (b ∷ bytes) ≡ ok r
    → parse_oxms (suc rounds) m (b ∷ bytes) ≡ parse_oxms rounds r.0 r.1
unfolding parse_oxms
parse_oxms-suc rounds m b bytes r h = rw h refl

parse_oxms-err :
    (rounds : ℕ) (m : Match) (b : ℕ) (bytes : Bytes) (e : Error)
    → parse_oxm m (b ∷ bytes) ≡ err e
    → parse_oxms (suc rounds) m (b ∷ bytes) ≡ err e
unfolding parse_oxms
parse_oxms-err rounds m b bytes e h = rw h refl

-- With a round for each byte at least, the number of rounds does not matter: the loop has come to
-- its end, or has returned an error of its own.
pub parse_oxms_enough :
    (a b : ℕ) (m : Match) (bytes : Bytes)
    → length bytes ≤ a
    → length bytes ≤ b
    → parse_oxms a m bytes ≡ parse_oxms b m bytes
unfolding parse_oxms
parse_oxms_enough a b m [] h k = refl
parse_oxms_enough zero b m (c ∷ bytes) h k = absurd (omega arith)
parse_oxms_enough (suc a) zero m (c ∷ bytes) h k = absurd (omega arith)
parse_oxms_enough (suc a) (suc b) m (c ∷ bytes) h k =
    elim (Result-cases (parse_oxm m (c ∷ bytes))) [
      | inl (e, q) ↦ parse_oxms-err a m c bytes e q ∙ sym (parse_oxms-err b m c bytes e q)
      | inr (r, q) ↦
          let shorter = parse_oxm-shorter m (c ∷ bytes) r q in
          parse_oxms-suc a m c bytes r q
          ∙ parse_oxms_enough a b r.0 r.1 (omega (arith, shorter)) (omega (arith, shorter))
          ∙ sym (parse_oxms-suc b m c bytes r q)
    ]

-- The loop with a round for each byte.
abbrev pub parse_all : Match → Bytes → Result Match
parse_all m bytes = parse_oxms (length bytes) m bytes

parse_all-step :
    (m : Match) (b : ℕ) (bytes : Bytes) (r : Match × Bytes)
    → parse_oxm m (b ∷ bytes) ≡ ok r
    → parse_all m (b ∷ bytes) ≡ parse_all r.0 r.1
parse_all-step m b bytes r h =
    let shorter = parse_oxm-shorter m (b ∷ bytes) r h in
    parse_oxms-suc (length bytes) m b bytes r h
    ∙ parse_oxms_enough (length bytes) (length r.1) r.0 r.1 (omega (arith, shorter)) (omega arith)

-- The bytes take the match `m` to the match `n`, whatever follows them.
pub Reads : Match → Bytes → Match → Type 0
Reads m bytes n = (rest : Bytes) → parse_all m (bytes ++ rest) ≡ parse_all n rest

pub Reads-nil : (m : Match) → Reads m [] m
unfolding Reads
Reads-nil m rest = refl

pub Reads-append : (m n o : Match) (a b : Bytes) → Reads m a n → Reads n b o → Reads m (a ++ b) o
unfolding Reads
Reads-append m n o a b p q rest = ap (parse_all m) (append_assoc a b rest) ∙ p (b ++ rest) ∙ q rest

pub Reads-all : (m n : Match) (bytes : Bytes) → Reads m bytes n → parse_all m bytes ≡ ok n
unfolding Reads parse_oxms
Reads-all m n bytes p = subst (λ (b : Bytes). parse_all m b ≡ ok n) (append-nil bytes) (p [])

-- A field that is put into the match, with the bytes behind it left.
pub Reads-field :
    (m n : Match) (b : ℕ) (field : Bytes)
    → ((rest : Bytes) → parse_oxm m (b ∷ (field ++ rest)) ≡ ok (n, rest))
    → Reads m (b ∷ field) n
unfolding Reads
Reads-field m n b field h rest = parse_all-step m b (field ++ rest) (n, rest) (h rest)

abbrev then_rest : Bytes → Match → Result (Match × Bytes)
then_rest rest m = ok (m, rest)

-- A field without a mask.
pub parse_oxm-plain :
    (m n : Match) (field : ℕ) (value rest : Bytes)
    → field < 128
    → length value < 256
    → apply_oxm m field value [] ≡ ok n
    → parse_oxm m (marshal_oxm field false value [] ++ rest) ≡ ok (n, rest)
unfolding parse_oxm marshal_oxm apply_raw
parse_oxm-plain m n field value rest f s h =
    let number : field * 2 % 256 / 2 ≡ field = omega arith in
    let unmasked : (field * 2 % 256 % 2 == 1) ≡ false = ground arith in
    let size : length value % 256 ≡ length value = omega arith in
    let enough : ltb (length (value ++ rest)) (length value) ≡ false =
      le→ltb _ _ (omega (arith, length-append value rest)) in
    rw (size, enough, unmasked, number, take-append value rest, drop-append value rest, h) refl

-- A field with a mask of the length of the value.
pub parse_oxm-masked :
    (m n : Match) (field : ℕ) (value mask rest : Bytes)
    → field < 127
    → length value < 128
    → length mask ≡ length value
    → apply_oxm m field value mask ≡ ok n
    → parse_oxm m (marshal_oxm field true value mask ++ rest) ≡ ok (n, rest)
unfolding parse_oxm marshal_oxm apply_raw
parse_oxm-masked m n field value mask rest f s e h =
    let number : (field * 2 % 256 + 1) / 2 ≡ field = omega arith in
    let masked : ((field * 2 % 256 + 1) % 2 == 1) ≡ true = ground arith in
    let both = length-append value mask in
    let size : (length value + length mask) % 256 ≡ length (value ++ mask) = omega (arith, both) in
    let even : (length (value ++ mask) % 2 == 0) ≡ true = ground (arith, both) in
    let half : length (value ++ mask) / 2 ≡ length value = omega (arith, both) in
    let enough : ltb (length ((value ++ mask) ++ rest)) (length (value ++ mask)) ≡ false =
      le→ltb _ _ (omega (arith, length-append (value ++ mask) rest)) in
    rw
      (
        size,
        enough,
        masked,
        number,
        take-append (value ++ mask) rest,
        drop-append (value ++ mask) rest,
        even,
        half,
        take-append value mask,
        drop-append value mask,
        h,
      )
      refl
