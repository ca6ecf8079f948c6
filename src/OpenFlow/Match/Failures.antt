-- ===== src/OpenFlow/Match/Failures.antt =====
-- openflow_protocol.go: the errors of `ParseOpenFlowMatch`.
use ovnflow.Base.{ℕ, zero, suc, ◌+◌, ◌-◌, ◌/◌, ◌%◌, ◌≤◌, ◌≡◌, ◌⊎◌, inl, inr, refl, arith}
use ovnflow.Base.{
  if◌then◌else◌, some, Bool, true, false, ◌||◌, not, length, length-take_le, take, drop, ltb, ◌==◌,
  [], ◌∷◌,
}
use ovnflow.Text.{Text}
use ovnflow.Errors.{validation, unsupported, Error, Result, ok, err, ◌>>=◌, fail_if}
use ovnflow.OpenFlow.Bytes.{Bytes, get16, get_be}
use ovnflow.OpenFlow.Mac.{mac_string}
use ovnflow.OpenFlow.Oxm.{format_ipv4, invalid_oxm_length, unsupported_oxm_field}
use ovnflow.OpenFlow.Match.{
  Match, no_match, parsed_metadata, set_number, apply_oxm, apply_raw, parse_oxm, parse_oxms,
  parse_fields, parse_match,
}
use ovnflow.OpenFlow.Match.Rounds.{parse_oxm-shorter}

-- An error of the parser's own, and not that of a loop that ran out of rounds.
abbrev pub IsMalformed : Error → Type 0
IsMalformed e = (e.kind ≡ validation) ⊎ (e.kind ≡ unsupported)

pub FailsMalformed {ℓ} : {A : Type ℓ} → Result A → Type 0
FailsMalformed (ok a) = Unit
FailsMalformed (err e) = IsMalformed e

bind-FailsMalformed {ℓ κ} :
    {A : Type ℓ} {B : Type κ} (r : Result A) (next : A → Result B)
    → FailsMalformed r
    → ((a : A) → r ≡ ok a → FailsMalformed (next a))
    → FailsMalformed (r >>= next)
unfolding FailsMalformed
bind-FailsMalformed (ok a) next f g = g a refl
bind-FailsMalformed (err d) next f g = f

fail_if-FailsMalformed : (c : Bool) (e : Error) → IsMalformed e → FailsMalformed (fail_if c e)
unfolding FailsMalformed
fail_if-FailsMalformed true e h = h
fail_if-FailsMalformed false e h = tt

if-FailsMalformed {ℓ} :
    {A : Type ℓ} (c : Bool) (a b : Result A)
    → FailsMalformed a
    → FailsMalformed b
    → FailsMalformed (if c then a else b)
if-FailsMalformed true a b f g = f
if-FailsMalformed false a b f g = g

format_ipv4-FailsMalformed : (value mask : Bytes) → FailsMalformed (format_ipv4 value mask)
unfolding FailsMalformed format_ipv4 invalid_oxm_length
format_ipv4-FailsMalformed [] mask = inl refl
format_ipv4-FailsMalformed (a ∷ []) mask = inl refl
format_ipv4-FailsMalformed (a ∷ b ∷ []) mask = inl refl
format_ipv4-FailsMalformed (a ∷ b ∷ c ∷ []) mask = inl refl
format_ipv4-FailsMalformed (a ∷ b ∷ c ∷ d ∷ []) [] = tt
format_ipv4-FailsMalformed (a ∷ b ∷ c ∷ d ∷ []) (x ∷ mask) =
    bind-FailsMalformed (fail_if (not (length (x ∷ mask) == 4)) _) _
      (fail_if-FailsMalformed _ _ (inl refl)) (λ u e. tt)
format_ipv4-FailsMalformed (a ∷ b ∷ c ∷ d ∷ e ∷ value) mask = inl refl

-- A match, or else the error on the field's length.
sized-FailsMalformed :
    (c : Bool) (m : Match) (field : ℕ)
    → FailsMalformed (if c then ok m else err (invalid_oxm_length field))
unfolding FailsMalformed invalid_oxm_length
sized-FailsMalformed true m field = tt
sized-FailsMalformed false m field = inl refl

set_number-FailsMalformed :
    (field size : ℕ) (value : Bytes) (set : ℕ → Match)
    → FailsMalformed (set_number field size value set)
set_number-FailsMalformed field size value set =
    sized-FailsMalformed (length value == size) (set (get_be value 0)) field

address-FailsMalformed :
    (value mask : Bytes) (set : Text → Match)
    → FailsMalformed (format_ipv4 value mask >>= (λ cidr. ok (set cidr)))
unfolding FailsMalformed
address-FailsMalformed value mask set =
    bind-FailsMalformed (format_ipv4 value mask) _ (format_ipv4-FailsMalformed value mask)
      (λ cidr e. tt)

unsupported-FailsMalformed :
    (field : ℕ) → FailsMalformed {A = Match} (err (unsupported_oxm_field field))
unfolding FailsMalformed unsupported_oxm_field
unsupported-FailsMalformed field = inr refl

apply_oxm-FailsMalformed :
    (m : Match) (field : ℕ) (value mask : Bytes) → FailsMalformed (apply_oxm m field value mask)
unfolding apply_oxm
apply_oxm-FailsMalformed m field value mask =
    let number = λ (size : ℕ) (set : ℕ → Match). set_number-FailsMalformed field size value set in
    let address = λ (set : Text → Match). address-FailsMalformed value mask set in
    if-FailsMalformed (field == 0) _ _ (number 4 (λ v. record m { in_port = some v })) (
      if-FailsMalformed (field == 2) _ _
        (sized-FailsMalformed (length value == 8)
          (record m { metadata = some (parsed_metadata value mask) }) field)
        (if-FailsMalformed (field == 3) _ _
          (sized-FailsMalformed (length value == 6) (record m { eth_dst = mac_string value }) field)
          (if-FailsMalformed (field == 4) _ _
            (sized-FailsMalformed (length value == 6) (record m { eth_src = mac_string value })
              field)
            (if-FailsMalformed (field == 5) _ _ (number 2 (λ v. record m { eth_type = some v })) (
              if-FailsMalformed (field == 6) _ _ (number 2 (λ v. record m { vlan_vid = some v })) (
                if-FailsMalformed (field == 10) _ _ (number 1 (λ v. record m { ip_proto = some v }))
                  (if-FailsMalformed (field == 11) _ _ (address (λ t. record m { ipv4_src = t })) (
                    if-FailsMalformed (field == 12) _ _ (address (λ t. record m { ipv4_dst = t })) (
                      if-FailsMalformed (field == 13) _ _
                        (number 2 (λ v. record m { tcp_src = some v }))
                        (if-FailsMalformed (field == 14) _ _
                          (number 2 (λ v. record m { tcp_dst = some v }))
                          (if-FailsMalformed (field == 15) _ _
                            (number 2 (λ v. record m { udp_src = some v }))
                            (if-FailsMalformed (field == 16) _ _
                              (number 2 (λ v. record m { udp_dst = some v }))
                              (unsupported-FailsMalformed field)))))))))))))

apply_raw-FailsMalformed :
    (m : Match) (field : ℕ) (has_mask : Bool) (size : ℕ) (raw : Bytes)
    → FailsMalformed (apply_raw m field has_mask size raw)
unfolding apply_raw
apply_raw-FailsMalformed m field false size raw = apply_oxm-FailsMalformed m field raw []
apply_raw-FailsMalformed m field true size raw =
    bind-FailsMalformed (fail_if (not (size % 2 == 0)) _) _ (fail_if-FailsMalformed _ _ (inl refl))
      (λ u e. apply_oxm-FailsMalformed m field (take (size / 2) raw) (drop (size / 2) raw))

parse_oxm-FailsMalformed : (m : Match) (bytes : Bytes) → FailsMalformed (parse_oxm m bytes)
unfolding parse_oxm FailsMalformed
parse_oxm-FailsMalformed m [] = inl refl
parse_oxm-FailsMalformed m (a ∷ []) = inl refl
parse_oxm-FailsMalformed m (a ∷ b ∷ []) = inl refl
parse_oxm-FailsMalformed m (a ∷ b ∷ c ∷ []) = inl refl
parse_oxm-FailsMalformed m (c ∷ d ∷ field_mask ∷ size ∷ rest) =
    bind-FailsMalformed (fail_if (not (get16 c d == 0x8000)) _) _
      (fail_if-FailsMalformed _ _ (inr refl))
      (λ u e.
        bind-FailsMalformed (fail_if (ltb (length rest) size) _) _
          (fail_if-FailsMalformed _ _ (inl refl))
          (λ v d.
            bind-FailsMalformed
              (apply_raw m (field_mask / 2) (field_mask % 2 == 1) size (take size rest)) _
              (apply_raw-FailsMalformed m _ _ size _) (λ n h. tt)))

parse_oxms-FailsMalformed :
    (rounds : ℕ) (m : Match) (bytes : Bytes)
    → length bytes ≤ rounds
    → FailsMalformed (parse_oxms rounds m bytes)
unfolding parse_oxms FailsMalformed
parse_oxms-FailsMalformed rounds m [] h = tt
parse_oxms-FailsMalformed zero m (b ∷ bytes) h = absurd (omega arith)
parse_oxms-FailsMalformed (suc rounds) m (b ∷ bytes) h =
    bind-FailsMalformed (parse_oxm m (b ∷ bytes)) _ (parse_oxm-FailsMalformed m (b ∷ bytes)) (λ r e.
      let shorter = parse_oxm-shorter m (b ∷ bytes) r e in
      parse_oxms-FailsMalformed rounds r.0 r.1 (omega (arith, shorter)))

-- Whatever the bytes are, `ParseOpenFlowMatch` returns: a match, or an error that calls the bytes
-- invalid or not supported. The rounds of its loop never run out.
pub parse_match-FailsMalformed : (bytes : Bytes) → FailsMalformed (parse_match bytes)
unfolding parse_match parse_fields FailsMalformed
parse_match-FailsMalformed [] = inl refl
parse_match-FailsMalformed (a ∷ []) = inl refl
parse_match-FailsMalformed (a ∷ b ∷ []) = inl refl
parse_match-FailsMalformed (a ∷ b ∷ c ∷ []) = inl refl
parse_match-FailsMalformed (a ∷ b ∷ c ∷ d ∷ rest) =
    bind-FailsMalformed (fail_if (not (get16 a b == 1)) _) _ (fail_if-FailsMalformed _ _ (inr refl))
      (λ u e.
        bind-FailsMalformed (fail_if (ltb (get16 c d) 4 || ltb (4 + length rest) (get16 c d)) _) _
          (fail_if-FailsMalformed _ _ (inl refl))
          (λ v h.
            parse_oxms-FailsMalformed (get16 c d - 4) no_match (take (get16 c d - 4) rest)
              (length-take_le (get16 c d - 4) rest)))
