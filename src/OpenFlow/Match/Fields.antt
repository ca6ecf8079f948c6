-- ===== src/OpenFlow/Match/Fields.antt =====
-- openflow_protocol.go: each field of a match that `marshalOpenFlowMatch` writes is taken into the
-- match by a round of `ParseOpenFlowMatch`.
use ovnflow.Base.{ℕ, ◌+◌, ◌^◌, ◌≤◌, ◌<◌, ◌≡◌, refl, ap, ◌∙◌, sym, subst, arith}
use ovnflow.Base.{
  inl, inr, true, false, Option, none, some, List, [], ◌∷◌, ◌++◌, length, length-append, String,
}
use ovnflow.Base.{◌==◌, Bool-cases, Option-cases}
use ovnflow.Text.{Text}
use ovnflow.Errors.{Result, ok, err, bind-ok, ok_injective}
use ovnflow.OpenFlow.Bytes.{Bytes, be32, be64, get_be}
use ovnflow.OpenFlow.Mac.{parse_mac, mac_string}
use ovnflow.OpenFlow.Oxm.{
  marshal_oxm, parse_openflow_ipv4_prefix, ipv4_value, ipv4_oxm, format_ipv4, ipv4_mask, four_bytes,
}
use ovnflow.OpenFlow.Oxm.Ipv4.{
  ipv4_text, IsBlock, format_ipv4-block, format_ipv4-address, parse_openflow_ipv4_prefix-IsBlock,
}
use ovnflow.OpenFlow.Match.{
  Match, Metadata, number_field, metadata_field, mac_field, ipv4_field, ipv4_bytes, apply_oxm,
}
use ovnflow.OpenFlow.Match.Rounds.{
  Reads, Reads-nil, Reads-append, Reads-field, parse_oxm-plain, parse_oxm-masked,
}
use ovnflow.Netip.{Prefix, as_4, parse_prefix, parse_addr}

-- At most `size` bytes, which take the match `m` to the match `n`.
pub record Field (size : ℕ) (m : Match) (bytes : Bytes) (n : Match) : Type 0 where
  pub short : length bytes ≤ size
  pub reads : Reads m bytes n

pub Field-append :
    (k l : ℕ) (m n o : Match) (a b : Bytes)
    → Field k m a n
    → Field l n b o
    → Field (k + l) m (a ++ b) o
Field-append k l m n o a b p q = record {
  short = omega (arith, p.short, q.short, length-append a b);
  reads = Reads-append m n o a b p.reads q.reads;
}

Field-nil : (size : ℕ) (m n : Match) → m ≡ n → Field size m [] n
Field-nil size m n e = record { short = omega arith; reads = subst (Reads m []) e (Reads-nil m) }

Field-plain :
    (size field : ℕ) (m n : Match) (value : Bytes)
    → field < 128
    → length value + 4 ≤ size
    → size < 256
    → apply_oxm m field value [] ≡ ok n
    → Field size m (marshal_oxm field false value []) n
unfolding marshal_oxm
Field-plain size field m n value f s t h = record {
  short = omega arith;
  reads = Reads-field m n 0x80 _ (λ rest. parse_oxm-plain m n field value rest f (omega arith) h);
}

Field-masked :
    (size field : ℕ) (m n : Match) (value mask : Bytes)
    → field < 127
    → length value + length mask + 4 ≤ size
    → size < 128
    → length mask ≡ length value
    → apply_oxm m field value mask ≡ ok n
    → Field size m (marshal_oxm field true value mask) n
unfolding marshal_oxm
Field-masked size field m n value mask f s t e h = record {
  short = omega (arith, length-append value mask);
  reads =
      Reads-field m n 0x80 _
        (λ rest. parse_oxm-masked m n field value mask rest f (omega arith) e h);
}

-- A number that is set is below the bound.
abbrev pub Below : ℕ → Option ℕ → Type 0
Below bound o = (v : ℕ) → o ≡ some v → v < bound

-- A field that is a number: `after` is the match with the number that is set, if there is one.
pub number-Field :
    (field : ℕ) (bytes : ℕ → Bytes) (bound : ℕ) (m : Match) (after : Option ℕ → Match)
    (o : Option ℕ)
    → field < 128
    → m ≡ after none
    → ((v : ℕ) → v < bound → length (bytes v) ≤ 4)
    → ((v : ℕ) → v < bound → apply_oxm m field (bytes v) [] ≡ ok (after (some v)))
    → Below bound o
    → Field 20 m (number_field field bytes o) (after o)
unfolding number_field
number-Field field bytes bound m after none f e s h b = Field-nil 20 m (after none) e
number-Field field bytes bound m after (some v) f e s h b =
    let lt = b v refl in
    Field-plain 20 field m (after (some v)) (bytes v) f (omega (arith, s v lt)) (omega arith)
      (h v lt)

get32-be : (v : ℕ) → v < 2 ^ 32 → get_be (be32 v) 0 ≡ v
get32-be v h = omega arith

get64-be : (v : ℕ) → v < 2 ^ 64 → get_be (be64 v) 0 ≡ v
get64-be v h = omega arith

-- Metadata whose value and mask have 64 bits.
abbrev pub Metadata64 : Option Metadata → Type 0
Metadata64 o = (d : Metadata) → o ≡ some d → (d.value < 2 ^ 64) × (d.mask < 2 ^ 64)

pub metadata-Field :
    (m : Match) (o : Option Metadata)
    → m.metadata ≡ none
    → Metadata64 o
    → Field 20 m (metadata_field o) (record m { metadata = o })
unfolding metadata_field apply_oxm
metadata-Field m none e h = Field-nil 20 m _ (ap (λ d. record m { metadata = d }) e)
metadata-Field m (some d) e h =
    let bounds = h d refl in
    let get : (v : ℕ) → v < 2 ^ 64 → get_be (be64 v) 0 ≡ v = get64-be in
    let value = get d.value bounds.0 in
    let mask = get d.mask bounds.1 in
    let same : record { value = get_be (be64 d.value) 0; mask = get_be (be64 d.mask) 0 } ≡ d =
      ap (λ v. record { value = v; mask = get_be (be64 d.mask) 0 }) value
      ∙ ap (λ v. record { value = d.value; mask = v }) mask in
    Field-masked 20 2 m (record m { metadata = some d }) (be64 d.value) (be64 d.mask) (omega arith)
      (omega arith) (omega arith) refl (ap (λ d. ok (record m { metadata = some d })) same)

-- The text that `HardwareAddr.String` prints for the MAC address that the text is read as.
abbrev mac_or : Text → Option (List ℕ) → Text
mac_or text none = text
mac_or text (some mac) = mac_string mac

abbrev pub mac_canonical : Text → Text
mac_canonical text = mac_or text (parse_mac text)

-- Not an EUI-64 nor an IP over InfiniBand address.
abbrev pub HasSixBytes : Text → Type 0
HasSixBytes text = (mac : List ℕ) → parse_mac text ≡ some mac → length mac ≡ 6

pub mac-Field :
    (field : ℕ) (object : String) (m : Match) (after : Text → Match) (text : Text) (bytes : Bytes)
    → field < 128
    → m ≡ after []
    → ((mac : List ℕ) → length mac ≡ 6 → apply_oxm m field mac [] ≡ ok (after (mac_string mac)))
    → HasSixBytes text
    → mac_field field object text ≡ ok bytes
    → Field 20 m bytes (after (mac_canonical text))
unfolding mac_field parse_mac
mac-Field field object m after [] bytes f e h six w =
    subst (λ b. Field 20 m b (after [])) (ok_injective w) (Field-nil 20 m (after []) e)
mac-Field field object m after (c ∷ text) bytes f e h six w =
    elim (Option-cases (parse_mac (c ∷ text))) [
      | inl q ↦ let w' = rw q at w in cc
      | inr (mac, q) ↦
          let size = six mac q in
          let w' = rw q at w in
          let canonical : mac_canonical (c ∷ text) ≡ mac_string mac = ap (mac_or (c ∷ text)) q in
          rw canonical (
            subst (λ b. Field 20 m b (after (mac_string mac))) (ok_injective w')
              (Field-plain 20 field m _ mac f (omega arith) (omega arith) (h mac size)))
    ]

-- The text that is printed for the prefix that the text is read as.
abbrev ipv4_or : Text → Result Prefix → Text
ipv4_or text (err e) = text
ipv4_or text (ok p) = ipv4_text p

unfoldable pub ipv4_canonical : Text → Text
ipv4_canonical text = ipv4_or text (parse_openflow_ipv4_prefix text)

ipv4_canonical_empty : ipv4_canonical [] ≡ []
unfolding ipv4_canonical parse_openflow_ipv4_prefix parse_prefix parse_addr
ipv4_canonical_empty = refl

ipv4_canonical_parsed :
    (text : Text) (p : Prefix)
    → parse_openflow_ipv4_prefix text ≡ ok p
    → ipv4_canonical text ≡ ipv4_text p
unfolding ipv4_canonical
ipv4_canonical_parsed text p h = ap (ipv4_or text) h

block-Field :
    (field : ℕ) (m : Match) (after : Text → Match) (p : Prefix)
    → field < 127
    → ((value mask : Bytes) (cidr : Text)
        → format_ipv4 value mask ≡ ok cidr
        → apply_oxm m field value mask ≡ ok (after cidr))
    → IsBlock p
    → Field 20 m (ipv4_bytes field (ipv4_value p)) (after (ipv4_text p))
block-Field field m after p f h block = elim (Bool-cases (p.bits == 32)) [
  | inl all ↦
      let bytes : ipv4_bytes field (ipv4_value p)
          ≡ marshal_oxm field false (four_bytes (as_4 p.addr)) [] =
        rw all refl in
      subst (λ b. Field 20 m b (after (ipv4_text p))) (sym bytes)
        (Field-plain 20 field m _ _ (omega arith) (omega arith) (omega arith)
          (h _ _ _ (format_ipv4-address p block all)))
  | inr few ↦
      let bytes : ipv4_bytes field (ipv4_value p)
          ≡ marshal_oxm field true (four_bytes (as_4 p.addr)) (ipv4_mask p.bits) =
        rw few refl in
      let masked = format_ipv4-block p block few in
      subst (λ b. Field 20 m b (after (ipv4_text p))) (sym bytes)
        (Field-masked 20 field m _ _ _ f (omega (arith, masked.0)) (omega arith) masked.0
          (h _ _ _ masked.1))
]

pub ipv4-Field :
    (field : ℕ) (m : Match) (after : Text → Match) (text : Text) (bytes : Bytes)
    → field < 127
    → m ≡ after []
    → ((value mask : Bytes) (cidr : Text)
        → format_ipv4 value mask ≡ ok cidr
        → apply_oxm m field value mask ≡ ok (after cidr))
    → ipv4_field field text ≡ ok bytes
    → Field 20 m bytes (after (ipv4_canonical text))
unfolding ipv4_field ipv4_oxm
ipv4-Field field m after [] bytes f e h w =
    rw ipv4_canonical_empty
      (subst (λ b. Field 20 m b (after [])) (ok_injective w) (Field-nil 20 m (after []) e))
ipv4-Field field m after (c ∷ text) bytes f e h w =
    let oxm = bind-ok (ipv4_oxm (c ∷ text)) _ w in
    let parsed = bind-ok (parse_openflow_ipv4_prefix (c ∷ text)) _ oxm.1 in
    let same : ipv4_bytes field (ipv4_value parsed.0) ≡ bytes =
      ap (ipv4_bytes field) (ok_injective parsed.2) ∙ ok_injective oxm.2 in
    let block = parse_openflow_ipv4_prefix-IsBlock (c ∷ text) parsed.0 parsed.1 in
    rw (ipv4_canonical_parsed (c ∷ text) parsed.0 parsed.1) (
      subst (λ b. Field 20 m b (after (ipv4_text parsed.0))) same
        (block-Field field m after parsed.0 f h block))
