-- ===== src/OpenFlow/Match.antt =====
-- openflow_protocol.go: matches, as the bytes of a switch and back.
pub mod Rounds
pub mod Fields
pub mod Steps
pub mod Failures
pub mod RoundTrip
use ovnflow.Base.{ℕ, zero, suc, ◌+◌, ◌-◌, ◌*◌, ◌/◌, ◌%◌, ◌^◌, Bool, true, false, ◌&&◌, ◌||◌, not}
use ovnflow.Base.{Option, none, some, List, [], ◌∷◌, ◌++◌, length, take, drop, ltb, ◌==◌, String}
use ovnflow.Base.{if◌then◌else◌}
use ovnflow.Text.{Text, codes, is_empty}
use ovnflow.Errors.{
  validation, unsupported, timeout, Error, wrap, Result, ok, err, ◌>>=◌, ◌>>◌, fail_if,
}
use ovnflow.OpenFlow.Bytes.{Bytes, be16, be32, be64, get16, get_be, pad_to}
use ovnflow.OpenFlow.Mac.{parse_mac, mac_string}
use ovnflow.OpenFlow.Message.{flow_error}
use ovnflow.OpenFlow.Oxm.{
  marshal_oxm, ipv4_oxm, format_ipv4, invalid_oxm_length, unsupported_oxm_field,
}

pub record Metadata : Type 0 where
  pub value : ℕ
  pub mask : ℕ

-- A pointer is an `Option`, and an unset text is empty.
pub record Match : Type 0 where
  pub in_port : Option ℕ
  pub metadata : Option Metadata
  pub eth_src : Text
  pub eth_dst : Text
  pub eth_type : Option ℕ
  pub vlan_vid : Option ℕ
  pub ip_proto : Option ℕ
  pub ipv4_src : Text
  pub ipv4_dst : Text
  pub tcp_src : Option ℕ
  pub tcp_dst : Option ℕ
  pub udp_src : Option ℕ
  pub udp_dst : Option ℕ

abbrev pub no_match : Match
no_match = record {
  in_port = none;
  metadata = none;
  eth_src = [];
  eth_dst = [];
  eth_type = none;
  vlan_vid = none;
  ip_proto = none;
  ipv4_src = [];
  ipv4_dst = [];
  tcp_src = none;
  tcp_dst = none;
  udp_src = none;
  udp_dst = none;
}

-- One byte, as `[]byte{v}`.
abbrev pub byte : ℕ → Bytes
byte v = v ∷ []

-- A field that is a number, in the bytes of its width.
unfoldable pub number_field : ℕ → (ℕ → Bytes) → Option ℕ → Bytes
number_field field bytes none = []
number_field field bytes (some v) = marshal_oxm field false (bytes v) []

unfoldable pub metadata_field : Option Metadata → Bytes
metadata_field none = []
metadata_field (some m) = marshal_oxm 2 true (be64 m.value) (be64 m.mask)

abbrev pub parsed_mac : Text → Option (List ℕ) → Result Bytes
parsed_mac object none = err (wrap validation "" "marshal" object "invalid MAC address" true)
parsed_mac object (some mac) = ok mac

unfoldable pub mac_field : ℕ → String → Text → Result Bytes
mac_field field object [] = ok []
mac_field field object (c ∷ text) = do
  mac ← parsed_mac (codes object) (parse_mac (c ∷ text))
  ok (marshal_oxm field false mac [])

abbrev pub ipv4_bytes : ℕ → Bytes × Option Bytes → Bytes
ipv4_bytes field (value, none) = marshal_oxm field false value []
ipv4_bytes field (value, some mask) = marshal_oxm field true value mask

unfoldable pub ipv4_field : ℕ → Text → Result Bytes
ipv4_field field [] = ok []
ipv4_field field (c ∷ text) = do oxm ← ipv4_oxm (c ∷ text); ok (ipv4_bytes field oxm)

-- The fields in the order in which they are written.
unfoldable pub marshal_fields : Match → Result Bytes
marshal_fields m = do
  eth_dst ← mac_field 3 "eth_dst" m.eth_dst
  eth_src ← mac_field 4 "eth_src" m.eth_src
  ipv4_src ← ipv4_field 11 m.ipv4_src
  ipv4_dst ← ipv4_field 12 m.ipv4_dst
  ok (
      number_field 0 be32 m.in_port
      ++ (metadata_field m.metadata
          ++ (eth_dst
              ++ (eth_src
                  ++ (number_field 5 be16 m.eth_type
                      ++ (number_field 6 be16 m.vlan_vid
                          ++ (number_field 10 byte m.ip_proto
                              ++ (ipv4_src
                                  ++ (ipv4_dst
                                      ++ (number_field 13 be16 m.tcp_src
                                          ++ (number_field 14 be16 m.tcp_dst
                                              ++ (number_field 15 be16 m.udp_src
                                                  ++ number_field 16 be16 m.udp_dst))))))))))))

-- The type, the length in front of the padding, the fields and the padding.
unfoldable pub framed_match : Bytes → Bytes
framed_match fields = pad_to (be16 1 ++ (be16 (4 + length fields) ++ fields)) 8

unfoldable pub marshal_match : Match → Result Bytes
marshal_match m = do fields ← marshal_fields m; ok (framed_match fields)

-- A number of that size is put into the match.
abbrev pub set_number : ℕ → ℕ → Bytes → (ℕ → Match) → Result Match
set_number field size value set =
    if length value == size then ok (set (get_be value 0)) else err (invalid_oxm_length field)

abbrev pub parsed_metadata : Bytes → Bytes → Metadata
parsed_metadata value mask = record {
  value = get_be value 0;
  mask = if length mask == 8 then get_be mask 0 else 0;
}

unfoldable pub apply_oxm : Match → ℕ → Bytes → Bytes → Result Match
apply_oxm m field value mask =
    if field == 0
    then set_number field 4 value (λ v. record m { in_port = some v })
    else if field == 2
    then (if length value == 8
        then ok (record m { metadata = some (parsed_metadata value mask) })
        else err (invalid_oxm_length field))
    else if field == 3
    then (if length value == 6
        then ok (record m { eth_dst = mac_string value })
        else err (invalid_oxm_length field))
    else if field == 4
    then (if length value == 6
        then ok (record m { eth_src = mac_string value })
        else err (invalid_oxm_length field))
    else if field == 5
    then set_number field 2 value (λ v. record m { eth_type = some v })
    else if field == 6
    then set_number field 2 value (λ v. record m { vlan_vid = some v })
    else if field == 10
    then set_number field 1 value (λ v. record m { ip_proto = some v })
    else if field == 11
    then (do cidr ← format_ipv4 value mask; ok (record m { ipv4_src = cidr }))
    else if field == 12
    then (do cidr ← format_ipv4 value mask; ok (record m { ipv4_dst = cidr }))
    else if field == 13
    then set_number field 2 value (λ v. record m { tcp_src = some v })
    else if field == 14
    then set_number field 2 value (λ v. record m { tcp_dst = some v })
    else if field == 15
    then set_number field 2 value (λ v. record m { udp_src = some v })
    else if field == 16
    then set_number field 2 value (λ v. record m { udp_dst = some v })
    else err (unsupported_oxm_field field)

-- A field of that many bytes without a mask, or with one that is its second half.
unfoldable pub apply_raw : Match → ℕ → Bool → ℕ → Bytes → Result Match
apply_raw m field false size raw = apply_oxm m field raw []
apply_raw m field true size raw = do
  fail_if (not (size % 2 == 0)) (flow_error validation "parse" "match" "invalid masked OXM length")
  apply_oxm m field (take (size / 2) raw) (drop (size / 2) raw)

-- One round of the loop of `ParseOpenFlowMatch` over what is left of the fields.
unfoldable pub parse_oxm : Match → Bytes → Result (Match × Bytes)
parse_oxm m (c ∷ d ∷ field_mask ∷ size ∷ rest) = do
  fail_if (not (get16 c d == 0x8000))
      (flow_error unsupported "parse" "match" "unsupported OXM class")
  fail_if (ltb (length rest) size) (flow_error validation "parse" "match" "truncated OXM value")
  parsed ← apply_raw m (field_mask / 2) (field_mask % 2 == 1) size (take size rest)
  ok (parsed, drop size rest)
parse_oxm m _ = err (flow_error validation "parse" "match" "truncated OXM header")

-- The loop. Each round takes four bytes at least, so as many rounds as bytes are enough.
unfoldable pub parse_oxms : ℕ → Match → Bytes → Result Match
parse_oxms rounds m [] = ok m
parse_oxms zero m (b ∷ bytes) = err (flow_error timeout "parse" "match" "out of rounds")
parse_oxms (suc rounds) m (b ∷ bytes) = do
  parsed ← parse_oxm m (b ∷ bytes)
  parse_oxms rounds parsed.0 parsed.1

-- What `ParseOpenFlowMatch` makes of the type, the length and the bytes behind them.
unfoldable pub parse_fields : ℕ → ℕ → Bytes → Result Match
parse_fields kind size rest = do
  fail_if (not (kind == 1)) (flow_error unsupported "parse" "match" "only OXM match is supported")
  fail_if (ltb size 4 || ltb (4 + length rest) size)
      (flow_error validation "parse" "match" "invalid OpenFlow match length")
  parse_oxms (size - 4) no_match (take (size - 4) rest)

unfoldable pub parse_match : Bytes → Result Match
parse_match (a ∷ b ∷ c ∷ d ∷ rest) = parse_fields (get16 a b) (get16 c d) rest
parse_match _ = err (flow_error validation "parse" "match" "short OpenFlow match")
