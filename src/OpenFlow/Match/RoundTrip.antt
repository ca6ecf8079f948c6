-- ===== src/OpenFlow/Match/RoundTrip.antt =====
-- openflow_protocol.go: `ParseOpenFlowMatch` reads what `marshalOpenFlowMatch` has written.
use ovnflow.Base.{◌+◌, ◌-◌, ◌^◌, ◌≤◌, ◌≡◌, refl, ap, ◌∙◌, subst, arith}
use ovnflow.Base.{false, ◌++◌, append_assoc, length, length-append, replicate}
use ovnflow.Base.{take-append, ltb, le→ltb}
use ovnflow.Errors.{ok, bind-ok, ok_injective}
use ovnflow.OpenFlow.Bytes.{Bytes, be16, be32}
use ovnflow.OpenFlow.Bytes.Padding.{pad_to-zeros}
use ovnflow.OpenFlow.Message.Framing.{get16-be16}
use ovnflow.OpenFlow.Match.{
  Match, no_match, byte, number_field, metadata_field, mac_field, ipv4_field, apply_oxm,
  marshal_fields, framed_match, marshal_match, parse_oxms, parse_fields, parse_match,
}
use ovnflow.OpenFlow.Match.Rounds.{Reads-all}
use ovnflow.OpenFlow.Match.Fields.{
  Field, Field-append, Below, Metadata64, HasSixBytes, mac_canonical, ipv4_canonical,
  metadata-Field, mac-Field, ipv4-Field,
}
use ovnflow.OpenFlow.Match.Steps.{
  be16-Field, be32-Field, byte-Field, ports-Field, apply-eth_dst, apply-eth_src, apply-ipv4_src,
  apply-ipv4_dst,
}

-- A match whose numbers fit their fields.
pub record IsMatch (m : Match) : Type 0 where
  pub in_port : Below (2 ^ 32) m.in_port
  pub metadata : Metadata64 m.metadata
  pub eth_src : HasSixBytes m.eth_src
  pub eth_dst : HasSixBytes m.eth_dst
  pub eth_type : Below (2 ^ 16) m.eth_type
  pub vlan_vid : Below (2 ^ 16) m.vlan_vid
  pub ip_proto : Below (2 ^ 8) m.ip_proto
  pub tcp_src : Below (2 ^ 16) m.tcp_src
  pub tcp_dst : Below (2 ^ 16) m.tcp_dst
  pub udp_src : Below (2 ^ 16) m.udp_src
  pub udp_dst : Below (2 ^ 16) m.udp_dst

-- The match with its texts as they are printed.
abbrev pub canonical : Match → Match
canonical m = record m {
  eth_src = mac_canonical m.eth_src;
  eth_dst = mac_canonical m.eth_dst;
  ipv4_src = ipv4_canonical m.ipv4_src;
  ipv4_dst = ipv4_canonical m.ipv4_dst;
}

-- What the texts of a match are marshalled to.
record Written (m : Match) : Type 0 where
  eth_dst : Bytes
  eth_src : Bytes
  ipv4_src : Bytes
  ipv4_dst : Bytes
  eth_dst_ok : mac_field 3 "eth_dst" m.eth_dst ≡ ok eth_dst
  eth_src_ok : mac_field 4 "eth_src" m.eth_src ≡ ok eth_src
  ipv4_src_ok : ipv4_field 11 m.ipv4_src ≡ ok ipv4_src
  ipv4_dst_ok : ipv4_field 12 m.ipv4_dst ≡ ok ipv4_dst

abbrev ports_bytes : Match → Bytes
ports_bytes m =
    number_field 13 be16 m.tcp_src
    ++ (number_field 14 be16 m.tcp_dst
        ++ (number_field 15 be16 m.udp_src ++ number_field 16 be16 m.udp_dst))

abbrev network_bytes : (m : Match) → Written m → Bytes
network_bytes m w =
    number_field 5 be16 m.eth_type
    ++ (number_field 6 be16 m.vlan_vid
        ++ (number_field 10 byte m.ip_proto ++ (w.ipv4_src ++ (w.ipv4_dst ++ ports_bytes m))))

abbrev written_bytes : (m : Match) → Written m → Bytes
written_bytes m w =
    number_field 0 be32 m.in_port
    ++ (metadata_field m.metadata ++ (w.eth_dst ++ (w.eth_src ++ network_bytes m w)))

marshal_fields-Written :
    (m : Match) (bytes : Bytes)
    → marshal_fields m ≡ ok bytes
    → (w : Written m) × (written_bytes m w ≡ bytes)
unfolding marshal_fields
marshal_fields-Written m bytes h =
    let a = bind-ok (mac_field 3 "eth_dst" m.eth_dst) _ h in
    let b = bind-ok (mac_field 4 "eth_src" m.eth_src) _ a.2 in
    let c = bind-ok (ipv4_field 11 m.ipv4_src) _ b.2 in
    let d = bind-ok (ipv4_field 12 m.ipv4_dst) _ c.2 in
    (
      record {
        eth_dst = a.0;
        eth_src = b.0;
        ipv4_src = c.0;
        ipv4_dst = d.0;
        eth_dst_ok = a.1;
        eth_src_ok = b.1;
        ipv4_src_ok = c.1;
        ipv4_dst_ok = d.1;
      },
      ok_injective d.2,
    )

-- The part of a match in front of the network, and that in front of the ports.
abbrev link_match : Match → Match
link_match m = record no_match {
  in_port = m.in_port;
  metadata = m.metadata;
  eth_dst = mac_canonical m.eth_dst;
  eth_src = mac_canonical m.eth_src;
}

abbrev network_match : Match → Match
network_match m = record (link_match m) {
  eth_type = m.eth_type;
  vlan_vid = m.vlan_vid;
  ip_proto = m.ip_proto;
  ipv4_src = ipv4_canonical m.ipv4_src;
  ipv4_dst = ipv4_canonical m.ipv4_dst;
}

network-Field :
    (m : Match) (w : Written m)
    → IsMatch m
    → Field 180 (link_match m) (network_bytes m w) (canonical m)
unfolding apply_oxm
network-Field m w is =
    let m0 = link_match m in
    let m1 : Match = record m0 { eth_type = m.eth_type } in
    let m2 : Match = record m1 { vlan_vid = m.vlan_vid } in
    let m3 : Match = record m2 { ip_proto = m.ip_proto } in
    let m4 : Match = record m3 { ipv4_src = ipv4_canonical m.ipv4_src } in
    Field-append 20 160 m0 m1 _ _ _
      (be16-Field 5 m0 (λ o. record m0 { eth_type = o }) m.eth_type (omega arith) refl (λ v. refl)
        is.eth_type)
      (Field-append 20 140 m1 m2 _ _ _
        (be16-Field 6 m1 (λ o. record m1 { vlan_vid = o }) m.vlan_vid (omega arith) refl (λ v. refl)
          is.vlan_vid)
        (Field-append 20 120 m2 m3 _ _ _
          (byte-Field 10 m2 (λ o. record m2 { ip_proto = o }) m.ip_proto (omega arith) refl
            (λ v. refl) is.ip_proto)
          (Field-append 20 100 m3 m4 _ _ _
            (ipv4-Field 11 m3 (λ t. record m3 { ipv4_src = t }) m.ipv4_src w.ipv4_src (omega arith)
              refl (apply-ipv4_src m3) w.ipv4_src_ok)
            (Field-append 20 80 m4 (network_match m) _ _ _
              (ipv4-Field 12 m4 (λ t. record m4 { ipv4_dst = t }) m.ipv4_dst w.ipv4_dst
                (omega arith) refl (apply-ipv4_dst m4) w.ipv4_dst_ok)
              (ports-Field (network_match m) m refl refl refl refl is.tcp_src is.tcp_dst is.udp_src
                is.udp_dst)))))

fields-Field :
    (m : Match) (w : Written m) → IsMatch m → Field 260 no_match (written_bytes m w) (canonical m)
unfolding apply_oxm
fields-Field m w is =
    let m1 : Match = record no_match { in_port = m.in_port } in
    let m2 : Match = record m1 { metadata = m.metadata } in
    let m3 : Match = record m2 { eth_dst = mac_canonical m.eth_dst } in
    Field-append 20 240 no_match m1 _ _ _
      (be32-Field 0 no_match (λ o. record no_match { in_port = o }) m.in_port (omega arith) refl
        (λ v. refl) is.in_port)
      (Field-append 20 220 m1 m2 _ _ _ (metadata-Field m1 m.metadata refl is.metadata) (
        Field-append 20 200 m2 m3 _ _ _
          (mac-Field 3 "eth_dst" m2 (λ t. record m2 { eth_dst = t }) m.eth_dst w.eth_dst
            (omega arith) refl (apply-eth_dst m2) is.eth_dst w.eth_dst_ok)
          (Field-append 20 180 m3 (link_match m) _ _ _
            (mac-Field 4 "eth_src" m3 (λ t. record m3 { eth_src = t }) m.eth_src w.eth_src
              (omega arith) refl (apply-eth_src m3) is.eth_src w.eth_src_ok)
            (network-Field m w is))))

-- The length in front of the padding is the one that is written, and the padding is not read.
parse-framed :
    (fields extra : Bytes) (n : Match)
    → length fields ≤ 260
    → parse_oxms (length fields) no_match fields ≡ ok n
    → parse_match (framed_match fields ++ extra) ≡ ok n
unfolding parse_match parse_fields framed_match
parse-framed fields extra n short h =
    let (k, padded) = pad_to-zeros (be16 1 ++ (be16 (4 + length fields) ++ fields)) 8 in
    let size = get16-be16 (4 + length fields) (omega arith) in
    let behind = replicate k 0 ++ extra in
    let assoc = append_assoc fields (replicate k 0) extra in
    let left : 4 + length fields - 4 ≡ length fields = omega arith in
    let low : ltb (4 + length fields) 4 ≡ false = le→ltb _ _ (omega arith) in
    let enough : ltb (4 + length (fields ++ behind)) (4 + length fields) ≡ false =
      le→ltb _ _ (omega (arith, length-append fields behind)) in
    rw (padded, assoc, size, low, enough, left, take-append fields behind) h

-- A match that was marshalled is parsed as the same match, whatever bytes follow it: its numbers
-- are back, and its texts as `HardwareAddr`, `Addr` and `Prefix` print what they were read as. This
-- holds if the numbers fit the widths of their fields and the MAC addresses have six bytes.
pub parse_match-marshal_match :
    (m : Match) (bytes extra : Bytes)
    → IsMatch m
    → marshal_match m ≡ ok bytes
    → parse_match (bytes ++ extra) ≡ ok (canonical m)
unfolding marshal_match
parse_match-marshal_match m bytes extra is h =
    let fields = bind-ok (marshal_fields m) _ h in
    let (w, written) = marshal_fields-Written m fields.0 fields.1 in
    let field = fields-Field m w is in
    let parsed = Reads-all no_match (canonical m) (written_bytes m w) field.reads in
    let framed : framed_match (written_bytes m w) ≡ bytes =
      ap framed_match written ∙ ok_injective fields.2 in
    subst (λ (b : Bytes). parse_match (b ++ extra) ≡ ok (canonical m)) framed
      (parse-framed (written_bytes m w) extra (canonical m) field.short parsed)
