-- ===== src/Tests/Match.antt =====
-- openflow_protocol.go: matches and flow modifications, and the theorems at them.
use ovnflow.Base.{
  ℕ, ◌≡◌, ◌≤◌, ◌<◌, ◌^◌, refl, subst, [], ◌∷◌, ◌++◌, List, none, some, some_injective, length,
  arith, false,
}
use ovnflow.Text.{codes, text_eq, is_blank}
use ovnflow.Errors.{ok, err, ◌>>=◌}
use ovnflow.Netip.{
  parse_addr, parse_prefix, is_4, masked, as_4, addr_from_4, addr_string, prefix_string, decimal,
}
use ovnflow.OpenFlow.Bytes.{Bytes, align_length, pad_loop, pad_to}
use ovnflow.OpenFlow.Mac.{parse_mac, mac_string}
use ovnflow.OpenFlow.Message.{Message, validate_version}
use ovnflow.OpenFlow.Oxm.{
  marshal_oxm, parse_openflow_ipv4_prefix, ipv4_oxm, ipv4_mask, mask_bits, format_ipv4,
  invalid_oxm_length,
}
use ovnflow.OpenFlow.Match.{
  Match, Metadata, no_match, number_field, metadata_field, mac_field, ipv4_field, marshal_fields,
  framed_match, marshal_match, apply_oxm, apply_raw, parse_oxm, parse_oxms, parse_fields,
  parse_match,
}
use ovnflow.OpenFlow.Match.Fields.{Below, Metadata64, HasSixBytes, ipv4_canonical}
use ovnflow.OpenFlow.Match.Failures.{FailsMalformed, parse_match-FailsMalformed}
use ovnflow.OpenFlow.Match.RoundTrip.{IsMatch, canonical, parse_match-marshal_match}
use ovnflow.OpenFlow.FlowMod.{
  Flow, marshal_set_field, marshal_action, marshal_actions, marshal_instruction, instruction_loop,
  marshal_instructions, flow_mod_head, marshal_flow_mod,
}
use ovnflow.OpenFlow.FlowMod.Aligned.{IsAligned, marshal_flow_mod-IsAligned}

run : ℕ
unfolding text_eq is_blank parse_addr parse_prefix is_4 masked as_4 addr_from_4 addr_string
    prefix_string decimal align_length pad_loop pad_to parse_mac mac_string validate_version
    marshal_oxm parse_openflow_ipv4_prefix ipv4_oxm ipv4_mask mask_bits format_ipv4 number_field
    metadata_field mac_field ipv4_field marshal_fields framed_match marshal_match apply_oxm
    apply_raw parse_oxm parse_oxms parse_fields parse_match ipv4_canonical marshal_set_field
    marshal_action marshal_actions marshal_instruction instruction_loop marshal_instructions
    flow_mod_head marshal_flow_mod
run = 0

-- TCP to port 80 of a network, from one port of the switch.
abbrev web : Match
web = record no_match {
  in_port = some 1;
  metadata = some (record { value = 5; mask = 0xff });
  eth_dst = codes "0A-1B-00-00-00-FF";
  eth_type = some 0x800;
  ip_proto = some 6;
  ipv4_src = codes "192.0.2.7";
  ipv4_dst = codes "10.1.2.3/8";
  tcp_dst = some 80;
}

abbrev web_bytes : Bytes
web_bytes =
    0 ∷ 1 ∷ 0 ∷ 79 ∷ 0x80 ∷ 0 ∷ 0 ∷ 4 ∷ 0 ∷ 0 ∷ 0 ∷ 1 ∷ 0x80 ∷ 0 ∷ 5 ∷ 16 ∷ 0 ∷ 0 ∷ 0 ∷ 0 ∷ 0 ∷ 0
    ∷ 0 ∷ 5 ∷ 0 ∷ 0 ∷ 0 ∷ 0 ∷ 0 ∷ 0 ∷ 0 ∷ 255 ∷ 0x80 ∷ 0 ∷ 6 ∷ 6 ∷ 0x0a ∷ 0x1b ∷ 0 ∷ 0 ∷ 0 ∷ 0xff
    ∷ 0x80 ∷ 0 ∷ 10 ∷ 2 ∷ 8 ∷ 0 ∷ 0x80 ∷ 0 ∷ 20 ∷ 1 ∷ 6 ∷ 0x80 ∷ 0 ∷ 22 ∷ 4 ∷ 192 ∷ 0 ∷ 2 ∷ 7 ∷ 0x80
    ∷ 0 ∷ 25 ∷ 8 ∷ 10 ∷ 0 ∷ 0 ∷ 0 ∷ 255 ∷ 0 ∷ 0 ∷ 0 ∷ 0x80 ∷ 0 ∷ 28 ∷ 2 ∷ 0 ∷ 80 ∷ 0 ∷ []

marshal_web : marshal_match web ≡ ok web_bytes
unfolding run
marshal_web = refl

canonical-web :
    canonical web
    ≡ record web { eth_dst = codes "0a:1b:00:00:00:ff"; ipv4_dst = codes "10.0.0.0/8" }
unfolding run
canonical-web = refl

Below-some : (bound n : ℕ) → n < bound → Below bound (some n)
Below-some bound n h v e = subst (λ m. m < bound) (some_injective e) h

Below-none : (bound : ℕ) → Below bound none
Below-none bound v e = cc

web_metadata : Metadata64 web.metadata
web_metadata d e =
    subst (λ (d : Metadata). (d.value < 2 ^ 64) × (d.mask < 2 ^ 64)) (some_injective e)
      (omega arith, omega arith)

web_eth_dst : HasSixBytes web.eth_dst
unfolding run
web_eth_dst mac e = subst (λ (mac : List ℕ). length mac ≡ 6) (some_injective e) refl

no_mac : HasSixBytes []
unfolding run
no_mac mac e = cc

web-IsMatch : IsMatch web
web-IsMatch = record {
  in_port = Below-some (2 ^ 32) 1 (omega arith);
  metadata = web_metadata;
  eth_src = no_mac;
  eth_dst = web_eth_dst;
  eth_type = Below-some (2 ^ 16) 0x800 (omega arith);
  vlan_vid = Below-none (2 ^ 16);
  ip_proto = Below-some (2 ^ 8) 6 (omega arith);
  tcp_src = Below-none (2 ^ 16);
  tcp_dst = Below-some (2 ^ 16) 80 (omega arith);
  udp_src = Below-none (2 ^ 16);
  udp_dst = Below-none (2 ^ 16);
}

parse_match-marshal_match_example : parse_match (web_bytes ++ (7 ∷ 7 ∷ [])) ≡ ok (canonical web)
parse_match-marshal_match_example =
    parse_match-marshal_match web web_bytes (7 ∷ 7 ∷ []) web-IsMatch marshal_web

-- The field of a VLAN with a value of one byte.
abbrev short_vlan : Bytes
short_vlan = 0 ∷ 1 ∷ 0 ∷ 9 ∷ 0x80 ∷ 0 ∷ 12 ∷ 1 ∷ 5 ∷ []

parse_match-FailsMalformed_example : FailsMalformed (parse_match short_vlan)
parse_match-FailsMalformed_example = parse_match-FailsMalformed short_vlan

parse_short_vlan : parse_match short_vlan ≡ err (invalid_oxm_length 6)
unfolding run
parse_short_vlan = refl

-- Web traffic is sent out of a port behind a rewritten address.
abbrev web_flow : Flow
web_flow = record {
  name = codes "web";
  bridge = codes "br0";
  cookie = 0x0f0f000000000001;
  cookie_mask = 0xffff000000000000;
  table_id = 0;
  priority = 100;
  idle_timeout = 0;
  hard_timeout = 0;
  importance = 0;
  match = web;
  instructions =
      (record { goto_table = some 2; clear_actions = false; write_metadata = none; actions = [] })
      ∷ [];
  actions =
      (record {
        kind = codes "set_field";
        port = 0;
        field = codes "eth_src";
        value = codes "0a:1b:00:00:00:01";
      })
      ∷ (record { kind = codes "output"; port = 9; field = []; value = [] })
      ∷ [];
  owner = record { kind = []; name = []; id = [] };
  labels = [];
}

abbrev web_instructions : Bytes
web_instructions =
    0 ∷ 1 ∷ 0 ∷ 8 ∷ 2 ∷ 0 ∷ 0 ∷ 0 ∷ 0 ∷ 4 ∷ 0 ∷ 40 ∷ 0 ∷ 0 ∷ 0 ∷ 0 ∷ 0 ∷ 25 ∷ 0 ∷ 16 ∷ 0x80 ∷ 0 ∷ 8
    ∷ 6 ∷ 0x0a ∷ 0x1b ∷ 0 ∷ 0 ∷ 0 ∷ 1 ∷ 0 ∷ 0 ∷ 0 ∷ 0 ∷ 0 ∷ 16 ∷ 0 ∷ 0 ∷ 0 ∷ 9 ∷ 0xff ∷ 0xff ∷ 0 ∷ 0
    ∷ 0 ∷ 0 ∷ 0 ∷ 0 ∷ []

abbrev web_message : Message
web_message = record {
  version = 4;
  kind = 14;
  xid = 3;
  body = flow_mod_head 4 0 web_flow ++ (web_bytes ++ web_instructions);
}

marshal_web_flow : marshal_flow_mod 4 3 0 web_flow ≡ ok web_message
unfolding run
marshal_web_flow = refl

marshal_flow_mod-IsAligned_example : IsAligned web_message.body × (48 ≤ length web_message.body)
marshal_flow_mod-IsAligned_example =
    marshal_flow_mod-IsAligned 4 3 0 web_flow web_message marshal_web_flow

-- The mask 255.0.255.0 is read as eight bits.
parse_sparse_mask :
    parse_match (0 ∷ 1 ∷ 0 ∷ 16 ∷ 0x80 ∷ 0 ∷ 25 ∷ 8 ∷ 10 ∷ 0 ∷ 7 ∷ 0 ∷ 255 ∷ 0 ∷ 255 ∷ 0 ∷ [])
    ≡ ok (record no_match { ipv4_dst = codes "10.0.0.0/8" })
unfolding run
parse_sparse_mask = refl

-- An address of eight bytes is marshalled to a field that is not parsed.
abbrev eui64 : Match
eui64 = record no_match { eth_dst = codes "02-00-5e-10-00-00-00-01" }

parse_eui64 : (marshal_match eui64 >>= parse_match) ≡ err (invalid_oxm_length 3)
unfolding run
parse_eui64 = refl
