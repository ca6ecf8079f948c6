-- ===== src/Tests/Session.antt =====
-- openflow_client.go: a session with a switch of version 1.3, and the theorems at it.
use ovnflow.Base.{ℕ, ◌≡◌, refl, [], ◌∷◌, ◌++◌, some, arith, replicate, ◌&&◌}
use ovnflow.Errors.{ok}
use ovnflow.OpenFlow.Bytes.{Bytes}
use ovnflow.OpenFlow.Message.{
  Message, openflow_13, openflow_15, validate_version, marshal_message, hello_bitmap, hello_message,
  highest_version, highest_from, features_request,
}
use ovnflow.OpenFlow.Message.Versions.{has}
use ovnflow.OpenFlow.Hello.{
  negotiate_version, parse_hello_versions, hello_elements, bitmap_versions, bit_versions,
}
use ovnflow.OpenFlow.Hello.Common.{newest}
use ovnflow.OpenFlow.Hello.Agree.{negotiate_version-agree}
use ovnflow.OpenFlow.Session.{Session, handshake}
use ovnflow.OpenFlow.Session.Handshake.{Exchange, answered, handshake-answered}

run : ℕ
unfolding validate_version marshal_message hello_bitmap hello_message highest_version highest_from
    features_request parse_hello_versions hello_elements bitmap_versions bit_versions
run = 0

abbrev hello_both : Message
hello_both = record { version = 6; kind = 0; xid = 1; body = 0 ∷ 1 ∷ 0 ∷ 8 ∷ 0 ∷ 0 ∷ 0 ∷ 0x50 ∷ [] }

abbrev hello_13 : Message
hello_13 = record { version = 4; kind = 0; xid = 9; body = 0 ∷ 1 ∷ 0 ∷ 8 ∷ 0 ∷ 0 ∷ 0 ∷ 0x10 ∷ [] }

say_both : hello_message 6 1 (6 ∷ 4 ∷ []) ≡ ok hello_both
unfolding run
say_both = refl

say_13 : hello_message 4 9 (4 ∷ []) ≡ ok hello_13
unfolding run
say_13 = refl

negotiate_version-agree_example :
    (negotiate_version (6 ∷ 4 ∷ []) hello_13
      ≡ newest
          (has openflow_13 (6 ∷ 4 ∷ []) && has openflow_13 (4 ∷ []))
          (has openflow_15 (6 ∷ 4 ∷ []) && has openflow_15 (4 ∷ [])))
    × (negotiate_version (4 ∷ []) hello_both ≡ negotiate_version (6 ∷ 4 ∷ []) hello_13)
negotiate_version-agree_example =
    negotiate_version-agree 6 1 6 (4 ∷ []) hello_both 4 9 4 [] hello_13 say_both say_13

abbrev ask : Message
ask = record { version = 4; kind = 5; xid = 2; body = [] }

abbrev features : Message
features = record { version = 4; kind = 6; xid = 2; body = replicate 24 0 }

abbrev hello_both_bytes : Bytes
hello_both_bytes = 6 ∷ 0 ∷ 0 ∷ 16 ∷ 0 ∷ 0 ∷ 0 ∷ 1 ∷ hello_both.body

-- The hello of a switch that has the versions 1.0 to 1.4, in a bitmap of two words.
abbrev hello_old : Message
hello_old = record {
  version = 4;
  kind = 0;
  xid = 9;
  body = 0 ∷ 1 ∷ 0 ∷ 12 ∷ 0 ∷ 0 ∷ 0 ∷ 0x3e ∷ 0 ∷ 0 ∷ 0 ∷ 0 ∷ [];
}

abbrev hello_old_bytes : Bytes
hello_old_bytes = 4 ∷ 0 ∷ 0 ∷ 20 ∷ 0 ∷ 0 ∷ 0 ∷ 9 ∷ hello_old.body

abbrev ask_bytes : Bytes
ask_bytes = 4 ∷ 5 ∷ 0 ∷ 8 ∷ 0 ∷ 0 ∷ 0 ∷ 2 ∷ []

abbrev features_bytes : Bytes
features_bytes = 4 ∷ 6 ∷ 0 ∷ 32 ∷ 0 ∷ 0 ∷ 0 ∷ 2 ∷ replicate 24 0

abbrev session : Session
session = record {
  incoming = hello_old_bytes ++ (features_bytes ++ (1 ∷ []));
  written = [];
  versions = 6 ∷ 4 ∷ [];
  version = 6;
  next_xid = some 0;
}

exchange : Exchange session 0
unfolding run
exchange = record {
  first = 6;
  ours = 4 ∷ [];
  selected = 4;
  mine = hello_both;
  peer = hello_old;
  request = ask;
  reply = features;
  mine_bytes = hello_both_bytes;
  peer_bytes = hello_old_bytes;
  request_bytes = ask_bytes;
  reply_bytes = features_bytes;
  rest = 1 ∷ [];
  versions = refl;
  counter = refl;
  agreed = refl;
  mine_ok = say_both;
  request_ok = refl;
  mine_marshalled = refl;
  peer_marshalled = refl;
  request_marshalled = refl;
  reply_marshalled = refl;
  peer_xid = omega arith;
  reply_xid = omega arith;
  peer_kind = refl;
  reply_kind = refl;
  reply_full = omega arith;
  incoming = refl;
}

handshake-answered_example : handshake session ≡ (answered session 0 exchange, ok tt)
handshake-answered_example = handshake-answered session 0 exchange
