-- ===== src/OpenFlow/Session.antt =====
-- openflow_client.go: a session with a switch, under a context that does not end. The connection is
-- the bytes that are still to come and those that were written; a failed read leaves the bytes as
-- they were, and no operation of the source reads on behind it.
pub mod Handshake
pub mod Dump
pub mod Delivered
use ovnflow.Base.{
  ℕ, zero, suc, ◌+◌, ◌-◌, ◌%◌, ◌^◌, Bool, true, false, not, List, [], ◌∷◌, ◌++◌, length, ◌==◌,
  if◌then◌else◌, String, Option, none, some,
}
use ovnflow.Text.{Text, codes, is_empty}
use ovnflow.Errors.{
  ErrorKind, validation, unsupported, unavailable, conflict, timeout, Error, wrap, Result, ok, err,
  ◌>>=◌, ◌>>◌, fail_if,
}
use ovnflow.OpenFlow.Bytes.{Bytes}
use ovnflow.OpenFlow.Message.{
  Message, Features, ProtocolError, ReadResult, message, failed, end_of_input, read_message,
  write_message, hello_message, highest_version, features_request, parse_features,
  parse_protocol_error, parse_multipart_reply,
}
use ovnflow.OpenFlow.FlowMod.{Flow, FlowStatsRequest, marshal_flow_mod, marshal_flow_stats_request}
use ovnflow.OpenFlow.Hello.{negotiate_version}

-- The counter of transaction ids belongs to the client; a nil one makes every id 1.
pub record Session : Type 0 where
  pub incoming : Bytes
  pub written : Bytes
  pub versions : List ℕ
  pub version : ℕ
  pub next_xid : Option ℕ

-- `classifyContext` of an error of the connection.
abbrev pub connection_error : String → Error
connection_error op = wrap unavailable "" op [] "" true

abbrev pub Ran {ℓ} : Type ℓ → Type ℓ
Ran A = Session × Result A

-- `if err != nil { return err }` behind an operation on the session.
infixl 10 ◌>>>◌
abbrev pub ◌>>>◌ {ℓ κ} : {A : Type ℓ} {B : Type κ} → Ran A → (Session → A → Ran B) → Ran B
(s, err e) >>> next = (s, err e)
(s, ok a) >>> next = next s a

abbrev counted : Session → Option ℕ → Session × ℕ
counted s none = (s, 1)
counted s (some xid) = let next = (xid + 1) % 2 ^ 32 in (record s { next_xid = some next }, next)

unfoldable pub next_id : Session → Session × ℕ
next_id s = counted s s.next_xid

abbrev written_to : Session → Result Bytes → Ran (Unit {0})
written_to s (err e) = (s, err (connection_error "write"))
written_to s (ok bytes) = (record s { written = bytes }, ok tt)

unfoldable pub write : Session → Message → Ran (Unit {0})
write s msg = written_to s (write_message s.written msg)

-- A message that was marshalled, or the error of marshalling it.
abbrev pub send : Session → Result Message → Ran (Unit {0})
send s (err e) = (s, err e)
send s (ok msg) = write s msg

abbrev pub read_from : Session → ReadResult → Ran Message
read_from s (message msg rest) = (record s { incoming = rest }, ok msg)
read_from s (failed e) = (s, err (connection_error "read"))
read_from s end_of_input = (s, err (connection_error "read"))

unfoldable pub read : Session → Ran Message
read s = read_from s (read_message s.incoming)

unfoldable pub classify_protocol_error : ProtocolError → ErrorKind
classify_protocol_error e =
    if e.kind == 1
    then validation
    else if e.kind == 2
    then validation
    else if e.kind == 3
    then validation
    else if e.kind == 5
    then validation
    else unsupported

-- The text of the error, which has its numbers, is not kept.
unfoldable pub protocol_error : Message → Error
unfolding classify_protocol_error
protocol_error msg = elim (parse_protocol_error msg) [
  | err e ↦ e
  | ok e ↦ wrap (classify_protocol_error e) "" "protocol" [] "" true
]

-- A reply that is not an error of the protocol.
abbrev pub refuse_error : Message → Result (Unit {0})
refuse_error msg = fail_if (msg.kind == 1) (protocol_error msg)

unfoldable pub select_version : Session → Message → Result ℕ
unfolding protocol_error
select_version s peer = do
  refuse_error peer
  fail_if (not (peer.kind == 0)) (wrap conflict "" "handshake" [] "expected OpenFlow hello" false)
  negotiate_version s.versions peer

abbrev check_features : Message → Result (Unit {0})
check_features reply = do refuse_error reply; features ← parse_features reply; ok tt

abbrev ask_features : Session → ℕ → Ran (Unit {0})
ask_features s selected =
    let (s, xid) = next_id (record s { version = selected }) in
    send s (features_request selected xid)
    >>> (λ s u. read s)
    >>> (λ s reply. (s, check_features reply))

-- `Handshake` of a session with a connection.
unfoldable pub handshake : Session → Ran (Unit {0})
unfolding protocol_error
handshake s =
    let version = highest_version s.versions in
    let (s, xid) = next_id s in
    send s (hello_message version xid s.versions)
    >>> (λ s u. read s)
    >>> (λ s peer. (s, select_version s peer))
    >>> (λ s selected. ask_features s selected)

unfoldable pub flow_mod : ℕ → Flow → Session → Ran (Unit {0})
flow_mod command flow s =
    let (s, xid) = next_id s in send s (marshal_flow_mod s.version xid command flow)

unfoldable pub add_flow : Flow → Session → Ran (Unit {0})
add_flow flow s = flow_mod 0 flow s

unfoldable pub modify_flow_strict : Flow → Session → Ran (Unit {0})
modify_flow_strict flow s = flow_mod 2 flow s

unfoldable pub delete_flow : Flow → Session → Ran (Unit {0})
delete_flow flow s =
    flow_mod 3 (if flow.cookie_mask == 0 then record flow { cookie_mask = 2 ^ 64 - 1 } else flow) s

-- The flags of a reply of the multipart kind.
unfoldable pub reply_flags : Message → Result ℕ
unfolding protocol_error
reply_flags reply = do
  refuse_error reply
  fail_if (not (reply.kind == 19))
      (wrap conflict "" "dump" (codes "flows") "expected multipart reply" false)
  parts ← parse_multipart_reply reply
  ok parts.1

-- The loop of `DumpFlows`; `out` has the replies so far. A reply has eight bytes at least, so as
-- many rounds as there are bytes to come are enough.
unfoldable pub dump_loop : ℕ → List Message → Session → Ran (List Message)
dump_loop zero out s = (s, err (wrap timeout "" "dump" [] "out of rounds" false))
dump_loop (suc rounds) out s = read s >>> (λ s reply. (s, reply_flags reply) >>> (λ s flags.
    if flags % 2 == 0
    then (s, ok (out ++ (reply ∷ [])))
    else dump_loop rounds (out ++ (reply ∷ [])) s))

unfoldable pub dump_flows : FlowStatsRequest → Session → Ran (List Message)
dump_flows request s =
    let (s, xid) = next_id s in
    send s (marshal_flow_stats_request s.version xid request)
    >>> (λ s u. dump_loop (suc (length s.incoming)) [] s)
