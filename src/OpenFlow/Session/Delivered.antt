-- ===== src/OpenFlow/Session/Delivered.antt =====
-- openflow_client.go: what a flow modification that returns without an error has sent.
use ovnflow.Base.{
  ℕ, ◌^◌, ◌<◌, ◌≡◌, refl, sym, ap, ◌∙◌, subst, ◌∷◌, ◌++◌, arith, ◌==◌, Option-cases, inl, inr,
}
use ovnflow.Base.{if◌then◌else◌}
use ovnflow.Errors.{Result, ok, err, bind-ok, >>-ok, ok_injective, Result-cases}
use ovnflow.OpenFlow.Bytes.{Bytes, be16, be32, be64}
use ovnflow.OpenFlow.Message.{
  Message, message, validate_version, marshal_message, read_message, write_message,
}
use ovnflow.OpenFlow.Message.Framing.{read_message-marshal_message}
use ovnflow.OpenFlow.Match.{marshal_match, parse_match}
use ovnflow.OpenFlow.Match.RoundTrip.{IsMatch, canonical, parse_match-marshal_match}
use ovnflow.OpenFlow.FlowMod.{Flow, marshal_instructions, flow_mod_head, marshal_flow_mod}
use ovnflow.OpenFlow.Session.{Session, next_id, counted, write, send, flow_mod}

-- The message of OpenFlow for a flow, field by field, in front of the match and the instructions.
abbrev pub flow_message : ℕ → ℕ → ℕ → Flow → Bytes → Bytes → Message
flow_message version xid command flow match_bytes instruction_bytes = record {
  version = version;
  kind = 14;
  xid = xid;
  body =
      (be64 flow.cookie
        ++ (be64 flow.cookie_mask
            ++ (flow.table_id
                ∷ command
                ∷ (be16 flow.idle_timeout
                    ++ (be16 flow.hard_timeout
                        ++ (be16 flow.priority
                            ++ (be32 0xffffffff
                                ++ (be32 0xffffffff
                                    ++ (be32 0xffffffff
                                        ++ (be16 0
                                            ++ be16 (
                                                if version == 6
                                                then flow.importance
                                                else 0)))))))))))
      ++ (match_bytes ++ instruction_bytes);
}

-- Behind what was written before stands one message with that command for the flow, which is read
-- back as such, and its match is parsed back if its numbers fit.
pub record Delivered (flow : Flow) (command : ℕ) (before after : Session) : Type 0 where
  pub xid : ℕ
  pub bytes : Bytes
  pub match_bytes : Bytes
  pub instruction_bytes : Bytes
  pub written : after.written ≡ before.written ++ bytes
  pub incoming : after.incoming ≡ before.incoming
  pub sent :
      (rest : Bytes)
      → read_message (bytes ++ rest)
        ≡ message (flow_message before.version xid command flow match_bytes instruction_bytes) rest
  pub matched :
      (rest : Bytes)
      → IsMatch flow.match
      → parse_match (match_bytes ++ rest) ≡ ok (canonical flow.match)
  pub instructions : marshal_instructions flow ≡ ok instruction_bytes

-- A session that has taken the next transaction id.
record Numbered (s t : Session) (xid : ℕ) : Type 0 where
  short : xid < 2 ^ 32
  version : t.version ≡ s.version
  written : t.written ≡ s.written
  incoming : t.incoming ≡ s.incoming

next_id-Numbered : (s : Session) → Numbered s (next_id s).0 (next_id s).1
unfolding next_id
next_id-Numbered s = elim (Option-cases s.next_xid) [
  | inl e ↦
      subst (λ (n : Session × ℕ). Numbered s n.0 n.1) (sym (ap (counted s) e))
        (record { short = omega arith; version = refl; written = refl; incoming = refl })
  | inr (xid, e) ↦
      subst (λ (n : Session × ℕ). Numbered s n.0 n.1) (sym (ap (counted s) e))
        (record { short = omega arith; version = refl; written = refl; incoming = refl })
]

-- A message that was sent.
write-sent :
    (s t : Session) (msg : Message)
    → write s msg ≡ (t, ok tt)
    → (bytes : Bytes) × (marshal_message msg ≡ ok bytes)
      × (t ≡ record s { written = s.written ++ bytes })
unfolding write write_message
write-sent s t msg h = elim (Result-cases (marshal_message msg)) [
  | inl (e, failed) ↦ let k = rw failed at h in cc
  | inr (bytes, done) ↦ let k = rw done at h in (bytes, done, cc)
]

send-sent :
    (s t : Session) (r : Result Message)
    → send s r ≡ (t, ok tt)
    → (msg : Message) × (r ≡ ok msg) × (write s msg ≡ (t, ok tt))
send-sent s t (err e) h = cc
send-sent s t (ok msg) h = (msg, refl, h)

-- What a marshalled flow is made of.
marshal_flow_mod-ok :
    (version xid command : ℕ) (flow : Flow) (msg : Message)
    → marshal_flow_mod version xid command flow ≡ ok msg
    → (match_bytes : Bytes) × (instruction_bytes : Bytes) × (marshal_match flow.match
        ≡ ok match_bytes)
      × (marshal_instructions flow ≡ ok instruction_bytes)
      × (msg ≡ flow_message version xid command flow match_bytes instruction_bytes)
unfolding marshal_flow_mod flow_mod_head
marshal_flow_mod-ok version xid command flow msg h =
    let a = >>-ok (validate_version version) _ h in
    let m = bind-ok (marshal_match flow.match) _ a.1 in
    let i = bind-ok (marshal_instructions flow) _ m.2 in
    (m.0, i.0, m.1, i.1, sym (ok_injective i.2))

-- A flow modification that returns without an error has sent the flow.
pub flow_mod-Delivered :
    (command : ℕ) (flow : Flow) (s t : Session)
    → flow_mod command flow s ≡ (t, ok tt)
    → Delivered flow command s t
unfolding flow_mod
flow_mod-Delivered command flow s t h =
    let taken = (next_id s).0 in
    let xid = (next_id s).1 in
    let n = next_id-Numbered s in
    let (msg, made, wrote) =
      send-sent taken t (marshal_flow_mod taken.version xid command flow) h in
    let (bytes, marshalled, behind) = write-sent taken t msg wrote in
    let (match_bytes, instruction_bytes, m, i, same) =
      marshal_flow_mod-ok taken.version xid command flow msg made in
    let numbered : msg.xid < 2 ^ 32 =
      subst (λ (k : ℕ). k < 2 ^ 32) (sym (ap (λ (x : Message). x.xid) same)) n.short in
    let sent_version : msg ≡ flow_message s.version xid command flow match_bytes instruction_bytes =
      same ∙ ap (λ v. flow_message v xid command flow match_bytes instruction_bytes) n.version in
    record {
      xid = xid;
      bytes = bytes;
      match_bytes = match_bytes;
      instruction_bytes = instruction_bytes;
      written = ap (λ (x : Session). x.written) behind ∙ ap (λ (w : Bytes). w ++ bytes) n.written;
      incoming = ap (λ (x : Session). x.incoming) behind ∙ n.incoming;
      sent = λ rest.
          read_message-marshal_message msg bytes rest numbered marshalled
          ∙ ap (λ (x : Message). message x rest) sent_version;
      matched = λ rest fits. parse_match-marshal_match flow.match match_bytes rest fits m;
      instructions = i;
    }
