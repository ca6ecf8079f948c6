-- ===== src/OpenFlow/Message/Framing.antt =====
-- Round trips of openflow_protocol.go: what is written is what is read, message by message.
use ovnflow.Base.{ℕ, zero, suc, ◌+◌, ◌-◌, ◌/◌, ◌%◌, ◌^◌, ◌<◌, ◌≡◌, refl, ap, ◌∙◌, sym, arith}
use ovnflow.Base.{
  Option, none, some, subst, List, [], ◌∷◌, ◌++◌, append_assoc, append-nil, length, length-append,
  All,
}
use ovnflow.Base.{take-append, drop-append, ltb, le→ltb, ltb→le, false}
use ovnflow.Errors.{Result, ok, ◌>>=◌, fail_if, bind-ok, fail_if-ok, ok_injective, >>-ok}
use ovnflow.OpenFlow.Bytes.{Bytes, be16, be32, get16, get32}
use ovnflow.OpenFlow.Message.{
  Message, validate_version, marshal_message, parse_message, parse_frame, read_message, ReadResult,
  message, failed, end_of_input, write_message,
}

-- The message with its length and its transaction id written out.
abbrev frame : Message → Bytes
frame msg = msg.version ∷ msg.kind ∷ (be16 (8 + length msg.body) ++ (be32 msg.xid ++ msg.body))

pub get16-be16 : (n : ℕ) → n < 2 ^ 16 → get16 (n / 256 % 256) (n % 256) ≡ n
get16-be16 n h = omega arith

get32-be32 :
    (n : ℕ) → n < 2 ^ 32 → get32 (n / 2 ^ 24 % 256) (n / 2 ^ 16 % 256) (n / 256 % 256) (n % 256) ≡ n
get32-be32 n h = omega arith

-- What marshalling succeeds on, and what it writes.
marshal_message-ok :
    (msg : Message) (bytes : Bytes)
    → marshal_message msg ≡ ok bytes
    → (bytes ≡ frame msg) × (validate_version msg.version ≡ ok tt) × (8 + length msg.body < 2 ^ 16)
unfolding marshal_message
marshal_message-ok msg bytes h =
    let a = >>-ok (validate_version msg.version) _ h in
    let b = >>-ok (fail_if (ltb 0xffff (8 + length msg.body)) _) _ a.1 in
    let c =
      ltb→le 0xffff (8 + length msg.body) (fail_if-ok (ltb 0xffff (8 + length msg.body)) _ b.0) in
    (sym (ok_injective b.1), a.0, omega (arith, c))

-- The eight bytes of a header in front of at least the body.
parse_frame-ok :
    (msg : Message) (extra : Bytes)
    → validate_version msg.version ≡ ok tt
    → parse_frame msg.version msg.kind (8 + length msg.body) msg.xid (msg.body ++ extra) ≡ ok msg
unfolding parse_frame
parse_frame-ok msg extra v =
    let len = length-append msg.body extra in
    let long : ltb (8 + length msg.body) 8 ≡ false = ground arith in
    let enough : ltb (8 + length (msg.body ++ extra)) (8 + length msg.body) ≡ false =
      le→ltb _ _ (omega (arith, len)) in
    let size : 8 + length msg.body - 8 ≡ length msg.body = omega arith in
    rw (v, long, enough, size, take-append msg.body extra) refl

-- A message that is marshalled and followed by any bytes is parsed as it was: its version, type,
-- transaction id and body are back, and the bytes behind it are ignored.
pub parse_message-marshal_message :
    (msg : Message) (bytes extra : Bytes)
    → msg.xid < 2 ^ 32
    → marshal_message msg ≡ ok bytes
    → parse_message (bytes ++ extra) ≡ ok msg
unfolding parse_message
parse_message-marshal_message msg bytes extra x h =
    let m = marshal_message-ok msg bytes h in
    rw (m.0, get16-be16 (8 + length msg.body) m.2, get32-be32 msg.xid x)
      (parse_frame-ok msg extra m.1)

-- Reading from a stream that starts with a marshalled message gives the message and leaves the
-- rest of the stream, byte for byte.
pub read_message-marshal_message :
    (msg : Message) (bytes rest : Bytes)
    → msg.xid < 2 ^ 32
    → marshal_message msg ≡ ok bytes
    → read_message (bytes ++ rest) ≡ message msg rest
unfolding read_message parse_message
read_message-marshal_message msg bytes rest x h =
    let m = marshal_message-ok msg bytes h in
    let len = length-append msg.body rest in
    let long : ltb (8 + length msg.body) 8 ≡ false = ground arith in
    let size : 8 + length msg.body - 8 ≡ length msg.body = omega arith in
    let enough : ltb (length (msg.body ++ rest)) (length msg.body) ≡ false =
      le→ltb _ _ (omega (arith, len)) in
    let whole : parse_frame msg.version msg.kind (8 + length msg.body) msg.xid msg.body ≡ ok msg =
      subst
        (λ (b : Bytes). parse_frame msg.version msg.kind (8 + length msg.body) msg.xid b ≡ ok msg)
        (append-nil msg.body) (parse_frame-ok msg [] m.1) in
    rw
      (
        m.0,
        get16-be16 (8 + length msg.body) m.2,
        get32-be32 msg.xid x,
        long,
        size,
        enough,
        take-append msg.body rest,
        drop-append msg.body rest,
        whole,
      )
      refl

-- A writer that the messages are written to one after the other.
unfoldable pub write_all : Bytes → List Message → Result Bytes
write_all written [] = ok written
write_all written (msg ∷ msgs) = do after ← write_message written msg; write_all after msgs

abbrev cons_read : Message → Option (List Message × Bytes) → Option (List Message × Bytes)
cons_read msg none = none
cons_read msg (some r) = some (msg ∷ r.0, r.1)

-- A message and what is read behind it.
abbrev read_next :
    ReadResult → (Bytes → Option (List Message × Bytes)) → Option (List Message × Bytes)
read_next (message msg rest) more = cons_read msg (more rest)
read_next (failed e) more = none
read_next end_of_input more = none

-- Reading the given number of messages, one after the other.
unfoldable pub read_all : ℕ → Bytes → Option (List Message × Bytes)
read_all zero stream = some ([], stream)
read_all (suc n) stream = read_next (read_message stream) (read_all n)

read_all-suc :
    (n : ℕ) (stream : Bytes) (msg : Message) (rest : Bytes)
    → read_message stream ≡ message msg rest
    → read_all (suc n) stream ≡ cons_read msg (read_all n rest)
unfolding read_all
read_all-suc n stream msg rest h = rw h refl

-- What is written behind `written` is read back as the messages.
ReadsBack : List Message → Bytes → Bytes → Type 0
ReadsBack msgs written bytes =
    (tail : Bytes) × (bytes ≡ written ++ tail)
    × ((rest : Bytes) → read_all (length msgs) (tail ++ rest) ≡ some (msgs, rest))

write_all-ReadsBack :
    (msgs : List Message) (written bytes : Bytes)
    → All (λ msg. msg.xid < 2 ^ 32) msgs
    → write_all written msgs ≡ ok bytes
    → ReadsBack msgs written bytes
unfolding write_all read_all ReadsBack write_message
write_all-ReadsBack [] written bytes x h =
    ([], sym (ok_injective h) ∙ sym (append-nil written), λ rest. refl)
write_all-ReadsBack (msg ∷ msgs) written bytes x h =
    let w = bind-ok (write_message written msg) _ h in
    let m = bind-ok (marshal_message msg) _ w.1 in
    let r = write_all-ReadsBack msgs w.0 bytes x.1 w.2 in
    let after : w.0 ≡ written ++ m.0 = sym (ok_injective m.2) in
    (
      m.0 ++ r.0,
      r.1 ∙ ap (λ p. p ++ r.0) after ∙ append_assoc written m.0 r.0,
      λ rest.
          let first = read_message-marshal_message msg m.0 (r.0 ++ rest) x.0 m.1 in
          rw (append_assoc m.0 r.0 rest) (
            read_all-suc (length msgs) (m.0 ++ (r.0 ++ rest)) msg (r.0 ++ rest) first
            ∙ ap (cons_read msg) (r.2 rest)),
    )

-- Messages that are written to a fresh stream one after the other are read back one after the
-- other, all of them and in the same order, and what follows them is left.
pub read_all-write_all :
    (msgs : List Message) (bytes rest : Bytes)
    → All (λ msg. msg.xid < 2 ^ 32) msgs
    → write_all [] msgs ≡ ok bytes
    → read_all (length msgs) (bytes ++ rest) ≡ some (msgs, rest)
unfolding ReadsBack
read_all-write_all msgs bytes rest x h =
    let r = write_all-ReadsBack msgs [] bytes x h in rw (r.1) (r.2 rest)
