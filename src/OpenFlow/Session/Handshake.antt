-- ===== src/OpenFlow/Session/Handshake.antt =====
-- openflow_client.go: a handshake with a switch that sends a hello and its features.
use ovnflow.Base.{
  ℕ, ◌+◌, ◌%◌, ◌^◌, ◌<◌, ◌≤◌, ◌≡◌, refl, ap, ◌∙◌, true, false, ◌&&◌, List, ◌∷◌, ◌++◌, some, arith,
}
use ovnflow.Base.{length, le→ltb, ◌==◌, eq→==}
use ovnflow.Errors.{ok, >>-ok}
use ovnflow.OpenFlow.Bytes.{Bytes}
use ovnflow.OpenFlow.Message.{
  Message, openflow_13, openflow_15, is_version, validate_version, marshal_message, read_message,
  write_message, hello_message, highest_version, features_request, parse_features,
}
use ovnflow.OpenFlow.Message.Framing.{read_message-marshal_message}
use ovnflow.OpenFlow.Message.Versions.{has, validate_version-ok}
use ovnflow.OpenFlow.Hello.{negotiate_version}
use ovnflow.OpenFlow.Hello.Common.{newest, offered, negotiate_version-offered}
use ovnflow.OpenFlow.Session.{
  Session, Ran, ◌>>>◌, next_id, counted, write, send, read, read_from, select_version,
  check_features, ask_features, handshake,
}

-- An operation that succeeds, and what follows.
then-ok {ℓ κ} :
    {A : Type ℓ} {B : Type κ} (r : Ran A) (next : Session → A → Ran B) (s : Session) (a : A)
    (t : Ran B)
    → r ≡ (s, ok a)
    → next s a ≡ t
    → (r >>> next) ≡ t
then-ok r next s a t e f = ap (λ r. r >>> next) e ∙ f

write-ok :
    (s : Session) (msg : Message) (bytes : Bytes)
    → marshal_message msg ≡ ok bytes
    → write s msg ≡ (record s { written = s.written ++ bytes }, ok tt)
unfolding write write_message
write-ok s msg bytes h = rw h refl

-- The message that the bytes to come begin with is read, and the rest stays.
read-ok :
    (s : Session) (msg : Message) (bytes rest : Bytes)
    → msg.xid < 2 ^ 32
    → marshal_message msg ≡ ok bytes
    → s.incoming ≡ bytes ++ rest
    → read s ≡ (record s { incoming = rest }, ok msg)
unfolding read
read-ok s msg bytes rest x h e =
    ap (λ i. read_from s (read_message i)) e
    ∙ ap (read_from s) (read_message-marshal_message msg bytes rest x h)

-- What is exchanged: the hello of this side and any hello of the switch, the request for features,
-- and a reply to it that has a full body.
pub record Exchange (s : Session) (xid : ℕ) : Type 0 where
  pub first : ℕ
  pub ours : List ℕ
  pub selected : ℕ
  pub mine : Message
  pub peer : Message
  pub request : Message
  pub reply : Message
  pub mine_bytes : Bytes
  pub peer_bytes : Bytes
  pub request_bytes : Bytes
  pub reply_bytes : Bytes
  pub rest : Bytes
  pub versions : s.versions ≡ first ∷ ours
  pub counter : s.next_xid ≡ some xid
  pub agreed :
      newest
        (has openflow_13 (first ∷ ours) && has openflow_13 (offered peer))
        (has openflow_15 (first ∷ ours) && has openflow_15 (offered peer))
      ≡ ok selected
  pub mine_ok :
      hello_message (highest_version (first ∷ ours)) ((xid + 1) % 2 ^ 32) (first ∷ ours) ≡ ok mine
  pub request_ok : features_request selected (((xid + 1) % 2 ^ 32 + 1) % 2 ^ 32) ≡ ok request
  pub mine_marshalled : marshal_message mine ≡ ok mine_bytes
  pub peer_marshalled : marshal_message peer ≡ ok peer_bytes
  pub request_marshalled : marshal_message request ≡ ok request_bytes
  pub reply_marshalled : marshal_message reply ≡ ok reply_bytes
  pub peer_xid : peer.xid < 2 ^ 32
  pub reply_xid : reply.xid < 2 ^ 32
  pub peer_kind : peer.kind ≡ 0
  pub reply_kind : reply.kind ≡ 6
  pub reply_full : 24 ≤ length reply.body
  pub incoming : s.incoming ≡ peer_bytes ++ (reply_bytes ++ rest)

marshal_message-version :
    (msg : Message) (bytes : Bytes) → marshal_message msg ≡ ok bytes → is_version msg.version ≡ true
unfolding marshal_message
marshal_message-version msg bytes h =
    validate_version-ok msg.version (>>-ok (validate_version msg.version) _ h).0

select_version-ok :
    (s : Session) (xid : ℕ) (x : Exchange s xid) (t : Session)
    → t.versions ≡ s.versions
    → select_version t x.peer ≡ ok x.selected
unfolding select_version
select_version-ok s xid x t e =
    let hello = eq→== _ _ x.peer_kind in
    let fine : (x.peer.kind == 1) ≡ false = ground (arith, x.peer_kind) in
    let chosen =
      ap (λ v. negotiate_version v x.peer) (e ∙ x.versions)
      ∙ negotiate_version-offered (x.first ∷ x.ours) x.peer
          (marshal_message-version x.peer x.peer_bytes x.peer_marshalled)
      ∙ x.agreed in
    rw (fine, hello) chosen

check_features-ok :
    (reply : Message) → reply.kind ≡ 6 → 24 ≤ length reply.body → check_features reply ≡ ok tt
unfolding parse_features
check_features-ok reply k l =
    let fine : (reply.kind == 1) ≡ false = ground (arith, k) in
    let features = eq→== _ _ k in let full = le→ltb _ _ l in rw (fine, features, full) refl

next_id-some :
    (s : Session) (xid : ℕ)
    → s.next_xid ≡ some xid
    → next_id s ≡ (record s { next_xid = some ((xid + 1) % 2 ^ 32) }, (xid + 1) % 2 ^ 32)
unfolding next_id
next_id-some s xid h = ap (counted s) h

-- The session behind a request for features that was answered.
abbrev pub answered : (s : Session) (xid : ℕ) → Exchange s xid → Session
answered s xid x = record s {
  incoming = x.rest;
  written = (s.written ++ x.mine_bytes) ++ x.request_bytes;
  version = x.selected;
  next_xid = some (((xid + 1) % 2 ^ 32 + 1) % 2 ^ 32);
}

-- The session behind the hello of the switch.
abbrev greeted : (s : Session) (xid : ℕ) → Exchange s xid → Session
greeted s xid x = record s {
  incoming = x.reply_bytes ++ x.rest;
  written = s.written ++ x.mine_bytes;
  next_xid = some ((xid + 1) % 2 ^ 32);
}

ask_features-ok :
    (s : Session) (xid : ℕ) (x : Exchange s xid)
    → ask_features (greeted s xid x) x.selected ≡ (answered s xid x, ok tt)
unfolding next_id
ask_features-ok s xid x =
    let asking : Session = record (greeted s xid x) {
      version = x.selected;
      next_xid = some (((xid + 1) % 2 ^ 32 + 1) % 2 ^ 32);
    } in
    let asked : Session = record asking { written = asking.written ++ x.request_bytes } in
    then-ok _ _ (answered s xid x) x.reply _
      (then-ok _ _ asked tt _
        (ap (send asking) x.request_ok
          ∙ write-ok asking x.request x.request_bytes x.request_marshalled)
        (read-ok asked x.reply x.reply_bytes x.rest x.reply_xid x.reply_marshalled refl))
      (ap (λ r. (answered s xid x, r)) (check_features-ok x.reply x.reply_kind x.reply_full))

-- A handshake of a session with known versions, with a switch that sends a hello which offers one of
-- them, and then a reply to the request for features with a full body, succeeds: the session has the
-- newest common version, the hello and the request are written in this order with the next two
-- transaction ids, and what the switch sends behind its reply is left to be read. The hello is any
-- message of that type with version 1.3 or 1.5 in its header: it offers the versions 1.3 and 1.5
-- that are read from its bitmaps, or the version of its header if none is.
pub handshake-answered :
    (s : Session) (xid : ℕ) (x : Exchange s xid) → handshake s ≡ (answered s xid x, ok tt)
unfolding handshake
handshake-answered s xid x =
    let started : Session = record s { next_xid = some ((xid + 1) % 2 ^ 32) } in
    let said : Session = record started { written = s.written ++ x.mine_bytes } in
    let greeting = greeted s xid x in
    let from = λ (n : Session × ℕ).
      send n.0 (hello_message (highest_version s.versions) n.1 n.0.versions)
      >>> (λ s u. read s)
      >>> (λ s peer. (s, select_version s peer))
      >>> (λ s selected. ask_features s selected) in
    let mine : hello_message (highest_version s.versions) ((xid + 1) % 2 ^ 32) s.versions
        ≡ ok x.mine =
      ap (λ v. hello_message (highest_version v) ((xid + 1) % 2 ^ 32) v) x.versions ∙ x.mine_ok in
    ap from (next_id-some s xid x.counter)
    ∙ then-ok _ _ greeting x.selected _
        (then-ok _ _ greeting x.peer _
          (then-ok _ _ said tt _
            (ap (send started) mine ∙ write-ok started x.mine x.mine_bytes x.mine_marshalled)
            (read-ok said x.peer x.peer_bytes (x.reply_bytes ++ x.rest) x.peer_xid x.peer_marshalled
              x.incoming))
          (ap (λ r. (greeting, r)) (select_version-ok s xid x greeting refl)))
        (ask_features-ok s xid x)
