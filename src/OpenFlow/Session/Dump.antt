-- ===== src/OpenFlow/Session/Dump.antt =====
-- openflow_client.go: the rounds of the loop of `DumpFlows`.
use ovnflow.Base.{ℕ, zero, suc, ◌-◌, ◌%◌, ◌<◌, ◌≡◌, refl, ap, inl, inr, List, [], ◌∷◌, ◌++◌, arith}
use ovnflow.Base.{length, length-drop, take, drop, ltb, ◌==◌, Bool-cases, if◌then◌else◌}
use ovnflow.Errors.{Result, ok, err}
use ovnflow.OpenFlow.Bytes.{Bytes, get16}
use ovnflow.OpenFlow.Message.{
  Message, ReadResult, message, failed, end_of_input, read_message, read_result, parse_message,
}
use ovnflow.OpenFlow.Session.{Session, Ran, ◌>>>◌, read, read_from, reply_flags, dump_loop}

read_result-rest :
    (r : Result Message) (rest left : Bytes) (m : Message)
    → read_result r rest ≡ message m left
    → rest ≡ left
read_result-rest (ok n) rest left m h = cc
read_result-rest (err e) rest left m h = cc

-- A message that is read takes eight bytes at least.
read_message-shorter :
    (stream rest : Bytes) (m : Message)
    → read_message stream ≡ message m rest
    → length rest < length stream
unfolding read_message
read_message-shorter [] rest m h = cc
read_message-shorter (a ∷ []) rest m h = cc
read_message-shorter (a ∷ b ∷ []) rest m h = cc
read_message-shorter (a ∷ b ∷ c ∷ []) rest m h = cc
read_message-shorter (a ∷ b ∷ c ∷ d ∷ []) rest m h = cc
read_message-shorter (a ∷ b ∷ c ∷ d ∷ e ∷ []) rest m h = cc
read_message-shorter (a ∷ b ∷ c ∷ d ∷ e ∷ f ∷ []) rest m h = cc
read_message-shorter (a ∷ b ∷ c ∷ d ∷ e ∷ f ∷ g ∷ []) rest m h = cc
read_message-shorter (a ∷ b ∷ c ∷ d ∷ e ∷ f ∷ g ∷ i ∷ more) rest m h =
    elim (Bool-cases (ltb (get16 c d) 8)) [
      | inl short ↦ let h' = rw short at h in cc
      | inr long ↦ elim (Bool-cases (ltb (length more) (get16 c d - 8))) [
        | inl missing ↦ let h' = rw (long, missing) at h in cc
        | inr whole ↦
            let h' = rw (long, whole) at h in
            let left =
              read_result-rest
                (parse_message (a ∷ b ∷ c ∷ d ∷ e ∷ f ∷ g ∷ i ∷ take (get16 c d - 8) more))
                (drop (get16 c d - 8) more) rest m h' in
            omega (arith, length-drop (get16 c d - 8) more, ap length left)
      ]
    ]

read_from-shorter :
    (s t : Session) (r : ReadResult) (m : Message)
    → read_message s.incoming ≡ r
    → read_from s r ≡ (t, ok m)
    → length t.incoming < length s.incoming
read_from-shorter s t (message n rest) m q h =
    let shorter = read_message-shorter s.incoming rest n q in
    let left : rest ≡ t.incoming = ap (λ (p : Ran Message). p.0.incoming) h in
    omega (arith, shorter, ap length left)
read_from-shorter s t (failed e) m q h = cc
read_from-shorter s t end_of_input m q h = cc

-- What a round of the loop does with a reply.
abbrev with_reply : ℕ → List Message → Session → Message → Ran (List Message)
with_reply rounds out s reply = (s, reply_flags reply) >>> (λ s flags.
    if flags % 2 == 0
    then (s, ok (out ++ (reply ∷ [])))
    else dump_loop rounds (out ++ (reply ∷ [])) s)

-- With more rounds than bytes to come, the number of rounds does not matter.
pub dump_loop_enough :
    (a b : ℕ) (out : List Message) (s : Session)
    → length s.incoming < a
    → length s.incoming < b
    → dump_loop a out s ≡ dump_loop b out s
unfolding dump_loop read
dump_loop_enough zero b out s h k = absurd (omega arith)
dump_loop_enough (suc a) zero out s h k = absurd (omega arith)
dump_loop_enough (suc a) (suc b) out s h k =
    after_read a b out s (read_from s (read_message s.incoming)) refl (λ t reply q.
      let shorter = read_from-shorter s t (read_message s.incoming) reply refl q in
      dump_loop_enough a b (out ++ (reply ∷ [])) t (omega (arith, shorter))
        (omega (arith, shorter)))
  where
    after_reply :
        (a b : ℕ) (out : List Message) (t : Session) (reply : Message) (flags : Result ℕ)
        → dump_loop a (out ++ (reply ∷ [])) t ≡ dump_loop b (out ++ (reply ∷ [])) t
        → ((t, flags) >>> (λ s flags.
            if flags % 2 == 0
            then (s, ok (out ++ (reply ∷ [])))
            else dump_loop a (out ++ (reply ∷ [])) s))
          ≡ ((t, flags) >>> (λ s flags.
              if flags % 2 == 0
              then (s, ok (out ++ (reply ∷ [])))
              else dump_loop b (out ++ (reply ∷ [])) s))
    after_reply a b out t reply (err e) same = refl
    after_reply a b out t reply (ok flags) same =
        ap (λ more. if flags % 2 == 0 then (t, ok (out ++ (reply ∷ []))) else more) same

    after_read :
        (a b : ℕ) (out : List Message) (s : Session) (r : Ran Message)
        → read_from s (read_message s.incoming) ≡ r
        → ((t : Session) (reply : Message)
            → read_from s (read_message s.incoming) ≡ (t, ok reply)
            → dump_loop a (out ++ (reply ∷ [])) t ≡ dump_loop b (out ++ (reply ∷ [])) t)
        → (r >>> with_reply a out) ≡ (r >>> with_reply b out)
    after_read a b out s (t, err e) q same = refl
    after_read a b out s (t, ok reply) q same =
        after_reply a b out t reply (reply_flags reply) (same t reply q)
