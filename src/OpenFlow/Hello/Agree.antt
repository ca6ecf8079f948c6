-- ===== src/OpenFlow/Hello/Agree.antt =====
-- openflow_client.go: two sides that send each other a hello choose the same version.
use ovnflow.Base.{ℕ, ◌≡◌, refl, ap, ◌∙◌, sym, Bool, true, false, ◌&&◌, ◌||◌, List, [], ◌∷◌}
use ovnflow.Base.{◌==◌, ◌++◌, length, arith, Bool-cases, inl, inr}
use ovnflow.Errors.{ok, bind-ok, >>-ok, ok_injective}
use ovnflow.OpenFlow.Bytes.{Bytes, be16, be32}
use ovnflow.OpenFlow.Message.{
  Message, openflow_13, openflow_15, is_version, validate_version, hello_bitmap, hello_message,
}
use ovnflow.OpenFlow.Message.Versions.{has, bits, hello_bitmap-bits, validate_version-ok}
use ovnflow.OpenFlow.Hello.Common.{newest, offered, negotiate_version-offered}
use ovnflow.OpenFlow.Hello.{
  bit_versions, bitmap_versions, hello_elements, parse_hello_versions, or_peer, negotiate_version,
}

-- The versions of a bitmap, in the order of its bits.
abbrev versions_of : Bool → Bool → List ℕ
versions_of true true = 4 ∷ 6 ∷ []
versions_of true false = 4 ∷ []
versions_of false true = 6 ∷ []
versions_of false false = []

bitmap_body : Bool → Bool → Bytes
bitmap_body a b = be16 1 ++ (be16 8 ++ be32 (bits a b))

hello_elements-bits :
    (a b : Bool) → hello_elements (length (bitmap_body a b)) [] (bitmap_body a b) ≡ versions_of a b
unfolding hello_elements bitmap_versions bit_versions bitmap_body
hello_elements-bits true true = refl
hello_elements-bits true false = refl
hello_elements-bits false true = refl
hello_elements-bits false false = refl

or_true : (a : Bool) → (a || true) ≡ true
or_true true = refl
or_true false = refl

names_one :
    (first : ℕ) (versions : List ℕ) (bitmap : ℕ)
    → hello_bitmap 0 (first ∷ versions) ≡ ok bitmap
    → (has 4 (first ∷ versions) || has 6 (first ∷ versions)) ≡ true
unfolding hello_bitmap
names_one first versions bitmap h =
    let known = validate_version-ok first (>>-ok (validate_version first) _ h).0 in
    elim (Bool-cases (first == 4)) [
      | inl e ↦ rw e refl
      | inr e ↦
          let e' : (first == 6) ≡ true = ground (arith, known, e) in
          rw (e, e') (or_true (has 4 versions))
    ]

-- What the body of a hello is, and that it names a version.
hello_message-body :
    (version xid first : ℕ) (versions : List ℕ) (msg : Message)
    → hello_message version xid (first ∷ versions) ≡ ok msg
    → (msg.body ≡ bitmap_body (has 4 (first ∷ versions)) (has 6 (first ∷ versions)))
      × ((has 4 (first ∷ versions) || has 6 (first ∷ versions)) ≡ true)
unfolding hello_message bitmap_body
hello_message-body version xid first versions msg h =
    let a = >>-ok (validate_version version) _ h in
    let b = bind-ok (hello_bitmap 0 (first ∷ versions)) _ a.1 in
    let bits = hello_bitmap-bits (first ∷ versions) b.0 b.1 in
    let body = ap (λ (m : Message). m.body) (sym (ok_injective b.2)) in
    (body ∙ ap (λ n. be16 1 ++ (be16 8 ++ be32 n)) bits, names_one first versions b.0 b.1)

hello_message-version :
    (version xid first : ℕ) (versions : List ℕ) (msg : Message)
    → hello_message version xid (first ∷ versions) ≡ ok msg
    → is_version msg.version ≡ true
unfolding hello_message
hello_message-version version xid first versions msg h =
    let a = >>-ok (validate_version version) _ h in
    let b = bind-ok (hello_bitmap 0 (first ∷ versions)) _ a.1 in
    let same = ap (λ (m : Message). m.version) (ok_injective b.2) in
    ap is_version (sym same) ∙ validate_version-ok version a.0

-- The versions of a bitmap that is not empty are those that it is made from.
has-versions_of :
    (version : ℕ) (c d : Bool)
    → (c || d) ≡ true
    → (has 4 (or_peer version (versions_of c d)) ≡ c)
      × (has 6 (or_peer version (versions_of c d)) ≡ d)
has-versions_of version true true h = (refl, refl)
has-versions_of version true false h = (refl, refl)
has-versions_of version false true h = (refl, refl)
has-versions_of version false false h = cc

negotiate_version-newest :
    (ours : List ℕ) (version xid first : ℕ) (theirs : List ℕ) (peer : Message)
    → hello_message version xid (first ∷ theirs) ≡ ok peer
    → negotiate_version ours peer
      ≡ newest (has 4 ours && has 4 (first ∷ theirs)) (has 6 ours && has 6 (first ∷ theirs))
unfolding parse_hello_versions
negotiate_version-newest ours version xid first theirs peer h =
    let (body, named) = hello_message-body version xid first theirs peer h in
    let parsed =
      ap (λ (b : Bytes). hello_elements (length b) [] b) body
      ∙ hello_elements-bits (has 4 (first ∷ theirs)) (has 6 (first ∷ theirs)) in
    let (has_13, has_15) = has-versions_of peer.version _ _ named in
    let offers = ap (or_peer peer.version) parsed in
    negotiate_version-offered ours peer (hello_message-version version xid first theirs peer h)
    ∙ ap (λ a. newest (has 4 ours && a) (has 6 ours && has 6 (offered peer)))
        (ap (has 4) offers ∙ has_13)
    ∙ ap (λ b. newest (has 4 ours && has 4 (first ∷ theirs)) (has 6 ours && b))
        (ap (has 6) offers ∙ has_15)

and_comm : (a b : Bool) → (a && b) ≡ (b && a)
and_comm true true = refl
and_comm true false = refl
and_comm false true = refl
and_comm false false = refl

-- When two sides send each other a hello with the versions that they support, at least one each,
-- both choose the same version, the newest of those that both support, and both fail with the
-- same error if there is none.
pub negotiate_version-agree :
    (version xid first : ℕ) (ours : List ℕ) (mine : Message)
    → (version' xid' first' : ℕ) (theirs : List ℕ) (peer : Message)
    → hello_message version xid (first ∷ ours) ≡ ok mine
    → hello_message version' xid' (first' ∷ theirs) ≡ ok peer
    → (negotiate_version (first ∷ ours) peer
        ≡ newest
            (has openflow_13 (first ∷ ours) && has openflow_13 (first' ∷ theirs))
            (has openflow_15 (first ∷ ours) && has openflow_15 (first' ∷ theirs)))
      × (negotiate_version (first' ∷ theirs) mine ≡ negotiate_version (first ∷ ours) peer)
negotiate_version-agree v x f ours mine v' x' f' theirs peer h k =
    let here = negotiate_version-newest (f ∷ ours) v' x' f' theirs peer k in
    let there = negotiate_version-newest (f' ∷ theirs) v x f ours mine h in
    let flip =
      ap (λ a. newest a (has 6 (f' ∷ theirs) && has 6 (f ∷ ours)))
        (and_comm (has 4 (f' ∷ theirs)) (has 4 (f ∷ ours)))
      ∙ ap (newest (has 4 (f ∷ ours) && has 4 (f' ∷ theirs)))
          (and_comm (has 6 (f' ∷ theirs)) (has 6 (f ∷ ours))) in
    (here, there ∙ flip ∙ sym here)
