-- ===== src/OpenFlow/Hello/Common.antt =====
-- openflow_client.go: the version that is chosen among any versions of a peer.
use ovnflow.Base.{ℕ, ◌≡◌, refl, ap, ◌∙◌, Bool, true, false, ◌&&◌, ◌||◌, List, [], ◌∷◌}
use ovnflow.Base.{
  ◌++◌, ◌==◌, length, arith, All, All-append, Bool-cases, inl, inr, ltb, leb, suc, zero, take, drop,
}
use ovnflow.Base.{if◌then◌else◌, ◌+◌, ◌-◌, ◌^◌}
use ovnflow.Errors.{Result, ok, err}
use ovnflow.OpenFlow.Bytes.{Bytes, get16, get32}
use ovnflow.OpenFlow.Message.{
  Message, openflow_13, openflow_15, is_version, highest_version, highest_from,
}
use ovnflow.OpenFlow.Message.Versions.{has}
use ovnflow.OpenFlow.Hello.{
  bit_versions, bitmap_versions, hello_elements, parse_hello_versions, or_peer, common_versions,
  no_common_version, highest_common, negotiate_version,
}
use Prim.Native.Nat.{bit_and}

-- The newest of the versions that both sides have.
abbrev pub newest : Bool → Bool → Result ℕ
newest has_13 true = ok openflow_15
newest true false = ok openflow_13
newest false false = err no_common_version

abbrev IsKnown : ℕ → Type 0
IsKnown v = is_version v ≡ true

-- A side has a common version if both have it.
has-common_versions :
    (ours theirs : List ℕ) (v : ℕ)
    → has v (common_versions ours theirs) ≡ (has v ours && has v theirs)
unfolding common_versions
has-common_versions ours [] v = ground arith
has-common_versions ours (w ∷ theirs) v =
    let ih = has-common_versions ours theirs v in
    elim (Bool-cases (w == v)) [
      | inl e ↦ let same : w ≡ v = ground (arith, e) in rw (e, same) (ground (arith, ih))
      | inr e ↦ ground (arith, e, ih)
    ]

common_versions-IsKnown :
    (ours theirs : List ℕ) → All IsKnown theirs → All IsKnown (common_versions ours theirs)
unfolding common_versions
common_versions-IsKnown ours [] h = tt
common_versions-IsKnown ours (v ∷ theirs) h = elim (Bool-cases (has v ours)) [
  | inl e ↦ rw e (h.0, common_versions-IsKnown ours theirs h.1)
  | inr e ↦ rw e (common_versions-IsKnown ours theirs h.1)
]

highest_from-15 : (versions : List ℕ) → All IsKnown versions → highest_from 6 versions ≡ 6
unfolding highest_from
highest_from-15 [] h = refl
highest_from-15 (v ∷ versions) h = elim (Bool-cases (v == 4)) [
  | inl e ↦ let same : v ≡ 4 = ground (arith, e) in rw same (highest_from-15 versions h.1)
  | inr e ↦ let same : v ≡ 6 = ground (arith, e, h.0) in rw same (highest_from-15 versions h.1)
]

highest_from-13 :
    (versions : List ℕ)
    → All IsKnown versions
    → highest_from 4 versions ≡ (if has 6 versions then 6 else 4)
unfolding highest_from
highest_from-13 [] h = refl
highest_from-13 (v ∷ versions) h = elim (Bool-cases (v == 4)) [
  | inl e ↦ let same : v ≡ 4 = ground (arith, e) in rw same (highest_from-13 versions h.1)
  | inr e ↦ let same : v ≡ 6 = ground (arith, e, h.0) in rw same (highest_from-15 versions h.1)
]

highest_common-newest :
    (common : List ℕ)
    → All IsKnown common
    → highest_common common ≡ newest (has 4 common) (has 6 common)
unfolding highest_version
highest_common-newest [] h = refl
highest_common-newest (v ∷ common) h = elim (Bool-cases (v == 4)) [
  | inl e ↦
      let same : v ≡ 4 = ground (arith, e) in
      let chosen = highest_from-13 common h.1 in
      elim (Bool-cases (has 6 common)) [
        | inl f ↦ rw (same, f) (rw (chosen, f) refl)
        | inr f ↦ rw (same, f) (rw (chosen, f) refl)
      ]
  | inr e ↦
      let same : v ≡ 6 = ground (arith, e, h.0) in rw same (rw (highest_from-15 common h.1) refl)
]

bit_versions-IsKnown : (rounds bit bitmap : ℕ) → All IsKnown (bit_versions rounds bit bitmap)
unfolding bit_versions
bit_versions-IsKnown zero bit bitmap = tt
bit_versions-IsKnown (suc rounds) bit bitmap =
    let rest = bit_versions-IsKnown rounds (bit + 1) bitmap in
    elim (Bool-cases (bit_and bitmap (2 ^ bit) == 0)) [
      | inl e ↦ rw e rest
      | inr e ↦ elim (Bool-cases (is_version bit)) [
        | inl f ↦ rw (e, f) (f, rest)
        | inr f ↦ rw (e, f) rest
      ]
    ]

bitmap_versions-IsKnown : (bytes : Bytes) → All IsKnown (bitmap_versions bytes)
unfolding bitmap_versions
bitmap_versions-IsKnown [] = tt
bitmap_versions-IsKnown (a ∷ []) = tt
bitmap_versions-IsKnown (a ∷ b ∷ []) = tt
bitmap_versions-IsKnown (a ∷ b ∷ c ∷ []) = tt
bitmap_versions-IsKnown (a ∷ b ∷ c ∷ d ∷ rest) =
    All-append IsKnown (bit_versions 32 0 (get32 a b c d)) (bitmap_versions rest)
      (bit_versions-IsKnown 32 0 (get32 a b c d)) (bitmap_versions-IsKnown rest)

hello_elements-IsKnown :
    (rounds : ℕ) (out : List ℕ) (body : Bytes)
    → All IsKnown out
    → All IsKnown (hello_elements rounds out body)
unfolding hello_elements
hello_elements-IsKnown zero out body h = h
hello_elements-IsKnown (suc rounds) out [] h = h
hello_elements-IsKnown (suc rounds) out (a ∷ []) h = h
hello_elements-IsKnown (suc rounds) out (a ∷ b ∷ []) h = h
hello_elements-IsKnown (suc rounds) out (a ∷ b ∷ c ∷ []) h = h
hello_elements-IsKnown (suc rounds) out (a ∷ b ∷ c ∷ d ∷ rest) h =
    let size = get16 c d in
    let bits = bitmap_versions (take (size - 4) rest) in
    elim (Bool-cases (ltb size 4 || ltb (4 + length rest) size)) [
      | inl e ↦ rw e tt
      | inr e ↦ elim (Bool-cases (get16 a b == 1 && leb 8 size)) [
        | inl f ↦
            rw (e, f)
              (hello_elements-IsKnown rounds (out ++ bits) (drop (size - 4) rest)
                (All-append IsKnown out bits h (bitmap_versions-IsKnown (take (size - 4) rest))))
        | inr f ↦
            rw (e, f)
              (hello_elements-IsKnown rounds (out ++ []) (drop (size - 4) rest)
                (All-append IsKnown out [] h tt))
      ]
    ]

-- The versions that a hello offers: those of its bitmaps that the protocol code knows, or that of
-- its header if it has none.
abbrev pub offered : Message → List ℕ
offered peer = or_peer peer.version (parse_hello_versions peer)

or_peer-IsKnown :
    (version : ℕ) (versions : List ℕ)
    → IsKnown version
    → All IsKnown versions
    → All IsKnown (or_peer version versions)
or_peer-IsKnown version [] h k = (h, tt)
or_peer-IsKnown version (v ∷ versions) h k = k

-- Of any hello with a known version in its header, the newest version in common is chosen.
pub negotiate_version-offered :
    (ours : List ℕ) (peer : Message)
    → is_version peer.version ≡ true
    → negotiate_version ours peer
      ≡ newest
          (has openflow_13 ours && has openflow_13 (offered peer))
          (has openflow_15 ours && has openflow_15 (offered peer))
unfolding negotiate_version parse_hello_versions
negotiate_version-offered ours peer h =
    let theirs = offered peer in
    let known =
      or_peer-IsKnown peer.version (parse_hello_versions peer) h
        (hello_elements-IsKnown (length peer.body) [] peer.body tt) in
    highest_common-newest (common_versions ours theirs) (common_versions-IsKnown ours theirs known)
    ∙ ap (λ a. newest a (has 6 (common_versions ours theirs))) (has-common_versions ours theirs 4)
    ∙ ap (newest (has 4 ours && has 4 theirs)) (has-common_versions ours theirs 6)
