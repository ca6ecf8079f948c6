-- ===== src/OpenFlow/Hello.antt =====
-- openflow_client.go: the versions in a hello, and the choice of a version.
pub mod Common
pub mod Agree
pub mod Rounds
use ovnflow.Base.{ℕ, zero, suc, ◌+◌, ◌-◌, ◌^◌, Bool, true, false, ◌&&◌, ◌||◌, List, [], ◌∷◌, ◌++◌}
use ovnflow.Base.{any, length, take, drop, ltb, leb, ◌==◌, if◌then◌else◌}
use ovnflow.Errors.{unsupported, Error, wrap, Result, ok, err}
use ovnflow.OpenFlow.Bytes.{Bytes, get16, get32}
use ovnflow.OpenFlow.Message.{Message, openflow_13, openflow_15, highest_version}
use Prim.Native.Nat.{bit_and}

-- The loop over the bits of a bitmap, from `bit` on.
unfoldable pub bit_versions : ℕ → ℕ → ℕ → List ℕ
bit_versions zero bit bitmap = []
bit_versions (suc rounds) bit bitmap =
    let more = bit_versions rounds (bit + 1) bitmap in
    if bit_and bitmap (2 ^ bit) == 0
    then more
    else if bit == openflow_13 || bit == openflow_15
    then bit ∷ more
    else more

-- The bitmaps of an element.
unfoldable pub bitmap_versions : Bytes → List ℕ
unfolding bit_versions
bitmap_versions (a ∷ b ∷ c ∷ d ∷ rest) = bit_versions 32 0 (get32 a b c d) ++ bitmap_versions rest
bitmap_versions _ = []

-- The loop over the elements; `out` is what was found before.
unfoldable pub hello_elements : ℕ → List ℕ → Bytes → List ℕ
unfolding bitmap_versions
hello_elements (suc rounds) out (a ∷ b ∷ c ∷ d ∷ rest) =
    let size = get16 c d in
    let found =
      if get16 a b == 1 && leb 8 size then bitmap_versions (take (size - 4) rest) else [] in
    let more = hello_elements rounds (out ++ found) (drop (size - 4) rest) in
    if ltb size 4 || ltb (4 + length rest) size then [] else more
hello_elements rounds out body = out

-- An element has four bytes at least, so as many rounds as bytes are enough.
unfoldable pub parse_hello_versions : Message → List ℕ
parse_hello_versions msg = hello_elements (length msg.body) [] msg.body

-- The version of the peer's message stands in for a list that is not there.
abbrev pub or_peer : ℕ → List ℕ → List ℕ
or_peer version [] = version ∷ []
or_peer version (v ∷ versions) = v ∷ versions

unfoldable pub common_versions : List ℕ → List ℕ → List ℕ
common_versions ours [] = []
common_versions ours (v ∷ theirs) =
    let rest = common_versions ours theirs in if any (λ w. w == v) ours then v ∷ rest else rest

abbrev pub no_common_version : Error
no_common_version = wrap unsupported "" "handshake" [] "no common OpenFlow version" false

abbrev pub highest_common : List ℕ → Result ℕ
highest_common [] = err no_common_version
highest_common (v ∷ common) = ok (highest_version (v ∷ common))

unfoldable pub negotiate_version : List ℕ → Message → Result ℕ
negotiate_version ours peer =
    highest_common (common_versions ours (or_peer peer.version (parse_hello_versions peer)))
