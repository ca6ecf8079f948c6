-- ===== src/OpenFlow/Bytes.antt =====
-- encoding/binary: big-endian integers, and the padding of openflow_protocol.go.
pub mod Padding
use ovnflow.Base.{ℕ, zero, suc, ◌+◌, ◌-◌, ◌*◌, ◌/◌, ◌%◌, ◌^◌}
use ovnflow.Base.{List, [], ◌∷◌, ◌++◌, length, ◌==◌, if◌then◌else◌}

abbrev pub Bytes : Type 0
Bytes = List ℕ

-- `PutUint16`, `PutUint32` and `PutUint64`, or `writeBE` of such a value.
abbrev pub be16 : ℕ → Bytes
be16 v = (v / 256 % 256) ∷ (v % 256) ∷ []

abbrev pub be32 : ℕ → Bytes
be32 v = (v / 2 ^ 24 % 256) ∷ (v / 2 ^ 16 % 256) ∷ (v / 256 % 256) ∷ (v % 256) ∷ []

abbrev pub be64 : ℕ → Bytes
be64 v = be32 (v / 2 ^ 32 % 2 ^ 32) ++ be32 (v % 2 ^ 32)

-- `Uint16`, `Uint32` and `Uint64` of the bytes at hand.
abbrev pub get16 : ℕ → ℕ → ℕ
get16 a b = a * 256 + b

abbrev pub get32 : ℕ → ℕ → ℕ → ℕ → ℕ
get32 a b c d = ((a * 256 + b) * 256 + c) * 256 + d

-- A byte slice as one number; of four bytes it is their `Uint32`, of eight their `Uint64`.
abbrev pub get_be : Bytes → ℕ → ℕ
get_be [] acc = acc
get_be (b ∷ r) acc = get_be r (acc * 256 + b)

-- `alignOpenFlowLength`.
unfoldable pub align_length : ℕ → ℕ → ℕ
align_length length zero = length
align_length length (suc a) =
    let remainder = length % suc a in
    if remainder == 0 then length else length + (suc a - remainder)

-- The loop of `padTo`: at most `alignment` rounds, one zero byte each.
unfoldable pub pad_loop : ℕ → ℕ → Bytes → Bytes
pad_loop zero alignment buf = buf
pad_loop (suc rounds) alignment buf =
    let more = pad_loop rounds alignment (buf ++ (0 ∷ [])) in
    if length buf % alignment == 0 then buf else more

unfoldable pub pad_to : Bytes → ℕ → Bytes
pad_to buf alignment = pad_loop alignment alignment buf
