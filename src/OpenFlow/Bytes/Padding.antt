-- ===== src/OpenFlow/Bytes/Padding.antt =====
-- `padTo` and `alignOpenFlowLength` of openflow_protocol.go.
use ovnflow.Base.{ℕ, zero, suc, ◌+◌, ◌-◌, ◌%◌, ◌≤◌, ◌<◌, ◌≡◌, ◌∙◌, sym, arith}
use ovnflow.Base.{
  inl, inr, [], ◌∷◌, ◌++◌, append_assoc, append-nil, length, length-append, replicate,
}
use ovnflow.Base.{◌==◌, ==→eq, Bool-cases}
use ovnflow.OpenFlow.Bytes.{Bytes, align_length, pad_loop, pad_to}

-- The loop writes zero bytes behind the buffer.
pad_loop-zeros :
    (rounds alignment : ℕ) (buf : Bytes)
    → (n : ℕ) × (pad_loop rounds alignment buf ≡ buf ++ replicate n 0)
unfolding pad_loop
pad_loop-zeros zero alignment buf = (0, sym (append-nil buf))
pad_loop-zeros (suc rounds) alignment buf = elim (Bool-cases (length buf % alignment == 0)) [
  | inl done ↦ (0, rw done (sym (append-nil buf)))
  | inr short ↦
      let (n, e) = pad_loop-zeros rounds alignment (buf ++ (0 ∷ [])) in
      (suc n, rw short (e ∙ append_assoc buf (0 ∷ []) (replicate n 0)))
]

pub pad_to-zeros :
    (buf : Bytes) (alignment : ℕ) → (n : ℕ) × (pad_to buf alignment ≡ buf ++ replicate n 0)
unfolding pad_to
pad_to-zeros buf alignment = pad_loop-zeros alignment alignment buf

-- The loop stops at the next multiple of eight, `k` bytes on.
pad_loop-length :
    (rounds k : ℕ) (buf : Bytes)
    → k ≤ rounds
    → k < 8
    → (length buf + k) % 8 ≡ 0
    → length (pad_loop rounds 8 buf) ≡ length buf + k
unfolding pad_loop
pad_loop-length zero k buf h l e = omega arith
pad_loop-length (suc rounds) k buf h l e = elim (Bool-cases (length buf % 8 == 0)) [
  | inl done ↦ rw done (omega (arith, ==→eq _ _ done))
  | inr short ↦
      let len = length-append buf (0 ∷ []) in
      let open_ended : 1 ≤ k = ground arith in
      let more =
        pad_loop-length rounds (k - 1) (buf ++ (0 ∷ [])) (omega arith) (omega arith)
          (omega (arith, len)) in
      rw short (omega (arith, more, len))
]

-- `padTo` makes the length what `alignOpenFlowLength` says.
pub length-pad_to : (buf : Bytes) → length (pad_to buf 8) ≡ align_length (length buf) 8
unfolding pad_to align_length
length-pad_to buf = elim (Bool-cases (length buf % 8 == 0)) [
  | inl done ↦
      let aligned = ==→eq _ _ done in
      rw done (omega (arith, pad_loop-length 8 0 buf (omega arith) (omega arith) (omega arith)))
  | inr short ↦
      let open_ended : 1 ≤ length buf % 8 = ground arith in
      rw short
        (pad_loop-length 8 (8 - length buf % 8) buf (omega arith) (omega arith) (omega arith))
]

pub align_length-aligned : (n : ℕ) → align_length n 8 % 8 ≡ 0
unfolding align_length
align_length-aligned n = ground arith

pub align_length-le : (n : ℕ) → n ≤ align_length n 8
unfolding align_length
align_length-le n = ground arith
