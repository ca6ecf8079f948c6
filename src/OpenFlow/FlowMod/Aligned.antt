-- ===== src/OpenFlow/FlowMod/Aligned.antt =====
-- openflow_protocol.go: matches and instructions fill whole groups of eight bytes, and so do the
-- messages that hold them.
use ovnflow.Base.{ℕ, ◌+◌, ◌-◌, ◌%◌, ◌≤◌, ◌≡◌, refl, ap, subst, arith}
use ovnflow.Base.{
  inl, inr, Bool, true, false, Option, none, some, List, [], ◌∷◌, ◌++◌, length, length-append,
  length-replicate,
}
use ovnflow.Base.{Bool-cases, if◌then◌else◌}
use ovnflow.Text.{codes, text_eq}
use ovnflow.Errors.{ok, bind-ok, >>-ok, ok_injective}
use ovnflow.OpenFlow.Bytes.{Bytes, be16, align_length, pad_to}
use ovnflow.OpenFlow.Bytes.Padding.{length-pad_to, align_length-aligned, align_length-le}
use ovnflow.OpenFlow.Message.{Message, validate_version}
use ovnflow.OpenFlow.Match.{Match, Metadata, marshal_match, framed_match, marshal_fields}
use ovnflow.OpenFlow.FlowMod.{
  Action, Instruction, Flow, zeros, set_field_action, output_action, marshal_set_field,
  marshal_action, marshal_actions, applied_actions, metadata_or_actions, goto_or_rest,
  marshal_instruction, pads, instruction_loop, all_instructions, marshal_instructions,
  flow_mod_head, marshal_flow_mod,
}

-- Whole groups of eight bytes.
pub IsAligned : Bytes → Type 0
IsAligned bytes = length bytes % 8 ≡ 0

IsAligned-append : (a b : Bytes) → IsAligned a → IsAligned b → IsAligned (a ++ b)
unfolding IsAligned
IsAligned-append a b p q = omega (arith, p, q, length-append a b)

pad_to-IsAligned : (bytes : Bytes) → IsAligned (pad_to bytes 8)
unfolding IsAligned
pad_to-IsAligned bytes = omega (arith, length-pad_to bytes, align_length-aligned (length bytes))

pub marshal_match-IsAligned :
    (m : Match) (bytes : Bytes) → marshal_match m ≡ ok bytes → IsAligned bytes
unfolding marshal_match framed_match
marshal_match-IsAligned m bytes h =
    let fields = bind-ok (marshal_fields m) _ h in
    subst IsAligned (ok_injective fields.2) (pad_to-IsAligned _)

-- A `set_field` action is as long as its length says, padding included.
set_field_action-IsAligned : (field : Bytes) → IsAligned (set_field_action field)
unfolding IsAligned
set_field_action-IsAligned field =
    let no_byte : ℕ = 0 in
    let padding = align_length (4 + length field) 8 - 4 - length field in
    omega (
      arith,
      align_length-aligned (4 + length field),
      align_length-le (4 + length field),
      length-append field (zeros padding),
      length-replicate padding no_byte,
    )

output_action-IsAligned : (port : ℕ) → IsAligned (output_action port)
unfolding IsAligned
output_action-IsAligned port = refl

marshal_action-IsAligned :
    (a : Action) (bytes : Bytes) → marshal_action a ≡ ok bytes → IsAligned bytes
unfolding marshal_action
marshal_action-IsAligned a bytes h = elim (Bool-cases (text_eq a.kind (codes "output"))) [
  | inl q ↦ let h' = rw q at h in subst IsAligned (ok_injective h') (output_action-IsAligned a.port)
  | inr q ↦ elim (Bool-cases (text_eq a.kind (codes "set_field"))) [
    | inl k ↦
        let h' = rw (q, k) at h in
        let field = bind-ok (marshal_set_field a.field a.value) _ h' in
        subst IsAligned (ok_injective field.2) (set_field_action-IsAligned field.0)
    | inr k ↦ let h' = rw (q, k) at h in cc
  ]
]

marshal_actions-IsAligned :
    (actions : List Action) (bytes : Bytes) → marshal_actions actions ≡ ok bytes → IsAligned bytes
unfolding marshal_actions
marshal_actions-IsAligned [] bytes h = subst IsAligned (ok_injective h) (unfold IsAligned in refl)
marshal_actions-IsAligned (a ∷ actions) bytes h =
    let first = bind-ok (marshal_action a) _ h in
    let rest = bind-ok (marshal_actions actions) _ first.2 in
    subst IsAligned (ok_injective rest.2) (
      IsAligned-append first.0 rest.0 (marshal_action-IsAligned a first.0 first.1)
        (marshal_actions-IsAligned actions rest.0 rest.1))

applied_actions-IsAligned :
    (actions : List Action) (bytes : Bytes) → applied_actions actions ≡ ok bytes → IsAligned bytes
unfolding IsAligned
applied_actions-IsAligned [] bytes h = subst IsAligned (ok_injective h) refl
applied_actions-IsAligned (a ∷ actions) bytes h =
    let written = bind-ok (marshal_actions (a ∷ actions)) _ h in
    let aligned = marshal_actions-IsAligned (a ∷ actions) written.0 written.1 in
    subst IsAligned (ok_injective written.2) (omega (arith, aligned))

metadata_or_actions-IsAligned :
    (o : Option Metadata) (actions : List Action) (bytes : Bytes)
    → metadata_or_actions o actions ≡ ok bytes
    → IsAligned bytes
metadata_or_actions-IsAligned none actions bytes h = applied_actions-IsAligned actions bytes h
metadata_or_actions-IsAligned (some m) actions bytes h =
    subst IsAligned (ok_injective h) (unfold IsAligned in refl)

goto_or_rest-IsAligned :
    (o : Option ℕ) (i : Instruction) (bytes : Bytes) → goto_or_rest o i ≡ ok bytes → IsAligned bytes
goto_or_rest-IsAligned (some table) i bytes h =
    subst IsAligned (ok_injective h) (unfold IsAligned in refl)
goto_or_rest-IsAligned none i bytes h = elim (Bool-cases i.clear_actions) [
  | inl q ↦ let h' = rw q at h in subst IsAligned (ok_injective h') (unfold IsAligned in refl)
  | inr q ↦ let h' = rw q at h in metadata_or_actions-IsAligned i.write_metadata i.actions bytes h'
]

marshal_instruction-IsAligned :
    (i : Instruction) (bytes : Bytes) → marshal_instruction i ≡ ok bytes → IsAligned bytes
unfolding marshal_instruction
marshal_instruction-IsAligned i bytes h = goto_or_rest-IsAligned i.goto_table i bytes h

padded-IsAligned :
    (c : Bool) (bytes : Bytes) → IsAligned bytes → IsAligned (if c then pad_to bytes 8 else bytes)
padded-IsAligned true bytes h = pad_to-IsAligned bytes
padded-IsAligned false bytes h = h

instruction_loop-IsAligned :
    (instructions : List Instruction) (out bytes : Bytes)
    → IsAligned out
    → instruction_loop out instructions ≡ ok bytes
    → IsAligned bytes
unfolding instruction_loop
instruction_loop-IsAligned [] out bytes a h = subst IsAligned (ok_injective h) a
instruction_loop-IsAligned (i ∷ instructions) out bytes a h =
    let written = bind-ok (marshal_instruction i) _ h in
    let both =
      IsAligned-append out written.0 a (marshal_instruction-IsAligned i written.0 written.1) in
    instruction_loop-IsAligned instructions _ bytes (padded-IsAligned (pads i) _ both) written.2

marshal_instructions-IsAligned :
    (flow : Flow) (bytes : Bytes) → marshal_instructions flow ≡ ok bytes → IsAligned bytes
unfolding marshal_instructions
marshal_instructions-IsAligned flow bytes h =
    let empty : IsAligned [] = unfold IsAligned in refl in
    instruction_loop-IsAligned (all_instructions flow) [] bytes empty h

-- A match is a type and a length at least.
marshal_match-long : (m : Match) (bytes : Bytes) → marshal_match m ≡ ok bytes → 4 ≤ length bytes
unfolding marshal_match framed_match
marshal_match-long m bytes h =
    let fields = bind-ok (marshal_fields m) _ h in
    let short = be16 1 ++ (be16 (4 + length fields.0) ++ fields.0) in
    let padded = align_length-le (length short) in
    omega (arith, padded, length-pad_to short, ap length (ok_injective fields.2))

-- A head of whole groups of eight bytes in front of a match and more.
body-IsAligned :
    (head match rest : Bytes)
    → IsAligned head
    → IsAligned match
    → 4 ≤ length match
    → IsAligned rest
    → IsAligned (head ++ (match ++ rest)) × (length head + 8 ≤ length (head ++ (match ++ rest)))
unfolding IsAligned
body-IsAligned head match rest h m l r =
    let inner = length-append match rest in
    let outer = length-append head (match ++ rest) in
    (omega (arith, h, m, r, inner, outer), omega (arith, m, l, inner, outer))

-- The body of a flow modification that was marshalled fills whole groups of eight bytes, and has
-- at least the 40 bytes in front of the match and 8 bytes of match.
pub marshal_flow_mod-IsAligned :
    (version xid command : ℕ) (flow : Flow) (msg : Message)
    → marshal_flow_mod version xid command flow ≡ ok msg
    → IsAligned msg.body × (48 ≤ length msg.body)
unfolding marshal_flow_mod flow_mod_head
marshal_flow_mod-IsAligned version xid command flow msg h =
    let checked = >>-ok (validate_version version) _ h in
    let match = bind-ok (marshal_match flow.match) _ checked.1 in
    let written = bind-ok (marshal_instructions flow) _ match.2 in
    let body =
      body-IsAligned (flow_mod_head version command flow) match.0 written.0
        (unfold IsAligned in refl) (marshal_match-IsAligned flow.match match.0 match.1)
        (marshal_match-long flow.match match.0 match.1)
        (marshal_instructions-IsAligned flow written.0 written.1) in
    subst (λ (m : Message). IsAligned m.body × (48 ≤ length m.body)) (ok_injective written.2) body
