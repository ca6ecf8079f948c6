-- ===== src/OpenFlow/FlowMod.antt =====
-- openflow_protocol.go: actions, instructions, flow modifications and requests for flow statistics.
pub mod Aligned
use ovnflow.Base.{
  ℕ, zero, suc, ◌+◌, ◌-◌, Bool, true, false, Option, none, some, List, [], ◌∷◌, ◌++◌,
}
use ovnflow.Base.{length, replicate, ◌==◌, if◌then◌else◌}
use ovnflow.Text.{Text, codes, text_eq}
use ovnflow.Errors.{validation, unsupported, wrap, Result, ok, err, ◌>>=◌, ◌>>◌}
use ovnflow.Owner.{OwnerRef, Labels}
use ovnflow.OpenFlow.Bytes.{Bytes, be16, be32, be64, align_length, pad_to}
use ovnflow.OpenFlow.Mac.{parse_mac}
use ovnflow.OpenFlow.Message.{Message, openflow_15, validate_version, flow_error}
use ovnflow.OpenFlow.Oxm.{marshal_oxm}
use ovnflow.OpenFlow.Match.{Metadata, Match, byte, marshal_match, parsed_mac}

-- The type is a string in the source, and any string may stand in it.
pub record Action : Type 0 where
  pub kind : Text
  pub port : ℕ
  pub field : Text
  pub value : Text

pub record Instruction : Type 0 where
  pub goto_table : Option ℕ
  pub clear_actions : Bool
  pub write_metadata : Option Metadata
  pub actions : List Action

pub record Flow : Type 0 where
  pub name : Text
  pub bridge : Text
  pub cookie : ℕ
  pub cookie_mask : ℕ
  pub table_id : ℕ
  pub priority : ℕ
  pub idle_timeout : ℕ
  pub hard_timeout : ℕ
  pub importance : ℕ
  pub match : Match
  pub instructions : List Instruction
  pub actions : List Action
  pub owner : OwnerRef
  pub labels : Labels

pub record FlowStatsRequest : Type 0 where
  pub table_id : Option ℕ
  pub out_port : ℕ
  pub out_group : ℕ
  pub cookie : ℕ
  pub cookie_mask : ℕ
  pub match : Match

abbrev zeros : ℕ → Bytes
zeros n = replicate n 0

unfoldable pub marshal_set_field : Text → Text → Result Bytes
marshal_set_field field value =
    if text_eq field (codes "eth_src")
    then (do mac ← parsed_mac field (parse_mac value); ok (marshal_oxm 4 false mac []))
    else if text_eq field (codes "eth_dst")
    then (do mac ← parsed_mac field (parse_mac value); ok (marshal_oxm 3 false mac []))
    else err (wrap unsupported "" "marshal" field "unsupported set_field target" false)

abbrev output_action : ℕ → Bytes
output_action port = be16 0 ++ (be16 16 ++ (be32 port ++ (be16 0xffff ++ zeros 6)))

abbrev set_field_action : Bytes → Bytes
set_field_action field =
    let size = align_length (4 + length field) 8 in
    be16 25 ++ (be16 size ++ (field ++ zeros (size - 4 - length field)))

unfoldable pub marshal_action : Action → Result Bytes
marshal_action a =
    if text_eq a.kind (codes "output")
    then ok (output_action a.port)
    else if text_eq a.kind (codes "set_field")
    then (do field ← marshal_set_field a.field a.value; ok (set_field_action field))
    else err (flow_error unsupported "marshal" "openflow-action" "unsupported OpenFlow action")

unfoldable pub marshal_actions : List Action → Result Bytes
marshal_actions [] = ok []
marshal_actions (a ∷ actions) = do
  first ← marshal_action a
  rest ← marshal_actions actions
  ok (first ++ rest)

-- The branches of the switch on an instruction; one with nothing set is left out.
abbrev applied_actions : List Action → Result Bytes
applied_actions [] = ok []
applied_actions (a ∷ actions) = do
  bytes ← marshal_actions (a ∷ actions)
  ok (be16 4 ++ (be16 (8 + length bytes) ++ (zeros 4 ++ bytes)))

abbrev metadata_or_actions : Option Metadata → List Action → Result Bytes
metadata_or_actions (some m) actions =
    ok (be16 2 ++ (be16 24 ++ (zeros 4 ++ (be64 m.value ++ be64 m.mask))))
metadata_or_actions none actions = applied_actions actions

abbrev goto_or_rest : Option ℕ → Instruction → Result Bytes
goto_or_rest (some table) i = ok (be16 1 ++ (be16 8 ++ (table ∷ zeros 3)))
goto_or_rest none i =
    if i.clear_actions
    then ok (be16 5 ++ (be16 8 ++ zeros 4))
    else metadata_or_actions i.write_metadata i.actions

unfoldable pub marshal_instruction : Instruction → Result Bytes
marshal_instruction i = goto_or_rest i.goto_table i

-- The loop; the padding is that of the whole buffer, and only behind actions that were applied.
abbrev pads : Instruction → Bool
pads i = elim i.goto_table [
  | some _ ↦ false
  | none ↦ if i.clear_actions then false else elim i.write_metadata [
    | some _ ↦ false
    | none ↦ elim i.actions [ [] ↦ false | _ ∷ _ ↦ true ]
  ]
]

unfoldable pub instruction_loop : Bytes → List Instruction → Result Bytes
instruction_loop out [] = ok out
instruction_loop out (i ∷ instructions) = do
  bytes ← marshal_instruction i
  instruction_loop (if pads i then pad_to (out ++ bytes) 8 else out ++ bytes) instructions

abbrev all_instructions : Flow → List Instruction
all_instructions flow = elim flow.actions [
  | [] ↦ flow.instructions
  | a ∷ actions ↦
      flow.instructions
      ++ ((record {
        goto_table = none;
        clear_actions = false;
        write_metadata = none;
        actions = a ∷ actions;
      })
          ∷ [])
]

unfoldable pub marshal_instructions : Flow → Result Bytes
marshal_instructions flow = instruction_loop [] (all_instructions flow)

unfoldable pub flow_mod_head : ℕ → ℕ → Flow → Bytes
flow_mod_head version command flow =
    be64 flow.cookie
    ++ (be64 flow.cookie_mask
        ++ (byte flow.table_id
            ++ (byte command
                ++ (be16 flow.idle_timeout
                    ++ (be16 flow.hard_timeout
                        ++ (be16 flow.priority
                            ++ (be32 0xffffffff
                                ++ (be32 0xffffffff
                                    ++ (be32 0xffffffff
                                        ++ (be16 0
                                            ++ be16 (
                                                if version == openflow_15
                                                then flow.importance
                                                else 0)))))))))))

unfoldable pub marshal_flow_mod : ℕ → ℕ → ℕ → Flow → Result Message
marshal_flow_mod version xid command flow = do
  validate_version version
  match ← marshal_match flow.match
  instructions ← marshal_instructions flow
  ok (record {
    version = version;
    kind = 14;
    xid = xid;
    body = flow_mod_head version command flow ++ (match ++ instructions);
  })

-- A number, or the default if it is 0.
abbrev number_or : ℕ → ℕ → ℕ
number_or n default = if n == 0 then default else n

abbrev table_or_all : Option ℕ → ℕ
table_or_all none = 0xff
table_or_all (some table) = table

unfoldable pub flow_stats_head : FlowStatsRequest → Bytes
flow_stats_head r =
    be16 1
    ++ (be16 0
        ++ (be32 0
            ++ (byte (table_or_all r.table_id)
                ++ (zeros 3
                    ++ (be32 (number_or r.out_port 0xffffffff)
                        ++ (be32 (number_or r.out_group 0xffffffff)
                            ++ (be32 0 ++ (be64 r.cookie ++ be64 r.cookie_mask))))))))

unfoldable pub marshal_flow_stats_request : ℕ → ℕ → FlowStatsRequest → Result Message
marshal_flow_stats_request version xid request = do
  validate_version version
  match ← marshal_match request.match
  ok (record { version = version; kind = 18; xid = xid; body = flow_stats_head request ++ match })
