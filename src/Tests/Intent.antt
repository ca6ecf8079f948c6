-- ===== src/Tests/Intent.antt =====
-- openflow_intent.go: a flow of a bridge, and the theorems at it. The world counts the controllers
-- that were configured.
use ovnflow.Base.{ℕ, ◌+◌, ◌≡◌, refl, [], ◌∷◌, List, some, true}
use ovnflow.Text.{Text, codes, text_eq, is_blank}
use ovnflow.Text.Trim.{to_lower}
use ovnflow.Errors.{Result, ok}
use ovnflow.Util.{validate_name, mark}
use ovnflow.Util.Dict.{put}
use ovnflow.Util.Fnv.{fnv_hash}
use ovnflow.Owner.{validate_owner, validate_labels}
use ovnflow.OpenFlow.Bytes.{pad_loop, pad_to, align_length}
use ovnflow.OpenFlow.Message.{validate_version}
use ovnflow.OpenFlow.Oxm.{marshal_oxm}
use ovnflow.OpenFlow.Match.{
  mac_field, ipv4_field, number_field, metadata_field, marshal_fields, framed_match, marshal_match,
}
use ovnflow.OpenFlow.FlowMod.{
  marshal_action, marshal_actions, marshal_instruction, instruction_loop, marshal_instructions,
  flow_mod_head, marshal_flow_mod,
}
use ovnflow.OpenFlow.Message.{marshal_message, write_message}
use ovnflow.OpenFlow.Session.{Session, next_id, write, flow_mod, add_flow, delete_flow}
use ovnflow.OpenFlow.Intent.{
  Builder, Setter, set_flow, ensure_flow, openflow_cookie_for_name, namespace_of, check_flow,
  validate_flow, plan_flow, execute_flow,
}
use ovnflow.OpenFlow.Intent.Namespace.{set_all, set_all-InNamespace}
use ovnflow.OpenFlow.Intent.Sent.{Executed, execute_flow-Executed}

abbrev setters : List Setter
setters =
    Setter.table 5
    ∷ Setter.in_port 3
    ∷ Setter.with_label (codes "team") (codes "net")
    ∷ Setter.output 7
    ∷ []

abbrev builder : Builder
builder = set_all setters (ensure_flow (some true) (codes "br-int") (codes "web"))

set_all-InNamespace_example :
    (builder.flow.cookie ≡ openflow_cookie_for_name (codes "br-int") (codes "web"))
    × (namespace_of builder.flow.cookie ≡ 0x0f0f)
set_all-InNamespace_example = set_all-InNamespace (some true) (codes "br-int") (codes "web") setters

abbrev configure : Text → ℕ → ℕ × Result (Unit {0})
configure bridge n = (n + 1, ok tt)

abbrev dial : ℕ → ℕ × Result Session
dial n = (
  n,
  ok (record { incoming = []; written = []; versions = 4 ∷ []; version = 4; next_xid = some 2 }),
)

execute_flow-builder : (execute_flow configure dial builder 0).result ≡ ok tt
unfolding execute_flow plan_flow validate_flow check_flow mark validate_name validate_owner
    validate_labels is_blank put text_eq set_flow ensure_flow openflow_cookie_for_name fnv_hash
    to_lower add_flow delete_flow flow_mod marshal_flow_mod flow_mod_head validate_version next_id
    marshal_match marshal_fields framed_match mac_field ipv4_field number_field metadata_field
    marshal_oxm pad_to pad_loop align_length marshal_instructions instruction_loop
    marshal_instruction marshal_actions marshal_action write write_message marshal_message
execute_flow-builder = refl

execute_flow-Executed_example :
    Executed configure dial builder 0 (execute_flow configure dial builder 0)
execute_flow-Executed_example = execute_flow-Executed configure dial builder 0 execute_flow-builder
