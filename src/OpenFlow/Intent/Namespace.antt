-- ===== src/OpenFlow/Intent/Namespace.antt =====
-- openflow_intent.go: the cookie of a flow that no call of `Cookie` set.
use ovnflow.Base.{ℕ, ◌+◌, ◌*◌, ◌/◌, ◌%◌, ◌^◌, ◌≡◌, Bool, List, [], ◌∷◌, Option, refl, ◌∙◌, arith}
use ovnflow.Text.{Text}
use ovnflow.OpenFlow.FlowMod.{Flow}
use ovnflow.OpenFlow.Intent.{
  Builder, Setter, set, set_flow, ensure_flow, namespace_of, openflow_cookie_for_name,
}

abbrev pub set_all : List Setter → Builder → Builder
set_all [] b = b
set_all (setter ∷ setters) b = set_all setters (set setter b)

set_flow-cookie : (setter : Setter) (f : Flow) → (set_flow setter f).cookie ≡ f.cookie
unfolding set_flow
set_flow-cookie (Setter.table v) f = refl
set_flow-cookie (Setter.priority v) f = refl
set_flow-cookie (Setter.cookie_mask v) f = refl
set_flow-cookie (Setter.in_port v) f = refl
set_flow-cookie (Setter.eth_type v) f = refl
set_flow-cookie (Setter.ip_proto v) f = refl
set_flow-cookie (Setter.tcp_src v) f = refl
set_flow-cookie (Setter.tcp_dst v) f = refl
set_flow-cookie (Setter.udp_src v) f = refl
set_flow-cookie (Setter.udp_dst v) f = refl
set_flow-cookie (Setter.output v) f = refl
set_flow-cookie (Setter.ipv4_src t) f = refl
set_flow-cookie (Setter.ipv4_dst t) f = refl
set_flow-cookie (Setter.with_owner a b) f = refl
set_flow-cookie (Setter.with_label a b) f = refl
set_flow-cookie (Setter.set_field a b) f = refl

set_all-cookie :
    (setters : List Setter) (b : Builder) → (set_all setters b).flow.cookie ≡ b.flow.cookie
set_all-cookie [] b = refl
set_all-cookie (setter ∷ setters) b =
    set_all-cookie setters (set setter b) ∙ set_flow-cookie setter b.flow

hash_below : (hash : ℕ) → (0x0f0f * 2 ^ 48 + hash % 2 ^ 48) / 2 ^ 48 ≡ 0x0f0f
hash_below hash = omega arith

cookie-namespace :
    (bridge name : Text) → namespace_of (openflow_cookie_for_name bridge name) ≡ 0x0f0f
unfolding openflow_cookie_for_name
cookie-namespace bridge name = hash_below _

-- A builder of `EnsureFlow`, whatever parts of its flow but the cookie are set, has its
-- cookie in the namespace that `Validate` asks for, and it is that of the names of the bridge and of
-- the flow.
pub set_all-InNamespace :
    (client : Option Bool) (bridge name : Text) (setters : List Setter)
    → ((set_all setters (ensure_flow client bridge name)).flow.cookie
        ≡ openflow_cookie_for_name bridge name)
      × (namespace_of (set_all setters (ensure_flow client bridge name)).flow.cookie ≡ 0x0f0f)
unfolding ensure_flow
set_all-InNamespace client bridge name setters =
    let built = set_all-cookie setters (ensure_flow client bridge name) in
    (built, rw built (cookie-namespace bridge name))
