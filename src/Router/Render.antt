-- ===== src/Router/Render.antt =====
-- linuxrouter/router.go: `inferNATInterfaces` and `CommandRenderer`. A router is passed by value, but
-- its slices are shared with the caller, so what `inferNATInterfaces` writes into them is returned.
pub mod Infers
pub mod Inferred
use ovnflow.Base.{
  ℕ, Bool, true, false, List, [], ◌∷◌, ◌++◌, map, String, Option, none, some, if◌then◌else◌,
}
use ovnflow.Base.Sort.{sort_by}
use ovnflow.Text.{Text, codes, text_eq, text_lt, is_empty}
use ovnflow.Errors.{ambiguous, Error, wrap, Result, ok, err}
use ovnflow.Util.Int.{int_text}
use ovnflow.Router.Types.{
  Interface, SnatRule, MasqueradeRule, DnatRule, PortForwardRule, DestinationMapRule, Nat, Spec,
  Router, Command,
}
use ovnflow.Router.Names.{
  snat_name, masquerade_name, dnat_name, port_forward_name, destination_map_name,
}

-- The names of the interfaces with that role.
unfoldable pub names_in_role : List Interface → Text → List Text
names_in_role [] role = []
names_in_role (i ∷ interfaces) role =
    let rest = names_in_role interfaces role in if text_eq i.role role then i.name ∷ rest else rest

unfoldable pub role_interfaces : List Interface → Text → List Text
role_interfaces interfaces role = sort_by text_lt (names_in_role interfaces role)

unfoldable pub ambiguous_error : String → Error
ambiguous_error kind =
    wrap ambiguous "" "plan" (codes kind) "interface inference is ambiguous" false

-- What a call has written, and the error that it returned.
abbrev pub Written {ℓ} : Type ℓ → Type ℓ
Written A = A × Option Error

-- The only candidate for an interface that is not set.
unfoldable pub infer_interface : String → List Text → Text → Written Text
infer_interface kind candidates (c ∷ name) = (c ∷ name, none)
infer_interface kind [] [] = ([], some (ambiguous_error kind))
infer_interface kind (one ∷ []) [] = (one, none)
infer_interface kind (one ∷ two ∷ more) [] = ([], some (ambiguous_error kind))

module _ {ℓ} {A : Type ℓ} where
  -- A loop over a slice that is written in place, up to the first error.
  unfoldable pub infer_each : (A → Written A) → List A → Written (List A)
  infer_each infer [] = ([], none)
  infer_each infer (a ∷ rest) =
      let (b, e) = infer a in
      elim e [
        | some error ↦ (b ∷ rest, some error)
        | none ↦ let (after, error) = infer_each infer rest in (b ∷ after, error)
      ]

unfoldable pub infer_masquerade : List Text → MasqueradeRule → Written MasqueradeRule
infer_masquerade wans r =
    let (name, e) = infer_interface "wan" wans r.out_interface in
    (record r { out_interface = name }, e)

unfoldable pub infer_snat : List Text → SnatRule → Written SnatRule
infer_snat wans r =
    let (name, e) = infer_interface "wan" wans r.out_interface in
    (record r { out_interface = name }, e)

unfoldable pub infer_port_forward : List Text → PortForwardRule → Written PortForwardRule
infer_port_forward wans r =
    let (name, e) = infer_interface "wan" wans r.in_interface in
    (record r { in_interface = name }, e)

unfoldable pub infer_dnat : List Text → DnatRule → Written DnatRule
infer_dnat wans r =
    let (name, e) = infer_interface "wan" wans r.in_interface in
    (record r { in_interface = name }, e)

unfoldable pub infer_destination_map :
    List Text → List Text → DestinationMapRule → Written DestinationMapRule
infer_destination_map lans wans r =
    let (inside, e) = infer_interface "lan" lans r.in_interface in
    elim e [
      | some error ↦ (record r { in_interface = inside }, some error)
      | none ↦
          let (outside, f) = infer_interface "wan" wans r.out_interface in
          (record r { in_interface = inside; out_interface = outside }, f)
    ]

-- The next loop runs if the one before returned no error.
abbrev pub and_then {ℓ} : {A : Type ℓ} → Written A → (A → Written A) → Written A
and_then (a, some error) next = (a, some error)
and_then (a, none) next = next a

abbrev pub write_masquerades : Nat → Written (List MasqueradeRule) → Written Nat
write_masquerades n (rules, e) = (record n { masquerades = rules }, e)

abbrev pub write_snat : Nat → Written (List SnatRule) → Written Nat
write_snat n (rules, e) = (record n { snat_rules = rules }, e)

abbrev pub write_port_forwards : Nat → Written (List PortForwardRule) → Written Nat
write_port_forwards n (rules, e) = (record n { port_forwards = rules }, e)

abbrev pub write_dnat : Nat → Written (List DnatRule) → Written Nat
write_dnat n (rules, e) = (record n { dnat_rules = rules }, e)

abbrev pub write_destination_maps : Nat → Written (List DestinationMapRule) → Written Nat
write_destination_maps n (rules, e) = (record n { destination_maps = rules }, e)

unfoldable pub infer_nat : List Text → List Text → Nat → Written Nat
infer_nat lans wans n =
    and_then (write_masquerades n (infer_each (infer_masquerade wans) n.masquerades)) (λ n.
      and_then (write_snat n (infer_each (infer_snat wans) n.snat_rules)) (λ n.
        and_then (write_port_forwards n (infer_each (infer_port_forward wans) n.port_forwards))
          (λ n. and_then (write_dnat n (infer_each (infer_dnat wans) n.dnat_rules)) (λ n.
            write_destination_maps n
              (infer_each (infer_destination_map lans wans) n.destination_maps)))))

unfoldable pub infer_nat_interfaces : Spec → Written Spec
infer_nat_interfaces spec =
    let wans = role_interfaces spec.interfaces (codes "wan") in
    let lans = role_interfaces spec.interfaces (codes "lan") in
    let (n, e) = infer_nat lans wans spec.nat in (record spec { nat = n }, e)

unfoldable pub namespace_or_default : Spec → Text → Text
namespace_or_default spec name =
    if is_empty spec.namespace then codes "ovnflow-" ++ name else spec.namespace

abbrev command : String → List Text → Command
command program args = record {
  program = codes program;
  args = args;
  ignore_not_found = false;
  ignore_already_exists = false;
}

abbrev interface_command : Interface → Command
interface_command i = command "ip" (codes "link" ∷ codes "plan" ∷ i.name ∷ i.role ∷ [])

abbrev masquerade_command : MasqueradeRule → Command
masquerade_command r =
    command "nat" (codes "masquerade" ∷ masquerade_name r ∷ r.source_cidr ∷ r.out_interface ∷ [])

abbrev snat_command : SnatRule → Command
snat_command r =
    command "nat" (codes "snat" ∷ snat_name r ∷ r.source_cidr ∷ r.out_interface ∷ r.to_source ∷ [])

abbrev port_forward_command : PortForwardRule → Command
port_forward_command r = command "nat" (
    codes "port-forward"
    ∷ port_forward_name r
    ∷ r.protocol
    ∷ r.in_interface
    ∷ r.listen_ip
    ∷ int_text r.listen_port
    ∷ r.target_ip
    ∷ int_text r.target_port
    ∷ [])

abbrev dnat_command : DnatRule → Command
dnat_command r =
    command "nat"
      (codes "dnat" ∷ dnat_name r ∷ r.in_interface ∷ r.match_address ∷ r.target_address ∷ [])

abbrev destination_map_command : DestinationMapRule → Command
destination_map_command r = command "nat" (
    codes "destination-map"
    ∷ destination_map_name r
    ∷ r.in_interface
    ∷ r.out_interface
    ∷ r.match_address
    ∷ r.target_address
    ∷ r.from_cidr
    ∷ r.source_nat
    ∷ [])

-- The commands of a router whose interfaces were inferred.
unfoldable pub commands_of : Text → Spec → List Command
commands_of name spec =
    command "ip" (codes "netns" ∷ codes "ensure" ∷ namespace_or_default spec name ∷ [])
    ∷ (map interface_command spec.interfaces
        ++ (map masquerade_command spec.nat.masquerades
            ++ (map snat_command spec.nat.snat_rules
                ++ (map port_forward_command spec.nat.port_forwards
                    ++ (map dnat_command spec.nat.dnat_rules
                        ++ map destination_map_command spec.nat.destination_maps)))))

-- What a renderer leaves in the caller's slices, and the commands or an error.
abbrev pub Rendered : Type 0
Rendered = Spec × Result (List Command)

abbrev rendered : Text → Written Spec → Rendered
rendered name (spec, some e) = (spec, err e)
rendered name (spec, none) = (spec, ok (commands_of name spec))

unfoldable pub render_apply : Router → Rendered
render_apply router = rendered router.name (infer_nat_interfaces router.spec)
