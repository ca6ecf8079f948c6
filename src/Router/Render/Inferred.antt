-- ===== src/Router/Render/Inferred.antt =====
-- linuxrouter/router.go: what `inferNATInterfaces` fills in, and when it refuses.
use ovnflow.Base.{Bool, true, false, ◌&&◌, sym, subst, List, map}
use ovnflow.Base.{none, some}
use ovnflow.Text.{Text, codes}
use ovnflow.Router.Types.{
  SnatRule, MasqueradeRule, DnatRule, PortForwardRule, DestinationMapRule, Nat, Spec,
}
use ovnflow.Router.Render.{
  role_interfaces, Written, infer_interface, infer_masquerade, infer_snat, infer_port_forward,
  infer_dnat, infer_destination_map, infer_nat, infer_nat_interfaces,
}
use ovnflow.Router.Render.Infers.{
  settled, filled, all, Infers, infer_interface-Infers, and_then-Infers, written-Infers,
  infer_each-Infers,
}

-- The interfaces that each rule needs.
abbrev masquerade_settled : List Text → MasqueradeRule → Bool
masquerade_settled wans r = settled wans r.out_interface

abbrev snat_settled : List Text → SnatRule → Bool
snat_settled wans r = settled wans r.out_interface

abbrev port_forward_settled : List Text → PortForwardRule → Bool
port_forward_settled wans r = settled wans r.in_interface

abbrev dnat_settled : List Text → DnatRule → Bool
dnat_settled wans r = settled wans r.in_interface

abbrev destination_map_settled : List Text → List Text → DestinationMapRule → Bool
destination_map_settled lans wans r = settled lans r.in_interface && settled wans r.out_interface

abbrev filled_masquerade : List Text → MasqueradeRule → MasqueradeRule
filled_masquerade wans r = record r { out_interface = filled wans r.out_interface }

abbrev filled_snat : List Text → SnatRule → SnatRule
filled_snat wans r = record r { out_interface = filled wans r.out_interface }

abbrev filled_port_forward : List Text → PortForwardRule → PortForwardRule
filled_port_forward wans r = record r { in_interface = filled wans r.in_interface }

abbrev filled_dnat : List Text → DnatRule → DnatRule
filled_dnat wans r = record r { in_interface = filled wans r.in_interface }

abbrev filled_destination_map : List Text → List Text → DestinationMapRule → DestinationMapRule
filled_destination_map lans wans r = record r {
  in_interface = filled lans r.in_interface;
  out_interface = filled wans r.out_interface;
}

-- Whether all rules are settled, and the rules with the candidates filled in.
unfoldable pub inferable : List Text → List Text → Nat → Bool
inferable lans wans n =
    all (masquerade_settled wans) n.masquerades
    && (all (snat_settled wans) n.snat_rules
        && (all (port_forward_settled wans) n.port_forwards
            && (all (dnat_settled wans) n.dnat_rules
                && all (destination_map_settled lans wans) n.destination_maps)))

unfoldable pub filled_nat : List Text → List Text → Nat → Nat
filled_nat lans wans n = record {
  snat_rules = map (filled_snat wans) n.snat_rules;
  masquerades = map (filled_masquerade wans) n.masquerades;
  dnat_rules = map (filled_dnat wans) n.dnat_rules;
  port_forwards = map (filled_port_forward wans) n.port_forwards;
  destination_maps = map (filled_destination_map lans wans) n.destination_maps;
}

infer_masquerade-Infers :
    (wans : List Text) (r : MasqueradeRule)
    → Infers (masquerade_settled wans r) (infer_masquerade wans r) (filled_masquerade wans r)
unfolding infer_masquerade
infer_masquerade-Infers wans r =
    written-Infers (λ name. record r { out_interface = name }) _ _ _
      (infer_interface-Infers "wan" wans r.out_interface)

infer_snat-Infers :
    (wans : List Text) (r : SnatRule)
    → Infers (snat_settled wans r) (infer_snat wans r) (filled_snat wans r)
unfolding infer_snat
infer_snat-Infers wans r =
    written-Infers (λ name. record r { out_interface = name }) _ _ _
      (infer_interface-Infers "wan" wans r.out_interface)

infer_port_forward-Infers :
    (wans : List Text) (r : PortForwardRule)
    → Infers (port_forward_settled wans r) (infer_port_forward wans r) (filled_port_forward wans r)
unfolding infer_port_forward
infer_port_forward-Infers wans r =
    written-Infers (λ name. record r { in_interface = name }) _ _ _
      (infer_interface-Infers "wan" wans r.in_interface)

infer_dnat-Infers :
    (wans : List Text) (r : DnatRule)
    → Infers (dnat_settled wans r) (infer_dnat wans r) (filled_dnat wans r)
unfolding infer_dnat
infer_dnat-Infers wans r =
    written-Infers (λ name. record r { in_interface = name }) _ _ _
      (infer_interface-Infers "wan" wans r.in_interface)

-- Both interfaces of a destination map.
abbrev outside_written : List Text → DestinationMapRule → Written Text → Written DestinationMapRule
outside_written wans r (inside, some e) = (record r { in_interface = inside }, some e)
outside_written wans r (inside, none) =
    let (outside, e) = infer_interface "wan" wans r.out_interface in
    (record r { in_interface = inside; out_interface = outside }, e)

outside-Infers :
    (wans : List Text) (r : DestinationMapRule) (b : Bool) (w : Written Text) (inside : Text)
    → Infers b w inside
    → Infers
        (b && settled wans r.out_interface)
        (outside_written wans r w)
        (record r { in_interface = inside; out_interface = filled wans r.out_interface })
unfolding Infers
outside-Infers wans r true w inside p =
    let outside =
      written-Infers (λ name. record r { in_interface = inside; out_interface = name }) _ _ _
        (infer_interface-Infers "wan" wans r.out_interface) in
    subst
      (λ w.
        Infers (settled wans r.out_interface) (outside_written wans r w)
          (record r { in_interface = inside; out_interface = filled wans r.out_interface }))
      (sym p) outside
outside-Infers wans r false (inside, some e) x p = p
outside-Infers wans r false (inside, none) x p = cc

infer_destination_map-Infers :
    (lans wans : List Text) (r : DestinationMapRule)
    → Infers
        (destination_map_settled lans wans r)
        (infer_destination_map lans wans r)
        (filled_destination_map lans wans r)
unfolding infer_destination_map
infer_destination_map-Infers lans wans r =
    outside-Infers wans r (settled lans r.in_interface) (infer_interface "lan" lans r.in_interface)
      (filled lans r.in_interface) (infer_interface-Infers "lan" lans r.in_interface)

infer_nat-Infers :
    (lans wans : List Text) (n : Nat)
    → Infers (inferable lans wans n) (infer_nat lans wans n) (filled_nat lans wans n)
unfolding infer_nat inferable filled_nat
infer_nat-Infers lans wans n =
    let masquerades =
      written-Infers (λ l. record n { masquerades = l }) _ _ _
        (infer_each-Infers (masquerade_settled wans) (infer_masquerade wans)
          (filled_masquerade wans) (infer_masquerade-Infers wans) n.masquerades) in
    let n1 : Nat = record n { masquerades = map (filled_masquerade wans) n.masquerades } in
    let snat =
      written-Infers (λ l. record n1 { snat_rules = l }) _ _ _
        (infer_each-Infers (snat_settled wans) (infer_snat wans) (filled_snat wans)
          (infer_snat-Infers wans) n.snat_rules) in
    let n2 : Nat = record n1 { snat_rules = map (filled_snat wans) n.snat_rules } in
    let forwards =
      written-Infers (λ l. record n2 { port_forwards = l }) _ _ _
        (infer_each-Infers (port_forward_settled wans) (infer_port_forward wans)
          (filled_port_forward wans) (infer_port_forward-Infers wans) n.port_forwards) in
    let n3 : Nat = record n2 { port_forwards = map (filled_port_forward wans) n.port_forwards } in
    let dnat =
      written-Infers (λ l. record n3 { dnat_rules = l }) _ _ _
        (infer_each-Infers (dnat_settled wans) (infer_dnat wans) (filled_dnat wans)
          (infer_dnat-Infers wans) n.dnat_rules) in
    let n4 : Nat = record n3 { dnat_rules = map (filled_dnat wans) n.dnat_rules } in
    let maps =
      written-Infers (λ l. record n4 { destination_maps = l }) _ _ _
        (infer_each-Infers (destination_map_settled lans wans) (infer_destination_map lans wans)
          (filled_destination_map lans wans) (infer_destination_map-Infers lans wans)
          n.destination_maps) in
    and_then-Infers _ _ _ _ n1 _ masquerades (
      and_then-Infers _ _ _ _ n2 _ snat
        (and_then-Infers _ _ _ _ n3 _ forwards (and_then-Infers _ _ _ _ n4 _ dnat maps)))

-- The interfaces of the rules of a router are inferred if each of them is set, or has one candidate
-- among the interfaces of the role: then the open ones become that candidate, and nothing else is
-- written. If a rule has no candidate or more than one, the error is that the interface is
-- ambiguous.
pub infer_nat_interfaces-Infers :
    (spec : Spec)
    → let wans = role_interfaces spec.interfaces (codes "wan") in
      let lans = role_interfaces spec.interfaces (codes "lan") in
      Infers
        (inferable lans wans spec.nat)
        (infer_nat_interfaces spec)
        (record spec { nat = filled_nat lans wans spec.nat })
unfolding infer_nat_interfaces
infer_nat_interfaces-Infers spec =
    written-Infers (λ n. record spec { nat = n }) _ _ _
      (infer_nat-Infers (role_interfaces spec.interfaces (codes "lan"))
        (role_interfaces spec.interfaces (codes "wan")) spec.nat)
