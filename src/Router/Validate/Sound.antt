-- ===== src/Router/Validate/Sound.antt =====
-- linuxrouter/router.go: what the checks of address translation ensure.
use ovnflow.Base.{true, false, ◌||◌, not, ◌≡◌, ◌∙◌, sym, subst, List, [], ◌∷◌, ◌++◌, map, All}
use ovnflow.Text.{Text}
use ovnflow.Errors.{ok, bind-ok, ok_injective}
use ovnflow.Netip.Classic.{is_ip, is_cidr}
use ovnflow.Router.Types.{
  SnatRule, MasqueradeRule, DnatRule, PortForwardRule, DestinationMapRule, Nat,
}
use ovnflow.Router.Names.{
  validate_rule_name, valid_port, is_one_of, snat_name, masquerade_name, dnat_name,
  port_forward_name, destination_map_name,
}
use ovnflow.Router.Validate.{
  each_named, bad_ip, bad_cidr, validate_snat, validate_masquerade, validate_port_forward,
  validate_dnat, validate_destination_map, validate_nat_names, validate_nat,
}
use ovnflow.Router.Validate.Rules.{
  Distinct, met, Distinct-append, PassedOne, each_named-Passed, validate_rule_name-ok, check-ok,
  refuse-ok, both-true, IsPort, valid_port-ok,
}

pub IsSnat : SnatRule → Type 0
IsSnat r = (is_cidr r.source_cidr ≡ true) × (is_ip r.to_source ≡ true)

validate_snat-ok :
    (r : SnatRule) (seen after : List Text)
    → validate_snat r seen ≡ ok after
    → PassedOne snat_name IsSnat r seen after
unfolding validate_snat IsSnat
validate_snat-ok r seen after h =
    let named = bind-ok (validate_rule_name (snat_name r) seen) _ h in
    let (filled, new, next) = validate_rule_name-ok (snat_name r) seen named.0 named.1 in
    let a = check-ok (is_cidr r.source_cidr) _ _ after named.2 in
    let b = check-ok (is_ip r.to_source) _ _ after a.1 in
    (filled, new, (a.0, b.0), sym (ok_injective b.1) ∙ next)

pub IsMasquerade : MasqueradeRule → Type 0
IsMasquerade r = is_cidr r.source_cidr ≡ true

validate_masquerade-ok :
    (r : MasqueradeRule) (seen after : List Text)
    → validate_masquerade r seen ≡ ok after
    → PassedOne masquerade_name IsMasquerade r seen after
unfolding validate_masquerade IsMasquerade
validate_masquerade-ok r seen after h =
    let named = bind-ok (validate_rule_name (masquerade_name r) seen) _ h in
    let (filled, new, next) = validate_rule_name-ok (masquerade_name r) seen named.0 named.1 in
    let a = check-ok (is_cidr r.source_cidr) _ _ after named.2 in
    (filled, new, a.0, sym (ok_injective a.1) ∙ next)

pub IsPortForward : PortForwardRule → Type 0
IsPortForward r =
    (is_one_of r.protocol ("tcp" ∷ "udp" ∷ []) ≡ true)
    × (bad_ip r.listen_ip ≡ false)
    × IsPort r.listen_port
    × IsPort r.target_port
    × (is_ip r.target_ip ≡ true)

validate_port_forward-ok :
    (r : PortForwardRule) (seen after : List Text)
    → validate_port_forward r seen ≡ ok after
    → PassedOne port_forward_name IsPortForward r seen after
unfolding validate_port_forward IsPortForward
validate_port_forward-ok r seen after h =
    let named = bind-ok (validate_rule_name (port_forward_name r) seen) _ h in
    let (filled, new, next) = validate_rule_name-ok (port_forward_name r) seen named.0 named.1 in
    let a = check-ok (is_one_of r.protocol ("tcp" ∷ "udp" ∷ [])) _ _ after named.2 in
    let b = refuse-ok (bad_ip r.listen_ip) _ _ after a.1 in
    let c =
      refuse-ok (not (valid_port r.listen_port) || not (valid_port r.target_port)) _ _ after b.1 in
    let d = check-ok (is_ip r.target_ip) _ _ after c.1 in
    let ports = both-true (valid_port r.listen_port) (valid_port r.target_port) c.0 in
    (
      filled,
      new,
      (a.0, b.0, valid_port-ok r.listen_port ports.0, valid_port-ok r.target_port ports.1, d.0),
      sym (ok_injective d.1) ∙ next,
    )

pub IsDnat : DnatRule → Type 0
IsDnat r = (is_ip r.match_address ≡ true) × (is_ip r.target_address ≡ true)

validate_dnat-ok :
    (r : DnatRule) (seen after : List Text)
    → validate_dnat r seen ≡ ok after
    → PassedOne dnat_name IsDnat r seen after
unfolding validate_dnat IsDnat
validate_dnat-ok r seen after h =
    let named = bind-ok (validate_rule_name (dnat_name r) seen) _ h in
    let (filled, new, next) = validate_rule_name-ok (dnat_name r) seen named.0 named.1 in
    let a =
      refuse-ok (not (is_ip r.match_address) || not (is_ip r.target_address)) _ _ after named.2 in
    let addresses = both-true (is_ip r.match_address) (is_ip r.target_address) a.0 in
    (filled, new, addresses, sym (ok_injective a.1) ∙ next)

pub IsDestinationMap : DestinationMapRule → Type 0
IsDestinationMap r =
    (is_ip r.match_address ≡ true)
    × (is_ip r.target_address ≡ true)
    × (bad_cidr r.from_cidr ≡ false)
    × (bad_ip r.source_nat ≡ false)

validate_destination_map-ok :
    (r : DestinationMapRule) (seen after : List Text)
    → validate_destination_map r seen ≡ ok after
    → PassedOne destination_map_name IsDestinationMap r seen after
unfolding validate_destination_map IsDestinationMap
validate_destination_map-ok r seen after h =
    let named = bind-ok (validate_rule_name (destination_map_name r) seen) _ h in
    let (filled, new, next) = validate_rule_name-ok (destination_map_name r) seen named.0 named.1 in
    let a =
      refuse-ok (not (is_ip r.match_address) || not (is_ip r.target_address)) _ _ after named.2 in
    let b = refuse-ok (bad_cidr r.from_cidr) _ _ after a.1 in
    let c = refuse-ok (bad_ip r.source_nat) _ _ after b.1 in
    let addresses = both-true (is_ip r.match_address) (is_ip r.target_address) a.0 in
    (filled, new, (addresses.0, addresses.1, b.0, c.0), sym (ok_injective c.1) ∙ next)

-- The names of all rules, in the order in which they are checked.
abbrev pub nat_names : Nat → List Text
nat_names n =
    map snat_name n.snat_rules
    ++ (map masquerade_name n.masquerades
        ++ (map port_forward_name n.port_forwards
            ++ (map dnat_name n.dnat_rules ++ map destination_map_name n.destination_maps)))

-- Address translation that can be set up.
pub record IsNat (n : Nat) : Type 0 where
  pub distinct : Distinct [] (nat_names n)
  pub snat_rules : All IsSnat n.snat_rules
  pub masquerades : All IsMasquerade n.masquerades
  pub port_forwards : All IsPortForward n.port_forwards
  pub dnat_rules : All IsDnat n.dnat_rules
  pub destination_maps : All IsDestinationMap n.destination_maps

-- Address translation that passes its checks has rules with names that are not blank and all
-- different, whether given or made of the fields, across the five kinds of rules. The networks and
-- addresses of the rules are CIDRs and IP addresses, the optional ones where they are set, the
-- protocol of a port forward is TCP or UDP, and its ports are between 1 and 65535.
pub validate_nat-IsNat : (n : Nat) → validate_nat n ≡ ok tt → IsNat n
unfolding validate_nat validate_nat_names
validate_nat-IsNat n h =
    let whole = bind-ok (validate_nat_names n) _ h in
    let a = bind-ok (each_named validate_snat n.snat_rules []) _ whole.1 in
    let b = bind-ok (each_named validate_masquerade n.masquerades a.0) _ a.2 in
    let c = bind-ok (each_named validate_port_forward n.port_forwards b.0) _ b.2 in
    let d = bind-ok (each_named validate_dnat n.dnat_rules c.0) _ c.2 in
    let snat = each_named-Passed snat_name IsSnat _ validate_snat-ok n.snat_rules [] a.0 a.1 in
    let masquerades =
      each_named-Passed masquerade_name IsMasquerade _ validate_masquerade-ok n.masquerades a.0 b.0
        b.1 in
    let forwards =
      each_named-Passed port_forward_name IsPortForward _ validate_port_forward-ok n.port_forwards
        b.0 c.0 c.1 in
    let dnat = each_named-Passed dnat_name IsDnat _ validate_dnat-ok n.dnat_rules c.0 d.0 d.1 in
    let maps =
      each_named-Passed destination_map_name IsDestinationMap _ validate_destination_map-ok
        n.destination_maps d.0 whole.0 d.2 in
    let behind =
      λ (seen after : List Text) (xs ys : List Text) (p : Distinct seen xs)
          (e : after ≡ met seen xs) (q : Distinct after ys).
        Distinct-append seen xs ys p (subst (λ s. Distinct s ys) e q) in
    record {
      distinct = behind [] a.0 _ _ snat.distinct snat.names (
          behind a.0 b.0 _ _ masquerades.distinct masquerades.names (
            behind b.0 c.0 _ _ forwards.distinct forwards.names
              (behind c.0 d.0 _ _ dnat.distinct dnat.names maps.distinct)));
      snat_rules = snat.checked;
      masquerades = masquerades.checked;
      port_forwards = forwards.checked;
      dnat_rules = dnat.checked;
      destination_maps = maps.checked;
    }
