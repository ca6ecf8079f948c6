-- ===== src/Router/Patch/View.antt =====
-- linuxrouter/router.go: what `Patch.ApplyTo` makes of a router.
use ovnflow.Base.{Bool, ◌≡◌, refl, ap, ◌∙◌, sym, subst, List, [], ◌++◌}
use ovnflow.Base.{String}
use ovnflow.Text.{Text}
use ovnflow.Errors.{ok, bind-ok, ok_injective}
use ovnflow.Router.Types.{Interface, Route, Nat, DnsMasq, Firewall, Spec, Router}
use ovnflow.Router.Names.{
  snat_name, masquerade_name, dnat_name, port_forward_name, destination_map_name,
}
use ovnflow.Router.Patch.{
  replace_by_name, delete_by_name, or_replaced, interface_name, route_name, host_name,
  firewall_rule_name, Patch, patch_interfaces, patch_routes, patch_nat, patch_dnsmasq,
  patch_firewall, apply_to,
}
use ovnflow.Router.Patch.Named.{named_in, edited, edited-view}

-- A list with names is the old one as it was edited.
abbrev Edited {ℓ} :
    {A : Type ℓ} (name_of : A → Text) → List A → List A → List Text → List A → List A → Type ℓ
Edited name_of base replacements names additions new =
    (x : Text) → named_in name_of new x ≡ edited name_of base replacements names additions x

-- The address translation that the edits of a patch start from, and so on.
abbrev nat_base : Patch → Spec → Nat
nat_base p old = or_replaced old.nat p.nat.replace

abbrev dnsmasq_base : Patch → Spec → DnsMasq
dnsmasq_base p old = or_replaced old.dnsmasq p.dnsmasq.replace

abbrev firewall_base : Patch → Spec → Firewall
firewall_base p old = or_replaced old.firewall p.firewall.replace

-- Each list of a router as a patch edits it, and all else as it was.
pub record PatchView (p : Patch) (old new : Spec) : Type 0 where
  pub interfaces :
      Edited interface_name old.interfaces p.interfaces.replace p.interfaces.delete p.interfaces.add
        new.interfaces
  pub routes : Edited route_name old.routes p.routes.replace p.routes.delete p.routes.add new.routes
  pub snat_rules :
      Edited snat_name
        (nat_base p old).snat_rules
        []
        p.nat.delete.snat_rules
        p.nat.add.snat_rules
        new.nat.snat_rules
  pub masquerades :
      Edited masquerade_name
        (nat_base p old).masquerades
        []
        p.nat.delete.masquerades
        p.nat.add.masquerades
        new.nat.masquerades
  pub dnat_rules :
      Edited dnat_name
        (nat_base p old).dnat_rules
        []
        p.nat.delete.dnat_rules
        p.nat.add.dnat_rules
        new.nat.dnat_rules
  pub port_forwards :
      Edited port_forward_name
        (nat_base p old).port_forwards
        []
        p.nat.delete.port_forwards
        p.nat.add.port_forwards
        new.nat.port_forwards
  pub destination_maps :
      Edited destination_map_name
        (nat_base p old).destination_maps
        []
        p.nat.delete.destination_maps
        p.nat.add.destination_maps
        new.nat.destination_maps
  pub hosts :
      Edited host_name
        (dnsmasq_base p old).hosts
        []
        p.dnsmasq.delete_hosts
        p.dnsmasq.add_hosts
        new.dnsmasq.hosts
  pub firewall_rules :
      Edited firewall_rule_name
        (firewall_base p old).rules
        []
        p.firewall.delete_rules
        p.firewall.add_rules
        new.firewall.rules
  pub dnsmasq : record (dnsmasq_base p old) { hosts = new.dnsmasq.hosts } ≡ new.dnsmasq
  pub namespace : new.namespace ≡ old.namespace
  pub owner : new.owner ≡ old.owner
  pub labels : new.labels ≡ old.labels

-- The parts of a patch, one by one.
patch_interfaces-view :
    (p : Patch) (ignore : Bool) (base new : List Interface)
    → patch_interfaces p.interfaces ignore base ≡ ok new
    → Edited interface_name base p.interfaces.replace p.interfaces.delete p.interfaces.add new
unfolding patch_interfaces
patch_interfaces-view p ignore base new h x =
    let kept = bind-ok (delete_by_name interface_name _ p.interfaces.delete ignore _ _) _ h in
    ap (λ l. named_in interface_name l x) (sym (ok_injective kept.2))
    ∙ edited-view interface_name base p.interfaces.replace p.interfaces.add p.interfaces.delete
        ignore _ _ kept.0 kept.1 x

patch_routes-view :
    (p : Patch) (ignore : Bool) (base new : List Route)
    → patch_routes p.routes ignore base ≡ ok new
    → Edited route_name base p.routes.replace p.routes.delete p.routes.add new
unfolding patch_routes
patch_routes-view p ignore base new h x =
    let kept = bind-ok (delete_by_name route_name _ p.routes.delete ignore _ _) _ h in
    ap (λ l. named_in route_name l x) (sym (ok_injective kept.2))
    ∙ edited-view route_name base p.routes.replace p.routes.add p.routes.delete ignore _ _ kept.0
        kept.1 x

deleted-view {ℓ} :
    {A : Type ℓ} (name_of : A → Text) (base additions : List A) (names : List Text) (ignore : Bool)
    → (kind message : String) (kept new : List A)
    → delete_by_name name_of base names ignore kind message ≡ ok kept
    → kept ++ additions ≡ new
    → Edited name_of base [] names additions new
unfolding replace_by_name
deleted-view name_of base additions names ignore kind message kept new h e x =
    ap (λ l. named_in name_of l x) (sym e)
    ∙ edited-view name_of base [] additions names ignore kind message kept h x

-- The five lists of rules.
record NatView (p : Patch) (base new : Nat) : Type 0 where
  snat_rules :
      Edited snat_name base.snat_rules [] p.nat.delete.snat_rules p.nat.add.snat_rules
        new.snat_rules
  masquerades :
      Edited masquerade_name base.masquerades [] p.nat.delete.masquerades p.nat.add.masquerades
        new.masquerades
  dnat_rules :
      Edited dnat_name base.dnat_rules [] p.nat.delete.dnat_rules p.nat.add.dnat_rules
        new.dnat_rules
  port_forwards :
      Edited port_forward_name base.port_forwards [] p.nat.delete.port_forwards
        p.nat.add.port_forwards new.port_forwards
  destination_maps :
      Edited destination_map_name base.destination_maps [] p.nat.delete.destination_maps
        p.nat.add.destination_maps new.destination_maps

patch_nat-view :
    (p : Patch) (ignore : Bool) (old new : Nat)
    → patch_nat p.nat ignore old ≡ ok new
    → NatView p (or_replaced old p.nat.replace) new
unfolding patch_nat
patch_nat-view p ignore old new h =
    let n = or_replaced old p.nat.replace in
    let d = p.nat.delete in
    let a = bind-ok (delete_by_name snat_name n.snat_rules d.snat_rules ignore _ _) _ h in
    let b = bind-ok (delete_by_name masquerade_name n.masquerades d.masquerades ignore _ _) _ a.2 in
    let c = bind-ok (delete_by_name dnat_name n.dnat_rules d.dnat_rules ignore _ _) _ b.2 in
    let e =
      bind-ok (delete_by_name port_forward_name n.port_forwards d.port_forwards ignore _ _) _ c.2 in
    let f =
      bind-ok (delete_by_name destination_map_name n.destination_maps d.destination_maps ignore _ _)
        _ e.2 in
    let same = ok_injective f.2 in
    record {
      snat_rules =
          deleted-view snat_name _ _ _ ignore _ _ a.0 _ a.1 (ap (λ (n : Nat). n.snat_rules) same);
      masquerades =
          deleted-view masquerade_name _ _ _ ignore _ _ b.0 _ b.1
            (ap (λ (n : Nat). n.masquerades) same);
      dnat_rules =
          deleted-view dnat_name _ _ _ ignore _ _ c.0 _ c.1 (ap (λ (n : Nat). n.dnat_rules) same);
      port_forwards =
          deleted-view port_forward_name _ _ _ ignore _ _ e.0 _ e.1
            (ap (λ (n : Nat). n.port_forwards) same);
      destination_maps =
          deleted-view destination_map_name _ _ _ ignore _ _ f.0 _ f.1
            (ap (λ (n : Nat). n.destination_maps) same);
    }

patch_dnsmasq-view :
    (p : Patch) (ignore : Bool) (old new : DnsMasq)
    → patch_dnsmasq p.dnsmasq ignore old ≡ ok new
    → Edited host_name
        (or_replaced old p.dnsmasq.replace).hosts
        []
        p.dnsmasq.delete_hosts
        p.dnsmasq.add_hosts
        new.hosts
      × (record (or_replaced old p.dnsmasq.replace) { hosts = new.hosts } ≡ new)
unfolding patch_dnsmasq
patch_dnsmasq-view p ignore old new h =
    let d = or_replaced old p.dnsmasq.replace in
    let a = bind-ok (delete_by_name host_name d.hosts p.dnsmasq.delete_hosts ignore _ _) _ h in
    let same = ok_injective a.2 in
    let hosts : a.0 ++ p.dnsmasq.add_hosts ≡ new.hosts = ap (λ (d : DnsMasq). d.hosts) same in
    (
      deleted-view host_name d.hosts p.dnsmasq.add_hosts p.dnsmasq.delete_hosts ignore _ _ a.0 _ a.1
          hosts,
      ap (λ l. record d { hosts = l }) (sym hosts) ∙ same,
    )

patch_firewall-view :
    (p : Patch) (ignore : Bool) (old new : Firewall)
    → patch_firewall p.firewall ignore old ≡ ok new
    → Edited firewall_rule_name
        (or_replaced old p.firewall.replace).rules
        []
        p.firewall.delete_rules
        p.firewall.add_rules
        new.rules
unfolding patch_firewall
patch_firewall-view p ignore old new h =
    let f = or_replaced old p.firewall.replace in
    let a =
      bind-ok (delete_by_name firewall_rule_name f.rules p.firewall.delete_rules ignore _ _) _ h in
    deleted-view firewall_rule_name f.rules p.firewall.add_rules p.firewall.delete_rules ignore _ _
      a.0 _ a.1 (ap (λ (f : Firewall). f.rules) (ok_injective a.2))

-- A patch that applies to a router edits its interfaces, routes, rules of address translation, DNS
-- hosts and rules of the firewall by their names: behind it a name stands for the value that was
-- there, that of the last replacement with the name, or none where the name was deleted, and for
-- an added value where none is left. Address translation, the DNS server and the firewall are first
-- replaced as a whole where the patch says so. The namespace, the owner and the labels stay, and so
-- do the name and the status of the router.
pub apply_to-PatchView :
    (p : Patch) (old new : Router)
    → apply_to p old ≡ ok new
    → PatchView p old.spec new.spec × (new.name ≡ old.name) × (new.status ≡ old.status)
unfolding apply_to
apply_to-PatchView p old new h =
    let ignore = p.options.ignore_not_found in
    let a = bind-ok (patch_interfaces p.interfaces ignore old.spec.interfaces) _ h in
    let b = bind-ok (patch_routes p.routes ignore old.spec.routes) _ a.2 in
    let c = bind-ok (patch_nat p.nat ignore old.spec.nat) _ b.2 in
    let d = bind-ok (patch_dnsmasq p.dnsmasq ignore old.spec.dnsmasq) _ c.2 in
    let f = bind-ok (patch_firewall p.firewall ignore old.spec.firewall) _ d.2 in
    let nat = patch_nat-view p ignore old.spec.nat c.0 c.1 in
    let dns = patch_dnsmasq-view p ignore old.spec.dnsmasq d.0 d.1 in
    subst
      (λ (n : Router). PatchView p old.spec n.spec × (n.name ≡ old.name) × (n.status ≡ old.status))
      (ok_injective f.2)
      (
        record {
          interfaces = patch_interfaces-view p ignore old.spec.interfaces a.0 a.1;
          routes = patch_routes-view p ignore old.spec.routes b.0 b.1;
          snat_rules = nat.snat_rules;
          masquerades = nat.masquerades;
          dnat_rules = nat.dnat_rules;
          port_forwards = nat.port_forwards;
          destination_maps = nat.destination_maps;
          hosts = dns.0;
          firewall_rules = patch_firewall-view p ignore old.spec.firewall f.0 f.1;
          dnsmasq = dns.1;
          namespace = refl;
          owner = refl;
          labels = refl;
        },
        refl,
        refl,
      )
