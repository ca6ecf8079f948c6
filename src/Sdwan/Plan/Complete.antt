-- ===== src/Sdwan/Plan/Complete.antt =====
-- sdwan.go: the plan of a network brings every link about that is not disabled.
use mathlib.Core.List.{Memᴰ}
use mathlib.Core.List.Memᴰ.{head, tail, append_left, append_right}
use ovnflow.Base.{true, false, not, ◌||◌, List, [], ◌∷◌, ◌++◌, map, All, All-weaken, String}
use ovnflow.Base.{Bool-cases, inl, inr, ◌≡◌, ◌≢◌, refl, sym, ◌∙◌, subst}
use ovnflow.Base.Sort.Laws.{sort_by-All}
use ovnflow.Text.{Text, codes, text_eq}
use ovnflow.Sdwan.Types.{Network, Link, Operation, stable_name, is_relayed}
use ovnflow.Sdwan.Normalize.{
  link_less, finish_link, relay_site_names, topology_links, normalize_links,
}
use ovnflow.Sdwan.Plan.{site_ops, tunnel_op, forward_op, path_ops, link_ops, policy_ops, plan_apply}

-- An operation that ensures the resource under the name is among some.
abbrev pub Has : List Operation → String → Text → Type 0
Has ops resource name =
    (description : Text) × Memᴰ
      (record {
        action = codes "ensure";
        resource = codes resource;
        name = name;
        description = description;
      })
      ops

-- Among the operations is what the link takes, by its transport, the layer of the network and its
-- path mode.
pub record Brings (layer : Text) (ops : List Operation) (l : Link) : Type 0 where
  pub wireguard : l.transport ≡ codes "wireguard" → Has ops "WireGuardTunnel" (stable_name l)
  pub geneve : l.transport ≡ codes "geneve" → Has ops "OVSTunnel" (stable_name l)
  pub vxlan : l.transport ≡ codes "vxlan" → Has ops "OVSTunnel" (stable_name l)
  pub routes : layer ≡ codes "l3" → Has ops "RoutePolicy" (stable_name l)
  pub forwards : layer ≡ codes "l2" → Has ops "OpenFlowRule" (stable_name l)
  pub relayed : l.path_mode ≡ codes "relay" → Has ops "SDWANPath" (stable_name l)
  pub transited : l.path_mode ≡ codes "transit" → Has ops "SDWANPath" (stable_name l)
  pub chosen : l.path_mode ≡ codes "auto" → Has ops "SDWANPath" (stable_name l)

-- All of it, for a link that is not disabled.
abbrev pub Planned : Text → List Operation → Link → Type 0
Planned layer ops l = l.disabled ≡ false → Brings layer ops l

Has-weaken :
    (ops more : List Operation) (resource : String) (name : Text)
    → ((op : Operation) → Memᴰ op ops → Memᴰ op more)
    → Has ops resource name
    → Has more resource name
Has-weaken ops more resource name f (d, m) = (d, f _ m)

Brings-weaken :
    (layer : Text) (ops more : List Operation) (l : Link)
    → ((op : Operation) → Memᴰ op ops → Memᴰ op more)
    → Brings layer ops l
    → Brings layer more l
Brings-weaken layer ops more l f b =
    let weaken : (resource : String)
        → Has ops resource (stable_name l)
        → Has more resource (stable_name l) =
      λ resource. Has-weaken ops more resource (stable_name l) f in
    record {
      wireguard = λ e. weaken "WireGuardTunnel" (b.wireguard e);
      geneve = λ e. weaken "OVSTunnel" (b.geneve e);
      vxlan = λ e. weaken "OVSTunnel" (b.vxlan e);
      routes = λ e. weaken "RoutePolicy" (b.routes e);
      forwards = λ e. weaken "OpenFlowRule" (b.forwards e);
      relayed = λ e. weaken "SDWANPath" (b.relayed e);
      transited = λ e. weaken "SDWANPath" (b.transited e);
      chosen = λ e. weaken "SDWANPath" (b.chosen e);
    }

-- What a link takes itself.
abbrev own_ops : Text → Link → List Operation → List Operation
own_ops layer l rest = tunnel_op l ∷ forward_op layer l ∷ (path_ops l ++ rest)

own-Brings :
    (layer : Text) (l : Link) (rest : List Operation) → Brings layer (own_ops layer l rest) l
unfolding tunnel_op forward_op path_ops is_relayed text_eq
own-Brings layer l rest = record {
  wireguard = λ e. (codes "ensure SD-WAN tunnel", head (rw e refl));
  geneve = λ e. (codes "ensure SD-WAN tunnel", head (rw e refl));
  vxlan = λ e. (codes "ensure SD-WAN tunnel", head (rw e refl));
  routes = λ e. (codes "ensure SD-WAN route and policy-routing state", tail (head (rw e refl)));
  forwards = λ e. (codes "ensure L2 overlay forwarding flow", tail (head (rw e refl)));
  relayed = λ e. (
    codes "ensure SD-WAN path selection and relay compatibility",
    rw e (tail (tail (head refl))),
  );
  transited = λ e. (
    codes "ensure SD-WAN path selection and relay compatibility",
    rw e (tail (tail (head refl))),
  );
  chosen = λ e. (
    codes "ensure SD-WAN path selection and relay compatibility",
    rw e (tail (tail (head refl))),
  );
}

-- What normalization makes of `Enabled`.
abbrev IsSwitched : Link → Type 0
IsSwitched l = l.enabled ≡ not l.disabled

true≢false : true ≢ false
true≢false h = cc

map-IsSwitched :
    (transport mode : Text) (relays : List Text) (links : List Link)
    → All IsSwitched (map (finish_link transport mode relays) links)
unfolding finish_link
map-IsSwitched transport mode relays [] = tt
map-IsSwitched transport mode relays (l ∷ links) =
    (refl, map-IsSwitched transport mode relays links)

normalize_links-IsSwitched : (n : Network) → All IsSwitched (normalize_links n)
unfolding normalize_links finish_link
normalize_links-IsSwitched n =
    let finish = finish_link n.transport n.path_mode (relay_site_names n.sites) in
    sort_by-All IsSwitched link_less (map finish (topology_links n))
      (map-IsSwitched n.transport n.path_mode (relay_site_names n.sites) (topology_links n))

link_ops-off :
    (layer : Text) (l : Link) (links : List Link)
    → (l.disabled || not l.enabled) ≡ true
    → link_ops layer links ≡ link_ops layer (l ∷ links)
unfolding link_ops
link_ops-off layer l links h = rw h refl

link_ops-on :
    (layer : Text) (l : Link) (links : List Link)
    → (l.disabled || not l.enabled) ≡ false
    → (tunnel_op l ∷ forward_op layer l ∷ (path_ops l ++ link_ops layer links))
      ≡ link_ops layer (l ∷ links)
unfolding link_ops
link_ops-on layer l links h = rw h refl

link_ops-Planned :
    (layer : Text) (links : List Link)
    → All IsSwitched links
    → All (Planned layer (link_ops layer links)) links
link_ops-Planned layer [] h = tt
link_ops-Planned layer (l ∷ links) h =
    let rest = link_ops layer links in
    let all = own_ops layer l rest in
    let r = link_ops-Planned layer links h.1 in
    let Goal : List Operation → Type 0 =
      λ ops. Planned layer ops l × All (Planned layer ops) links in
    elim (Bool-cases l.disabled) [
      | inl e ↦
          subst Goal (link_ops-off layer l links (rw e refl))
            (λ k. absurd (true≢false (sym e ∙ k)), r)
      | inr e ↦ subst Goal (link_ops-on layer l links (rw (h.0, e) refl)) (
        λ on. own-Brings layer l rest,
        All-weaken (Planned layer rest) (Planned layer all) links
            (λ k h on.
              Brings-weaken layer rest all k (λ op m. tail (tail (append_right (path_ops l) m)))
                (h on))
            r,
      )
    ]

-- For every link of a network's normal form that is not disabled, the plan has operations under the
-- link's stable name: one that ensures the tunnel, of WireGuard or, with a geneve or vxlan
-- transport, of OVS; one for its routes in a network of layer l3, and for its forwarding flow in one
-- of layer l2; and, if its path mode is relay, transit or auto, one for the selection of its path.
pub plan_apply-Planned :
    (n : Network) → All (Planned n.layer (plan_apply n).operations) (normalize_links n)
unfolding plan_apply
plan_apply-Planned n =
    let links = normalize_links n in
    let ops = link_ops n.layer links in
    All-weaken (Planned n.layer ops) (Planned n.layer (plan_apply n).operations) links
      (λ l h on.
        Brings-weaken n.layer ops _ l
          (λ op m. tail (append_right (site_ops n.sites) (append_left (policy_ops n.policies) m)))
          (h on))
      (link_ops-Planned n.layer links (normalize_links-IsSwitched n))
