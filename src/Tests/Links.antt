-- ===== src/Tests/Links.antt =====
-- sdwan.go: the links of normal forms, and the theorems at them.
use ovnflow.Base.{ℕ, true, ◌≡◌, refl, [], ◌∷◌, All}
use ovnflow.Base.Sort.{sort_by}
use ovnflow.Text.{codes, text_eq, text_lt}
use ovnflow.Util.{contains_string, unique_loop, unique_strings}
use ovnflow.Sdwan.Types.{Network, stable_name, pair_name}
use ovnflow.Sdwan.Normalize.{
  site_less, normalize_site, normalize_sites, auto_link, with_defaults, normalize_links,
  normalize_network,
}
use ovnflow.Sdwan.Normalize.Given.{Keeps, normalize_network-given}
use ovnflow.Sdwan.Normalize.Joined.{
  separate, MeshJoined, HubsJoined, normalize_network-MeshJoined, normalize_network-HubsJoined,
}
use ovnflow.Sdwan.Plan.{plan_apply}
use ovnflow.Sdwan.Plan.Complete.{Planned, plan_apply-Planned}
use ovnflow.Tests.Sdwan.{mesh, star}

-- The full mesh with a link that is given without a name, from south to north.
abbrev linked : Network
linked = record mesh { links = auto_link [] (codes "nice") (codes "lyon") ∷ [] }

run : ℕ
unfolding sort_by text_eq text_lt contains_string unique_loop unique_strings stable_name pair_name
    site_less normalize_site normalize_sites auto_link with_defaults normalize_network
run = 0

separate-linked : separate (normalize_network linked).sites linked.links ≡ true
unfolding run
separate-linked = refl

separate-star : separate (normalize_network star).sites star.links ≡ true
unfolding run
separate-star = refl

normalize_network-MeshJoined_example :
    MeshJoined (normalize_network linked).links (normalize_network linked).sites
normalize_network-MeshJoined_example = normalize_network-MeshJoined linked refl separate-linked

normalize_network-HubsJoined_example :
    HubsJoined
      (normalize_network star).links
      (normalize_network star).sites
      (normalize_network star).sites
normalize_network-HubsJoined_example = normalize_network-HubsJoined star refl separate-star

normalize_network-given_example :
    Keeps (codes "wireguard") linked.links (normalize_network linked).links
normalize_network-given_example = normalize_network-given linked

plan_apply-Planned_example :
    All
      (Planned (codes "l3") (plan_apply (normalize_network mesh)).operations)
      (normalize_links (normalize_network mesh))
unfolding normalize_network with_defaults
plan_apply-Planned_example = plan_apply-Planned (normalize_network mesh)
