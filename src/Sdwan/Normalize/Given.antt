-- ===== src/Sdwan/Normalize/Given.antt =====
-- sdwan.go: the links that a network was given are in its normal form.
use mathlib.Core.List.{Perm}
use ovnflow.Base.{false, not, List, [], ◌∷◌, ◌++◌, map, All}
use ovnflow.Base.{◌≡◌, refl, ◌∙◌, ap, subst}
use ovnflow.Base.Sort.Perms.{sort_by-Perm}
use ovnflow.Text.{Text, codes, is_empty}
use ovnflow.Util.{unique_strings}
use ovnflow.Sdwan.Types.{Network, Link, stable_name, text_or}
use ovnflow.Sdwan.Normalize.{
  link_less, relay_site_names, finish_link, topology_links, normalize_links, with_defaults,
  normalize_network,
}
use ovnflow.Sdwan.Normalize.Parts.{stable_name-finish_link}
use ovnflow.Sdwan.Normalize.Extends.{IsNew, topology_links-Extends}

-- What normalization makes of a given link `g`: it gets a name and the defaults, and loses nothing.
pub record Kept (default : Text) (g l : Link) : Type 0 where
  pub name : l.name ≡ stable_name g
  pub source : l.source ≡ g.source
  pub target : l.target ≡ g.target
  pub transport : l.transport ≡ text_or g.transport default
  pub path_mode : is_empty g.path_mode ≡ false → l.path_mode ≡ g.path_mode
  pub endpoint_a : l.endpoint_a ≡ g.endpoint_a
  pub endpoint_b : l.endpoint_b ≡ g.endpoint_b
  pub allowed_ips : l.allowed_ips ≡ unique_strings g.allowed_ips
  pub cost : l.cost ≡ g.cost
  pub enabled : l.enabled ≡ not g.disabled
  pub disabled : l.disabled ≡ g.disabled
  pub attributes : l.attributes ≡ g.attributes

-- One link for each given link.
pub data EachKept (default : Text) : List Link → List Link → Type 0 where
  nil : EachKept default [] []
  cons :
      (g l : Link) (given links : List Link)
      → Kept default g l
      → EachKept default given links
      → EachKept default (g ∷ given) (l ∷ links)

-- The links are, in some order, one for each given link, and others under new names.
pub record Keeps (default : Text) (given links : List Link) : Type 0 where
  pub kept : List Link
  pub added : List Link
  pub each : EachKept default given kept
  pub new : All (IsNew given) added
  pub all : Perm links (kept ++ added)

finish_link-Kept :
    (t mode : Text) (relays : List Text) (g : Link) → Kept t g (finish_link t mode relays g)
unfolding finish_link
finish_link-Kept t mode relays g = record {
  name = refl;
  source = refl;
  target = refl;
  transport = refl;
  path_mode = λ e. rw e refl;
  endpoint_a = refl;
  endpoint_b = refl;
  allowed_ips = refl;
  cost = refl;
  enabled = refl;
  disabled = refl;
  attributes = refl;
}

map-EachKept :
    (t mode : Text) (relays : List Text) (given : List Link)
    → EachKept t given (map (finish_link t mode relays) given)
map-EachKept t mode relays [] = nil
map-EachKept t mode relays (g ∷ given) =
    cons g (finish_link t mode relays g) given (map (finish_link t mode relays) given)
      (finish_link-Kept t mode relays g) (map-EachKept t mode relays given)

map-IsNew :
    (t mode : Text) (relays : List Text) (given added : List Link)
    → All (IsNew given) added
    → All (IsNew given) (map (finish_link t mode relays) added)
map-IsNew t mode relays given [] h = tt
map-IsNew t mode relays given (l ∷ added) h =
    (rw (stable_name-finish_link t mode relays l) h.0, map-IsNew t mode relays given added h.1)

map-append : (f : Link → Link) (xs ys : List Link) → map f (xs ++ ys) ≡ map f xs ++ map f ys
map-append f [] ys = refl
map-append f (x ∷ xs) ys = ap (λ r. f x ∷ r) (map-append f xs ys)

normalize_links-Keeps : (n : Network) → Keeps n.transport n.links (normalize_links n)
unfolding normalize_links
normalize_links-Keeps n =
    let relays = relay_site_names n.sites in
    let finish = finish_link n.transport n.path_mode relays in
    let more = topology_links-Extends n in
    record {
      kept = map finish n.links;
      added = map finish more.added;
      each = map-EachKept n.transport n.path_mode relays n.links;
      new = map-IsNew n.transport n.path_mode relays n.links more.added more.new;
      all =
          subst (Perm (normalize_links n))
            (ap (map finish) more.all ∙ map-append finish n.links more.added)
            (sort_by-Perm link_less (map finish (topology_links n)));
    }

-- Normalization drops none of the links that a network was given and changes none but for what it
-- sets: the links of the normal form are, in some order, one for each given link, with its stable
-- name, its ends, endpoints, cost and attributes, with its transport and path mode if they are not
-- empty (else with the network's transport), enabled unless it is disabled, and with its allowed
-- addresses once each; and besides only links under names that no given link has.
pub normalize_network-given :
    (n : Network)
    → Keeps (text_or n.transport (codes "wireguard")) n.links (normalize_network n).links
unfolding normalize_network with_defaults
normalize_network-given n = normalize_links-Keeps (with_defaults n)
