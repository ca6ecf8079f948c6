-- ===== src/Sdwan/Normalize/Joined.antt =====
-- sdwan.go: the sites that the links of a full mesh, or of hubs and spokes, join.
use mathlib.Core.List.{Memᴰ}
use mathlib.Core.List.Memᴰ.{head, tail, not-nil}
use ovnflow.Base.{Bool, true, false, ◌&&◌, ◌||◌, not, List, [], ◌∷◌, All}
use ovnflow.Base.{Bool-cases, inl, inr, ◌≡◌, refl, sym, ap, ◌∙◌, subst, arith}
use ovnflow.Text.{Text, codes, text_eq}
use ovnflow.Text.Laws.{text_eq→eq, eq→text_eq}
use ovnflow.Sdwan.Types.{Network, Site, Link, pair_name, stable_name, is_relay_site}
use ovnflow.Sdwan.Normalize.{normalize_links, with_defaults, normalize_network}
use ovnflow.Sdwan.Normalize.Parts.{normalize_sites_idempotent}
use ovnflow.Sdwan.Normalize.Topology.{HasLink}
use ovnflow.Sdwan.Normalize.Mesh.{RowIn, MeshIn}
use ovnflow.Sdwan.Normalize.Hubs.{SpokesIn, HubsIn}
use ovnflow.Sdwan.Normalize.Origin.{Origin, from_given, from_sites, normalize_links-Origin}
use ovnflow.Sdwan.Normalize.Idempotent.{normalize_network-MeshIn, normalize_network-HubsIn}

-- Two ends are those two, in either order.
abbrev pub same_ends : Text → Text → Text → Text → Bool
same_ends source target a b =
    text_eq source a && text_eq target b || text_eq source b && text_eq target a

-- A link of that stable name between those ends does not stand for another pair of sites.
abbrev pub allows : Text → Text → Text → Site → Site → Bool
allows name source target a b =
    not (text_eq name (pair_name a.name b.name)) || same_ends source target a.name b.name

abbrev pub every {ℓ} : {A : Type ℓ} → (A → Bool) → List A → Bool
every p [] = true
every p (x ∷ xs) = p x && every p xs

-- The name that two of the sites make, be they one, is that of no two others and of no given link
-- between others.
abbrev pub separate : List Site → List Link → Bool
separate sites given =
    every
      (λ a.
        every
          (λ b.
            every (λ c. every (λ d. allows (pair_name c.name d.name) c.name d.name a b) sites) sites
            && every (λ g. allows (stable_name g) g.source g.target a b) given)
          sites)
      sites

-- Among the links is one between the two sites.
abbrev pub Joined : List Link → Site → Site → Type 0
Joined links a b = (l : Link) × Memᴰ l links × (same_ends l.source l.target a.name b.name ≡ true)

-- Each two of the sites are joined.
abbrev pub MeshJoined : List Link → List Site → Type 0
MeshJoined links [] = Unit {0}
MeshJoined links (a ∷ sites) = All (λ b. Joined links a b) sites × MeshJoined links sites

-- Each site that relays is joined to each that does not and has another name.
abbrev pub HubsJoined : List Link → List Site → List Site → Type 0
HubsJoined links all sites =
    All
      (λ hub.
        is_relay_site hub ≡ true
        → All (λ s. text_eq s.name hub.name ≡ false → is_relay_site s ≡ false → Joined links hub s)
            all)
      sites

and-true : (a b : Bool) → (a && b) ≡ true → (a ≡ true) × (b ≡ true)
and-true true true h = (refl, refl)
and-true true false h = cc
and-true false b h = cc

every-Mem {ℓ} :
    {A : Type ℓ} (p : A → Bool) (xs : List A) (x : A) → every p xs ≡ true → Memᴰ x xs → p x ≡ true
every-Mem p [] x h m = absurd (not-nil m)
every-Mem p (y ∷ xs) x h (head e) = ap p e ∙ (and-true (p y) (every p xs) h).0
every-Mem p (y ∷ xs) x h (tail m) = every-Mem p xs x (and-true (p y) (every p xs) h).1 m

All-Mem {ℓ κ} : {A : Type ℓ} (P : A → Type κ) (xs : List A) (x : A) → All P xs → Memᴰ x xs → P x
All-Mem P [] x h m = absurd (not-nil m)
All-Mem P (y ∷ xs) x h (head e) = subst P (sym e) h.0
All-Mem P (y ∷ xs) x h (tail m) = All-Mem P xs x h.1 m

any-Mem :
    (name : Text) (links : List Link)
    → HasLink name links
    → (l : Link) × Memᴰ l links × (text_eq (stable_name l) name ≡ true)
any-Mem name [] h = cc
any-Mem name (l ∷ links) h = elim (Bool-cases (text_eq (stable_name l) name)) [
  | inl e ↦ (l, head refl, e)
  | inr e ↦ let (k, m, f) = any-Mem name links (ground (arith, e, h)) in (k, tail m, f)
]

allows-ends :
    (name source target : Text) (a b : Site)
    → allows name source target a b ≡ true
    → name ≡ pair_name a.name b.name
    → same_ends source target a.name b.name ≡ true
allows-ends name source target a b h e =
    let same = eq→text_eq name (pair_name a.name b.name) e in ground (arith, h, same)

module _ (given : List Link) (all : List Site) (ok : separate all given ≡ true) where
  pair_ok :
      (a b : Site)
      → Memᴰ a all
      → Memᴰ b all
      → (every (λ c. every (λ d. allows (pair_name c.name d.name) c.name d.name a b) all) all
          && every (λ g. allows (stable_name g) g.source g.target a b) given)
        ≡ true
  pair_ok a b m k = every-Mem _ all b (every-Mem _ all a ok m) k

  Origin-ends :
      (a b : Site) (l : Link)
      → Memᴰ a all
      → Memᴰ b all
      → Origin given all l
      → stable_name l ≡ pair_name a.name b.name
      → same_ends l.source l.target a.name b.name ≡ true
  Origin-ends a b l m k (from_given g there name source target) e =
      let fine = (and-true _ _ (pair_ok a b m k)).1 in
      let ends =
        allows-ends (stable_name g) g.source g.target a b (every-Mem _ given g fine there)
          (sym name ∙ e) in
      rw (source, target) ends
  Origin-ends a b l m k (from_sites c d mc md name source target) e =
      let fine = (and-true _ _ (pair_ok a b m k)).0 in
      let ends =
        allows-ends (pair_name c.name d.name) c.name d.name a b
          (every-Mem _ all d (every-Mem _ all c fine mc) md) (sym name ∙ e) in
      rw (source, target) ends

  module _ (links : List Link) (origins : All (Origin given all) links) where
    HasLink-Joined :
        (a b : Site)
        → Memᴰ a all
        → Memᴰ b all
        → HasLink (pair_name a.name b.name) links
        → Joined links a b
    HasLink-Joined a b m k h =
        let (l, there, e) = any-Mem (pair_name a.name b.name) links h in
        (
          l,
          there,
          Origin-ends a b l m k (All-Mem (Origin given all) links l origins there)
              (text_eq→eq (stable_name l) (pair_name a.name b.name) e),
        )

    RowIn-Joined :
        (a : Site) (sites : List Site)
        → Memᴰ a all
        → ((s : Site) → Memᴰ s sites → Memᴰ s all)
        → RowIn links a sites
        → All (Joined links a) sites
    RowIn-Joined a [] m sub h = tt
    RowIn-Joined a (b ∷ sites) m sub h = (
      HasLink-Joined a b m (sub b (head refl)) h.0,
      RowIn-Joined a sites m (λ s k. sub s (tail k)) h.1,
    )

    MeshIn-Joined :
        (sites : List Site)
        → ((s : Site) → Memᴰ s sites → Memᴰ s all)
        → MeshIn links sites
        → MeshJoined links sites
    MeshIn-Joined [] sub h = tt
    MeshIn-Joined (a ∷ sites) sub h =
        let below : (s : Site) → Memᴰ s sites → Memᴰ s all = λ s k. sub s (tail k) in
        (RowIn-Joined a sites (sub a (head refl)) below h.0, MeshIn-Joined sites below h.1)

    SpokesIn-Joined :
        (hub : Site) (sites : List Site)
        → Memᴰ hub all
        → ((s : Site) → Memᴰ s sites → Memᴰ s all)
        → SpokesIn links hub sites
        → All
            (λ s. text_eq s.name hub.name ≡ false → is_relay_site s ≡ false → Joined links hub s)
            sites
    SpokesIn-Joined hub [] m sub h = tt
    SpokesIn-Joined hub (s ∷ sites) m sub h = (
      λ e f. HasLink-Joined hub s m (sub s (head refl)) (h.0 (rw (e, f) refl)),
      SpokesIn-Joined hub sites m (λ s k. sub s (tail k)) h.1,
    )

    HubsIn-Joined :
        (sites : List Site)
        → ((s : Site) → Memᴰ s sites → Memᴰ s all)
        → HubsIn links all sites
        → HubsJoined links all sites
    HubsIn-Joined [] sub h = tt
    HubsIn-Joined (hub ∷ sites) sub h = (
      λ e. SpokesIn-Joined hub all (sub hub (head refl)) (λ s k. k) (h.0 e),
      HubsIn-Joined sites (λ s k. sub s (tail k)) h.1,
    )

normalize_network-Origin :
    (n : Network) → All (Origin n.links (normalize_network n).sites) (normalize_network n).links
unfolding normalize_network with_defaults
normalize_network-Origin n =
    subst (λ (sites : List Site). All (Origin n.links sites) (normalize_links (with_defaults n)))
      (normalize_sites_idempotent n.sites) (normalize_links-Origin (with_defaults n))

-- In the normal form of a full mesh each two of its sites are joined by a link, whichever end the
-- link starts from. This holds if no two sites, be they one, make the name that two others make, and
-- no given link between others has that name.
pub normalize_network-MeshJoined :
    (n : Network)
    → n.topology ≡ codes "full-mesh"
    → separate (normalize_network n).sites n.links ≡ true
    → MeshJoined (normalize_network n).links (normalize_network n).sites
normalize_network-MeshJoined n e ok =
    let m = normalize_network n in
    MeshIn-Joined n.links m.sites ok m.links (normalize_network-Origin n) m.sites (λ s k. k)
      (normalize_network-MeshIn n e)

-- In the normal form of a hub-and-spoke network every relaying site (a hub, or one marked for
-- transit or relay) is joined by a link to every site of another name that does not relay, whichever
-- end the link starts from. This holds if no two sites, be they one, make the name that two others
-- make, and no given link between others has that name.
pub normalize_network-HubsJoined :
    (n : Network)
    → n.topology ≡ codes "hub-spoke"
    → separate (normalize_network n).sites n.links ≡ true
    → HubsJoined (normalize_network n).links (normalize_network n).sites (normalize_network n).sites
normalize_network-HubsJoined n e ok =
    let m = normalize_network n in
    HubsIn-Joined n.links m.sites ok m.links (normalize_network-Origin n) m.sites (λ s k. k)
      (normalize_network-HubsIn n e)
