-- ===== src/Sdwan/Equal.antt =====
-- `reflect.DeepEqual` of two networks in normal form, where no slice or map is nil or all empty
-- ones are.
use ovnflow.Base.{Bool, true, false, ◌&&◌, List, [], ◌∷◌, ◌≡◌, refl, ==_refl}
use ovnflow.Text.{Text, text_eq}
use ovnflow.Text.Laws.{text_eq_refl}
use ovnflow.Util.Dict.{Dict}
use ovnflow.Util.Int.{ℤ, pos, negsuc, int_eq}
use ovnflow.Util.Equal.{list_eq, bool_eq, texts_eq, entry_eq}
use ovnflow.Owner.{OwnerRef}
use ovnflow.Sdwan.Types.{Network, Site, Link, Policy}

unfoldable pub site_eq : Site → Site → Bool
site_eq a b =
    text_eq a.name b.name
    && text_eq a.router b.router
    && texts_eq a.cidrs b.cidrs
    && text_eq a.endpoint b.endpoint
    && text_eq a.public_key b.public_key
    && text_eq a.role b.role
    && list_eq entry_eq a.attributes b.attributes
    && texts_eq a.l2_segments b.l2_segments
    && bool_eq a.transit b.transit
    && bool_eq a.relay b.relay

unfoldable pub link_eq : Link → Link → Bool
link_eq a b =
    text_eq a.name b.name
    && text_eq a.source b.source
    && text_eq a.target b.target
    && text_eq a.transport b.transport
    && text_eq a.path_mode b.path_mode
    && text_eq a.endpoint_a b.endpoint_a
    && text_eq a.endpoint_b b.endpoint_b
    && texts_eq a.allowed_ips b.allowed_ips
    && int_eq a.cost b.cost
    && bool_eq a.enabled b.enabled
    && bool_eq a.disabled b.disabled
    && list_eq entry_eq a.attributes b.attributes

unfoldable pub policy_eq : Policy → Policy → Bool
policy_eq a b =
    text_eq a.name b.name
    && text_eq a.layer b.layer
    && text_eq a.source_site b.source_site
    && text_eq a.dest_site b.dest_site
    && texts_eq a.source_cidrs b.source_cidrs
    && texts_eq a.dest_cidrs b.dest_cidrs
    && texts_eq a.prefer_links b.prefer_links
    && texts_eq a.avoid_links b.avoid_links
    && int_eq a.priority b.priority

unfoldable pub owner_eq : OwnerRef → OwnerRef → Bool
owner_eq a b = text_eq a.kind b.kind && text_eq a.name b.name && text_eq a.id b.id

-- The statuses are left out: both are the zero value where networks are compared.
unfoldable pub network_eq : Network → Network → Bool
network_eq a b =
    text_eq a.name b.name
    && text_eq a.layer b.layer
    && text_eq a.topology b.topology
    && text_eq a.transport b.transport
    && text_eq a.path_mode b.path_mode
    && list_eq site_eq a.sites b.sites
    && list_eq link_eq a.links b.links
    && list_eq policy_eq a.policies b.policies
    && owner_eq a.owner b.owner
    && list_eq entry_eq a.labels b.labels

list_eq_refl {ℓ} :
    {A : Type ℓ} (eq : A → A → Bool)
    → ((a : A) → eq a a ≡ true)
    → (xs : List A) → list_eq eq xs xs ≡ true
unfolding list_eq
list_eq_refl eq h [] = refl
list_eq_refl eq h (x ∷ xs) = rw (h x) (list_eq_refl eq h xs)

int_eq_refl : (z : ℤ) → int_eq z z ≡ true
unfolding int_eq
int_eq_refl (pos n) = ==_refl n
int_eq_refl (negsuc n) = ==_refl n

bool_eq_refl : (b : Bool) → bool_eq b b ≡ true
unfolding bool_eq
bool_eq_refl true = refl
bool_eq_refl false = refl

texts_eq_refl : (xs : List Text) → texts_eq xs xs ≡ true
texts_eq_refl = list_eq_refl text_eq text_eq_refl

dict_eq_refl : (d : Dict Text) → list_eq entry_eq d d ≡ true
unfolding entry_eq
dict_eq_refl = list_eq_refl entry_eq (λ e. rw (text_eq_refl e.0) (text_eq_refl e.1))

site_eq_refl : (s : Site) → site_eq s s ≡ true
unfolding site_eq
site_eq_refl s = simp (text_eq_refl, texts_eq_refl, dict_eq_refl, bool_eq_refl)

link_eq_refl : (l : Link) → link_eq l l ≡ true
unfolding link_eq
link_eq_refl l = simp (text_eq_refl, texts_eq_refl, dict_eq_refl, bool_eq_refl, int_eq_refl)

policy_eq_refl : (p : Policy) → policy_eq p p ≡ true
unfolding policy_eq
policy_eq_refl p = simp (text_eq_refl, texts_eq_refl, int_eq_refl)

pub network_eq_refl : (n : Network) → network_eq n n ≡ true
unfolding network_eq owner_eq
network_eq_refl n = simp (
  text_eq_refl,
  dict_eq_refl,
  list_eq_refl site_eq site_eq_refl,
  list_eq_refl link_eq link_eq_refl,
  list_eq_refl policy_eq policy_eq_refl,
)
