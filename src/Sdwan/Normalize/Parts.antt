-- ===== src/Sdwan/Normalize/Parts.antt =====
-- sdwan.go: the normal forms of sites and links are reached in one step.
use ovnflow.Base.{true, false, List, [], ◌∷◌, ◌++◌}
use ovnflow.Base.{if◌then◌else◌, Bool-cases, inl, inr, ◌≡◌, refl, arith}
use ovnflow.Base.Sort.Laws.{sort-map_idempotent}
use ovnflow.Text.{Text, codes, text_lt, is_empty}
use ovnflow.Text.Laws.{text_lt_irrefl, text_lt_trans}
use ovnflow.Util.Unique.{unique_strings_idempotent}
use ovnflow.Sdwan.Types.{Site, Link, pair_name, stable_name, text_or}
use ovnflow.Sdwan.Normalize.{
  normalize_site, site_less, normalize_sites, named, default_path_mode, finish_link,
}

pub text_lt_asym : (s t : Text) → text_lt s t ≡ true → text_lt t s ≡ false
text_lt_asym s t h = elim (Bool-cases (text_lt t s)) [
  | inl e ↦ let c = text_lt_trans s t s h e in let i = text_lt_irrefl s in ground (arith, c, i)
  | inr e ↦ e
]

normalize_site_idempotent : (s : Site) → normalize_site (normalize_site s) ≡ normalize_site s
unfolding normalize_site
normalize_site_idempotent s =
    rw (unique_strings_idempotent s.cidrs, unique_strings_idempotent s.l2_segments) refl

pub normalize_sites_idempotent :
    (sites : List Site) → normalize_sites (normalize_sites sites) ≡ normalize_sites sites
unfolding normalize_sites site_less
normalize_sites_idempotent sites =
    sort-map_idempotent site_less normalize_site (λ a b. text_lt_asym a.name b.name)
      normalize_site_idempotent sites

-- Neither the stable name of a link nor that under which it is stored is empty.
is_empty-append : (a b : Text) → is_empty b ≡ false → is_empty (a ++ b) ≡ false
is_empty-append [] b h = h
is_empty-append (x ∷ a) b h = refl

is_empty-front : (a b : Text) → is_empty a ≡ false → is_empty (a ++ b) ≡ false
is_empty-front [] b h = cc
is_empty-front (x ∷ a) b h = refl

is_empty-pair_name : (a b : Text) → is_empty (pair_name a b) ≡ false
unfolding pair_name
is_empty-pair_name a b = elim (Bool-cases (text_lt b a)) [
  | inl e ↦ rw e (is_empty-front (b ++ codes "--") a (is_empty-append b (codes "--") refl))
  | inr e ↦ rw e (is_empty-front (a ++ codes "--") b (is_empty-append a (codes "--") refl))
]

is_empty-stable_name : (l : Link) → is_empty (stable_name l) ≡ false
unfolding stable_name
is_empty-stable_name l = elim (Bool-cases (is_empty l.name)) [
  | inl e ↦ rw e (is_empty-pair_name l.source l.target)
  | inr e ↦ rw (e, e) refl
]

-- A link with a name has it as its stable name.
stable_name-name : (l : Link) → is_empty l.name ≡ false → stable_name l ≡ l.name
unfolding stable_name
stable_name-name l h = rw h refl

pub stable_name-named : (l : Link) → stable_name (named l) ≡ stable_name l
stable_name-named l = stable_name-name (named l) (is_empty-stable_name l)

pub text_or_idempotent :
    (value default : Text) → text_or (text_or value default) default ≡ text_or value default
text_or_idempotent value default = elim (Bool-cases (is_empty value)) [
  | inl e ↦ elim (Bool-cases (is_empty default)) [
    | inl e' ↦ rw (e, e') refl
    | inr e' ↦ rw (e, e') refl
  ]
  | inr e ↦ rw (e, e) refl
]

pub stable_name-finish_link :
    (transport mode : Text) (relays : List Text) (l : Link)
    → stable_name (finish_link transport mode relays l) ≡ stable_name l
unfolding finish_link
stable_name-finish_link transport mode relays l =
    stable_name-name (finish_link transport mode relays l) (is_empty-stable_name l)

is_empty-default_path_mode :
    (mode : Text) (l : Link) (relays : List Text)
    → is_empty (default_path_mode mode l relays) ≡ false
unfolding default_path_mode
is_empty-default_path_mode mode l relays = elim (Bool-cases (is_empty mode)) [
  | inl e ↦ rw e refl
  | inr e ↦ ground (arith, e)
]

set_path_mode : Text → Text → Text
set_path_mode path default = if is_empty path then default else path

set_path_mode_idempotent :
    (path d e : Text)
    → is_empty d ≡ false
    → set_path_mode (set_path_mode path d) e ≡ set_path_mode path d
unfolding set_path_mode
set_path_mode_idempotent path d e h = elim (Bool-cases (is_empty path)) [
  | inl p ↦ rw (p, h) refl
  | inr p ↦ rw (p, p) refl
]

pub finish_link_idempotent :
    (transport mode : Text) (relays : List Text) (l : Link)
    → finish_link transport mode relays (finish_link transport mode relays l)
      ≡ finish_link transport mode relays l
unfolding finish_link set_path_mode
finish_link_idempotent transport mode relays l =
    let path =
      set_path_mode_idempotent l.path_mode (default_path_mode mode l relays)
        (default_path_mode mode (finish_link transport mode relays l) relays)
        (is_empty-default_path_mode mode l relays) in
    rw
      (
        unique_strings_idempotent l.allowed_ips,
        text_or_idempotent l.transport transport,
        stable_name-finish_link transport mode relays l,
        path,
      )
      refl
