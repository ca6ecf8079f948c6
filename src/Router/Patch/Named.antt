-- ===== src/Router/Patch/Named.antt =====
-- linuxrouter/router.go: `replaceByName` and `deleteByName` on lists whose values have names.
use ovnflow.Base.{Bool, true, false, ◌≡◌, refl, ap, ◌∙◌, sym, inl, inr, List, [], ◌∷◌, ◌++◌, arith}
use ovnflow.Base.{Option, none, some, Bool-cases, if◌then◌else◌, String}
use ovnflow.Text.{Text, text_eq}
use ovnflow.Text.Laws.{text_eq→eq, text_eq_sym}
use ovnflow.Errors.{ok, ok_injective}
use ovnflow.Util.{contains_string}
use ovnflow.Router.Patch.{
  replace_one, replace_by_name, first_missing, without_names, check_missing, delete_by_name,
}

abbrev pub or_else {ℓ} : {A : Type ℓ} → Option A → Option A → Option A
or_else none o = o
or_else (some a) o = some a

-- No value if the name is among the names.
abbrev pub unless_named {ℓ} : {A : Type ℓ} → List Text → Text → Option A → Option A
unless_named names x o = if contains_string names x then none else o

unless-gone {ℓ} :
    {A : Type ℓ} (names : List Text) (x : Text) (o : Option A)
    → contains_string names x ≡ true
    → unless_named names x o ≡ none
unless-gone names x o h = rw h refl

or_else-if {ℓ} :
    {A : Type ℓ} (a : Option A) (c : Bool) (v : A) (o : Option A)
    → or_else a (if c then some v else o) ≡ or_else (or_else a (if c then some v else none)) o
or_else-if (some a) c v o = refl
or_else-if none true v o = refl
or_else-if none false v o = refl

check_missing-ok {ℓ} :
    {A : Type ℓ} (kind message : String) (out : List A) (missing : Option Text) (kept : List A)
    → check_missing kind message out missing ≡ ok kept
    → out ≡ kept
check_missing-ok kind message out none kept h = ok_injective h
check_missing-ok kind message out (some name) kept h = cc

module _ {ℓ} {A : Type ℓ} (name_of : A → Text) where
  -- The first value with a name, which is what a list of named values means.
  unfoldable pub named_in : List A → Text → Option A
  named_in [] x = none
  named_in (a ∷ rest) x =
      let later = named_in rest x in if text_eq (name_of a) x then some a else later

  -- The last value with a name.
  unfoldable pub last_named : List A → Text → Option A
  last_named [] x = none
  last_named (a ∷ rest) x =
      or_else (last_named rest x) (if text_eq (name_of a) x then some a else none)

  named_in-append :
      (xs bs : List A) (x : Text) → named_in (xs ++ bs) x ≡ or_else (named_in xs x) (named_in bs x)
  unfolding named_in
  named_in-append [] bs x = refl
  named_in-append (a ∷ xs) bs x = elim (Bool-cases (text_eq (name_of a) x)) [
    | inl h ↦ rw h refl
    | inr h ↦ rw h (named_in-append xs bs x)
  ]

  named_in-without_names :
      (names : List Text) (base : List A) (x : Text)
      → named_in (without_names name_of names base) x ≡ unless_named names x (named_in base x)
  unfolding named_in without_names
  named_in-without_names names [] x = ground arith
  named_in-without_names names (a ∷ base) x = elim (Bool-cases (text_eq (name_of a) x)) [
    | inl here ↦
        let name : name_of a ≡ x = text_eq→eq _ _ here in
        let same = ap (contains_string names) name in
        elim (Bool-cases (contains_string names (name_of a))) [
          | inl gone ↦
              let none_left : contains_string names x ≡ true = sym same ∙ gone in
              let rest = named_in-without_names names base x in
              rw gone
                (rest ∙ unless-gone names x _ none_left ∙ sym (unless-gone names x _ none_left))
          | inr kept ↦
              let left : contains_string names x ≡ false = sym same ∙ kept in
              rw (kept, here, left) refl
        ]
    | inr other ↦ elim (Bool-cases (contains_string names (name_of a))) [
      | inl gone ↦ rw (gone, other) (named_in-without_names names base x)
      | inr kept ↦ rw (kept, other) (named_in-without_names names base x)
    ]
  ]

  named_in-replace_one :
      (replacement : A) (base : List A) (x : Text)
      → named_in (replace_one name_of replacement base) x
        ≡ (if text_eq (name_of replacement) x then some replacement else named_in base x)
  unfolding named_in replace_one
  named_in-replace_one r [] x = refl
  named_in-replace_one r (a ∷ base) x = elim (Bool-cases (text_eq (name_of a) (name_of r))) [
    | inl same ↦
        let name = ap (λ n. text_eq n x) (text_eq→eq _ _ same) in
        elim (Bool-cases (text_eq (name_of r) x)) [
          | inl here ↦ rw (same, here) refl
          | inr other ↦ let skipped = name ∙ other in rw (same, other, skipped) refl
        ]
    | inr apart ↦ elim (Bool-cases (text_eq (name_of a) x)) [
      | inl here ↦
          let other : text_eq (name_of r) x ≡ false =
            ap (text_eq (name_of r)) (sym (text_eq→eq _ _ here)) ∙ text_eq_sym _ _ ∙ apart in
          rw (apart, here, other) refl
      | inr other ↦ rw (apart, other) (named_in-replace_one r base x)
    ]
  ]

  named_in-replace_by_name :
      (base replacements : List A) (x : Text)
      → named_in (replace_by_name name_of base replacements) x
        ≡ or_else (last_named replacements x) (named_in base x)
  unfolding last_named replace_by_name
  named_in-replace_by_name base [] x = refl
  named_in-replace_by_name base (r ∷ replacements) x =
      let rest = named_in-replace_by_name (replace_one name_of r base) replacements x in
      let one = named_in-replace_one r base x in
      rest
      ∙ ap (or_else (last_named replacements x)) one
      ∙ or_else-if (last_named replacements x) (text_eq (name_of r) x) r (named_in base x)

  -- What `deleteByName` keeps, and that nothing it was to delete was missing, unless missing names
  -- are ignored.
  pub delete_by_name-view :
      (base : List A) (names : List Text) (ignore : Bool) (kind message : String) (kept : List A)
      → delete_by_name name_of base names ignore kind message ≡ ok kept
      → (x : Text) → named_in kept x ≡ unless_named names x (named_in base x)
  unfolding delete_by_name contains_string named_in
  delete_by_name-view base [] ignore kind message kept h x =
      ap (λ l. named_in l x) (sym (ok_injective h))
  delete_by_name-view base (name ∷ names) ignore kind message kept h x =
      let out =
        check_missing-ok kind message _
          (if ignore then none else first_missing name_of base (name ∷ names)) kept h in
      ap (λ l. named_in l x) (sym out) ∙ named_in-without_names (name ∷ names) base x

  -- The values with a name behind replacements, deletions and additions: an addition stands behind
  -- what is kept, a deletion takes precedence over a replacement, and of two replacements the last
  -- one is taken.
  unfoldable pub edited : List A → List A → List Text → List A → Text → Option A
  edited base replacements names additions x =
      or_else (unless_named names x (or_else (last_named replacements x) (named_in base x)))
        (named_in additions x)

  pub edited-view :
      (base replacements additions : List A) (names : List Text) (ignore : Bool)
      → (kind message : String) (kept : List A)
      → delete_by_name name_of (replace_by_name name_of base replacements) names ignore kind message
        ≡ ok kept
      → (x : Text) → named_in (kept ++ additions) x ≡ edited base replacements names additions x
  unfolding edited
  edited-view base replacements additions names ignore kind message kept h x =
      let deleted = delete_by_name-view _ names ignore kind message kept h x in
      let replaced = named_in-replace_by_name base replacements x in
      named_in-append kept additions x
      ∙ ap (λ o. or_else o (named_in additions x)) (deleted ∙ ap (unless_named names x) replaced)
