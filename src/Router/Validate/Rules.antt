-- ===== src/Router/Validate/Rules.antt =====
-- linuxrouter/router.go: the names of rules, and the checks of one rule.
use ovnflow.Base.{
  ℕ, ◌≤◌, Bool, true, false, ◌||◌, not, ◌≡◌, refl, sym, subst, List, [], ◌∷◌, ◌++◌, map, All, arith,
}
use ovnflow.Text.{Text, is_blank}
use ovnflow.Errors.{Error, Result, ok, ◌>>◌, fail_if, bind-ok, >>-ok, fail_if-ok, ok_injective}
use ovnflow.Util.{contains_string}
use ovnflow.Util.Int.{ℤ, pos, negsuc}
use ovnflow.Router.Names.{validate_name, validate_rule_name, valid_port}
use ovnflow.Router.Validate.{each_named}

-- No name is blank, or among those that were met before it.
pub Distinct : List Text → List Text → Type 0
Distinct seen [] = Unit {0}
Distinct seen (x ∷ xs) =
    (is_blank x ≡ false) × (contains_string seen x ≡ false) × Distinct (x ∷ seen) xs

-- The names met before, and those met since.
abbrev pub met : List Text → List Text → List Text
met seen [] = seen
met seen (x ∷ xs) = met (x ∷ seen) xs

pub Distinct-append :
    (seen xs ys : List Text)
    → Distinct seen xs
    → Distinct (met seen xs) ys
    → Distinct seen (xs ++ ys)
unfolding Distinct
Distinct-append seen [] ys p q = q
Distinct-append seen (x ∷ xs) ys p q = (p.0, p.1, Distinct-append (x ∷ seen) xs ys p.2 q)

-- What a loop over named values ensures: the names are new, and each value has passed its checks.
pub record Passed {ℓ} {A : Type ℓ} (name_of : A → Text) (P : A → Type 0) (values : List A)
    (seen after : List Text) : Type ℓ where
  pub distinct : Distinct seen (map name_of values)
  pub checked : All P values
  pub names : after ≡ met seen (map name_of values)

-- What one round ensures.
abbrev pub PassedOne {ℓ} :
    {A : Type ℓ} → (A → Text) → (A → Type 0) → A → List Text → List Text → Type 0
PassedOne name_of P a seen after =
    (is_blank (name_of a) ≡ false)
    × (contains_string seen (name_of a) ≡ false)
    × P a
    × (after ≡ name_of a ∷ seen)

pub each_named-Passed {ℓ} :
    {A : Type ℓ} (name_of : A → Text) (P : A → Type 0) (check : A → List Text → Result (List Text))
    → ((a : A) (seen after : List Text)
        → check a seen ≡ ok after
        → PassedOne name_of P a seen after)
    → (values : List A) (seen after : List Text) → each_named check values seen ≡ ok after
    → Passed name_of P values seen after
unfolding each_named Distinct
each_named-Passed name_of P check one [] seen after h = record {
  distinct = tt;
  checked = tt;
  names = sym (ok_injective h);
}
each_named-Passed name_of P check one (a ∷ values) seen after h =
    let first = bind-ok (check a seen) _ h in
    let (named, new, passed, next) = one a seen first.0 first.1 in
    let rest =
      each_named-Passed name_of P check one values (name_of a ∷ seen) after
        (subst (λ s. each_named check values s ≡ ok after) next first.2) in
    record {
      distinct = (named, new, rest.distinct);
      checked = (passed, rest.checked);
      names = rest.names;
    }

not-true : (b : Bool) → not b ≡ false → b ≡ true
not-true true h = refl
not-true false h = cc

-- A name that is not blank and is new.
pub validate_rule_name-ok :
    (name : Text) (seen after : List Text)
    → validate_rule_name name seen ≡ ok after
    → (is_blank name ≡ false) × (contains_string seen name ≡ false) × (after ≡ name ∷ seen)
unfolding validate_rule_name validate_name
validate_rule_name-ok name seen after h =
    let a = >>-ok (fail_if (is_blank name) _) _ h in
    let b = >>-ok (fail_if (contains_string seen name) _) _ a.1 in
    (fail_if-ok _ _ a.0, fail_if-ok _ _ b.0, sym (ok_injective b.1))

-- A check that is not met ends the rest.
pub check-ok {ℓ} :
    {A : Type ℓ} (c : Bool) (e : Error) (rest : Result A) (a : A)
    → (fail_if (not c) e >> rest) ≡ ok a
    → (c ≡ true) × (rest ≡ ok a)
check-ok true e rest a h = (refl, h)
check-ok false e rest a h = cc

-- The same for a test that must not hold.
pub refuse-ok {ℓ} :
    {A : Type ℓ} (c : Bool) (e : Error) (rest : Result A) (a : A)
    → (fail_if c e >> rest) ≡ ok a
    → (c ≡ false) × (rest ≡ ok a)
refuse-ok true e rest a h = cc
refuse-ok false e rest a h = (refl, h)

pub both-true : (a b : Bool) → (not a || not b) ≡ false → (a ≡ true) × (b ≡ true)
both-true true true h = (refl, refl)
both-true true false h = cc
both-true false b h = cc

-- A port number.
pub IsPort : ℤ → Type 0
IsPort p = (n : ℕ) × (p ≡ pos n) × (1 ≤ n) × (n ≤ 65535)

pub valid_port-ok : (p : ℤ) → valid_port p ≡ true → IsPort p
unfolding valid_port IsPort
valid_port-ok (pos n) h = (n, refl, ground (arith), ground (arith))
valid_port-ok (negsuc n) h = cc
