-- ===== src/Router/Render/Infers.antt =====
-- linuxrouter/router.go: one loop of `inferNATInterfaces`, and one interface of a rule.
use ovnflow.Base.{Bool, true, false, ◌&&◌, ◌≡◌, refl, ap, sym, subst, List, [], ◌∷◌, map, String}
use ovnflow.Base.{none, some}
use ovnflow.Text.{Text}
use ovnflow.Errors.{ambiguous, Error}
use ovnflow.Router.Render.{ambiguous_error, Written, infer_interface, infer_each, and_then}

-- An interface that is set, or for which there is one candidate.
abbrev pub settled : List Text → Text → Bool
settled candidates (c ∷ name) = true
settled [] [] = false
settled (one ∷ []) [] = true
settled (one ∷ two ∷ more) [] = false

-- The interface, or the first candidate for it.
abbrev pub filled : List Text → Text → Text
filled candidates (c ∷ name) = c ∷ name
filled [] [] = []
filled (one ∷ more) [] = one

abbrev pub all {ℓ} : {A : Type ℓ} → (A → Bool) → List A → Bool
all p [] = true
all p (a ∷ rest) = p a && all p rest

-- Where the test holds nothing is refused and `filled` is written, and where it does not hold the
-- interface is refused as ambiguous.
unfoldable pub Infers : {A : Type 0} → Bool → Written A → A → Type 0
Infers true w x = w ≡ (x, none)
Infers false w x = (e : Error) × (w.1 ≡ some e) × (e.kind ≡ ambiguous)

pub infer_interface-Infers :
    (kind : String) (candidates : List Text) (name : Text)
    → Infers
        (settled candidates name)
        (infer_interface kind candidates name)
        (filled candidates name)
unfolding Infers infer_interface ambiguous_error
infer_interface-Infers kind candidates (c ∷ name) = refl
infer_interface-Infers kind [] [] = (_, refl, refl)
infer_interface-Infers kind (one ∷ []) [] = refl
infer_interface-Infers kind (one ∷ two ∷ more) [] = (_, refl, refl)

pub and_then-Infers :
    {A : Type 0} (b c : Bool) (w : Written A) (next : A → Written A) (x y : A)
    → Infers b w x
    → Infers c (next x) y
    → Infers (b && c) (and_then w next) y
unfolding Infers
and_then-Infers true c w next x y p q = subst (λ w. Infers c (and_then w next) y) (sym p) q
and_then-Infers false c (a, some e) next x y p q = p
and_then-Infers false c (a, none) next x y p q = cc

-- What is done to the value that was written.
pub written-Infers :
    {A B : Type 0} (g : A → B) (b : Bool) (w : Written A) (x : A)
    → Infers b w x
    → Infers b (g w.0, w.1) (g x)
unfolding Infers
written-Infers g true w x p = ap (λ w. (g w.0, w.1)) p
written-Infers g false w x p = p

-- One round of the loop.
abbrev cons_written : {A : Type 0} → (A → Written A) → List A → Written A → Written (List A)
cons_written infer rest (b, some e) = (b ∷ rest, some e)
cons_written infer rest (b, none) = let (after, error) = infer_each infer rest in (b ∷ after, error)

cons-Infers :
    {A : Type 0} (infer : A → Written A) (rest : List A) (b c : Bool) (w : Written A) (x : A)
    → (filled_rest : List A) → Infers b w x
    → Infers c (infer_each infer rest) filled_rest
    → Infers (b && c) (cons_written infer rest w) (x ∷ filled_rest)
unfolding Infers
cons-Infers infer rest true true w x r p q =
    subst (λ w. cons_written infer rest w ≡ (x ∷ r, none)) (sym p) (ap (λ w. (x ∷ w.0, w.1)) q)
cons-Infers infer rest true false w x r p q =
    subst (λ w. (e : Error) × ((cons_written infer rest w).1 ≡ some e) × (e.kind ≡ ambiguous))
      (sym p) q
cons-Infers infer rest false c (b, some e) x r p q = p
cons-Infers infer rest false c (b, none) x r p q = cc

pub infer_each-Infers :
    {A : Type 0} (test : A → Bool) (infer : A → Written A) (fill : A → A)
    → ((a : A) → Infers (test a) (infer a) (fill a))
    → (values : List A) → Infers (all test values) (infer_each infer values) (map fill values)
unfolding Infers infer_each
infer_each-Infers test infer fill h [] = refl
infer_each-Infers test infer fill h (a ∷ rest) =
    cons-Infers infer rest (test a) (all test rest) (infer a) (fill a) (map fill rest) (h a)
      (infer_each-Infers test infer fill h rest)
