-- ===== src/OpenFlow/Message/Versions.antt =====
-- The choice among protocol versions in openflow_protocol.go, and the bitmap of a hello.
use ovnflow.Base.{ℕ, ◌+◌, ◌≡◌, refl, Bool, true, false, not, ◌||◌, List, [], ◌∷◌, any, arith}
use ovnflow.Base.{ltb, ◌==◌, if◌then◌else◌, Bool-cases, inl, inr, ==→eq, sym, ap, ◌∙◌}
use Prim.Native.Nat.{bit_or}
use ovnflow.Base.{subst, ◌^◌}
use ovnflow.Base.Sort.{sort_by}
use ovnflow.Base.{◌++◌}
use ovnflow.Errors.{◌>>=◌, bind-ok, ok, fail_if-ok, >>-ok, ok_injective}
use ovnflow.OpenFlow.Message.{
  validate_version, is_version, openflow_13, openflow_15, hello_bitmap, distinct_versions,
  normalize_versions,
}

abbrev pub has : ℕ → List ℕ → Bool
has v versions = any (λ w. w == v) versions

-- The bitmap of version 1.3 if the first is true and of version 1.5 if the second is.
abbrev pub bits : Bool → Bool → ℕ
bits a b = (if a then 0x10 else 0) + (if b then 0x40 else 0)

abbrev BitSet : Bool → Bool → ℕ → Type 0
BitSet a b v =
    (if ltb v 32 then bit_or (bits a b) (2 ^ v) else bits a b)
    ≡ bits (a || (v == 4)) (b || (v == 6))

set_4 : (a b : Bool) → BitSet a b 4
set_4 true true = refl
set_4 true false = refl
set_4 false true = refl
set_4 false false = refl

set_6 : (a b : Bool) → BitSet a b 6
set_6 true true = refl
set_6 true false = refl
set_6 false true = refl
set_6 false false = refl

pub validate_version-ok : (v : ℕ) {u : Unit {0}} → validate_version v ≡ ok u → is_version v ≡ true
unfolding validate_version
validate_version-ok v h = let e = fail_if-ok (not (is_version v)) _ h in ground (arith, e)

-- One round of the loop.
set_bit : (a b : Bool) (v : ℕ) → is_version v ≡ true → BitSet a b v
set_bit a b v h = elim (Bool-cases (v == 4)) [
  | inl e ↦ subst (BitSet a b) (sym (==→eq v 4 e)) (set_4 a b)
  | inr e ↦ subst (BitSet a b) (sym (==→eq v 6 (ground arith))) (set_6 a b)
]

or_assoc : (a b c : Bool) → ((a || b) || c) ≡ (a || (b || c))
or_assoc true b c = refl
or_assoc false b c = refl

or_false : (a : Bool) → (a || false) ≡ a
or_false true = refl
or_false false = refl

bitmap_from :
    (a b : Bool) (versions : List ℕ) (bitmap : ℕ)
    → hello_bitmap (bits a b) versions ≡ ok bitmap
    → bitmap ≡ bits (a || has 4 versions) (b || has 6 versions)
unfolding hello_bitmap
bitmap_from true true [] bitmap h = sym (ok_injective h)
bitmap_from true false [] bitmap h = sym (ok_injective h)
bitmap_from false true [] bitmap h = sym (ok_injective h)
bitmap_from false false [] bitmap h = sym (ok_injective h)
bitmap_from a b (v ∷ versions) bitmap h =
    let c = >>-ok (validate_version v) _ h in
    let known = validate_version-ok v c.0 in
    let rest : hello_bitmap (bits (a || (v == 4)) (b || (v == 6))) versions ≡ ok bitmap =
      subst (λ (m : ℕ). hello_bitmap m versions ≡ ok bitmap) (set_bit a b v known) c.1 in
    let r = bitmap_from (a || (v == 4)) (b || (v == 6)) versions bitmap rest in
    let p = or_assoc a (v == 4) (has 4 versions) in
    let q = or_assoc b (v == 6) (has 6 versions) in
    r
    ∙ ap (λ x. bits x ((b || (v == 6)) || has 6 versions)) p
    ∙ ap (λ y. bits (a || has 4 (v ∷ versions)) y) q

-- The bitmap of a hello has bit 4 exactly if version 1.3 is among the versions, and bit 6 exactly
-- if version 1.5 is, and no other bit, whatever their order and however often they are named.
pub hello_bitmap-bits :
    (versions : List ℕ) (bitmap : ℕ)
    → hello_bitmap 0 versions ≡ ok bitmap
    → bitmap ≡ bits (has openflow_13 versions) (has openflow_15 versions)
hello_bitmap-bits versions bitmap h = bitmap_from false false versions bitmap h

-- The lists that hold each of the two versions at most once, by which they hold.
data Shape : Bool → Bool → List ℕ → Type 0 where
  neither : Shape false false []
  only_13 : Shape true false (4 ∷ [])
  only_15 : Shape false true (6 ∷ [])
  up : Shape true true (4 ∷ 6 ∷ [])
  down : Shape true true (6 ∷ 4 ∷ [])

-- What the loop makes of its list at one version.
abbrev next : List ℕ → ℕ → List ℕ
next out version = if any (λ v. v == version) out then out else out ++ (version ∷ [])

NextShape : Bool → Bool → List ℕ → ℕ → Type 0
NextShape a b out v = Shape (a || (v == 4)) (b || (v == 6)) (next out v)

next_4 : {a b : Bool} {out : List ℕ} → Shape a b out → NextShape a b out 4
unfolding NextShape
next_4 neither = only_13
next_4 only_13 = only_13
next_4 only_15 = down
next_4 up = up
next_4 down = down

next_6 : {a b : Bool} {out : List ℕ} → Shape a b out → NextShape a b out 6
unfolding NextShape
next_6 neither = only_15
next_6 only_13 = up
next_6 only_15 = only_15
next_6 up = up
next_6 down = down

next-Shape :
    (a b : Bool) (out : List ℕ) (v : ℕ) → is_version v ≡ true → Shape a b out → NextShape a b out v
next-Shape a b out v h s = elim (Bool-cases (v == 4)) [
  | inl e ↦ subst (NextShape a b out) (sym (==→eq v 4 e)) (next_4 s)
  | inr e ↦ subst (NextShape a b out) (sym (==→eq v 6 (ground arith))) (next_6 s)
]

distinct_versions-Shape :
    (a b : Bool) (out versions r : List ℕ)
    → Shape a b out
    → distinct_versions out versions ≡ ok r
    → Shape (a || has 4 versions) (b || has 6 versions) r
unfolding distinct_versions NextShape
distinct_versions-Shape a b out [] r s h =
    subst (λ x. Shape x (b || false) r) (sym (or_false a))
      (subst (λ y. Shape a y r) (sym (or_false b)) (subst (Shape a b) (ok_injective h) s))
distinct_versions-Shape a b out (v ∷ versions) r s h =
    let c = >>-ok (validate_version v) _ h in
    let s' = next-Shape a b out v (validate_version-ok v c.0) s in
    let t =
      distinct_versions-Shape (a || (v == 4)) (b || (v == 6)) (next out v) versions r s' c.1 in
    subst (λ x. Shape x (b || has 6 (v ∷ versions)) r) (or_assoc a (v == 4) (has 4 versions))
      (subst (λ y. Shape ((a || (v == 4)) || has 4 versions) y r)
        (or_assoc b (v == 6) (has 6 versions)) t)

-- The versions of which there are some, the newer one first.
abbrev pub chosen : Bool → Bool → List ℕ
chosen true true = openflow_15 ∷ openflow_13 ∷ []
chosen true false = openflow_13 ∷ []
chosen false true = openflow_15 ∷ []
chosen false false = []

sort-Shape : {a b : Bool} {out : List ℕ} → Shape a b out → sort_by (λ x y. ltb y x) out ≡ chosen a b
unfolding sort_by
sort-Shape neither = refl
sort-Shape only_13 = refl
sort-Shape only_15 = refl
sort-Shape up = refl
sort-Shape down = refl

-- The versions that were asked for, or both if none was.
abbrev pub asked : List ℕ → List ℕ
asked [] = openflow_15 ∷ openflow_13 ∷ []
asked (v ∷ versions) = v ∷ versions

sorted-chosen :
    (versions out : List ℕ)
    → (distinct_versions [] versions >>= (λ r. ok (sort_by (λ x y. ltb y x) r))) ≡ ok out
    → out ≡ chosen (has 4 versions) (has 6 versions)
sorted-chosen versions out h =
    let d = bind-ok (distinct_versions [] versions) _ h in
    let s = distinct_versions-Shape false false [] versions d.0 neither d.1 in
    sym (ok_injective d.2) ∙ sort-Shape s

-- If `normalizeOpenFlowVersions` succeeds, its result has each version that was asked for (both, if
-- none was) exactly once and no other, the newer one first.
pub normalize_versions-chosen :
    (versions out : List ℕ)
    → normalize_versions versions ≡ ok out
    → out ≡ chosen (has openflow_13 (asked versions)) (has openflow_15 (asked versions))
unfolding normalize_versions
normalize_versions-chosen [] out h = sorted-chosen (6 ∷ 4 ∷ []) out h
normalize_versions-chosen (v ∷ versions) out h = sorted-chosen (v ∷ versions) out h
