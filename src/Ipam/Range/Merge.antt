-- ===== src/Ipam/Range/Merge.antt =====
-- `mergeRanges` leaves ranges whose sizes add up to the number of addresses that were covered.
use ovnflow.Base.{ℕ, ◌+◌, ◌-◌, ◌^◌, ◌≤◌, ◌<◌, Bool, true, false, ◌≡◌, refl, arith}
use ovnflow.Base.{
  List, [], ◌∷◌, any, All, ◌&&◌, ◌||◌, leb, ltb, if◌then◌else◌, Bool-cases, inl, inr,
}
use ovnflow.Base.{ap, sym, ◌∙◌, leb→le, leb→lt}
use ovnflow.Base.Count.{
  count_from, count_from-cong, count_from-true, count_from-false, count_from-add,
}
use ovnflow.Ipam.Range.{IpRange, add32, merge_loop, merge_sorted, merge_ranges, range_less}
use ovnflow.Base.Sort.{sort_by, insert_by}

abbrev pub covers : ℕ → IpRange → Bool
covers x r = leb r.start x && leb x r.end

abbrev pub covered : List IpRange → ℕ → Bool
covered rs x = any (covers x) rs

abbrev pub total_size : List IpRange → ℕ
total_size [] = 0
total_size (r ∷ rs) = r.end - r.start + 1 + total_size rs

-- A range that lies between `lo` and `hi`, which is left out.
abbrev pub Within : ℕ → ℕ → IpRange → Type 0
Within lo hi r = (lo ≤ r.start) × (r.start ≤ r.end) × (r.end < hi)

-- The starts rise from `lo` on.
abbrev Ascending : ℕ → List IpRange → Type 0
Ascending lo [] = Unit
Ascending lo (r ∷ rs) = (lo ≤ r.start) × Ascending r.start rs

Ascending-le : (a b : ℕ) (rs : List IpRange) → a ≤ b → Ascending b rs → Ascending a rs
Ascending-le a b [] h k = tt
Ascending-le a b (r ∷ rs) h k = (omega arith, k.1)

-- Before the start of every range nothing is covered.
covered_before : (a x : ℕ) (rs : List IpRange) → Ascending a rs → x < a → covered rs x ≡ false
covered_before a x [] h k = refl
covered_before a x (r ∷ rs) h k = ground (arith, covered_before r.start x rs h.1)

-- The addresses of `last` alone, where all others start later.
count_alone :
    (last : IpRange) (rs : List IpRange) (d : ℕ)
    → last.start ≤ last.end
    → last.end < last.start + d
    → Ascending (last.start + d) rs
    → count_from (covered (last ∷ rs)) last.start d ≡ last.end - last.start + 1
count_alone last rs d v h asc =
    let n = last.end - last.start + 1 in
    let e : d ≡ n + (d - n) = omega arith in
    let f = covered (last ∷ rs) in
    ap (count_from f last.start) e
    ∙ count_from-add f last.start n (d - n)
    ∙ omega (
      arith,
      count_from-true f last.start n (λ x l u. ground arith),
      count_from-false f (last.start + n) (d - n)
          (λ x l u. ground (arith, covered_before (last.start + d) x rs asc)),
    )

-- Joining a range that begins no later than one past the end of `last`.
abbrev extend : IpRange → IpRange → IpRange
extend last item = if ltb last.end item.end then record last { end = item.end } else last

covered-extend :
    (last item : IpRange) (rs : List IpRange) (x : ℕ)
    → last.start ≤ item.start
    → last.start ≤ last.end
    → item.start ≤ last.end + 1
    → item.start ≤ item.end
    → covered (extend last item ∷ rs) x ≡ covered (last ∷ item ∷ rs) x
covered-extend last item rs x h v k w = ground arith

extend-Within :
    (last item : IpRange) (lo hi : ℕ)
    → Within lo hi last
    → Within lo hi item
    → Within lo hi (extend last item)
extend-Within last item lo hi h k = ground arith

extend_start : (last item : IpRange) → (extend last item).start ≡ last.start
extend_start last item = ground arith

-- The two branches of the loop; `last.end + 1` does not wrap around.
merge_near :
    (last item : IpRange) (rs : List IpRange)
    → last.end + 1 < 2 ^ 32
    → leb item.start (last.end + 1) ≡ true
    → merge_loop last (item ∷ rs) ≡ merge_loop (extend last item) rs
unfolding merge_loop
merge_near last item rs b h = ground arith

merge_far :
    (last item : IpRange) (rs : List IpRange)
    → last.end + 1 < 2 ^ 32
    → leb item.start (last.end + 1) ≡ false
    → merge_loop last (item ∷ rs) ≡ last ∷ merge_loop item rs
unfolding merge_loop
merge_far last item rs b h = ground arith

-- Among the others, all of which start at or after the end of `d` addresses, `last` is alone.
count_apart :
    (last item : IpRange) (rs : List IpRange) (m d : ℕ)
    → last.start + d ≡ item.start
    → last.start ≤ last.end
    → last.end < item.start
    → d ≤ m
    → Ascending item.start rs
    → count_from (covered (last ∷ item ∷ rs)) last.start m
      ≡ last.end - last.start + 1 + count_from (covered (item ∷ rs)) item.start (m - d)
count_apart last item rs m d e v h k asc =
    let f = covered (last ∷ item ∷ rs) in
    let g = covered (item ∷ rs) in
    let em : m ≡ d + (m - d) = omega arith in
    ap (count_from f last.start) em
    ∙ count_from-add f last.start d (m - d)
    ∙ omega (
      arith,
      count_alone last (item ∷ rs) d v (omega arith) (omega arith, asc),
      ap (λ (a : ℕ). count_from f a (m - d)) e,
      count_from-cong f g item.start (m - d) (λ x l u. ground arith),
    )

Ascending-Within :
    (a lo hi hi' : ℕ) (rs : List IpRange)
    → hi ≡ hi'
    → Ascending a rs
    → All (Within lo hi) rs
    → All (Within a hi') rs
Ascending-Within a lo hi hi' [] e asc ws = tt
Ascending-Within a lo hi hi' (r ∷ rs) e asc ws = (
  (asc.0, (ws.0).1, omega (arith, e, ws.0)),
  Ascending-Within a lo hi hi' rs e (Ascending-le a r.start rs asc.0 asc.1) ws.1,
)

-- The sizes behind the loop add up to the number of addresses that its ranges cover.
merge_loop-size :
    (rs : List IpRange) (last : IpRange) (lo m : ℕ)
    → last.start ≡ lo
    → lo + m < 2 ^ 32
    → Within lo (lo + m) last
    → All (Within lo (lo + m)) rs
    → Ascending lo rs
    → total_size (merge_loop last rs) ≡ count_from (covered (last ∷ rs)) lo m
merge_loop-size [] last lo m e b w ws asc =
    rw (← e)
      (unfold merge_loop in omega (arith, e, count_alone last [] m (w.1) (omega (arith, w)) tt))
merge_loop-size (item ∷ rs) last lo m e b w ws asc =
    elim (Bool-cases (leb item.start (last.end + 1))) [
      | inl near ↦ rw (merge_near last item rs (omega (arith, w)) near) (
          merge_loop-size rs (extend last item) lo m (extend_start last item ∙ e) b
            (extend-Within last item lo (lo + m) w ws.0) ws.1
            (Ascending-le lo item.start rs asc.0 asc.1)
          ∙ count_from-cong _ _ lo m
              (λ x l u. covered-extend last item rs x (omega arith) w.1 (leb→le _ _ near) (ws.0).1))
      | inr far ↦
          let d = item.start - lo in
          let hi : lo + m ≡ item.start + (m - (item.start - lo)) = omega (arith, asc, ws.0) in
          let gap = leb→lt _ _ far in
          rw (merge_far last item rs (omega (arith, w)) far, ← e)
            (omega (
              arith,
              e,
              merge_loop-size rs item item.start (m - d) refl (omega (arith, hi))
                  (omega arith, (ws.0).1, omega (arith, hi, ws.0))
                  (Ascending-Within item.start lo (lo + m) _ rs hi asc.1 ws.1) asc.1,
              count_apart last item rs m d (omega (arith, e, asc.0)) w.1 (omega (arith, gap))
                  (omega (arith, ws.0, asc.0)) asc.1,
            ))
    ]

-- Sorting by `range_less` puts the starts in order.
insert_Ascending :
    (lo : ℕ) (r : IpRange) (rs : List IpRange)
    → lo ≤ r.start
    → Ascending lo rs
    → Ascending lo (insert_by range_less r rs)
unfolding insert_by range_less
insert_Ascending lo r [] h asc = (h, tt)
insert_Ascending lo r (s ∷ rs) h asc = ground (arith, insert_Ascending s.start r rs)

insert_covered :
    (r : IpRange) (rs : List IpRange) (x : ℕ)
    → covered (insert_by range_less r rs) x ≡ covered (r ∷ rs) x
unfolding insert_by range_less
insert_covered r [] x = refl
insert_covered r (s ∷ rs) x = ground (arith, insert_covered r rs x)

insert_All :
    (lo hi : ℕ) (r : IpRange) (rs : List IpRange)
    → Within lo hi r
    → All (Within lo hi) rs
    → All (Within lo hi) (insert_by range_less r rs)
unfolding insert_by range_less
insert_All lo hi r [] h hs = (h, tt)
insert_All lo hi r (s ∷ rs) h hs = ground (arith, insert_All lo hi r rs)

abbrev sorted : List IpRange → List IpRange
sorted = sort_by range_less

sort_Ascending : (lo hi : ℕ) (rs : List IpRange) → All (Within lo hi) rs → Ascending lo (sorted rs)
unfolding sort_by
sort_Ascending lo hi [] h = tt
sort_Ascending lo hi (r ∷ rs) h =
    insert_Ascending lo r (sorted rs) (h.0).0 (sort_Ascending lo hi rs h.1)

sort_covered : (rs : List IpRange) (x : ℕ) → covered (sorted rs) x ≡ covered rs x
unfolding sort_by
sort_covered [] x = refl
sort_covered (r ∷ rs) x =
    insert_covered r (sorted rs) x ∙ ap (λ b. covers x r || b) (sort_covered rs x)

sort_All : (lo hi : ℕ) (rs : List IpRange) → All (Within lo hi) rs → All (Within lo hi) (sorted rs)
unfolding sort_by
sort_All lo hi [] h = tt
sort_All lo hi (r ∷ rs) h = insert_All lo hi r (sorted rs) h.0 (sort_All lo hi rs h.1)

merge_sorted-size :
    (rs : List IpRange) (lo m : ℕ)
    → lo + m < 2 ^ 32
    → All (Within lo (lo + m)) rs
    → Ascending lo rs
    → total_size (merge_sorted rs) ≡ count_from (covered rs) lo m
unfolding merge_sorted
merge_sorted-size [] lo m b ws asc = sym (count_from-false _ lo m (λ x l u. refl))
merge_sorted-size (r ∷ rs) lo m b ws asc =
    let d = r.start - lo in
    let em : m ≡ d + (m - d) = omega (arith, ws.0) in
    let es : lo + (r.start - lo) ≡ r.start = omega (arith, asc.0) in
    let hi : lo + m ≡ r.start + (m - (r.start - lo)) = omega (arith, asc, ws.0) in
    let f = covered (r ∷ rs) in
    merge_loop-size rs r r.start (m - d) refl (omega (arith, hi))
      (omega arith, (ws.0).1, omega (arith, hi, ws.0))
      (Ascending-Within r.start lo (lo + m) _ rs hi asc.1 ws.1) asc.1
    ∙ sym (
        ap (count_from f lo) em
        ∙ count_from-add f lo d (m - d)
        ∙ omega (
          arith,
          count_from-false f lo d
              (λ x l u. covered_before r.start x (r ∷ rs) (omega arith, asc.1) (omega (arith, es))),
          ap (λ (a : ℕ). count_from f a (m - d)) es,
        ))

-- For any ranges, in any order and overlapping or not, within [lo, lo + m): the merged ranges have
-- together as many addresses as lie in some range.
pub merge_ranges-size :
    (rs : List IpRange) (lo m : ℕ)
    → lo + m < 2 ^ 32
    → All (Within lo (lo + m)) rs
    → total_size (merge_ranges rs) ≡ count_from (covered rs) lo m
unfolding merge_ranges
merge_ranges-size rs lo m b ws =
    merge_sorted-size (sorted rs) lo m b (sort_All lo (lo + m) rs ws)
      (sort_Ascending lo (lo + m) rs ws)
    ∙ count_from-cong _ _ lo m (λ x l u. sort_covered rs x)

merge_loop-All :
    (lo hi : ℕ) (last : IpRange) (rs : List IpRange)
    → Within lo hi last
    → All (Within lo hi) rs
    → All (Within lo hi) (merge_loop last rs)
unfolding merge_loop
merge_loop-All lo hi last [] w ws = (w, tt)
merge_loop-All lo hi last (item ∷ rs) w ws = elim (Bool-cases (leb item.start (add32 last.end 1))) [
  | inl near ↦
      rw near
        (merge_loop-All lo hi (extend last item) rs (extend-Within last item lo hi w ws.0) ws.1)
  | inr far ↦ rw far (w, merge_loop-All lo hi item rs ws.0 ws.1)
]

merge_sorted-All :
    (lo hi : ℕ) (rs : List IpRange) → All (Within lo hi) rs → All (Within lo hi) (merge_sorted rs)
unfolding merge_sorted
merge_sorted-All lo hi [] h = tt
merge_sorted-All lo hi (r ∷ rs) h = merge_loop-All lo hi r rs h.0 h.1

-- The merged ranges keep the bounds.
pub merge_ranges-All :
    (lo hi : ℕ) (rs : List IpRange) → All (Within lo hi) rs → All (Within lo hi) (merge_ranges rs)
unfolding merge_ranges
merge_ranges-All lo hi rs h = merge_sorted-All lo hi (sorted rs) (sort_All lo hi rs h)
