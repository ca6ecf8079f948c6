-- ===== src/Ipam/State/Count.antt =====
-- `available` is the number of addresses that `isAvailable` accepts.
use ovnflow.Base.{ℕ, ◌+◌, ◌-◌, ◌%◌, ◌≤◌, ◌<◌, ◌^◌, false, ◌≡◌, refl}
use ovnflow.Base.{arith, ap, ◌∙◌, le→ltb, ltb, not}
use ovnflow.Base.{List, [], ◌∷◌, ◌++◌, String, map, All, All-append, any-append}
use ovnflow.Base.Count.{count_from, count_from-cong, count_from-le, count_from-not}
use ovnflow.Base.Pow.{pow2_pos}
use ovnflow.Errors.{ok}
use ovnflow.Netip.{Addr, v4, Prefix}
use ovnflow.Ipam.Range.{IpRange, usable_range, addr_to_uint32, merge_ranges, max32, min32, sub64}
use ovnflow.Ipam.Range.Bounds.{IsNet, size, addr_to_uint32-v4, prefix_range-net, contains-net}
use ovnflow.Ipam.Range.Merge.{
  covers, covered, total_size, Within, merge_ranges-size, merge_ranges-All,
}
use ovnflow.Ipam.State.{
  Pool, State, pool_state, is_available, available, max_int, blocked, single, clip_excluded,
  subtract_sizes, is_reserved, in_excluded, addr_eq, has_addr,
}
use ovnflow.Ipam.State.Fields.{HasRoom, IsHost, host-lt, validate_usable_iff}
use ovnflow.Ipam.State.Valid.{IsValid, IsHostAddr, IsExclusion, pool_state-IsValid}
use ovnflow.Ipam.State.Next.{is_free}

module _ (p : Prefix) (n : ℕ) (room : HasRoom p n) where
  host-value : (ip : Addr) (m : ℕ) → ip ≡ v4 m → IsHost p n m → addr_to_uint32 ip ≡ m
  host-value ip m e h = rw e (addr_to_uint32-v4 m (host-lt p n m room h))

  -- The range of one address covers that address.
  covers-single : (ip : Addr) (x : ℕ) → IsHostAddr p n ip → covers x (single ip) ≡ addr_eq (v4 x) ip
  covers-single ip x (m, e, h) = rw (host-value ip m e h) (rw e (ground arith))

  covered_singles :
      (ips : List Addr) (x : ℕ)
      → All (IsHostAddr p n) ips
      → covered (map single ips) x ≡ has_addr ips (v4 x)
  covered_singles [] x h = refl
  covered_singles (ip ∷ ips) x h = ground (arith, covers-single ip x h.0, covered_singles ips x h.1)

  single-Within :
      (ip : Addr) → IsHostAddr p n ip → Within (n + 1) (n + 1 + (size p - 2)) (single ip)
  single-Within ip (m, e, h) = rw (host-value ip m e h) (omega (arith, h, room.wide))

  singles-Within :
      (ips : List Addr)
      → All (IsHostAddr p n) ips
      → All (Within (n + 1) (n + 1 + (size p - 2))) (map single ips)
  singles-Within [] h = tt
  singles-Within (ip ∷ ips) h = (single-Within ip h.0, singles-Within ips h.1)

  -- The usable range, as `clip_excluded` is given it.
  abbrev hosts : IpRange
  hosts = record { start = n + 1; end = n + size p - 2 }

  clip-Within :
      (ps : List Prefix)
      → All (IsExclusion p) ps
      → All (Within (n + 1) (n + 1 + (size p - 2))) (clip_excluded hosts ps)
  unfolding clip_excluded max32 min32
  clip-Within [] h = tt
  clip-Within (q ∷ ps) h =
      let ((m, net), _) = h.0 in
      rw (prefix_range-net q m net)
        (ground (arith, pow2_pos (32 - q.bits), room.wide, clip-Within ps h.1))

  covered_clip :
      (ps : List Prefix) (x : ℕ)
      → IsHost p n x
      → All (IsExclusion p) ps
      → covered (clip_excluded hosts ps) x ≡ in_excluded ps (v4 x)
  unfolding clip_excluded max32 min32 in_excluded
  covered_clip [] x hx h = refl
  covered_clip (q ∷ ps) x hx h =
      let ((m, net), _) = h.0 in
      let c = contains-net q m x net in
      rw (prefix_range-net q m net)
        (ground (arith, c.0, c.1, pow2_pos (32 - q.bits), covered_clip ps x hx h.1))

-- Subtracting the sizes in uint64 does not wrap around.
subtract_sizes-total :
    (lo hi : ℕ) (rs : List IpRange) (total : ℕ)
    → total < 2 ^ 33
    → hi < 2 ^ 32
    → All (Within lo hi) rs
    → total_size rs ≤ total
    → subtract_sizes total rs ≡ total - total_size rs
unfolding subtract_sizes
subtract_sizes-total lo hi [] total b u h t = omega arith
subtract_sizes-total lo hi (r ∷ rs) total b u h t =
    let step : sub64 total ((sub64 r.end r.start + 1) % 2 ^ 64) ≡ total - (r.end - r.start + 1) =
      omega (arith, h.0) in
    rw step (
      omega (
        arith,
        subtract_sizes-total lo hi rs (total - (r.end - r.start + 1)) (omega arith) u h.1
            (omega arith),
      ))

module _ (st : State) (n : ℕ) (v : IsValid st n) where
  blocked-Within : All (Within (n + 1) (n + 1 + (size st.prefix - 2))) (blocked st)
  blocked-Within =
      let P = Within (n + 1) (n + 1 + (size st.prefix - 2)) in
      (
        single-Within st.prefix n v.room st.gateway v.gateway,
        All-append P _ _ (singles-Within st.prefix n v.room st.reserved v.reserved) (
            All-append P _ _ (singles-Within st.prefix n v.room st.allocated v.allocated)
              (rw v.room.usable (clip-Within st.prefix n v.room st.excluded v.excluded))),
      )

  -- On host addresses the ranges cover what is not available.
  covered-blocked : (x : ℕ) → IsHost st.prefix n x → covered (blocked st) x ≡ not (is_free st x)
  unfolding is_available is_reserved
  covered-blocked x hx =
      let ok_host =
        (validate_usable_iff st.prefix n x "allocate" "IP" v.room
            (host-lt st.prefix n x v.room hx)).1
          hx in
      let clip = covered_clip st.prefix n v.room st.excluded x hx v.excluded in
      rw
        (
          any-append (covers x) (map single st.reserved)
              (map single st.allocated ++ clip_excluded (usable_range st.prefix) st.excluded),
          any-append (covers x) (map single st.allocated)
              (clip_excluded (usable_range st.prefix) st.excluded),
        )
        (rw (v.room.usable) (
          rw
            (
              covers-single st.prefix n v.room st.gateway x v.gateway,
              covered_singles st.prefix n v.room st.reserved x v.reserved,
              covered_singles st.prefix n v.room st.allocated x v.allocated,
              clip,
              ok_host,
            )
            (ground arith)))

  count_bound : total_size (merge_ranges (blocked st)) ≤ size st.prefix - 2
  count_bound = omega (
    arith,
    merge_ranges-size (blocked st) (n + 1) (size st.prefix - 2)
        (omega (arith, v.room.wide, v.room.net.fits)) blocked-Within,
    count_from-le (covered (blocked st)) (n + 1) (size st.prefix - 2),
  )

  -- Blocked and available addresses make up the usable range.
  count_free :
      size st.prefix - 2 - total_size (merge_ranges (blocked st))
      ≡ count_from (is_free st) (n + 1) (size st.prefix - 2)
  count_free =
      let k = size st.prefix - 2 in
      omega (
        arith,
        merge_ranges-size (blocked st) (n + 1) k (omega (arith, v.room.wide, v.room.net.fits))
            blocked-Within,
        count_from-cong (covered (blocked st)) (λ x. not (is_free st x)) (n + 1) k
            (λ x l u. covered-blocked x (omega arith, omega (arith, v.room.wide))),
        count_from-not (is_free st) (n + 1) k,
      )

  total_left :
      subtract_sizes
        ((usable_range st.prefix).end - (usable_range st.prefix).start + 1)
        (merge_ranges (blocked st))
      ≡ count_from (is_free st) (n + 1) (size st.prefix - 2)
  total_left =
      let k = size st.prefix - 2 in
      let rs = merge_ranges (blocked st) in
      let width : (usable_range st.prefix).end - (usable_range st.prefix).start + 1 ≡ k =
        rw v.room.usable (omega (arith, v.room.wide)) in
      ap (λ t. subtract_sizes t rs) width
      ∙ subtract_sizes-total (n + 1) (n + 1 + k) rs k (omega (arith, v.room.narrow))
          (omega (arith, v.room.wide, v.room.net.fits))
          (merge_ranges-All (n + 1) (n + 1 + k) (blocked st) blocked-Within) count_bound
      ∙ count_free

  pub available-count : available st ≡ ok (count_from (is_free st) (n + 1) (size st.prefix - 2))
  unfolding available
  available-count =
      let nonempty : ltb (usable_range st.prefix).end (usable_range st.prefix).start ≡ false =
        rw v.room.usable (le→ltb _ _ (omega (arith, v.room.wide))) in
      let fits : ltb max_int (count_from (is_free st) (n + 1) (size st.prefix - 2)) ≡ false =
        le→ltb _ _
          (omega (arith, v.room.narrow, count_from-le (is_free st) (n + 1) (size st.prefix - 2))) in
      rw nonempty (rw total_left (rw fits))

-- On every pool that is read without error `available` succeeds, and its answer is the number of
-- host addresses that `isAvailable` accepts: overlapping exclusions, and reservations or
-- allocations inside them, are counted once, and the "exceeds int range" error is not reached.
pub pool_state-available :
    (pool : Pool) (op : String) (st : State)
    → pool_state pool op ≡ ok st
    → (n : ℕ) × IsNet st.prefix n
      × (available st ≡ ok (count_from (is_free st) (n + 1) (size st.prefix - 2)))
pool_state-available pool op st h =
    let (n, v) = pool_state-IsValid pool op st h in (n, v.room.net, available-count st n v)
