-- ===== src/Ipam/Pool/Plan.antt =====
-- What the queries of a pool report, and the pools that are refused.
use ovnflow.Base.{ℕ, ◌+◌, ◌-◌, ◌≤◌, ◌<◌, ◌^◌, true, ◌≡◌, refl, ap}
use ovnflow.Base.{String, arith, ◌↔◌, ◌⊎◌, ltb, inl, inr}
use Prim.Native.Nat.{max}
use ovnflow.Base.Count.{count_from, count_from-false}
use ovnflow.Base.Pow.{pow2_pos}
use ovnflow.Text.{Text, codes}
use ovnflow.Errors.{conflict, Error, Result, ok, err, ok_injective}
use ovnflow.Netip.{Addr, v4, no_addr, Prefix, contains, prefix_string, addr_string}
use ovnflow.Ipam.Range.{usable_range}
use ovnflow.Ipam.Range.Bounds.{IsNet, size, contains-net, overlap-net, usable_range-net}
use ovnflow.Ipam.State.{
  Pool, State, ipam_error, pool_state, parse_ipv4_prefix, parse_ipv4_addr, next_available,
}
use ovnflow.Ipam.State.Fields.{parse_ipv4_prefix-ok, parse_ipv4_addr-ok}
use ovnflow.Ipam.State.Valid.{pool_state-IsValid}
use ovnflow.Ipam.State.Next.{is_free, NextSpec, NoneFree, Least, next_available-NextSpec}
use ovnflow.Ipam.State.Count.{available-count}
use ovnflow.Ipam.Pool.{
  AllocationPlan, pass_not_found, plan_ip_allocation, found_or_zero, pool_contains, pool_overlaps,
}

-- How a plan that is returned describes the state with base address `n`.
pub record PlanSpec (st : State) (n : ℕ) (plan : AllocationPlan) : Type 0 where
  pub count : plan.available ≡ count_from (is_free st) (n + 1) (size st.prefix - 2)
  pub next :
      ((ip : Addr) × Least st (n + 1) (n + size st.prefix - 2) ip × (plan.next ≡ addr_string ip))
      ⊎ (NoneFree st (n + 1) (n + size st.prefix - 2)
          × (plan.available ≡ 0)
          × (plan.next ≡ codes "invalid IP"))

abbrev plan_of : Pool → State → ℕ → Addr → AllocationPlan
plan_of pool st count next = record {
  pool_cidr = prefix_string st.prefix;
  gateway = addr_string st.gateway;
  reserved = pool.reserved;
  allocated = pool.allocated;
  excluded = pool.excluded;
  available = count;
  next = addr_string next;
}

plan-PlanSpec :
    (pool : Pool) (st : State) (n : ℕ) (r : Result Addr)
    → NextSpec st n r
    → (ip : Addr) × (found_or_zero r ≡ ok ip)
      × PlanSpec st n (plan_of pool st (count_from (is_free st) (n + 1) (size st.prefix - 2)) ip)
unfolding found_or_zero
plan-PlanSpec pool st n (ok ip) s = (ip, refl, record { count = refl; next = inl (ip, s, refl) })
plan-PlanSpec pool st n (err e) s = (
  no_addr,
  unfold pass_not_found in ap (pass_not_found e) s.0,
  record {
    count = refl;
    next = inr (
      s.1,
      count_from-false (is_free st) _ _ (λ x l u. s.1 x l (omega arith)),
      unfold addr_string in refl,
    );
  },
)

-- A pool that is read without error has a plan. It counts the available host addresses; its next
-- address is the least of them, and if there is none it is the text "invalid IP".
pub plan_ip_allocation-PlanSpec :
    (pool : Pool) (st : State)
    → pool_state pool "plan" ≡ ok st
    → (n : ℕ) × (plan : AllocationPlan) × IsNet st.prefix n
      × (plan_ip_allocation pool ≡ ok plan)
      × PlanSpec st n plan
unfolding plan_ip_allocation
plan_ip_allocation-PlanSpec pool st h =
    let (n, v) = pool_state-IsValid pool "plan" st h in
    let (ip, found, spec) =
      plan-PlanSpec pool st n (next_available st) (next_available-NextSpec st n v) in
    (
      n,
      plan_of pool st (count_from (is_free st) (n + 1) (size st.prefix - 2)) ip,
      v.room.net,
      rw h (rw found (rw (available-count st n v))),
      spec,
    )

-- `Contains` answers whether the address lies between the first and the last of the prefix.
pub pool_contains_iff :
    (pool : Pool) (st : State) (raw : Text) (ip : Addr)
    → pool_state pool "contains" ≡ ok st
    → parse_ipv4_addr raw "contains" ≡ ok ip
    → (n : ℕ) × (m : ℕ) × IsNet st.prefix n
      × (ip ≡ v4 m)
      × ((pool_contains pool raw ≡ ok true) ↔ ((n ≤ m) × (m < n + size st.prefix)))
unfolding pool_contains
pool_contains_iff pool st raw ip h e =
    let (n, v) = pool_state-IsValid pool "contains" st h in
    let (m, is_v4, _, _) = parse_ipv4_addr-ok raw "contains" ip e in
    let iff = contains-net st.prefix n m v.room.net in
    (
      n,
      m,
      v.room.net,
      is_v4,
      rw h (rw e (rw is_v4 ((λ q. iff.0 (ok_injective q)), (λ q. ap ok (iff.1 q))))),
    )

-- `Overlaps` answers whether the two prefixes have an address in common.
pub pool_overlaps_iff :
    (pool : Pool) (st : State) (raw : Text) (q : Prefix)
    → pool_state pool "overlaps" ≡ ok st
    → parse_ipv4_prefix raw "overlaps" ≡ ok q
    → (pool_overlaps pool raw ≡ ok true)
      ↔ ((x : ℕ) × (contains st.prefix (v4 x) ≡ true) × (contains q (v4 x) ≡ true))
unfolding pool_overlaps
pool_overlaps_iff pool st raw q h e =
    let (n, v) = pool_state-IsValid pool "overlaps" st h in
    let (m, net) = parse_ipv4_prefix-ok raw "overlaps" q e in
    let p = st.prefix in
    let iff = overlap-net p q n m v.room.net net in
    let inp = λ (x : ℕ). contains-net p n x v.room.net in
    let inq = λ (x : ℕ). contains-net q m x net in
    let far = max n m in
    rw h (
      rw e (
        (λ t.
            let b = iff.0 (ok_injective t) in
            (
              max n m,
              (inp (max n m)).1 (omega (arith, b, pow2_pos (32 - p.bits))),
              (inq (max n m)).1 (omega (arith, b, pow2_pos (32 - q.bits))),
            )),
        (λ c. ap ok (iff.1 (omega (arith, (inp c.0).0 c.1, (inq c.0).0 c.2)))),
      ))

-- A pool of the whole address space is refused as one that "has no usable IPv4 addresses": the
-- size 2^32 of its range wraps around to 0.
pub whole_space_refused :
    (pool : Pool) (op : String) (p : Prefix)
    → parse_ipv4_prefix pool.cidr op ≡ ok p
    → p.bits ≡ 0
    → (x : Error) × (pool_state pool op ≡ err x) × (x.kind ≡ conflict)
unfolding pool_state
whole_space_refused pool op p e b =
    let (n, net) = parse_ipv4_prefix-ok pool.cidr op p e in
    let full : size p ≡ 2 ^ 32 = ap (λ (k : ℕ). 2 ^ (32 - k)) b in
    elim (usable_range-net p n net) [
      | inl u ↦
          let empty : ltb (usable_range p).end (usable_range p).start ≡ true = rw u refl in
          (
            ipam_error conflict op (prefix_string p) "pool has no usable IPv4 addresses",
            rw e (rw empty),
            refl,
          )
      | inr (u, wide, narrow) ↦ absurd (omega (arith, full))
    ]
