-- ===== src/Tests/Ipam.antt =====
-- ipam.go: the cases of ipam_test.go, and the theorems at them.
use ovnflow.Base.{ℕ, ◌+◌, ◌-◌, true, ◌≡◌, refl, [], ◌∷◌, some, arith, ◌↔◌}
use ovnflow.Base.Count.{count_from}
use ovnflow.Base.Sort.{sort_by}
use ovnflow.Text.{codes}
use ovnflow.Errors.{not_found, Error, ok, err}
use ovnflow.Netip.{
  v4, Prefix, parse_addr, parse_prefix, masked, is_4, contains, as_4, addr_from_4, addr_string,
  prefix_string, decimal,
}
use ovnflow.Ipam.Range.{
  usable_range, prefix_range, addr_to_uint32, uint32_to_addr, merge_ranges, max32, min32,
  prefixes_overlap,
}
use ovnflow.Ipam.State.{
  Pool, State, pool_state, parse_ipv4_prefix, parse_ipv4_addr, validate_usable, read_gateway,
  read_reserved, read_allocated, read_excluded, refuse_excluded, is_reserved, in_excluded,
  is_available, next_available, ensure_available, clip_excluded, subtract_sizes, available,
}
use ovnflow.Ipam.Pool.{
  AllocationPlan, choose, allocate_from, allocate, remove_addr, release, pool_contains,
  pool_available, pool_overlaps, plan_ip_allocation, found_or_zero, pass_not_found,
}
use ovnflow.Base.{String}
use ovnflow.Ipam.State.{ipam_error}
use ovnflow.Ipam.Range.Bounds.{IsNet}
use ovnflow.Ipam.Range.Merge.{total_size, covered, merge_ranges-size}
use ovnflow.Ipam.State.Valid.{IsValid, pool_state-IsValid}
use ovnflow.Ipam.State.Next.{
  is_free, Least, NoneFree, next_available-Least, next_available-exhausted,
}
use ovnflow.Ipam.State.Count.{pool_state-available}
use ovnflow.Ipam.Pool.Allocate.{with_text, with_allocated, allocate_sound, ensure_available_iff}
use ovnflow.Ipam.Pool.Release.{release-allocate, available-allocate}
use ovnflow.Ipam.Pool.Plan.{PlanSpec, plan_ip_allocation-PlanSpec, pool_overlaps_iff}

abbrev small : Pool
small = record {
  cidr = codes "10.42.8.0/29";
  gateway = [];
  reserved = codes "10.42.8.2" ∷ [];
  allocated = codes "10.42.8.3" ∷ [];
  excluded = codes "10.42.8.4/31" ∷ [];
}

-- Everything that a run of a pool's operations calls.
run : ℕ
unfolding parse_addr parse_prefix masked is_4 contains as_4 addr_from_4 addr_string prefix_string
    decimal usable_range prefix_range addr_to_uint32 uint32_to_addr merge_ranges max32 min32
    prefixes_overlap pool_state parse_ipv4_prefix parse_ipv4_addr validate_usable read_gateway
    read_reserved read_allocated read_excluded refuse_excluded is_reserved in_excluded is_available
    next_available ensure_available clip_excluded subtract_sizes available choose allocate_from
    allocate remove_addr release pool_contains pool_available pool_overlaps plan_ip_allocation
    found_or_zero pass_not_found sort_by
run = 0

available_small : pool_available small ≡ ok 1
unfolding run
available_small = refl

abbrev small' : Pool
small' = record small { allocated = codes "10.42.8.3" ∷ codes "10.42.8.6" ∷ [] }

allocate-small : allocate (some small) [] ≡ ok (codes "10.42.8.6", small')
unfolding run
allocate-small = refl

abbrev small_prefix : Prefix
small_prefix = record { addr = v4 170526720; bits = 29 }

abbrev small_state : State
small_state = record {
  prefix = small_prefix;
  gateway = v4 170526721;
  reserved = v4 170526722 ∷ [];
  allocated = v4 170526723 ∷ [];
  excluded = record { addr = v4 170526724; bits = 31 } ∷ [];
}

read_small : (op : String) → pool_state small op ≡ ok small_state
unfolding run
read_small op = refl

pool_state-IsValid_example : (n : ℕ) × IsValid small_state n
pool_state-IsValid_example = pool_state-IsValid small "plan" small_state (read_small "plan")

pool_state-available_example :
    (n : ℕ) × IsNet small_prefix n
    × (available small_state ≡ ok (count_from (is_free small_state) (n + 1) 6))
pool_state-available_example =
    pool_state-available small "available" small_state (read_small "available")

next_small : next_available small_state ≡ ok (v4 170526726)
unfolding run
next_small = refl

next_available-Least_example :
    (n : ℕ) × IsNet small_prefix n × Least small_state (n + 1) (n + 8 - 2) (v4 170526726)
next_available-Least_example =
    next_available-Least small "allocate" small_state (v4 170526726) (read_small "allocate")
      next_small

-- The pool with its last address handed out.
abbrev full : Pool
full = small'

abbrev full_state : State
full_state = record small_state { allocated = v4 170526723 ∷ v4 170526726 ∷ [] }

read_full : (op : String) → pool_state full op ≡ ok full_state
unfolding run
read_full op = refl

abbrev exhausted : Error
exhausted = ipam_error not_found "allocate" (codes "10.42.8.0/29") "pool exhausted"

next_full : next_available full_state ≡ err exhausted
unfolding run
next_full = refl

next_available-exhausted_example :
    (n : ℕ) × IsNet small_prefix n
    × (exhausted.kind ≡ not_found)
    × NoneFree full_state (n + 1) (n + 8 - 2)
next_available-exhausted_example =
    next_available-exhausted full "allocate" full_state exhausted (read_full "allocate") next_full

allocate_sound_example :
    (st : State) × (m : ℕ) × (pool_state small "allocate" ≡ ok st)
    × (is_available st (v4 m) ≡ true)
    × (codes "10.42.8.6" ≡ addr_string (v4 m))
    × (small' ≡ with_text small (codes "10.42.8.6"))
    × (pool_state small' "plan" ≡ ok (with_allocated st (v4 m)))
allocate_sound_example = allocate_sound small [] (codes "10.42.8.6") small' "plan" allocate-small

release-allocate_example : release (some small') (codes "10.42.8.6") ≡ ok small
release-allocate_example = release-allocate small [] (codes "10.42.8.6") small' allocate-small

available-allocate_example :
    (k : ℕ) × (pool_available small ≡ ok (k + 1)) × (pool_available small' ≡ ok k)
available-allocate_example = available-allocate small [] (codes "10.42.8.6") small' allocate-small

available_iff :
    (ensure_available small_state (v4 170526726) ≡ ok tt)
    ↔ (is_available small_state (v4 170526726) ≡ true)
available_iff = ensure_available_iff small_state (v4 170526726)

plan_ip_allocation-PlanSpec_example :
    (n : ℕ) × (plan : AllocationPlan) × IsNet small_prefix n
    × (plan_ip_allocation full ≡ ok plan)
    × PlanSpec full_state n plan
plan_ip_allocation-PlanSpec_example = plan_ip_allocation-PlanSpec full full_state (read_full "plan")

-- An exhausted pool has "invalid IP" as its next address.
plan_full :
    (plan : AllocationPlan) × (plan_ip_allocation full ≡ ok plan) × (plan.next ≡ codes "invalid IP")
unfolding run
plan_full = (_, refl, refl)

parse_outside : parse_ipv4_addr (codes "10.42.9.1") "contains" ≡ ok (v4 170526977)
unfolding run
parse_outside = refl

abbrev other_prefix : Prefix
other_prefix = record { addr = v4 170526720; bits = 24 }

parse_other : parse_ipv4_prefix (codes "10.42.8.9/24") "overlaps" ≡ ok other_prefix
unfolding run
parse_other = refl

pool_overlaps_iff_example :
    (pool_overlaps small (codes "10.42.8.9/24") ≡ ok true)
    ↔ ((x : ℕ) × (contains small_prefix (v4 x) ≡ true) × (contains other_prefix (v4 x) ≡ true))
pool_overlaps_iff_example =
    pool_overlaps_iff small small_state (codes "10.42.8.9/24") other_prefix (read_small "overlaps")
      parse_other

abbrev world : Pool
world = record {
  cidr = codes "0.0.0.0/0";
  gateway = [];
  reserved = [];
  allocated = [];
  excluded = [];
}

parse_world : parse_ipv4_prefix world.cidr "plan" ≡ ok (record { addr = v4 0; bits = 0 })
unfolding run
parse_world = refl

merged_size :
    total_size (merge_ranges (record { start = 5; end = 9 } ∷ record { start = 3; end = 6 } ∷ []))
    ≡ count_from (covered (record { start = 5; end = 9 } ∷ record { start = 3; end = 6 } ∷ [])) 1 20
merged_size =
    merge_ranges-size (record { start = 5; end = 9 } ∷ record { start = 3; end = 6 } ∷ []) 1 20
      (omega arith) (omega arith)
