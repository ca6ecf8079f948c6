-- ===== src/Ipam/Pool/Release.antt =====
-- `Release` undoes `Allocate`, and an allocation takes one from the count of available addresses.
use ovnflow.Base.{ℕ, ◌+◌, ◌-◌, ◌<◌, ◌^◌, Bool, true, false, ◌≡◌, ap, ◌∙◌}
use ovnflow.Base.{List, [], ◌∷◌, ◌++◌, String, arith, some, not, ◌&&◌, any-append}
use ovnflow.Base.{◌==◌}
use ovnflow.Base.Count.{count_from, count_from-less}
use ovnflow.Text.{Text}
use ovnflow.Errors.{ok, ok_injective}
use ovnflow.Netip.{Addr, v4, Prefix}
use ovnflow.Netip.Laws.{parse_addr-string}
use ovnflow.Ipam.Range.Bounds.{size}
use ovnflow.Ipam.State.{
  Pool, State, pool_state, parse_ipv4_addr, read_allocated, has_addr, addr_eq, is_available,
  is_reserved, available,
}
use ovnflow.Ipam.State.Fields.{parse_ipv4_addr-some, validate_usable_iff, IsHost}
use ovnflow.Ipam.State.Read.{pool_state_inv, read_allocated_inv}
use ovnflow.Ipam.State.Operation.{parse_ipv4_addr_op, pool_state_op}
use ovnflow.Ipam.State.Valid.{IsValid, pool_state-IsValid, addr_eq_sym}
use ovnflow.Ipam.State.Next.{is_free}
use ovnflow.Ipam.State.Count.{available-count}
use ovnflow.Ipam.Pool.{allocate, release, remove_addr, pool_available}
use ovnflow.Ipam.Pool.Allocate.{allocate-Allocation, with_allocated, pool_state-append, IsOpen-of}

-- What is not in the final set was not in the set before.
read_allocated-absent :
    (p : Prefix) (op : String) (taken : Addr → Bool) (raws : List Text) (set out : List Addr)
    (ip : Addr)
    → read_allocated p op taken set raws ≡ ok out
    → has_addr out ip ≡ false
    → has_addr set ip ≡ false
unfolding read_allocated
read_allocated-absent p op taken [] set out ip h k = rw (ok_injective h) k
read_allocated-absent p op taken (raw ∷ raws) set out ip h k =
    let r = read_allocated_inv p op taken raw raws set out h in
    let later = read_allocated-absent p op taken raws (set ++ (r.ip ∷ [])) out ip r.rest k in
    let split = any-append (addr_eq ip) set (r.ip ∷ []) in ground (arith, later, split)

-- The loop of `Release` takes out the last entry, when no earlier one is that address.
remove_addr-append :
    (p : Prefix) (op : String) (taken : Addr → Bool) (raws : List Text) (set out : List Addr)
    (ip : Addr) (t : Text)
    → read_allocated p op taken set raws ≡ ok out
    → has_addr out ip ≡ false
    → parse_ipv4_addr t "release" ≡ ok ip
    → addr_eq ip ip ≡ true
    → remove_addr ip (raws ++ (t ∷ [])) ≡ ok raws
unfolding read_allocated remove_addr
remove_addr-append p op taken [] set out ip t h k e s = rw e (rw s)
remove_addr-append p op taken (raw ∷ raws) set out ip t h k e s =
    let r = read_allocated_inv p op taken raw raws set out h in
    let later = read_allocated-absent p op taken raws (set ++ (r.ip ∷ [])) out ip r.rest k in
    let split = any-append (addr_eq ip) set (r.ip ∷ []) in
    let other : addr_eq r.ip ip ≡ false = rw (addr_eq_sym r.ip ip) (ground (arith, later, split)) in
    rw (parse_ipv4_addr_op raw op "release" r.ip r.parsed) (
      rw other (rw (remove_addr-append p op taken raws (set ++ (r.ip ∷ [])) out ip t r.rest k e s)))

-- Releasing the address that was just allocated gives back the pool as it was before.
pub release-allocate :
    (pool : Pool) (requested : List Text) (t : Text) (pool' : Pool)
    → allocate (some pool) requested ≡ ok (t, pool')
    → release (some pool') t ≡ ok pool
unfolding release
release-allocate pool requested t pool' h =
    let a = allocate-Allocation pool requested t pool' h in
    let r = pool_state_inv pool "allocate" a.state a.read in
    let parsed : parse_ipv4_addr t "release" ≡ ok (v4 a.address) =
      rw a.text
        (parse_ipv4_addr-some _ "release" a.address (parse_addr-string a.address a.narrow)) in
    rw parsed (
      rw a.added (
        rw (
          remove_addr-append a.state.prefix "allocate"
            (is_reserved a.state.gateway a.state.reserved) pool.allocated [] a.state.allocated
            (v4 a.address) t r.allocated (IsOpen-of a.state (v4 a.address) a.free).fresh parsed
            (ground arith))))

-- Allocating `m` makes `m`, and no other address, unavailable.
is_free-with :
    (st : State) (m x : ℕ) → is_free (with_allocated st (v4 m)) x ≡ (is_free st x && not (x == m))
unfolding is_available
is_free-with st m x = rw (any-append (addr_eq (v4 x)) st.allocated (v4 m ∷ [])) (ground arith)

module _ (st : State) (n m : ℕ) (v : IsValid st n) (lt : m < 2 ^ 32)
    (free : is_free st m ≡ true) where
  abbrev after : State
  after = with_allocated st (v4 m)

  host : IsHost st.prefix n m
  host =
      (validate_usable_iff st.prefix n m "allocate" "IP" v.room lt).0
        (IsOpen-of st (v4 m) free).usable

  count_after :
      count_from (is_free st) (n + 1) (size st.prefix - 2)
      ≡ count_from (is_free after) (n + 1) (size st.prefix - 2) + 1
  count_after =
      count_from-less (is_free st) (is_free after) (n + 1) (size st.prefix - 2) m
        (omega (arith, host)) (omega (arith, host, v.room.wide)) free
        (rw (is_free-with st m m) (ground arith)) (λ x ne. rw (is_free-with st m x) (ground arith))

  available_after :
      (n' : ℕ)
      → IsValid after n'
      → (available st ≡ ok (count_from (is_free after) (n + 1) (size st.prefix - 2) + 1))
        × (available after ≡ ok (count_from (is_free after) (n + 1) (size st.prefix - 2)))
  available_after n' v' =
      let same : n' ≡ n = cc (v.room.net.addr, v'.room.net.addr) in
      (
        available-count st n v ∙ ap ok count_after,
        available-count after n' v'
            ∙ ap (λ b. ok (count_from (is_free after) (b + 1) (size st.prefix - 2))) same,
      )

-- A successful `Allocate` leaves exactly one available address less.
pub available-allocate :
    (pool : Pool) (requested : List Text) (t : Text) (pool' : Pool)
    → allocate (some pool) requested ≡ ok (t, pool')
    → (k : ℕ) × (pool_available pool ≡ ok (k + 1)) × (pool_available pool' ≡ ok k)
unfolding pool_available
available-allocate pool requested t pool' h =
    let a = allocate-Allocation pool requested t pool' h in
    let before = pool_state_op pool "allocate" "available" a.state a.read in
    let (n, v) = pool_state-IsValid pool "allocate" a.state a.read in
    let after : pool_state pool' "available" ≡ ok (with_allocated a.state (v4 a.address)) =
      rw (a.added, a.text)
        (pool_state-append pool "available" a.state a.address a.narrow before a.free) in
    let (n', v') = pool_state-IsValid pool' "available" _ after in
    let counts = available_after a.state n a.address v a.narrow a.free n' v' in
    (
      count_from (is_free (with_allocated a.state (v4 a.address))) (n + 1)
          (size a.state.prefix - 2),
      rw before counts.0,
      rw after counts.1,
    )
