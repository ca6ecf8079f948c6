-- ===== src/Ipam/Pool/Allocate.antt =====
-- `Allocate`: what it hands out, and the pool that it leaves.
use ovnflow.Base.{ℕ, ◌<◌, ◌^◌, Bool, true, false, ◌≡◌, refl, ap, sym, ◌∙◌}
use ovnflow.Base.{List, [], ◌∷◌, ◌++◌, String, arith, some, ◌↔◌}
use ovnflow.Text.{Text}
use ovnflow.Errors.{Result, ok, err, bind-ok, fail_if-ok, ok_injective}
use ovnflow.Netip.{Addr, v4, Prefix, addr_string}
use ovnflow.Netip.Laws.{parse_addr-string}
use ovnflow.Ipam.State.{
  Pool, State, pool_state, parse_ipv4_addr, validate_usable, read_allocated, refuse_excluded,
  is_reserved, in_excluded, has_addr, is_ok, is_available, ensure_available, next_available,
}
use ovnflow.Ipam.State.Fields.{parse_ipv4_addr-ok, parse_ipv4_addr-some}
use ovnflow.Ipam.State.Read.{pool_state_inv, pool_state_of, read_allocated_inv}
use ovnflow.Ipam.State.Operation.{validate_usable_op, pool_state_op}
use ovnflow.Ipam.State.Valid.{IsValid, pool_state-IsValid}
use ovnflow.Ipam.State.Next.{is_free, next_available-NextSpec}
use ovnflow.Ipam.Pool.{allocate, allocate_from, choose}

-- The parts of `is_available`.
pub record IsOpen (st : State) (ip : Addr) : Type 0 where
  pub usable : validate_usable st.prefix ip "allocate" "IP" ≡ ok tt
  pub unreserved : is_reserved st.gateway st.reserved ip ≡ false
  pub included : in_excluded st.excluded ip ≡ false
  pub fresh : has_addr st.allocated ip ≡ false

is_ok-tt : (r : Result (Unit {0})) → is_ok r ≡ true → r ≡ ok tt
is_ok-tt (ok tt) h = refl
is_ok-tt (err e) h = cc

pub IsOpen-of : (st : State) (ip : Addr) → is_available st ip ≡ true → IsOpen st ip
unfolding is_available
IsOpen-of st ip h = record {
  usable = is_ok-tt _ (ground arith);
  unreserved = ground arith;
  included = ground arith;
  fresh = ground arith;
}

is_available_of : (st : State) (ip : Addr) → IsOpen st ip → is_available st ip ≡ true
unfolding is_available
is_available_of st ip o = rw (o.usable, o.unreserved, o.included, o.fresh)

-- A requested address passes `ensureAvailable` exactly when `isAvailable` accepts it.
pub ensure_available_iff :
    (st : State) (ip : Addr) → (ensure_available st ip ≡ ok tt) ↔ (is_available st ip ≡ true)
unfolding ensure_available
ensure_available_iff st ip = (
  (λ h.
      let (u, e, h₁) = bind-ok _ _ h in
      let (u₂, e₂, h₂) = bind-ok _ _ h₁ in
      let (u₃, e₃, h₃) = bind-ok _ _ h₂ in
      is_available_of st ip (record {
        usable = validate_usable_op st.prefix ip "allocate" "allocate" "requested IP" "IP" e;
        unreserved = fail_if-ok _ _ e₂;
        included = fail_if-ok _ _ h₃;
        fresh = fail_if-ok _ _ e₃;
      })),
  (λ h.
      let o = IsOpen-of st ip h in
      rw (validate_usable_op st.prefix ip "allocate" "allocate" "IP" "requested IP" o.usable)
        (rw (o.unreserved, o.included, o.fresh))),
)

-- One text more is read behind the others.
read_allocated-snoc :
    (p : Prefix) (op : String) (taken : Addr → Bool) (raws : List Text) (raw : Text) (ip : Addr)
    (set out : List Addr)
    → read_allocated p op taken set raws ≡ ok out
    → parse_ipv4_addr raw op ≡ ok ip
    → validate_usable p ip op "allocated IP" ≡ ok tt
    → has_addr out ip ≡ false
    → taken ip ≡ false
    → read_allocated p op taken set (raws ++ (raw ∷ [])) ≡ ok (out ++ (ip ∷ []))
unfolding read_allocated
read_allocated-snoc p op taken [] raw ip set out h e v new free =
    rw e (rw v (rw (ok_injective h) (rw (new, free))))
read_allocated-snoc p op taken (r ∷ raws) raw ip set out h e v new free =
    let s = read_allocated_inv p op taken r raws set out h in
    rw s.parsed (
      rw s.usable (
        rw (s.fresh, s.unreserved)
          (read_allocated-snoc p op taken raws raw ip (set ++ (s.ip ∷ [])) out s.rest e v new
            free)))

refuse_excluded-snoc :
    (ps : List Prefix) (op message : String) (ips : List Addr) (ip : Addr)
    → refuse_excluded ps op message ips ≡ ok tt
    → in_excluded ps ip ≡ false
    → refuse_excluded ps op message (ips ++ (ip ∷ [])) ≡ ok tt
unfolding refuse_excluded
refuse_excluded-snoc ps op message [] ip h k = rw k
refuse_excluded-snoc ps op message (i ∷ ips) ip h k =
    let (u, e, h₁) = bind-ok _ _ h in
    rw (fail_if-ok (in_excluded ps i) _ e) (refuse_excluded-snoc ps op message ips ip h₁ k)

-- The state after one more allocation.
abbrev pub with_allocated : State → Addr → State
with_allocated st ip = record st { allocated = st.allocated ++ (ip ∷ []) }

abbrev pub with_text : Pool → Text → Pool
with_text pool t = record pool { allocated = pool.allocated ++ (t ∷ []) }

-- A pool with the text of an available address added is read as the state with that address.
pub pool_state-append :
    (pool : Pool) (op : String) (st : State) (m : ℕ)
    → m < 2 ^ 32
    → pool_state pool op ≡ ok st
    → is_available st (v4 m) ≡ true
    → pool_state (with_text pool (addr_string (v4 m))) op ≡ ok (with_allocated st (v4 m))
pool_state-append pool op st m lt h a =
    let r = pool_state_inv pool op st h in
    let o = IsOpen-of st (v4 m) a in
    pool_state_of (with_text pool (addr_string (v4 m))) op (with_allocated st (v4 m)) (record {
      prefix = r.prefix;
      room = r.room;
      gateway = r.gateway;
      reserved = r.reserved;
      allocated =
          read_allocated-snoc st.prefix op (is_reserved st.gateway st.reserved) pool.allocated
            (addr_string (v4 m)) (v4 m) [] st.allocated r.allocated
            (parse_ipv4_addr-some _ op m (parse_addr-string m lt))
            (validate_usable_op st.prefix (v4 m) "allocate" op "IP" "allocated IP" o.usable) o.fresh
            o.unreserved;
      excluded = r.excluded;
      free_gateway = r.free_gateway;
      free_reserved = r.free_reserved;
      free_allocated =
          refuse_excluded-snoc st.excluded op _ st.allocated (v4 m) r.free_allocated o.included;
    })

-- An address that can be handed out.
abbrev IsChoice : State → Addr → Type 0
IsChoice st ip = (m : ℕ) × (ip ≡ v4 m) × (m < 2 ^ 32) × (is_free st m ≡ true)

next-IsChoice :
    (st : State) (n : ℕ) (ip : Addr) → IsValid st n → next_available st ≡ ok ip → IsChoice st ip
next-IsChoice st n ip v e =
    let l = rw e at (next_available-NextSpec st n v) in
    (l.at, l.addr, omega (arith, l.to, v.room.net.fits), l.free)

choose-IsChoice :
    (st : State) (n : ℕ) (requested : List Text) (ip : Addr)
    → IsValid st n
    → choose st requested ≡ ok ip
    → IsChoice st ip
unfolding choose
choose-IsChoice st n [] ip v e = next-IsChoice st n ip v e
choose-IsChoice st n ([] ∷ more) ip v e = next-IsChoice st n ip v e
choose-IsChoice st n ((c ∷ raw) ∷ more) ip v e =
    let (i, e₁, h₁) = bind-ok _ _ e in
    let (u₂, e₂, h₂) = bind-ok _ _ h₁ in
    let (m, is_v4, lt, _) = parse_ipv4_addr-ok (c ∷ raw) "allocate" i e₁ in
    let free = (ensure_available_iff st i).0 e₂ in
    (m, sym (ok_injective h₂) ∙ is_v4, lt, rw is_v4 at free)

-- What a successful `Allocate` has done.
pub record Allocation (pool : Pool) (t : Text) (pool' : Pool) : Type 0 where
  pub state : State
  pub address : ℕ
  pub read : pool_state pool "allocate" ≡ ok state
  pub free : is_free state address ≡ true
  pub narrow : address < 2 ^ 32
  pub text : t ≡ addr_string (v4 address)
  pub added : pool' ≡ with_text pool t

allocate-chosen :
    (pool : Pool) (requested : List Text) (t : Text) (pool' : Pool)
    → allocate_from pool requested ≡ ok (t, pool')
    → Allocation pool t pool'
unfolding allocate_from
allocate-chosen pool requested t pool' h =
    let (st, read, h₁) = bind-ok _ _ h in
    let (ip, e, h₂) = bind-ok _ _ h₁ in
    let (n, v) = pool_state-IsValid pool "allocate" st read in
    let (m, is_v4, lt, free) = choose-IsChoice st n requested ip v e in
    let same = ok_injective h₂ in
    let text : addr_string ip ≡ t = ap (λ (q : Text × Pool). q.0) same in
    record {
      state = st;
      address = m;
      read = read;
      free = free;
      narrow = lt;
      text = sym text ∙ ap addr_string is_v4;
      added = sym (ap (λ (q : Text × Pool). q.1) same) ∙ ap (with_text pool) text;
    }

pub allocate-Allocation :
    (pool : Pool) (requested : List Text) (t : Text) (pool' : Pool)
    → allocate (some pool) requested ≡ ok (t, pool')
    → Allocation pool t pool'
unfolding allocate
allocate-Allocation pool [] t pool' h = allocate-chosen pool [] t pool' h
allocate-Allocation pool (a ∷ []) t pool' h = allocate-chosen pool (a ∷ []) t pool' h
allocate-Allocation pool (a ∷ b ∷ more) t pool' h = cc

-- An address that `Allocate` returns was available, and the new pool, which differs from the old
-- one in the last entry of `Allocated` only, is read without error by every operation, as the old
-- state with that address allocated.
pub allocate_sound :
    (pool : Pool) (requested : List Text) (t : Text) (pool' : Pool) (op : String)
    → allocate (some pool) requested ≡ ok (t, pool')
    → (st : State) × (m : ℕ) × (pool_state pool "allocate" ≡ ok st)
      × (is_available st (v4 m) ≡ true)
      × (t ≡ addr_string (v4 m))
      × (pool' ≡ with_text pool t)
      × (pool_state pool' op ≡ ok (with_allocated st (v4 m)))
allocate_sound pool requested t pool' op h =
    let a = allocate-Allocation pool requested t pool' h in
    (
      a.state,
      a.address,
      a.read,
      a.free,
      a.text,
      a.added,
      rw (a.added, a.text)
          (pool_state-append pool op a.state a.address a.narrow
            (pool_state_op pool "allocate" op a.state a.read) a.free),
    )
