-- ===== src/Ipam/State/Operation.antt =====
-- The operation's name stands in errors only: a pool that one operation reads, every one reads.
use ovnflow.Base.{Bool, true, false, ◌≡◌, refl, List, [], ◌∷◌, ◌++◌, String, arith}
use ovnflow.Base.{Option, none, some, not}
use ovnflow.Text.{Text}
use ovnflow.Errors.{Error, ok, fail_if, bind-ok, fail_if-ok}
use ovnflow.Netip.{Addr, Prefix, contains, parse_addr}
use ovnflow.Ipam.State.{
  Pool, State, pool_state, parse_ipv4_addr, checked_addr, validate_usable, read_gateway,
  read_reserved, read_allocated, read_excluded, refuse_excluded, is_reserved, has_addr, add_addr,
}
use ovnflow.Ipam.State.Fields.{parse_ipv4_prefix_op}
use ovnflow.Ipam.State.Read.{pool_state_inv, pool_state_of}

checked_addr_op :
    (raw : Text) (op op' : String) (o : Option Addr) (ip : Addr)
    → checked_addr raw op o ≡ ok ip
    → checked_addr raw op' o ≡ ok ip
unfolding checked_addr
checked_addr_op raw op op' none ip h = cc
checked_addr_op raw op op' (some q) ip h = ground arith

pub parse_ipv4_addr_op :
    (raw : Text) (op op' : String) (ip : Addr)
    → parse_ipv4_addr raw op ≡ ok ip
    → parse_ipv4_addr raw op' ≡ ok ip
unfolding parse_ipv4_addr
parse_ipv4_addr_op raw op op' ip h = checked_addr_op raw op op' (parse_addr raw) ip h

-- A check that passes lets the rest of the chain run, whatever its error.
passes :
    (c : Bool) (e : Error) {u : Unit {0}} → fail_if c e ≡ ok u → (e' : Error) → fail_if c e' ≡ ok tt
passes true e h e' = cc
passes false e h e' = refl

pub validate_usable_op :
    (p : Prefix) (ip : Addr) (op op' label label' : String) {u : Unit {0}}
    → validate_usable p ip op label ≡ ok u
    → validate_usable p ip op' label' ≡ ok tt
unfolding validate_usable
validate_usable_op p ip op op' label label' h =
    let (u, e, h₁) = bind-ok _ _ h in
    let inside = fail_if-ok (not (contains p ip)) _ e in rw inside (passes _ _ h₁ _)

module _ (p : Prefix) (op op' : String) where
  read_gateway_op :
      (raw : Text) (g : Addr) → read_gateway p raw op ≡ ok g → read_gateway p raw op' ≡ ok g
  unfolding read_gateway
  read_gateway_op [] g h = h
  read_gateway_op (c ∷ raw) g h =
      let (ip, e, h₁) = bind-ok _ _ h in
      let (u, v, h₂) = bind-ok _ _ h₁ in
      rw (parse_ipv4_addr_op (c ∷ raw) op op' ip e)
        (rw (validate_usable_op p ip op op' "gateway" "gateway" v) h₂)

  read_reserved_op :
      (raws : List Text) (set out : List Addr)
      → read_reserved p op set raws ≡ ok out
      → read_reserved p op' set raws ≡ ok out
  unfolding read_reserved
  read_reserved_op [] set out h = h
  read_reserved_op (raw ∷ raws) set out h =
      let (ip, e, h₁) = bind-ok _ _ h in
      let (u, v, h₂) = bind-ok _ _ h₁ in
      rw (parse_ipv4_addr_op raw op op' ip e) (
        rw (validate_usable_op p ip op op' "reserved IP" "reserved IP" v)
          (read_reserved_op raws (add_addr set ip) out h₂))

  read_allocated_op :
      (taken : Addr → Bool) (raws : List Text) (set out : List Addr)
      → read_allocated p op taken set raws ≡ ok out
      → read_allocated p op' taken set raws ≡ ok out
  unfolding read_allocated
  read_allocated_op taken [] set out h = h
  read_allocated_op taken (raw ∷ raws) set out h =
      let (ip, e, h₁) = bind-ok _ _ h in
      let (u, v, h₂) = bind-ok _ _ h₁ in
      let (u', new, h₃) = bind-ok _ _ h₂ in
      let (u'', free, h₄) = bind-ok _ _ h₃ in
      let fresh = fail_if-ok (has_addr set ip) _ new in
      let unreserved = fail_if-ok (taken ip) _ free in
      rw (parse_ipv4_addr_op raw op op' ip e) (
        rw (validate_usable_op p ip op op' "allocated IP" "allocated IP" v) (
          rw (fresh, unreserved)
            (read_allocated_op taken raws (set ++ (ip ∷ [])) out (rw fresh at h₄))))

  read_excluded_op :
      (raws : List Text) (ps out : List Prefix)
      → read_excluded p op ps raws ≡ ok out
      → read_excluded p op' ps raws ≡ ok out
  unfolding read_excluded
  read_excluded_op [] ps out h = h
  read_excluded_op (raw ∷ raws) ps out h =
      let (q, e, h₁) = bind-ok _ _ h in
      let (u, v, h₂) = bind-ok _ _ h₁ in
      rw (parse_ipv4_prefix_op raw op op' q e)
        (rw (passes _ _ v _) (read_excluded_op raws (ps ++ (q ∷ [])) out h₂))

refuse_excluded_op :
    (ps : List Prefix) (op op' message : String) (ips : List Addr)
    → refuse_excluded ps op message ips ≡ ok tt
    → refuse_excluded ps op' message ips ≡ ok tt
unfolding refuse_excluded
refuse_excluded_op ps op op' message [] h = refl
refuse_excluded_op ps op op' message (ip ∷ ips) h =
    let (u, e, h₁) = bind-ok _ _ h in
    rw (passes _ _ e _) (refuse_excluded_op ps op op' message ips h₁)

pub pool_state_op :
    (pool : Pool) (op op' : String) (st : State)
    → pool_state pool op ≡ ok st
    → pool_state pool op' ≡ ok st
pool_state_op pool op op' st h =
    let r = pool_state_inv pool op st h in
    let p = st.prefix in
    pool_state_of pool op' st (record {
      prefix = parse_ipv4_prefix_op pool.cidr op op' p r.prefix;
      room = r.room;
      gateway = read_gateway_op p op op' pool.gateway st.gateway r.gateway;
      reserved = read_reserved_op p op op' pool.reserved [] st.reserved r.reserved;
      allocated =
          read_allocated_op p op op' (is_reserved st.gateway st.reserved) pool.allocated []
            st.allocated r.allocated;
      excluded = read_excluded_op p op op' pool.excluded [] st.excluded r.excluded;
      free_gateway = refuse_excluded_op st.excluded op op' _ _ r.free_gateway;
      free_reserved = refuse_excluded_op st.excluded op op' _ _ r.free_reserved;
      free_allocated = refuse_excluded_op st.excluded op op' _ _ r.free_allocated;
    })
