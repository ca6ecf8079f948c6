-- ===== src/Ipam/State/Valid.antt =====
-- The invariant of a state that `IPAMPool.state` returns.
use ovnflow.Base.{ℕ, ◌+◌, Bool, true, false, ◌≡◌, refl}
use ovnflow.Base.{arith, subst, sym, ◌∙◌, inl, inr, Bool-cases, not}
use ovnflow.Base.{List, [], ◌∷◌, ◌++◌, String, All, All-append, any-append}
use ovnflow.Text.{Text}
use ovnflow.Text.Laws.{text_eq_sym, text_eq_refl}
use ovnflow.Errors.{ok, bind-ok, fail_if-ok, ok_injective}
use ovnflow.Netip.{Addr, v4, v6, no_addr, Prefix}
use ovnflow.Ipam.Range.{usable_range, prefixes_overlap, uint32_to_addr}
use ovnflow.Ipam.Range.Bounds.{IsNet, uint32_to_addr-v4}
use ovnflow.Ipam.State.{
  Pool, State, pool_state, read_gateway, read_reserved, read_allocated, read_excluded,
  refuse_excluded, is_reserved, in_excluded, addr_eq, has_addr, add_addr, parse_ipv4_addr,
  validate_usable,
}
use ovnflow.Ipam.State.Fields.{
  HasRoom, HasRoom-of, IsHost, validate_usable_iff, parse_ipv4_addr-ok, parse_ipv4_prefix-ok,
}
use ovnflow.Ipam.State.Read.{IsRead, pool_state_inv}

pub addr_eq_refl : (a : Addr) → addr_eq a a ≡ true
addr_eq_refl (v4 n) = ground arith
addr_eq_refl (v6 t) = text_eq_refl t
addr_eq_refl no_addr = refl

pub addr_eq_sym : (a b : Addr) → addr_eq a b ≡ addr_eq b a
addr_eq_sym (v4 n) (v4 m) = ground arith
addr_eq_sym (v4 n) (v6 t) = refl
addr_eq_sym (v4 n) no_addr = refl
addr_eq_sym (v6 t) (v4 n) = refl
addr_eq_sym (v6 s) (v6 t) = text_eq_sym s t
addr_eq_sym (v6 s) no_addr = refl
addr_eq_sym no_addr (v4 n) = refl
addr_eq_sym no_addr (v6 t) = refl
addr_eq_sym no_addr no_addr = refl

not-false : (b : Bool) → not b ≡ false → b ≡ true
not-false true h = refl
not-false false h = cc

-- The address is a host address of the prefix with base `n`.
abbrev pub IsHostAddr : Prefix → ℕ → Addr → Type 0
IsHostAddr p n ip = (m : ℕ) × (ip ≡ v4 m) × IsHost p n m

-- No address stands twice.
abbrev pub Distinct : List Addr → Type 0
Distinct [] = Unit
Distinct (a ∷ r) = (has_addr r a ≡ false) × Distinct r

abbrev IsBlock : Prefix → Type 0
IsBlock p = (m : ℕ) × IsNet p m

-- An excluded prefix that `IPAMPool.state` lets pass.
abbrev pub IsExclusion : Prefix → Prefix → Type 0
IsExclusion pool p = IsBlock p × (prefixes_overlap pool p ≡ true)

pub record IsValid (st : State) (n : ℕ) : Type 0 where
  pub room : HasRoom st.prefix n
  pub gateway : IsHostAddr st.prefix n st.gateway
  pub reserved : All (IsHostAddr st.prefix n) st.reserved
  pub allocated : All (IsHostAddr st.prefix n) st.allocated
  pub distinct : Distinct st.allocated
  pub unreserved : All (λ ip. is_reserved st.gateway st.reserved ip ≡ false) st.allocated
  pub excluded : All (IsExclusion st.prefix) st.excluded
  pub free_gateway : in_excluded st.excluded st.gateway ≡ false
  pub free_reserved : All (λ ip. in_excluded st.excluded ip ≡ false) st.reserved
  pub free_allocated : All (λ ip. in_excluded st.excluded ip ≡ false) st.allocated

module _ (p : Prefix) (n : ℕ) (room : HasRoom p n) where
  -- A text that parses to a usable address.
  read-host :
      (raw : Text) (op op' label : String) (ip : Addr)
      → parse_ipv4_addr raw op ≡ ok ip
      → validate_usable p ip op' label ≡ ok tt
      → IsHostAddr p n ip
  read-host raw op op' label ip e v =
      let (m, i, lt, _) = parse_ipv4_addr-ok raw op ip e in
      (m, i, (validate_usable_iff p n m op' label room lt).0 (rw i at v))

  read_gateway-host :
      (raw : Text) (op : String) (g : Addr) → read_gateway p raw op ≡ ok g → IsHostAddr p n g
  unfolding read_gateway
  read_gateway-host [] op g h =
      let e : uint32_to_addr (usable_range p).start ≡ v4 (n + 1) =
        rw room.usable (uint32_to_addr-v4 (n + 1) (omega (arith, room.wide, (room.net).fits))) in
      (n + 1, sym (ok_injective h) ∙ e, (omega arith, omega (arith, room.wide)))
  read_gateway-host (c ∷ raw) op g h =
      let (ip, e, h₁) = bind-ok _ _ h in
      let (u, v, h₂) = bind-ok _ _ h₁ in
      subst (IsHostAddr p n) (ok_injective h₂) (read-host (c ∷ raw) op op "gateway" ip e v)

  add_addr-All :
      (set : List Addr) (ip : Addr)
      → All (IsHostAddr p n) set
      → IsHostAddr p n ip
      → All (IsHostAddr p n) (add_addr set ip)
  add_addr-All set ip h k = elim (Bool-cases (has_addr set ip)) [
    | inl old ↦ rw old h
    | inr new ↦ rw new (All-append (IsHostAddr p n) set (ip ∷ []) h (k, tt))
  ]

  read_reserved-hosts :
      (op : String) (raws : List Text) (set out : List Addr)
      → All (IsHostAddr p n) set
      → read_reserved p op set raws ≡ ok out
      → All (IsHostAddr p n) out
  unfolding read_reserved
  read_reserved-hosts op [] set out hs h = subst (All (IsHostAddr p n)) (ok_injective h) hs
  read_reserved-hosts op (raw ∷ raws) set out hs h =
      let (ip, e, h₁) = bind-ok _ _ h in
      let (u, v, h₂) = bind-ok _ _ h₁ in
      read_reserved-hosts op raws (add_addr set ip) out
        (add_addr-All set ip hs (read-host raw op op "reserved IP" ip e v)) h₂

  Distinct-append :
      (set : List Addr) (ip : Addr)
      → Distinct set
      → has_addr set ip ≡ false
      → Distinct (set ++ (ip ∷ []))
  Distinct-append [] ip d h = (refl, tt)
  Distinct-append (a ∷ r) ip d h = (
    rw (any-append (addr_eq a) r (ip ∷ []), d.0, addr_eq_sym a ip) (ground (arith, h)),
    Distinct-append r ip d.1 (ground (arith, h)),
  )

  -- What the loop over the allocated texts keeps.
  read_allocated-kept :
      (op : String) (taken : Addr → Bool) (raws : List Text) (set out : List Addr)
      → All (IsHostAddr p n) set
      → Distinct set
      → All (λ ip. taken ip ≡ false) set
      → read_allocated p op taken set raws ≡ ok out
      → All (IsHostAddr p n) out × Distinct out × All (λ ip. taken ip ≡ false) out
  unfolding read_allocated
  read_allocated-kept op taken [] set out hs d f h =
      subst
        (λ (s : List Addr). All (IsHostAddr p n) s × Distinct s × All (λ ip. taken ip ≡ false) s)
        (ok_injective h) (hs, d, f)
  read_allocated-kept op taken (raw ∷ raws) set out hs d f h =
      let (ip, e, h₁) = bind-ok _ _ h in
      let (u, v, h₂) = bind-ok _ _ h₁ in
      let (u', fresh, h₃) = bind-ok _ _ h₂ in
      let (u'', open', h₄) = bind-ok _ _ h₃ in
      let new = fail_if-ok _ _ fresh in
      read_allocated-kept op taken raws (set ++ (ip ∷ [])) out
        (All-append (IsHostAddr p n) set (ip ∷ []) hs
          (read-host raw op op "allocated IP" ip e v, tt))
        (Distinct-append set ip d new)
        (All-append (λ ip. taken ip ≡ false) set (ip ∷ []) f (fail_if-ok _ _ open', tt))
        (rw new at h₄)

  read_excluded-blocks :
      (op : String) (raws : List Text) (ps out : List Prefix)
      → All (IsExclusion p) ps
      → read_excluded p op ps raws ≡ ok out
      → All (IsExclusion p) out
  unfolding read_excluded
  read_excluded-blocks op [] ps out hs h = subst (All (IsExclusion p)) (ok_injective h) hs
  read_excluded-blocks op (raw ∷ raws) ps out hs h =
      let (q, e, h₁) = bind-ok _ _ h in
      let (u, v, h₂) = bind-ok _ _ h₁ in
      let met = not-false _ (fail_if-ok _ _ v) in
      read_excluded-blocks op raws (ps ++ (q ∷ [])) out
        (All-append (IsExclusion p) ps (q ∷ []) hs ((parse_ipv4_prefix-ok raw op q e, met), tt)) h₂

refuse_excluded-free :
    (excluded : List Prefix) (op message : String) (ips : List Addr)
    → refuse_excluded excluded op message ips ≡ ok tt
    → All (λ ip. in_excluded excluded ip ≡ false) ips
unfolding refuse_excluded
refuse_excluded-free excluded op message [] h = tt
refuse_excluded-free excluded op message (ip ∷ ips) h =
    let (u, e, h₁) = bind-ok _ _ h in
    (fail_if-ok _ _ e, refuse_excluded-free excluded op message ips h₁)

IsRead-IsValid :
    (pool : Pool) (op : String) (st : State) → IsRead pool op st → (n : ℕ) × IsValid st n
IsRead-IsValid pool op st r =
    let (n, net) = parse_ipv4_prefix-ok pool.cidr op st.prefix r.prefix in
    let room = HasRoom-of st.prefix n net r.room in
    let kept =
      read_allocated-kept st.prefix n room op (is_reserved st.gateway st.reserved) pool.allocated []
        st.allocated tt tt tt r.allocated in
    (
      n,
      record {
        room = room;
        gateway = read_gateway-host st.prefix n room pool.gateway op st.gateway r.gateway;
        reserved =
            read_reserved-hosts st.prefix n room op pool.reserved [] st.reserved tt r.reserved;
        allocated = kept.0;
        distinct = kept.1;
        unreserved = kept.2;
        excluded =
            read_excluded-blocks st.prefix n room op pool.excluded [] st.excluded tt r.excluded;
        free_gateway = (refuse_excluded-free st.excluded op _ _ r.free_gateway).0;
        free_reserved = refuse_excluded-free st.excluded op _ _ r.free_reserved;
        free_allocated = refuse_excluded-free st.excluded op _ _ r.free_allocated;
      },
    )

-- Every state that a pool is read as is valid: its gateway, reserved and allocated addresses are
-- host addresses of its prefix outside the excluded prefixes, the allocated ones are distinct and
-- not reserved, and every excluded prefix meets the pool.
pub pool_state-IsValid :
    (pool : Pool) (op : String) (st : State) → pool_state pool op ≡ ok st → (n : ℕ) × IsValid st n
pool_state-IsValid pool op st h = IsRead-IsValid pool op st (pool_state_inv pool op st h)
