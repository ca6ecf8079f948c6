-- ===== src/Ipam/State/Read.antt =====
-- `pool_state` taken apart: it succeeds exactly when each of its steps does.
use ovnflow.Base.{Bool, false, ◌≡◌, subst, List, [], ◌∷◌, ◌++◌, ltb, String}
use ovnflow.Text.{Text}
use ovnflow.Errors.{ok, fail_if, bind-ok, fail_if-ok, ok_injective}
use ovnflow.Netip.{Addr, Prefix}
use ovnflow.Ipam.Range.{usable_range}
use ovnflow.Ipam.State.{Pool, State, pool_state, parse_ipv4_prefix, read_gateway, read_reserved}
use ovnflow.Ipam.State.{
  parse_ipv4_addr, validate_usable, has_addr, read_allocated, read_excluded, refuse_excluded,
  is_reserved,
}

pub record IsRead (pool : Pool) (op : String) (st : State) : Type 0 where
  pub prefix : parse_ipv4_prefix pool.cidr op ≡ ok st.prefix
  pub room : ltb (usable_range st.prefix).end (usable_range st.prefix).start ≡ false
  pub gateway : read_gateway st.prefix pool.gateway op ≡ ok st.gateway
  pub reserved : read_reserved st.prefix op [] pool.reserved ≡ ok st.reserved
  pub allocated :
      read_allocated st.prefix op (is_reserved st.gateway st.reserved) [] pool.allocated
      ≡ ok st.allocated
  pub excluded : read_excluded st.prefix op [] pool.excluded ≡ ok st.excluded
  pub free_gateway :
      refuse_excluded st.excluded op "gateway IP is excluded" (st.gateway ∷ []) ≡ ok tt
  pub free_reserved : refuse_excluded st.excluded op "reserved IP is excluded" st.reserved ≡ ok tt
  pub free_allocated :
      refuse_excluded st.excluded op "allocated IP is excluded" st.allocated ≡ ok tt

pub pool_state_inv :
    (pool : Pool) (op : String) (st : State) → pool_state pool op ≡ ok st → IsRead pool op st
unfolding pool_state
pool_state_inv pool op st h =
    let (prefix, e₁, h₁) = bind-ok _ _ h in
    let (u₂, e₂, h₂) = bind-ok _ _ h₁ in
    let (gateway, e₃, h₃) = bind-ok _ _ h₂ in
    let (reserved, e₄, h₄) = bind-ok _ _ h₃ in
    let (allocated, e₅, h₅) = bind-ok _ _ h₄ in
    let (excluded, e₆, h₆) = bind-ok _ _ h₅ in
    let (u₇, e₇, h₇) = bind-ok _ _ h₆ in
    let (u₈, e₈, h₈) = bind-ok _ _ h₇ in
    let (u₉, e₉, h₉) = bind-ok _ _ h₈ in
    subst (IsRead pool op) (ok_injective h₉) (record {
      prefix = e₁;
      room = fail_if-ok _ _ e₂;
      gateway = e₃;
      reserved = e₄;
      allocated = e₅;
      excluded = e₆;
      free_gateway = e₇;
      free_reserved = e₈;
      free_allocated = e₉;
    })

pub pool_state_of :
    (pool : Pool) (op : String) (st : State) → IsRead pool op st → pool_state pool op ≡ ok st
unfolding pool_state
pool_state_of pool op st r = rw r.prefix (
    rw r.room (
      rw r.gateway (
        rw r.reserved (
          rw r.allocated
            (rw r.excluded (rw r.free_gateway (rw r.free_reserved (rw r.free_allocated))))))))

-- One round of the loop over the allocated texts that goes on to the rest.
pub record ReadStep (p : Prefix) (op : String) (taken : Addr → Bool) (raw : Text) (raws : List Text)
    (set out : List Addr) : Type 0 where
  pub ip : Addr
  pub parsed : parse_ipv4_addr raw op ≡ ok ip
  pub usable : validate_usable p ip op "allocated IP" ≡ ok tt
  pub fresh : has_addr set ip ≡ false
  pub unreserved : taken ip ≡ false
  pub rest : read_allocated p op taken (set ++ (ip ∷ [])) raws ≡ ok out

pub read_allocated_inv :
    (p : Prefix) (op : String) (taken : Addr → Bool) (raw : Text) (raws : List Text)
    (set out : List Addr)
    → read_allocated p op taken set (raw ∷ raws) ≡ ok out
    → ReadStep p op taken raw raws set out
unfolding read_allocated
read_allocated_inv p op taken raw raws set out h =
    let (i, e₁, h₁) = bind-ok (parse_ipv4_addr raw op) _ h in
    let (u₂, e₂, h₂) = bind-ok (validate_usable p i op "allocated IP") _ h₁ in
    let (u₃, e₃, h₃) = bind-ok (fail_if (has_addr set i) _) _ h₂ in
    let (u₄, e₄, h₄) = bind-ok (fail_if (taken i) _) _ h₃ in
    let fresh = fail_if-ok (has_addr set i) _ e₃ in
    record {
      ip = i;
      parsed = e₁;
      usable = e₂;
      fresh = fresh;
      unreserved = fail_if-ok (taken i) _ e₄;
      rest = rw fresh at h₄;
    }
