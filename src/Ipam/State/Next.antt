-- ===== src/Ipam/State/Next.antt =====
-- `nextAvailable` finds the least address that is available, in a bounded number of rounds.
use ovnflow.Base.{ℕ, zero, suc, ◌+◌, ◌-◌, ◌≤◌, ◌<◌, ◌^◌, Bool, true, false, ◌≡◌, refl}
use ovnflow.Base.{arith, inl, inr, Bool-cases, ==→eq, le→leb, lt→leb, leb→le, leb→lt, leb, ◌==◌}
use ovnflow.Base.{Option, none, some, String}
use ovnflow.Errors.{not_found, Error, Result, ok, err}
use ovnflow.Netip.{Addr, v4}
use ovnflow.Ipam.Range.Bounds.{IsNet, size, uint32_to_addr-v4}
use ovnflow.Ipam.State.{Pool, State, pool_state, is_available, scan, scan_result, next_available}
use ovnflow.Ipam.State.Valid.{IsValid, pool_state-IsValid}

-- The address with the number `x` can be allocated.
abbrev pub is_free : State → ℕ → Bool
is_free st x = is_available st (v4 x)

-- What a scan of the numbers from `a` to `b` has found.
pub record Least (st : State) (a b : ℕ) (ip : Addr) : Type 0 where
  pub at : ℕ
  pub addr : ip ≡ v4 at
  pub from : a ≤ at
  pub to : at ≤ b
  pub free : is_free st at ≡ true
  pub least : (y : ℕ) → a ≤ y → y < at → is_free st y ≡ false

abbrev pub NoneFree : State → ℕ → ℕ → Type 0
NoneFree st a b = (y : ℕ) → a ≤ y → y ≤ b → is_free st y ≡ false

abbrev Scanned : State → ℕ → ℕ → Option Addr → Type 0
Scanned st a b none = NoneFree st a b
Scanned st a b (some ip) = Least st a b ip

Scanned-step :
    (st : State) (a b : ℕ) (o : Option Addr)
    → is_free st a ≡ false
    → Scanned st (a + 1) b o
    → Scanned st a b o
Scanned-step st a b none f h = λ y l u. elim (Bool-cases (y == a)) [
  | inl e ↦ rw (==→eq y a e) f
  | inr ne ↦ h y (ground arith) u
]
Scanned-step st a b (some ip) f h = record {
  at = h.at;
  addr = h.addr;
  from = omega (arith, h.from);
  to = h.to;
  free = h.free;
  least = λ y l u. elim (Bool-cases (y == a)) [
    | inl e ↦ rw (==→eq y a e) f
    | inr ne ↦ h.least y (ground arith) u
  ];
}

module _ (st : State) (b rounds a : ℕ) where
  scan_found : a ≤ b → a < 2 ^ 32 → is_free st a ≡ true → scan st b (suc rounds) a ≡ some (v4 a)
  unfolding scan
  scan_found l u f = rw (le→leb a b l) (rw (uint32_to_addr-v4 a u) (rw f))

  -- The test for the largest uint32 stays false.
  scan_next :
      a ≤ b
      → a + 1 < 2 ^ 32
      → is_free st a ≡ false
      → scan st b (suc rounds) a ≡ scan st b rounds (a + 1)
  unfolding scan
  scan_next l u f =
      let e : (a == 2 ^ 32 - 1) ≡ false = ground arith in
      rw (le→leb a b l) (rw (uint32_to_addr-v4 a (omega arith)) (rw f (rw e)))

  scan_past : b < a → scan st b (suc rounds) a ≡ none
  unfolding scan
  scan_past l = rw (lt→leb a b l)

scan-Scanned :
    (st : State) (b rounds a : ℕ)
    → b + 1 < 2 ^ 32
    → b < a + rounds
    → Scanned st a b (scan st b rounds a)
scan-Scanned st b zero a m h = unfold scan in λ y l u. absurd (omega arith)
scan-Scanned st b (suc rounds) a m h = elim (Bool-cases (leb a b)) [
  | inl in_range ↦
      let l = leb→le a b in_range in
      elim (Bool-cases (is_free st a)) [
        | inl free ↦ rw (scan_found st b rounds a l (omega arith) free) (record {
          at = a;
          addr = refl;
          from = omega arith;
          to = l;
          free = free;
          least = λ y l u. absurd (omega arith);
        })
        | inr taken ↦
            rw (scan_next st b rounds a l (omega arith) taken)
              (Scanned-step st a b _ taken (scan-Scanned st b rounds (a + 1) m (omega arith)))
      ]
  | inr past ↦
      let l = leb→lt a b past in
      rw (scan_past st b rounds a l) (λ y l' u. absurd (omega (arith, l)))
]

-- What `nextAvailable` answers: the least available host, or `ErrorNotFound` where none is.
abbrev pub NextSpec : State → ℕ → Result Addr → Type 0
NextSpec st n (ok ip) = Least st (n + 1) (n + size st.prefix - 2) ip
NextSpec st n (err e) = (e.kind ≡ not_found) × NoneFree st (n + 1) (n + size st.prefix - 2)

scan_result-NextSpec :
    (st : State) (n : ℕ) (o : Option Addr)
    → Scanned st (n + 1) (n + size st.prefix - 2) o
    → NextSpec st n (scan_result st.prefix o)
unfolding scan_result
scan_result-NextSpec st n none h = (refl, h)
scan_result-NextSpec st n (some ip) h = h

pub next_available-NextSpec :
    (st : State) (n : ℕ) → IsValid st n → NextSpec st n (next_available st)
unfolding next_available
next_available-NextSpec st n v = scan_result-NextSpec st n _ (
    rw v.room.usable (
      scan-Scanned st _ _ (n + 1) (omega (arith, v.room.wide, v.room.net.fits))
        (omega (arith, v.room.wide))))

-- On a pool that is read without error, `nextAvailable` returns an available host address and every
-- host address before it is not available.
pub next_available-Least :
    (pool : Pool) (op : String) (st : State) (ip : Addr)
    → pool_state pool op ≡ ok st
    → next_available st ≡ ok ip
    → (n : ℕ) × IsNet st.prefix n × Least st (n + 1) (n + size st.prefix - 2) ip
next_available-Least pool op st ip h e =
    let (n, v) = pool_state-IsValid pool op st h in
    (n, v.room.net, rw e at (next_available-NextSpec st n v))

-- It returns an error only if no host address is available, and then `ErrorNotFound`.
pub next_available-exhausted :
    (pool : Pool) (op : String) (st : State) (x : Error)
    → pool_state pool op ≡ ok st
    → next_available st ≡ err x
    → (n : ℕ) × IsNet st.prefix n
      × (x.kind ≡ not_found)
      × NoneFree st (n + 1) (n + size st.prefix - 2)
next_available-exhausted pool op st x h e =
    let (n, v) = pool_state-IsValid pool op st h in
    let s = rw e at (next_available-NextSpec st n v) in (n, v.room.net, s.0, s.1)
