-- ===== src/Sdwan/Store/Runs.antt =====
-- `InMemorySDWANBackend` as a map from names to networks, and what a run of its methods leaves.
use ovnflow.Base.{ℕ, ◌+◌, Bool, true, false, List, [], ◌∷◌, Option, none, some, if◌then◌else◌}
use ovnflow.Base.{Bool-cases, Option-cases, inl, inr, ◌≡◌, refl, sym, ap, ◌∙◌, some_injective}
use ovnflow.Text.{Text, codes, text_eq}
use ovnflow.Text.Laws.{text_eq→eq, text_eq_refl}
use ovnflow.Errors.{not_found, ok, err}
use ovnflow.Util.{wrapped}
use ovnflow.Util.Dict.{lookup, put, lookup-put, lookup-put_other, lookup-put_if, lookup-remove_if}
use ovnflow.Util.Int.{ℤ, pos, add_int}
use ovnflow.Util.Int.Wrap.{add_int_twice}
use ovnflow.Sdwan.Types.{Network, Status, ApplyPlan, no_status}
use ovnflow.Sdwan.Normalize.{normalize_network, with_defaults}
use ovnflow.Sdwan.Store.{
  MemoryBackend, new_memory_backend, memory_get, memory_apply, memory_delete, last_plan,
  known_status, applied_status,
}

-- The backend as a function of the name: the network, and the plan it was applied with.
abbrev pub view : MemoryBackend → Text → Option Network × Option ApplyPlan
view b name = (lookup name b.networks, last_plan b name)

abbrev PairOf {ℓ κ} : {A : Type ℓ} {B : Type κ} → A → B → A × B → Type (ℓ ⊔ κ)
PairOf {A = A} {B = B} a b p = let pair : A × B = (a, b) in pair ≡ p

if-pair {ℓ κ} :
    {A : Type ℓ} {B : Type κ} (c : Bool) (a a' : A) (b b' : B)
    → PairOf (if c then a else a') (if c then b else b') (if c then (a, b) else (a', b'))
if-pair true a a' b b' = refl
if-pair false a a' b b' = refl

-- What an application stores for its network.
abbrev pub stored : MemoryBackend → Network → Network
stored b n = record (normalize_network n) {
  status = applied_status (known_status n.status (lookup n.name b.networks));
}

pub normalize_network-name : (n : Network) → (normalize_network n).name ≡ n.name
unfolding normalize_network with_defaults
normalize_network-name n = refl

-- The status that an application goes on from: that of the network stored under the name, or what
-- the network itself says if there is none.
pub data Was (b : MemoryBackend) (n : Network) : Status → Type 0 where
  known : (m : Network) → lookup n.name b.networks ≡ some m → Was b n m.status
  new : lookup n.name b.networks ≡ none → Was b n n.status

-- The status apart from its state and its count.
abbrev pub rest_of : Status → Status
rest_of status = record status { state = []; last_applied = pos 0 }

-- What is behind an application that went on from the status `was`.
pub record Applied (b after : MemoryBackend) (n : Network) (plan : ApplyPlan) (was : Status)
    : Type 0 where
  pub network : Network
  pub there : lookup n.name after.networks ≡ some network
  pub normal :
      record network { status = no_status } ≡ record (normalize_network n) { status = no_status }
  pub state : network.status.state ≡ codes "present"
  pub count : network.status.last_applied ≡ add_int was.last_applied 1
  pub status : rest_of network.status ≡ rest_of was
  pub planned : last_plan after n.name ≡ some plan
  pub others : (name : Text) → text_eq name n.name ≡ false → view after name ≡ view b name

known_status-Was :
    (b : MemoryBackend) (n : Network) (was : Status)
    → Was b n was
    → known_status n.status (lookup n.name b.networks) ≡ was
known_status-Was b n _ (known m e) = ap (known_status n.status) e
known_status-Was b n _ (new e) = ap (known_status n.status) e

-- Application of a network never fails. It stores the normal form of the network under its name, in
-- state "present" and with an `int` that is one more than before, or wraps around; the rest of the
-- status is as before, and it is stored with the plan. "Before" is the network that was stored
-- under the name, or, if there was none, the status that the network comes with. What is stored
-- under another name stays.
pub memory_apply-Applied :
    (b : MemoryBackend) (n : Network) (plan : ApplyPlan) (was : Status)
    → Was b n was
    → ((memory_apply b n plan).1 ≡ ok tt) × Applied b (memory_apply b n plan).0 n plan was
unfolding memory_apply last_plan normalize_network with_defaults applied_status
memory_apply-Applied b n plan was h =
    let status = known_status-Was b n was h in
    (
      refl,
      record {
        network = stored b n;
        there = lookup-put n.name (stored b n) b.networks;
        normal = refl;
        state = refl;
        count = ap (λ s. add_int s.last_applied 1) status;
        status = ap rest_of status;
        planned = lookup-put n.name plan b.plans;
        others = λ name other.
            ap (λ o. (o, lookup name (put n.name plan b.plans)))
              (lookup-put_other n.name name (stored b n) b.networks other)
            ∙ ap (λ o. (lookup name b.networks, o))
                (lookup-put_other n.name name plan b.plans other);
      },
    )

pub networks-memory_apply :
    (b : MemoryBackend) (n : Network) (plan : ApplyPlan) (name : Text)
    → lookup name (memory_apply b n plan).0.networks
      ≡ (if text_eq name n.name then some (stored b n) else lookup name b.networks)
unfolding memory_apply normalize_network with_defaults
networks-memory_apply b n plan name = lookup-put_if n.name name (stored b n) b.networks

-- What was applied is what is read: the normal form, with the status that it was stored with.
pub memory_get-memory_apply :
    (b : MemoryBackend) (n : Network) (plan : ApplyPlan)
    → memory_get (memory_apply b n plan).0 n.name ≡ ok (stored b n)
unfolding memory_get
memory_get-memory_apply b n plan =
    rw (networks-memory_apply b n plan n.name, text_eq_refl n.name) refl

-- What the deletion of a name does, given what is stored under it.
abbrev pub DeletedView : MemoryBackend → Text → Text → Option Network → Type 0
DeletedView b name other none =
    memory_delete b name ≡ (b, err (wrapped not_found "delete" name "SD-WAN network not found"))
DeletedView b name other (some n) =
    ((memory_delete b name).1 ≡ ok tt)
    × (view (memory_delete b name).0 other
        ≡ (if text_eq other name then (none, none) else view b other))

-- Deletion of a network that is not there fails with "not found" and changes nothing. That of one
-- that is there succeeds: the network and its plan are gone, and all others are as before.
pub memory_delete-view :
    (b : MemoryBackend) (name other : Text) → DeletedView b name other (lookup name b.networks)
unfolding memory_delete last_plan
memory_delete-view b name other = elim (Option-cases (lookup name b.networks)) [
  | inl h ↦ rw h (rw h refl)
  | inr (n, h) ↦ rw h (
    rw h refl,
    rw (h, lookup-remove_if name other b.networks, lookup-remove_if name other b.plans)
        (if-pair (text_eq other name) _ _ _ _),
  )
]

networks-memory_delete :
    (b : MemoryBackend) (name other : Text)
    → lookup other (memory_delete b name).0.networks
      ≡ (if text_eq other name then none else lookup other b.networks)
unfolding memory_delete
networks-memory_delete b name other = elim (Option-cases (lookup name b.networks)) [
  | inl h ↦ elim (Bool-cases (text_eq other name)) [
    | inl e ↦ rw (h, e) (rw (text_eq→eq other name e) h)
    | inr e ↦ rw (h, e) refl
  ]
  | inr (n, h) ↦ rw h (lookup-remove_if name other b.networks)
]

-- What is done to a backend.
pub data Event : Type 0 where
  applies : Network → ApplyPlan → Event
  deletes : Text → Event

-- The backend behind some events, the last one first.
unfoldable pub after : List Event → MemoryBackend
after [] = new_memory_backend
after (applies n plan ∷ events) = (memory_apply (after events) n plan).0
after (deletes name ∷ events) = (memory_delete (after events) name).0

-- One application more, or the first.
abbrev once_more : Network → Option (ℤ × ℕ) → ℤ × ℕ
once_more n none = (n.status.last_applied, 1)
once_more n (some (start, times)) = (start, times + 1)

-- The number that a network came with when it was last created, and how often it was applied since
-- then; none if there is no network of that name.
unfoldable pub applications : Text → List Event → Option (ℤ × ℕ)
applications name [] = none
applications name (applies n plan ∷ events) =
    let before = applications name events in
    if text_eq name n.name then some (once_more n before) else before
applications name (deletes other ∷ events) =
    let before = applications name events in if text_eq name other then none else before

abbrev pub applied_count : Option Network → Option ℤ
applied_count none = none
applied_count (some n) = some n.status.last_applied

abbrev pub counted_from : Option (ℤ × ℕ) → Option ℤ
counted_from none = none
counted_from (some (start, times)) = some (add_int start times)

once_more-count :
    (n : Network) (o : Option Network) (before : Option (ℤ × ℕ))
    → applied_count o ≡ counted_from before
    → applied_count (some (record n { status = applied_status (known_status n.status o) }))
      ≡ counted_from (some (once_more n before))
unfolding applied_status
once_more-count n none none h = refl
once_more-count n none (some (start, times)) h = cc
once_more-count n (some m) none h = cc
once_more-count n (some m) (some (start, times)) h =
    ap (λ z. some (add_int z 1)) (some_injective h) ∙ ap some (add_int_twice start times 1)

-- After any applications and deletions, `LastApplied` of a stored network is the number that its
-- first application came with and as many more as it was applied since it was created, as an `int`,
-- which wraps around; and there is no network of a name that was never applied or deleted last.
pub last_applied-after :
    (events : List Event) (name : Text)
    → applied_count (lookup name (after events).networks) ≡ counted_from (applications name events)
unfolding after applications lookup normalize_network with_defaults
last_applied-after [] name = refl
last_applied-after (applies n plan ∷ events) name =
    let b = after events in
    let rest = last_applied-after events name in
    elim (Bool-cases (text_eq name n.name)) [
      | inl e ↦
          let same = text_eq→eq name n.name e in
          rw (networks-memory_apply b n plan name, e)
            (once_more-count n (lookup n.name b.networks) (applications name events)
              (ap (λ t. applied_count (lookup t b.networks)) (sym same) ∙ rest))
      | inr e ↦ rw (networks-memory_apply b n plan name, e) rest
    ]
last_applied-after (deletes other ∷ events) name =
    let b = after events in
    let rest = last_applied-after events name in
    elim (Bool-cases (text_eq name other)) [
      | inl e ↦ rw (networks-memory_delete b other name, e) refl
      | inr e ↦ rw (networks-memory_delete b other name, e) rest
    ]
