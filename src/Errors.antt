-- ===== src/Errors.antt =====
-- errors.go: the kinds of error, the error that `wrap` builds, and Go's (value, error) pair.
use ovnflow.Base.{
  [], ◌⊎◌, inl, inr, ◌≢◌, Bool, true, false, String, ◌≡◌, refl, not, ◌&&◌, if◌then◌else◌,
}
use ovnflow.Text.{Text}
use Prim.Native.String.{◌++◌}
use text.Mathlib.Text.{◌==◌ as str_eq}

-- The constants of type `ErrorKind`.
pub data ErrorKind : Type 0 where
  already_exists not_found conflict unavailable invalid_schema timeout canceled : ErrorKind
  partial_success validation unsupported permission_denied ambiguous : ErrorKind
  ownership_violation backend_unavailable : ErrorKind

-- `Error` without the `Database` field, which is "OpenFlow" in the calls of openflow_client.go and
-- openflow_intent.go and "" in the others that are modelled.
-- `caused` tells whether the error wraps another one, whose text is not modelled.
pub record Error : Type 0 where
  pub kind : ErrorKind
  pub table : String
  pub operation : String
  pub object : Text
  pub message : String
  pub caused : Bool

abbrev pub wrap : ErrorKind → String → String → Text → String → Bool → Error
wrap kind table op object message caused = record {
  kind = kind;
  table = table;
  operation = op;
  object = object;
  message = if not caused && str_eq message "" then op ++ " failed" else message;
  caused = caused;
}

-- `ErrBackendUnavailable`.
abbrev pub unavailable_error : Error
unavailable_error = record {
  kind = backend_unavailable;
  table = "";
  operation = "";
  object = [];
  message = "";
  caused = false;
}

-- Go's pair of a value and an error: one of the two counts.
pub data Result {ℓ} (A : Type ℓ) : Type ℓ where
  ok : A → Result A
  err : Error → Result A

module _ {ℓ κ} {A : Type ℓ} {B : Type κ} where
  infixl 10 ◌>>=◌
  -- `if err != nil { return err }` behind a call, and then the rest.
  abbrev pub ◌>>=◌ : Result A → (A → Result B) → Result B
  r >>= next = elim r [ err e ↦ err e | ok a ↦ next a ]

  -- A chain that succeeds: its first call did, and so did the rest.
  pub bind-ok :
      (r : Result A) (next : A → Result B) {b : B}
      → (r >>= next) ≡ ok b
      → (a : A) × (r ≡ ok a) × (next a ≡ ok b)
  bind-ok (err e) next h = cc
  bind-ok (ok a) next h = (a, refl, h)

module _ {κ} {B : Type κ} where
  infixl 10 ◌>>◌
  -- A call of which only the error counts.
  abbrev pub ◌>>◌ : Result (Unit {0}) → Result B → Result B
  check >> rest = elim check [ err e ↦ err e | ok _ ↦ rest ]

  -- The check passed, and the rest succeeded.
  pub >>-ok :
      (check : Result (Unit {0})) (rest : Result B) {b : B}
      → (check >> rest) ≡ ok b
      → (check ≡ ok tt) × (rest ≡ ok b)
  >>-ok (err e) rest h = cc
  >>-ok (ok tt) rest h = (refl, h)

-- An early return of `e` under the condition.
abbrev pub fail_if : Bool → Error → Result (Unit {0})
fail_if c e = if c then err e else ok tt

pub fail_if-ok : (c : Bool) (e : Error) {u : Unit {0}} → fail_if c e ≡ ok u → c ≡ false
fail_if-ok true e h = cc
fail_if-ok false e h = refl

pub ok_injective {ℓ} : {A : Type ℓ} {a b : A} → ok a ≡ ok b → a ≡ b
ok_injective h = cc

pub Result-cases {ℓ} :
    {A : Type ℓ} (r : Result A) → ((e : Error) × (r ≡ err e)) ⊎ ((a : A) × (r ≡ ok a))
Result-cases (err e) = inl (e, refl)
Result-cases (ok a) = inr (a, refl)

pub ok≢err {ℓ} : {A : Type ℓ} {a : A} {e : Error} → err e ≢ ok a
ok≢err h = cc
