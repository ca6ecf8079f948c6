-- ===== src/Sdwan/Builder/Single.antt =====
-- sdwan.go: a builder is executed once.
use ovnflow.Base.{Bool, true, false, Option, ◌≡◌, refl, Bool-cases, inl, inr}
use ovnflow.Text.{Text}
use ovnflow.Errors.{validation, err}
use ovnflow.Util.{wrapped, mark}
use ovnflow.Sdwan.Store.{Backend}
use ovnflow.Sdwan.Builder.{Builder, execute, execute_delete}

module _ {S : Type 0} where
  -- Whatever the first `Execute` of a builder did, and on any backend or none, a second one fails
  -- with "builder already executed" and leaves the backend and the builder as they are.
  pub execute_twice :
      (backend : Option (Backend S)) (s t : S) (b : Builder)
      → execute backend t (execute backend s b).0 ≡ (
        (execute backend s b).0,
        t,
        err (wrapped validation "execute" b.network.name "builder already executed"),
      )
  unfolding execute mark
  execute_twice backend s t b = elim (Bool-cases b.used) [ inl e ↦ rw e refl | inr e ↦ rw e refl ]

  -- The same of the `Execute` of a deletion.
  pub execute_delete_twice :
      (backend : Option (Backend S)) (used : Bool) (s t : S) (name : Text)
      → execute_delete backend (execute_delete backend used s name).0 t name
        ≡ (true, t, err (wrapped validation "delete" name "builder already executed"))
  unfolding execute_delete mark
  execute_delete_twice backend true s t name = refl
  execute_delete_twice backend false s t name = refl
