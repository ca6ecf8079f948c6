-- ===== src/OpenFlow/Intent/Sent.antt =====
-- openflow_intent.go: what an `Execute` that returns without an error has done.
use ovnflow.Base.{
  ℕ, Bool, true, false, ◌≡◌, refl, sym, subst, ap, ◌∙◌, none, some, ◌==◌, if◌then◌else◌, Bool-cases,
  inl, inr,
}
use ovnflow.Text.{Text}
use ovnflow.Errors.{Error, Result, ok, err, Result-cases}
use ovnflow.Util.{mark}
use ovnflow.OpenFlow.FlowMod.{Flow}
use ovnflow.OpenFlow.Session.{Session, flow_mod, add_flow, delete_flow}
use ovnflow.OpenFlow.Session.Delivered.{Delivered, flow_mod-Delivered}
use ovnflow.OpenFlow.Intent.{
  Builder, Run, with_mask, checked, plan_checked, planned, sent, dialed, configured, run_planned,
  used_error, send_flow, configures, check_flow, validate_flow, plan_flow, execute_flow,
}

-- The flow with a cookie mask that is not 0.
abbrev pub masked_flow : Flow → Flow
masked_flow flow = record flow {
  cookie_mask = if flow.cookie_mask == 0 then 0xffff000000000000 else flow.cookie_mask;
}

-- The command of the modification: to delete, or to add.
abbrev pub command_of : Bool → ℕ
command_of delete = if delete then 3 else 0

marked-send :
    (b : Builder) (s : Session)
    → send_flow (with_mask (record b { once = true })) s
      ≡ flow_mod (command_of b.delete) (masked_flow b.flow) s
unfolding add_flow delete_flow
marked-send b s = elim (Bool-cases (b.flow.cookie_mask == 0)) [
  | inl e ↦ elim (Bool-cases b.delete) [ inl f ↦ rw (e, f) refl | inr f ↦ rw (e, f) refl ]
  | inr e ↦ elim (Bool-cases b.delete) [ inl f ↦ rw (e, f) (rw e refl) | inr f ↦ rw (e, f) refl ]
]

module _ {ℓ} {W : Type ℓ} (configure : Text → W → W × Result (Unit {0}))
    (dial : W → W × Result Session) where
  -- The builder was not used and its flow is valid; the controller was configured first if the
  -- client does that; then a session was opened, and what it has sent is one message, with the
  -- command and all fields of the flow. The builder cannot be used again: that touches nothing.
  pub record Executed (b : Builder) (w : W) (run : Run W) : Type ℓ where
    pub unused : b.once ≡ false
    pub valid : check_flow b ≡ ok tt
    pub opened : W
    pub before : Session
    pub after : Session
    pub configured :
        (if configures b then configure b.flow.bridge w else (w, ok tt)) ≡ (opened, ok tt)
    pub dialed : dial opened ≡ (run.world, ok before)
    pub sent : Delivered (masked_flow b.flow) (command_of b.delete) before after
    pub session : run.session ≡ some after
    pub again :
        (w' : W)
        → execute_flow configure dial run.builder w' ≡ record {
          builder = run.builder;
          world = w';
          session = none;
          result = err (used_error run.builder);
        }

  -- The part from the controller on, for the builder `c` behind the checks.
  record Done (c : Builder) (x : W × Result (Unit {0})) (run : Run W) : Type ℓ where
    opened : W
    before : Session
    after : Session
    configured_ok : x ≡ (opened, ok tt)
    dialed_ok : dial opened ≡ (run.world, ok before)
    sent_ok : send_flow c before ≡ (after, ok tt)
    session_ok : run.session ≡ some after
    kept : run.builder ≡ c

  sent-Done :
      (c : Builder) (w1 w2 : W) (s : Session) (r : Session × Result (Unit {0}))
      → dial w1 ≡ (w2, ok s)
      → send_flow c s ≡ r
      → (sent configure dial c w2 r).result ≡ ok tt
      → Done c (w1, ok tt) (sent configure dial c w2 r)
  sent-Done c w1 w2 s (after, result) e f h = record {
    opened = w1;
    before = s;
    after = after;
    configured_ok = refl;
    dialed_ok = e;
    sent_ok = f ∙ ap (λ o. (after, o)) h;
    session_ok = refl;
    kept = refl;
  }

  dialed-Done :
      (c : Builder) (w1 : W) (x : W × Result Session)
      → dial w1 ≡ x
      → (dialed configure dial c x).result ≡ ok tt
      → Done c (w1, ok tt) (dialed configure dial c x)
  dialed-Done c w1 (w2, err e) d h = cc
  dialed-Done c w1 (w2, ok s) d h = sent-Done c w1 w2 s (send_flow c s) d refl h

  configured-Done :
      (c : Builder) (x : W × Result (Unit {0}))
      → (configured configure dial c x).result ≡ ok tt
      → Done c x (configured configure dial c x)
  configured-Done c (w, err e) h = cc
  configured-Done c (w, ok tt) h = dialed-Done c w (dial w) refl h

  abbrev marked : Builder → Builder
  marked b = with_mask (record b { once = true })

  abbrev controller : Builder → W → W × Result (Unit {0})
  controller b w = if configures b then configure b.flow.bridge w else (w, ok tt)

  marked-controller : (b : Builder) (w : W) → controller (marked b) w ≡ controller b w
  marked-controller b w = elim (Bool-cases (b.flow.cookie_mask == 0)) [
    | inl e ↦ rw e refl
    | inr e ↦ rw e refl
  ]

  marked-used : (b : Builder) → (marked b).once ≡ true
  marked-used b = elim (Bool-cases (b.flow.cookie_mask == 0)) [
    | inl e ↦ rw e refl
    | inr e ↦ rw e refl
  ]

  -- The plan of a builder that was just marked is made if the checks pass.
  plan_flow-ok :
      (b : Builder)
      → check_flow b ≡ ok tt
      → plan_flow (record b { once = true }) ≡ (marked b, ok (planned (marked b)))
  unfolding plan_flow validate_flow check_flow
  plan_flow-ok b valid = ap (λ r. plan_checked (checked (record b { once = true }) r)) valid

  plan_flow-err :
      (b : Builder) (e : Error)
      → check_flow b ≡ err e
      → plan_flow (record b { once = true }) ≡ (record b { once = true }, err e)
  unfolding plan_flow validate_flow check_flow
  plan_flow-err b e failed = ap (λ r. plan_checked (checked (record b { once = true }) r)) failed

  -- A builder that was used is refused and nothing is touched.
  execute_flow-used :
      (b : Builder) (w : W)
      → b.once ≡ true
      → execute_flow configure dial b w
        ≡ record { builder = b; world = w; session = none; result = err (used_error b) }
  unfolding execute_flow mark
  execute_flow-used b w used = rw (execute_flow, mark, used) refl

  execute_flow-checked :
      (b : Builder) (w : W)
      → (execute_flow configure dial b w).result ≡ ok tt
      → (b.once ≡ false)
        × (check_flow b ≡ ok tt)
        × (execute_flow configure dial b w
            ≡ configured configure dial (marked b) (controller (marked b) w))
  unfolding execute_flow plan_flow validate_flow mark
  execute_flow-checked b w h = elim (Bool-cases b.once) [
    | inl used ↦
        let refused : err (used_error b) ≡ ok tt =
          sym (ap (λ run. run.result) (execute_flow-used b w used)) ∙ h in
        cc
    | inr fresh ↦
        let run : execute_flow configure dial b w
            ≡ run_planned configure dial w (plan_flow (record b { once = true })) =
          rw (execute_flow, mark, fresh) refl in
        elim (Result-cases (check_flow b)) [
          | inl (e, failed) ↦
              let stopped = run ∙ ap (run_planned configure dial w) (plan_flow-err b e failed) in
              let refused : err e ≡ ok tt = sym (ap (λ r. r.result) stopped) ∙ h in cc
          | inr (u, valid) ↦
              (fresh, valid, run ∙ ap (run_planned configure dial w) (plan_flow-ok b valid))
        ]
  ]

  -- An `Execute` that returns without an error was of a new builder whose flow passes the checks;
  -- it has configured the controller of the bridge, if the client does that, then opened a session,
  -- and sent one message behind what the session sent before: a flow modification to add the flow,
  -- or to delete it if the builder deletes, which is read back with the cookie, the table and the
  -- other fields of the flow, a mask of 0 replaced by that of the namespace, and with its match if
  -- the numbers in it fit. A second `Execute` is refused, opens nothing and changes nothing.
  pub execute_flow-Executed :
      (b : Builder) (w : W)
      → (execute_flow configure dial b w).result ≡ ok tt
      → Executed b w (execute_flow configure dial b w)
  execute_flow-Executed b w h =
      let (fresh, valid, run) = execute_flow-checked b w h in
      let returned = sym (ap (λ r. r.result) run) ∙ h in
      let done = configured-Done (marked b) (controller (marked b) w) returned in
      subst (Executed b w) (sym run) (record {
        unused = fresh;
        valid = valid;
        opened = done.opened;
        before = done.before;
        after = done.after;
        configured = sym (marked-controller b w) ∙ done.configured_ok;
        dialed = done.dialed_ok;
        sent =
            flow_mod-Delivered (command_of b.delete) (masked_flow b.flow) done.before done.after
              (sym (marked-send b done.before) ∙ done.sent_ok);
        session = done.session_ok;
        again = λ w'. execute_flow-used _ w' (ap (λ c. c.once) done.kept ∙ marked-used b);
      })
