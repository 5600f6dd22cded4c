-- ===== src/Companion/Exchange/Authority.antt =====
-- When a message reaches the page, and what a send leaves in flight.
use agent_supervisor_runtime.Base.{
  ℕ, ◌+◌, String, Bool, true, false, ◌∷◌, some, ◌≡◌, ◌⊎◌, refl, ap, ◌∙◌, arith, eq_refl, Bool-cases,
  Option-cases, inl, inr,
}
use agent_supervisor_runtime.Conversations.Transport.{TransportMessage}
use agent_supervisor_runtime.Conversations.Manager.{
  Registration, TransportManager, ManagerResult, set_exchange_in_flight, put_in_flight,
  assert_send_authority, authority_for,
}
use agent_supervisor_runtime.Conversations.Manager as Manager
use agent_supervisor_runtime.Companion.Page.{evaluate_page_compatibility}
use agent_supervisor_runtime.Companion.State.{
  Companion, CompanionOptions, CompanionResult, ok, throw, continue, tick, ask, browser,
}
use agent_supervisor_runtime.Companion.Ready.{is_bound_to, is_compatible, assert_page_ready}
use agent_supervisor_runtime.Companion.Exchange.{
  holds_epoch, set_in_flight, authorise, submit, or_clear, send_ready, send,
}

-- What a look at the page's health leaves alone.
record SameHold (s s' : Companion) : Type 0 where
  manager : s'.manager ≡ s.manager
  driver : s'.driver ≡ s.driver
  lease : s'.lease ≡ s.lease
  submitted : s'.submitted ≡ s.submitted

unchanged : (s : Companion) → SameHold s s
unchanged s = record { manager = refl; driver = refl; lease = refl; submitted = refl }

module _ (o : CompanionOptions) where
  assert_page_ready-SameHold : (s : Companion) → SameHold s (assert_page_ready o s).1
  unfolding assert_page_ready ask tick
  assert_page_ready-SameHold s = elim (Option-cases s.driver) [
    | inl n ↦ rw n (record { manager = refl; driver = refl; lease = refl; submitted = refl })
    | inr (d, e) ↦ elim (Option-cases (o.capabilities s.calls)) [
      | inl n ↦ rw (e, n) (record { manager = refl; driver = refl; lease = refl; submitted = refl })
      | inr (r, k) ↦ elim (Bool-cases (is_compatible (evaluate_page_compatibility r).status)) [
        | inl v ↦
            rw (e, k, v) (record { manager = refl; driver = refl; lease = refl; submitted = refl })
        | inr v ↦
            rw (e, k, v) (record { manager = refl; driver = refl; lease = refl; submitted = refl })
      ]
    ]
  ]

abbrev pub returned : CompanionResult (Unit {0}) → Bool
returned (ok u) = true
returned (throw e) = false

manager_outcome :
    (x : ManagerResult (Unit {0}))
    → (x ≡ Manager.ok tt) ⊎ ((e : Manager.ManagerError) × (x ≡ Manager.throw e))
manager_outcome (Manager.ok tt) = inl refl
manager_outcome (Manager.throw e) = inr (e, refl)

registered :
    (b h : String) (epoch now : ℕ) (m : TransportManager)
    → assert_send_authority b h epoch now m ≡ Manager.ok tt
    → (r : Registration) × (m.registrations h ≡ some r)
unfolding assert_send_authority
registered b h epoch now m e = elim (Option-cases (m.registrations h)) [
  | inl n ↦ ground arith
  | inr (r, k) ↦ (r, k)
]

module _ (o : CompanionOptions) where
  -- The registration of this transport says whether an exchange is in flight.
  pub record InFlight (value : Bool) (m : TransportManager) : Type 0 where
    pub registration : Registration
    pub there : m.registrations o.id ≡ some registration
    pub flag : registration.exchange_in_flight ≡ value

  pub flagged :
      (value : Bool) (r : Registration) (m : TransportManager)
      → m.registrations o.id ≡ some r
      → InFlight value (put_in_flight value o.id m)
  flagged value r m e = record {
    registration = record r { exchange_in_flight = value };
    there = rw (eq_refl o.id, e) refl;
    flag = refl;
  }

  pub set_in_flight-eq :
      (value : Bool) (r : Registration) (s : Companion)
      → s.manager.registrations o.id ≡ some r
      → set_in_flight o value s ≡ (ok tt, record s { manager = put_in_flight value o.id s.manager })
  unfolding set_in_flight set_exchange_in_flight
  set_in_flight-eq value r s e = rw e refl

  -- The message was handed to the page, under the epoch of the lease held and with the manager's
  -- authority at the time `at`; an exchange is in flight exactly if the send returned.
  pub record Submits (message : TransportMessage) (epoch at : ℕ) (s : Companion)
      (x : CompanionResult (Unit {0}) × Companion) : Type 0 where
    pub held : holds_epoch s.lease epoch ≡ true
    pub authorised :
        assert_send_authority message.binding_id o.id epoch at s.manager ≡ Manager.ok tt
    pub logged : x.1.submitted ≡ message.content ∷ s.submitted
    pub in_flight : InFlight (returned x.0) x.1.manager
    pub leases : x.1.manager.leases ≡ s.manager.leases

  -- Nothing was handed to the page, and the send threw.
  pub record Withheld (s : Companion) (x : CompanionResult (Unit {0}) × Companion) : Type 0 where
    pub logged : x.1.submitted ≡ s.submitted
    pub threw : returned x.0 ≡ false

  record Submission (content : String) (s : Companion) (x : CompanionResult (Unit {0}) × Companion)
      : Type 0 where
    logged : x.1.submitted ≡ content ∷ s.submitted
    in_flight : InFlight (returned x.0) x.1.manager
    leases : x.1.manager.leases ≡ s.manager.leases

  abbrev Submitted : String → Companion → CompanionResult (Unit {0}) × Companion → Type 0
  Submitted content s y =
      (y.1.manager ≡ s.manager)
      × (((y.1.submitted ≡ s.submitted) × (returned y.0 ≡ false))
          ⊎ (y.1.submitted ≡ content ∷ s.submitted))

  submit-Submitted : (content : String) (s : Companion) → Submitted content s (submit o content s)
  unfolding submit browser tick
  submit-Submitted content s = elim (Option-cases s.driver) [
    | inl n ↦ rw n (refl, inl (refl, refl))
    | inr (d, e) ↦ elim (Bool-cases (o.submit_message s.calls content)) [
      | inl v ↦ rw (e, v) (refl, inr refl)
      | inr v ↦ rw (e, v) (refl, inr refl)
    ]
  ]

  or_clear-Submission :
      (content : String) (s : Companion) (y : CompanionResult (Unit {0}) × Companion)
      → InFlight true s.manager
      → Submitted content s y
      → Withheld s (or_clear o y) ⊎ Submission content s (or_clear o y)
  or_clear-Submission content s (ok u, s') f (m, inl (l, r)) = absurd (ground arith)
  or_clear-Submission content s (ok u, s') f (m, inr l) =
      inr (record { logged = l; in_flight = rw m f; leases = ap (λ x. x.leases) m })
  or_clear-Submission content s (throw e, s') f (m, l) =
      let there : s'.manager.registrations o.id ≡ some f.registration = rw m f.there in
      rw (set_in_flight-eq false f.registration s' there) (elim l [
        | inl (k, r) ↦ inl (record { logged = k; threw = refl })
        | inr k ↦ inr (record {
          logged = k;
          in_flight = flagged false f.registration s'.manager there;
          leases = ap (λ x. x.leases) m;
        })
      ])

  send_ready-Outcome :
      (message : TransportMessage) (epoch : ℕ) (s : Companion)
      → Withheld s (send_ready o message epoch s)
        ⊎ Submits message epoch (tick o s).time s (send_ready o message epoch s)
  unfolding send_ready authorise tick
  send_ready-Outcome message epoch s = elim (Bool-cases (holds_epoch s.lease epoch)) [
    | inr n ↦ rw n (inl (record { logged = refl; threw = refl }))
    | inl h ↦
        elim (manager_outcome (
          assert_send_authority message.binding_id o.id epoch (s.time + o.lasts s.calls)
            s.manager)) [
              | inr (e, n) ↦ rw (h, n) (inl (record { logged = refl; threw = refl }))
              | inl a ↦
                  let (r, k) =
                    registered message.binding_id o.id epoch (s.time + o.lasts s.calls) s.manager
                      a in
                  let s' : Companion = record (tick o s) {
                    manager = put_in_flight true o.id s.manager;
                  } in
                  rw (h, a, set_in_flight-eq true r (tick o s) k)
                    (elim (or_clear-Submission message.content s' _ (flagged true r s.manager k)
                      (submit-Submitted message.content s')) [
                        | inl w ↦ inl (record { logged = w.logged; threw = w.threw })
                        | inr w ↦ inr (record {
                          held = h;
                          authorised = a;
                          logged = w.logged;
                          in_flight = w.in_flight;
                          leases = w.leases;
                        })
                      ])
            ]
  ]

  Outcome-SameHold :
      (message : TransportMessage) (epoch at : ℕ) (s s' : Companion)
      (x : CompanionResult (Unit {0}) × Companion)
      → SameHold s s'
      → Withheld s' x ⊎ Submits message epoch at s' x
      → Withheld s x ⊎ Submits message epoch at s x
  Outcome-SameHold message epoch at s s' x k (inl w) =
      inl (record { logged = w.logged ∙ k.submitted; threw = w.threw })
  Outcome-SameHold message epoch at s s' x k (inr w) = inr (record {
    held = rw⁻¹ k.lease w.held;
    authorised = rw⁻¹ k.manager w.authorised;
    logged = w.logged ∙ ap (λ l. message.content ∷ l) k.submitted;
    in_flight = w.in_flight;
    leases = w.leases ∙ ap (λ m. m.leases) k.manager;
  })

  once_ready :
      (message : TransportMessage) (epoch : ℕ) (s : Companion)
      (x : CompanionResult (Unit {0}) × Companion)
      → SameHold s x.1
      → Withheld s (continue x (λ u. send_ready o message epoch))
        ⊎ Submits message epoch (tick o x.1).time s (continue x (λ u. send_ready o message epoch))
  once_ready message epoch s (throw e, s') k = inl (record { logged = k.submitted; threw = refl })
  once_ready message epoch s (ok u, s') k =
      Outcome-SameHold message epoch _ s s' _ k (send_ready-Outcome message epoch s')

  -- A send has one of two outcomes. Either nothing is handed to the page and it throws; or the message
  -- is handed over once, the conversation is the one that the transport is bound to, the lease that it
  -- holds has the epoch asked for, the manager grants the authority to send at the time that its
  -- clock shows when it is read after the look at the page, no lease changes, and an exchange is in flight afterwards exactly if the send returned.
  pub send-Submits :
      (message : TransportMessage) (epoch : ℕ) (s : Companion)
      → Withheld s (send o message epoch s)
        ⊎ ((is_bound_to message.binding_id s.binding ≡ true)
            × Submits message epoch
                (tick o (assert_page_ready o s).1).time
                s
                (send o message epoch s))
  unfolding send
  send-Submits message epoch s = elim (Bool-cases (is_bound_to message.binding_id s.binding)) [
    | inr n ↦ rw n (inl (record { logged = refl; threw = refl }))
    | inl b ↦
        rw b
          (elim (once_ready message epoch s (assert_page_ready o s)
            (assert_page_ready-SameHold o s)) [ inl w ↦ inl w | inr w ↦ inr (refl, w) ])
  ]
