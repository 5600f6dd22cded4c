-- ===== src/Conversations/Manager/Handover.antt =====
-- Who may send once a transport has acquired a binding, and whom it may take the binding from.
use agent_supervisor_runtime.Base.{
  ℕ, ◌<◌, String, true, Option, none, some, ◌≡◌, ◌≢◌, refl, sym, ap, subst, ◌∙◌, is_some, arith,
  eq_iff, eq_refl, str_eq, leb, Bool-cases, Option-cases, inl, inr,
}
use agent_supervisor_runtime.Conversations.Lease.{
  TransportLease, LeaseError, lease_held, LeaseStore, LeaseResult, assert_authority, is_expired,
  epoch_of, save,
}
use agent_supervisor_runtime.Conversations.Lease as Lease
use agent_supervisor_runtime.Conversations.Lease.Fencing.{assert_authority-acquire}
use agent_supervisor_runtime.Conversations.Transport.{TransportStatus, standby, active, draining}
use agent_supervisor_runtime.Conversations.Manager.{
  Registration, TransportManager, ManagerError, ok, throw, Leased, activate, hand_over, preempt,
  contend, acquire_over, acquire_for, acquire, make_active, put_status, assert_send_authority,
  status, status_of, is_active,
}

abbrev IsRegistered : String → TransportManager → Type 0
IsRegistered h m = is_some (m.registrations h) ≡ true

-- A lease taken for a holder: the manager has it active and all others not, and the lease stands in
-- its leases as the coordinator's `acquire` left them.
record Took (b h : String) (ttl : ℕ) (l : TransportLease) (m : TransportManager) : Type 0 where
  at : ℕ
  store : LeaseStore
  taken : Lease.acquire b h ttl at store ≡ (Lease.ok l, m.leases)
  is_on : status h m ≡ some active
  others : (j : String) → h ≢ j → status j m ≢ some active

make_active-on :
    (h : String) (m : TransportManager)
    → IsRegistered h m
    → status h (make_active h m) ≡ some active
unfolding make_active
make_active-on h m p = elim (Option-cases (m.registrations h)) [
  | inl n ↦ ground arith
  | inr (r, e) ↦ rw (eq_refl h, e) refl
]

make_active-off :
    (h j : String) (m : TransportManager) → h ≢ j → status j (make_active h m) ≢ some active
unfolding make_active
make_active-off h j m n q = elim (Option-cases (m.registrations j)) [
  | inl e ↦ ground (arith, eq_iff h j)
  | inr (r, e) ↦ ground (arith, eq_iff h j)
]

not_granted : {e : ManagerError} {l : TransportLease} → throw e ≡ ok (some l) → ⊥
not_granted e = ground arith

no_grant : {l : TransportLease} → ok none ≡ ok (some l) → ⊥
no_grant e = ground arith

granted : {k l : TransportLease} → ok (some k) ≡ ok (some l) → k ≡ l
granted e = cc

activate-Took :
    (b h : String) (ttl t : ℕ) (s : LeaseStore) (l : TransportLease) (m : TransportManager)
    (x : Leased)
    → Lease.acquire b h ttl t s ≡ x
    → IsRegistered h m
    → (activate h m x).0 ≡ ok (some l)
    → Took b h ttl l (activate h m x).1
activate-Took b h ttl t s l m (Lease.throw e, s') a p q = absurd (not_granted q)
activate-Took b h ttl t s l m (Lease.ok k, s') a p q =
    let m' : TransportManager = record m { leases = s' } in
    record {
      at = t;
      store = s;
      taken = rw (← granted q) (unfold make_active in a);
      is_on = make_active-on h m' p;
      others = λ j n. make_active-off h j m' n;
    }

put_status-IsRegistered :
    (s : TransportStatus) (h j : String) (m : TransportManager)
    → IsRegistered h m
    → IsRegistered h (put_status s j m)
put_status-IsRegistered s h j m p = elim (Option-cases (m.registrations h)) [
  | inl e ↦ ground arith
  | inr (r, e) ↦ ground arith
]

hand_over-Took :
    (b h previous : String) (ttl t : ℕ) (l : TransportLease) (m : TransportManager) (x : Leased)
    → IsRegistered h m
    → (hand_over b h previous ttl t m x).0 ≡ ok (some l)
    → Took b h ttl l (hand_over b h previous ttl t m x).1
hand_over-Took b h previous ttl t l m (Lease.throw e, s) p q = absurd (not_granted q)
hand_over-Took b h previous ttl t l m (Lease.ok k, s) p q =
    let m' : TransportManager = record m { leases = s } in
    activate-Took b h ttl t s l (put_status standby previous m') (Lease.acquire b h ttl t s) refl
      (put_status-IsRegistered standby h previous m' p) q

module _ (b h : String) (ttl t2 t3 t4 : ℕ) (requester : Registration)
    (current : TransportLease) where
  preempt-Took :
      (o : Option Registration) (l : TransportLease) (m : TransportManager)
      → IsRegistered h m
      → (preempt requester current o b h ttl t2 t3 t4 m).0 ≡ ok (some l)
      → Took b h ttl l (preempt requester current o b h ttl t2 t3 t4 m).1
  preempt-Took none l m p q = absurd (not_granted q)
  preempt-Took (some r) l m p q = elim (Bool-cases (leb requester.priority r.priority)) [
    | inl v ↦ ground arith
    | inr v ↦ elim (Bool-cases r.exchange_in_flight) [
      | inl w ↦ ground arith
      | inr w ↦
          let m' : TransportManager = put_status draining current.holder m in
          rw (v, w)
            (hand_over-Took b h current.holder ttl t4 l m' _
              (put_status-IsRegistered draining h current.holder m p) (ground arith))
    ]
  ]

  contend-Took :
      (t1 : ℕ) (l : TransportLease) (m : TransportManager) (x : Leased)
      → Lease.acquire b h ttl t1 m.leases ≡ x
      → IsRegistered h m
      → (contend requester current b h ttl t2 t3 t4 m x).0 ≡ ok (some l)
      → Took b h ttl l (contend requester current b h ttl t2 t3 t4 m x).1
  contend-Took t1 l m (Lease.ok k, s) a p q =
      activate-Took b h ttl t1 m.leases l m (Lease.ok k, s) a p q
  contend-Took t1 l m (Lease.throw lease_held, s) a p q =
      preempt-Took (m.registrations current.holder) l (record m { leases = s }) p q
  contend-Took t1 l m (Lease.throw Lease.stale_lease, s) a p q = absurd (not_granted q)
  contend-Took t1 l m (Lease.throw Lease.invalid_lease, s) a p q = absurd (not_granted q)
  contend-Took t1 l m (Lease.throw Lease.invalid_ttl, s) a p q = absurd (not_granted q)

is_active-eq : (s : TransportStatus) → is_active s ≡ true → s ≡ active
is_active-eq s p = ground arith

status_is : (r : Registration) → some r.status ≡ some active → r.status ≡ active
status_is r p = cc

module _ (b h : String) (ttl t1 t2 t3 t4 : ℕ) where
  over-Took :
      (requester : Registration) (o : Option TransportLease) (l : TransportLease)
      (m : TransportManager)
      → IsRegistered h m
      → (acquire_over requester o b h ttl t1 t2 t3 t4 m).0 ≡ ok (some l)
      → Took b h ttl l (acquire_over requester o b h ttl t1 t2 t3 t4 m).1
  over-Took requester none l m p q =
      activate-Took b h ttl t1 m.leases l m (Lease.acquire b h ttl t1 m.leases) refl p q
  over-Took requester (some current) l m p q = elim (Bool-cases (str_eq current.holder h)) [
    | inl v ↦ rw v (
        activate-Took b h ttl t1 m.leases l m (Lease.acquire b h ttl t1 m.leases) refl p
          (ground arith))
    | inr v ↦ rw v (
        contend-Took b h ttl t2 t3 t4 requester current t1 l m (Lease.acquire b h ttl t1 m.leases)
          refl p (ground arith))
  ]

  for-Took :
      (o : Option Registration) (l : TransportLease) (m : TransportManager)
      → m.registrations h ≡ o
      → (acquire_for o b h ttl t1 t2 t3 t4 m).0 ≡ ok (some l)
      → Took b h ttl l (acquire_for o b h ttl t1 t2 t3 t4 m).1
  for-Took none l m e q = absurd (not_granted q)
  for-Took (some r) l m e q = over-Took r (m.leases b) l m (ap is_some e) q

  send_authority-on :
      (l : TransportLease) (m : TransportManager) (later : ℕ)
      → status h m ≡ some active
      → assert_authority b h l.epoch later m.leases ≡ Lease.ok l
      → assert_send_authority b h l.epoch later m ≡ ok tt
  unfolding assert_send_authority
  send_authority-on l m later p a = elim (Option-cases (m.registrations h)) [
    | inl e ↦ ground arith
    | inr (r, e) ↦
        let on : r.status ≡ active = status_is r (sym (ap status_of e) ∙ p) in rw (e, a, on) refl
  ]

  send_authority-off :
      (j : String) (b' : String) (epoch now : ℕ) (m : TransportManager)
      → status j m ≢ some active
      → assert_send_authority b' j epoch now m ≢ ok tt
  unfolding assert_send_authority
  send_authority-off j b' epoch now m n q = elim (Option-cases (m.registrations j)) [
    | inl e ↦ ground arith
    | inr (r, e) ↦ n (rw e (ap some (is_active-eq r.status (ground arith))))
  ]

  -- Once a holder has acquired a binding, it may send until its lease expires, and no other holder
  -- may send, to whatever binding, under whatever epoch and at whatever time.
  pub assert_send_authority-acquire :
      (m : TransportManager) (l : TransportLease)
      → (acquire b h ttl t1 t2 t3 t4 m).0 ≡ ok (some l)
      → ((later : ℕ)
          → later < l.expires_at
          → assert_send_authority b h l.epoch later (acquire b h ttl t1 t2 t3 t4 m).1 ≡ ok tt)
        × ((j b' : String) (epoch now : ℕ)
            → h ≢ j
            → assert_send_authority b' j epoch now (acquire b h ttl t1 t2 t3 t4 m).1 ≢ ok tt)
  unfolding acquire
  assert_send_authority-acquire m l q =
      let k = for-Took (m.registrations h) l m refl q in
      (
        λ later p. send_authority-on l (acquire b h ttl t1 t2 t3 t4 m).1 later k.is_on (
            subst (λ s. assert_authority b h l.epoch later s ≡ Lease.ok l) (ap (λ x. x.1) k.taken)
              (assert_authority-acquire b h ttl k.at later k.store l (ap (λ x. x.0) k.taken) p)),
        λ j b' epoch now n.
            send_authority-off j b' epoch now (acquire b h ttl t1 t2 t3 t4 m).1 (k.others j n),
      )
