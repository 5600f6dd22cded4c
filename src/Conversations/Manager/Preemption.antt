-- ===== src/Conversations/Manager/Preemption.antt =====
-- When a lease that is still valid is taken from its holder.
use agent_supervisor_runtime.Base.{
  ℕ, ◌+◌, ◌<◌, String, true, false, Option, none, some, ◌≡◌, ◌≢◌, refl, sym, ap, subst, ◌∙◌, arith,
  eq_iff, str_eq, leb, nat_eq, Bool-cases, Option-cases, inl, inr,
}
use agent_supervisor_runtime.Conversations.Lease.{
  TransportLease, LeaseError, lease_held, LeaseStore, LeaseResult, assert_authority, save,
  save_until,
}
use agent_supervisor_runtime.Conversations.Lease as Lease
use agent_supervisor_runtime.Conversations.Lease.Fencing.{IsFiled, acquired, authority_holds}
use agent_supervisor_runtime.Conversations.Transport.{standby, draining}
use agent_supervisor_runtime.Conversations.Manager.{
  Registration, TransportManager, ManagerError, ok, throw, Leased, activate, hand_over, preempt,
  contend, acquire, put_status,
}

-- The lease of a binding, held by another and not expired.
pub record IsLive (b h : String) (now : ℕ) (current : TransportLease) (m : TransportManager)
    : Type 0 where
  pub held : m.leases b ≡ some current
  pub other : current.holder ≢ h
  pub unexpired : now < current.expires_at

abbrev Refused : LeaseStore → Leased → Type 0
Refused s x = (e : LeaseError) × (x ≡ (Lease.throw e, s))

refused :
    (b h : String) (ttl now : ℕ) (current : TransportLease) (m : TransportManager)
    → IsLive b h now current m
    → Refused m.leases (Lease.acquire b h ttl now m.leases)
unfolding Lease.acquire
refused b h ttl now current m v = elim (Bool-cases (nat_eq ttl 0)) [
  | inl z ↦ (Lease.invalid_ttl, rw z refl)
  | inr z ↦
      let k : str_eq current.holder h ≡ false = ground (arith, eq_iff current.holder h, v.other) in
      let u : leb current.expires_at now ≡ false = ground (arith, v.unexpired) in
      (lease_held, rw (z, v.held, u, k) refl)
]

module _ (b h : String) (ttl t2 t3 t4 : ℕ) (requester : Registration)
    (current : TransportLease) where
  contend-leases :
      (r : Registration) (m : TransportManager) (x : Leased)
      → Refused m.leases x
      → m.registrations current.holder ≡ some r
      → r.exchange_in_flight ≡ true
      → (contend requester current b h ttl t2 t3 t4 m x).1.leases ≡ m.leases
  contend-leases r m (Lease.ok k, s) (e, p) q f = ground arith
  contend-leases r m (Lease.throw lease_held, s) (e, p) q f =
      elim (Bool-cases (leb requester.priority r.priority)) [
        | inl v ↦ rw (q, v) (ap (λ x. x.1) p)
        | inr v ↦ rw (q, v, f) (ap (λ x. x.1) p)
      ]
  contend-leases r m (Lease.throw Lease.stale_lease, s) (e, p) q f = ap (λ x. x.1) p
  contend-leases r m (Lease.throw Lease.invalid_lease, s) (e, p) q f = ap (λ x. x.1) p
  contend-leases r m (Lease.throw Lease.invalid_ttl, s) (e, p) q f = ap (λ x. x.1) p

module _ (b h : String) (ttl t1 t2 t3 t4 : ℕ) where
  -- No request for a binding, of whatever priority, touches any lease while the binding's lease is
  -- live and its holder, another one, has an exchange in flight.
  pub acquire-leases :
      (current : TransportLease) (r : Registration) (m : TransportManager)
      → IsLive b h t1 current m
      → m.registrations current.holder ≡ some r
      → r.exchange_in_flight ≡ true
      → (acquire b h ttl t1 t2 t3 t4 m).1.leases ≡ m.leases
  unfolding acquire
  acquire-leases current r m v q f = elim (Option-cases (m.registrations h)) [
    | inl e ↦ rw e refl
    | inr (requester, e) ↦
        let k : str_eq current.holder h ≡ false =
          ground (arith, eq_iff current.holder h, v.other) in
        rw (e, v.held, k)
          (contend-leases b h ttl t2 t3 t4 requester current r m _ (refused b h ttl t1 current m v)
            q f)
  ]

-- Why a live lease changed hands.
pub record Preempted (h : String) (current : TransportLease) (m : TransportManager)
    (l : TransportLease) : Type 0 where
  pub requester : Registration
  pub registered : m.registrations h ≡ some requester
  pub holder : Registration
  pub holder_registered : m.registrations current.holder ≡ some holder
  pub outranked : holder.priority < requester.priority
  pub idle : holder.exchange_in_flight ≡ false
  pub next_epoch : l.epoch ≡ current.epoch + 1

same_lease : {c k : TransportLease} → some c ≡ some k → c ≡ k
same_lease e = cc

saved :
    (b holder : String) (epoch now later : ℕ) (s : LeaseStore) (current : TransportLease)
    (k : TransportLease) (a : LeaseResult TransportLease)
    → IsFiled s
    → s b ≡ some current
    → assert_authority b holder epoch now s ≡ a
    → (save_until a later s).0 ≡ Lease.ok k
    → (save_until a later s).1 b ≡ some (record current { expires_at = later })
saved b holder epoch now later s current k (Lease.throw e) f p a q = ground arith
saved b holder epoch now later s current k (Lease.ok c) f p a q =
    let (there, _, _, _) = authority_holds b holder epoch now s c a in
    let same : current ≡ c = same_lease (sym p ∙ there) in
    unfold save in ground (arith, eq_iff c.binding_id b, f.at_binding b c there, same)

not_granted : {e : ManagerError} {l : TransportLease} → throw e ≡ ok (some l) → ⊥
not_granted e = ground arith

activated :
    (h : String) (m : TransportManager) (l : TransportLease) (x : Leased)
    → (activate h m x).0 ≡ ok (some l)
    → x.0 ≡ Lease.ok l
activated h m l (Lease.throw e, s) q = absurd (not_granted q)
activated h m l (Lease.ok k, s) q = cc

module _ (b h : String) (ttl t2 t3 t4 : ℕ) (current : TransportLease) where
  hand_over-next :
      (m : TransportManager) (l : TransportLease) (x : Leased)
      → ((k : TransportLease)
          → x.0 ≡ Lease.ok k
          → x.1 b ≡ some (record current { expires_at = t3 }))
      → current.holder ≢ h
      → (hand_over b h current.holder ttl t4 m x).0 ≡ ok (some l)
      → l.epoch ≡ current.epoch + 1
  hand_over-next m l (Lease.throw e, s) there n q = absurd (not_granted q)
  hand_over-next m l (Lease.ok k, s) there n q =
      (acquired b h ttl t4 s (record current { expires_at = t3 }) l (there k refl) n
        (activated h (put_status standby current.holder (record m { leases = s })) l
          (Lease.acquire b h ttl t4 s) q)).1

  preempt-Preempted :
      (requester : Registration) (o : Option Registration) (m : TransportManager)
      (l : TransportLease)
      → m.registrations h ≡ some requester
      → m.registrations current.holder ≡ o
      → IsFiled m.leases
      → m.leases b ≡ some current
      → current.holder ≢ h
      → (preempt requester current o b h ttl t2 t3 t4 m).0 ≡ ok (some l)
      → Preempted h current m l
  preempt-Preempted requester none m l g o f p n q = absurd (not_granted q)
  preempt-Preempted requester (some r) m l g o f p n q =
      elim (Bool-cases (leb requester.priority r.priority)) [
        | inl v ↦ ground arith
        | inr v ↦ elim (Bool-cases r.exchange_in_flight) [
          | inl w ↦ ground arith
          | inr w ↦ record {
            requester = requester;
            registered = g;
            holder = r;
            holder_registered = o;
            outranked = ground arith;
            idle = w;
            next_epoch =
                hand_over-next (put_status draining current.holder m) l
                  (Lease.release b current.holder current.epoch t2 t3 m.leases)
                  (λ k e.
                    unfold Lease.release in
                    saved b current.holder current.epoch t2 t3 m.leases current k
                      (assert_authority b current.holder current.epoch t2 m.leases) f p refl
                      (unfold Lease.release in e))
                  n (ground arith);
          }
        ]
      ]

  contend-Preempted :
      (requester : Registration) (m : TransportManager) (l : TransportLease) (x : Leased)
      → m.registrations h ≡ some requester
      → IsFiled m.leases
      → m.leases b ≡ some current
      → current.holder ≢ h
      → Refused m.leases x
      → (contend requester current b h ttl t2 t3 t4 m x).0 ≡ ok (some l)
      → Preempted h current m l
  contend-Preempted requester m l (Lease.ok k, s) g f p n (e, y) q = ground arith
  contend-Preempted requester m l (Lease.throw lease_held, s) g f p n (e, y) q =
      let same : s ≡ m.leases = ap (λ x. x.1) y in
      preempt-Preempted requester (m.registrations current.holder) m l g refl f p n (
        subst
          (λ t.
            (preempt requester current (m.registrations current.holder) b h ttl t2 t3 t4
              (record m { leases = t })).0
            ≡ ok (some l))
          same q)
  contend-Preempted requester m l (Lease.throw Lease.stale_lease, s) g f p n y q =
      absurd (not_granted q)
  contend-Preempted requester m l (Lease.throw Lease.invalid_lease, s) g f p n y q =
      absurd (not_granted q)
  contend-Preempted requester m l (Lease.throw Lease.invalid_ttl, s) g f p n y q =
      absurd (not_granted q)

-- A live lease passes to another holder only if the latter is registered with a higher priority than
-- the former and the former has no exchange in flight; the new lease has the next epoch.
pub acquire-Preempted :
    (b h : String) (ttl t1 t2 t3 t4 : ℕ) (current l : TransportLease) (m : TransportManager)
    → IsFiled m.leases
    → IsLive b h t1 current m
    → (acquire b h ttl t1 t2 t3 t4 m).0 ≡ ok (some l)
    → Preempted h current m l
unfolding acquire
acquire-Preempted b h ttl t1 t2 t3 t4 current l m f v q = elim (Option-cases (m.registrations h)) [
  | inl e ↦ ground arith
  | inr (requester, e) ↦
      let k : str_eq current.holder h ≡ false = ground (arith, eq_iff current.holder h, v.other) in
      contend-Preempted b h ttl t2 t3 t4 current requester m l (Lease.acquire b h ttl t1 m.leases) e
        f v.held v.other (refused b h ttl t1 current m v) (rw (e, v.held, k) at q)
]
