-- ===== src/Conversations/Lease/Fencing.antt =====
-- One holder at a time, and epochs that fence off the holders before it.
use agent_supervisor_runtime.Base.{
  ℕ, ◌+◌, ◌≤◌, ◌<◌, String, List, [], ◌∷◌, Option, some, ◌≡◌, ◌≢◌, refl, ◌∙◌, inl, inr, arith,
  eq_iff, eq_refl, nat_eq, Option-cases, Bool-cases,
}
use agent_supervisor_runtime.Conversations.Lease.{
  TransportLease, stale_lease, LeaseResult, ok, throw, LeaseStore, save, acquire, assert_authority,
  renew, release, LeaseCall, acquires, renews, releases, step, steps, save_until,
}

-- Leases stand under their own bindings.
pub record IsFiled (s : LeaseStore) : Type 0 where
  pub at_binding : (b : String) (l : TransportLease) → s b ≡ some l → l.binding_id ≡ b

-- What a later store keeps of a lease: there is one, of the same epoch and holder or of a higher epoch.
pub record Supersedes (l : TransportLease) (now_there : Option TransportLease) : Type 0 where
  pub lease : TransportLease
  pub there : now_there ≡ some lease
  pub grown : l.epoch ≤ lease.epoch
  pub owner : l.epoch ≡ lease.epoch → l.holder ≡ lease.holder

abbrev KeepsLeases : LeaseStore → LeaseStore → Type 0
KeepsLeases s s' = (j : String) (l : TransportLease) → s j ≡ some l → Supersedes l (s' j)

unchanged : (s : LeaseStore) → KeepsLeases s s
unchanged s j l e = record { lease = l; there = e; grown = omega arith; owner = λ p. refl }

acquire-keeps :
    (b h : String) (ttl now : ℕ) (s : LeaseStore) → KeepsLeases s (acquire b h ttl now s).1
unfolding acquire
acquire-keeps b h ttl now s j l e = ground (arith, eq_iff b j)

acquire-IsFiled :
    (b h : String) (ttl now : ℕ) (s : LeaseStore) → IsFiled s → IsFiled (acquire b h ttl now s).1
unfolding acquire
acquire-IsFiled b h ttl now s f = record {
  at_binding = λ j l e. ground (arith, eq_iff b j, f.at_binding j l);
}

pub authority_holds :
    (b h : String) (epoch now : ℕ) (s : LeaseStore) (l : TransportLease)
    → assert_authority b h epoch now s ≡ ok l
    → (s b ≡ some l) × (l.holder ≡ h) × (l.epoch ≡ epoch) × (now < l.expires_at)
unfolding assert_authority
authority_holds b h epoch now s l e = elim (Option-cases (s b)) [
  | inl p ↦ ground arith
  | inr (k, p) ↦ ground (arith, eq_iff k.holder h)
]

-- A lease saved over the one at hand under the same holder and epoch, as `renew` and `release` do.
extend-keeps :
    (b : String) (s : LeaseStore) (l : TransportLease) (t : ℕ)
    → IsFiled s
    → s b ≡ some l
    → KeepsLeases s (save (record l { expires_at = t }) s).1
unfolding save
extend-keeps b s l t f p j k e = ground (arith, eq_iff l.binding_id j, f.at_binding b l p)

extend-IsFiled :
    (s : LeaseStore) (l : TransportLease) (t : ℕ)
    → IsFiled s
    → IsFiled (save (record l { expires_at = t }) s).1
unfolding save
extend-IsFiled s l t f = record {
  at_binding = λ j k e. ground (arith, eq_iff l.binding_id j, f.at_binding j k);
}

abbrev Safe : LeaseStore → LeaseStore → Type 0
Safe s s' = KeepsLeases s s' × IsFiled s'

save_until-Safe :
    (b h : String) (epoch now t : ℕ) (s : LeaseStore) (a : LeaseResult TransportLease)
    → IsFiled s
    → assert_authority b h epoch now s ≡ a
    → Safe s (save_until a t s).1
save_until-Safe b h epoch now t s (throw x) f e = (unchanged s, f)
save_until-Safe b h epoch now t s (ok l) f e =
    (extend-keeps b s l t f (authority_holds b h epoch now s l e).0, extend-IsFiled s l t f)

renew-Safe :
    (b h : String) (epoch ttl now later : ℕ) (s : LeaseStore)
    → IsFiled s
    → Safe s (renew b h epoch ttl now later s).1
renew-Safe b h epoch ttl now later s f = elim (Bool-cases (nat_eq ttl 0)) [
  | inl e ↦ unfold renew in rw (e, renew) (unchanged s, f)
  | inr e ↦ unfold renew in rw (e, renew) (save_until-Safe b h epoch now (later + ttl) s _ f refl)
]

step-Safe : (c : LeaseCall) (s : LeaseStore) → IsFiled s → Safe s (step c s)
unfolding step renew release
step-Safe (acquires b h ttl now) s f =
    (acquire-keeps b h ttl now s, acquire-IsFiled b h ttl now s f)
step-Safe (releases b h epoch now later) s f = save_until-Safe b h epoch now later s _ f refl
step-Safe (renews b h epoch ttl now later) s f = renew-Safe b h epoch ttl now later s f

Supersedes-trans :
    (l : TransportLease) (s s' : LeaseStore) (j : String)
    → Supersedes l (s j)
    → KeepsLeases s s'
    → Supersedes l (s' j)
Supersedes-trans l s s' j a k =
    let b : Supersedes a.lease (s' j) = k j a.lease a.there in
    record {
      lease = b.lease;
      there = b.there;
      grown = omega (arith, a.grown, b.grown);
      owner = λ e.
          a.owner (omega (arith, a.grown, b.grown)) ∙ b.owner (omega (arith, a.grown, b.grown));
    }

steps-keeps :
    (cs : List LeaseCall) (s : LeaseStore) (l : TransportLease) (j : String) (o : LeaseStore)
    → IsFiled s
    → Supersedes l (s j)
    → Supersedes l (steps cs s j)
unfolding steps
steps-keeps [] s l j o f a = a
steps-keeps (c ∷ cs) s l j o f a =
    let (k, g) = step-Safe c s f in
    steps-keeps cs (step c s) l j o g (Supersedes-trans l s (step c s) j a k)

-- Whatever calls follow, in any order and at any times, a binding keeps a lease once it has one;
-- its epoch never falls, and an epoch never changes its holder.
pub steps-Supersedes :
    (cs : List LeaseCall) (s : LeaseStore) (b : String) (l : TransportLease)
    → IsFiled s
    → s b ≡ some l
    → Supersedes l (steps cs s b)
steps-Supersedes cs s b l f e = steps-keeps cs s l b s f (unchanged s b l e)

-- In one store at most one holder has authority over a binding, and under one epoch only, whenever
-- the two are asked about.
pub authority_unique :
    (b h h' : String) (epoch epoch' now now' : ℕ) (s : LeaseStore) (l l' : TransportLease)
    → assert_authority b h epoch now s ≡ ok l
    → assert_authority b h' epoch' now' s ≡ ok l'
    → (h ≡ h') × (epoch ≡ epoch')
authority_unique b h h' epoch epoch' now now' s l l' p q =
    ground (arith, authority_holds b h epoch now s l p, authority_holds b h' epoch' now' s l' q)

no_authority :
    (b h : String) (epoch now : ℕ) (s : LeaseStore) (l : TransportLease)
    → s b ≡ some l
    → (l.epoch ≡ epoch → l.holder ≢ h)
    → assert_authority b h epoch now s ≡ throw stale_lease
unfolding assert_authority
no_authority b h epoch now s l e k = ground (arith, eq_iff l.holder h)

pub acquired :
    (b h : String) (ttl now : ℕ) (s : LeaseStore) (l l' : TransportLease)
    → s b ≡ some l
    → l.holder ≢ h
    → (acquire b h ttl now s).0 ≡ ok l'
    → (l.expires_at ≤ now) × (l'.epoch ≡ l.epoch + 1) × ((acquire b h ttl now s).1 b ≡ some l')
unfolding acquire
acquired b h ttl now s l l' e n a = ground (arith, eq_iff l.holder h, eq_refl b)

-- When another holder takes a binding over, the previous lease had expired, the new epoch is the
-- next one, and no later calls, at whatever times, give the previous holder its authority back
-- under the epoch that it had.
pub takeover_fences :
    (b h : String) (ttl now : ℕ) (s : LeaseStore) (l l' : TransportLease)
    → IsFiled s
    → s b ≡ some l
    → l.holder ≢ h
    → (acquire b h ttl now s).0 ≡ ok l'
    → (l.expires_at ≤ now)
      × (l'.epoch ≡ l.epoch + 1)
      × ((cs : List LeaseCall) (later : ℕ)
          → assert_authority b l.holder l.epoch later (steps cs (acquire b h ttl now s).1)
            ≡ throw stale_lease)
takeover_fences b h ttl now s l l' f e n a =
    let (over, next, there) = acquired b h ttl now s l l' e n a in
    (
      over,
      next,
      λ cs later.
          let k =
            steps-Supersedes cs (acquire b h ttl now s).1 b l' (acquire-IsFiled b h ttl now s f)
              there in
          no_authority b l.holder l.epoch later _ k.lease k.there
            (λ p. absurd (omega (arith, k.grown, next))),
    )

-- An acquired lease gives authority until it expires.
pub assert_authority-acquire :
    (b h : String) (ttl now later : ℕ) (s : LeaseStore) (l : TransportLease)
    → (acquire b h ttl now s).0 ≡ ok l
    → later < l.expires_at
    → assert_authority b h l.epoch later (acquire b h ttl now s).1 ≡ ok l
unfolding acquire assert_authority
assert_authority-acquire b h ttl now later s l e k = elim (Option-cases (s b)) [
  | inl p ↦ ground (arith, eq_refl b, eq_refl h)
  | inr (l', p) ↦ ground (arith, eq_refl b, eq_refl h, eq_iff l'.holder h)
]

released :
    (b h : String) (epoch now later : ℕ) (s : LeaseStore) (a : LeaseResult TransportLease)
    (l : TransportLease)
    → IsFiled s
    → assert_authority b h epoch now s ≡ a
    → (save_until a later s).0 ≡ ok l
    → (holder : String) (any_epoch t : ℕ) → later ≤ t
    → assert_authority b holder any_epoch t (save_until a later s).1 ≡ throw stale_lease
unfolding save
released b h epoch now later s (throw x) l f a e holder any_epoch t k = cc
released b h epoch now later s (ok l') l f a e holder any_epoch t k =
    let there = authority_holds b h epoch now s l' a in
    unfold assert_authority in ground (arith, eq_iff l'.binding_id b, f.at_binding b l' there.0)

-- In the store that a successful release leaves, nobody has authority over the binding at the time
-- of the release or later.
pub assert_authority-release :
    (b h : String) (epoch now later : ℕ) (s : LeaseStore) (l : TransportLease)
    → IsFiled s
    → (release b h epoch now later s).0 ≡ ok l
    → (holder : String) (any_epoch t : ℕ) → later ≤ t
    → assert_authority b holder any_epoch t (release b h epoch now later s).1 ≡ throw stale_lease
unfolding release
assert_authority-release b h epoch now later s l f e holder any_epoch t k =
    released b h epoch now later s _ l f refl e holder any_epoch t k
