-- ===== src/Conversations/Lease.antt =====
-- conversations/lease.ts: the coordinator over a store of leases (the in-memory one; the file store
-- keeps the same map in files). The times that `clock` returns are arguments, one for each call.
pub mod Fencing
use agent_supervisor_runtime.Base.{
  ℕ, ◌+◌, String, Bool, true, false, not, ◌&&◌, ◌||◌, List, [], ◌∷◌, Option, none, some, Map,
  insert, leb, ltb, nat_eq, str_eq, if◌then◌else◌,
}
use agent_supervisor_runtime.Contracts.Task.{is_text}

pub record TransportLease : Type 0 where
  pub binding_id : String
  pub holder : String
  pub epoch : ℕ
  pub expires_at : ℕ

pub data LeaseError : Type 0 where
  lease_held stale_lease invalid_lease invalid_ttl : LeaseError

pub data LeaseResult {ℓ} (A : Type ℓ) : Type ℓ where
  ok : A → LeaseResult A
  throw : LeaseError → LeaseResult A

abbrev pub LeaseStore : Type 0
LeaseStore = Map TransportLease

-- `TransportLeaseSchema`
abbrev pub valid_lease : TransportLease → Bool
valid_lease l = is_text l.binding_id && (is_text l.holder && ltb 0 l.epoch)

abbrev pub Coordinated : Type 0 → Type 0
Coordinated A = LeaseResult A × LeaseStore

-- `store.save`, which parses what it saves.
unfoldable pub save : TransportLease → LeaseStore → Coordinated TransportLease
save l s = if valid_lease l then (ok l, insert l.binding_id l s) else (throw invalid_lease, s)

abbrev pub is_expired : TransportLease → ℕ → Bool
is_expired l now = leb l.expires_at now

abbrev pub epoch_of : Option TransportLease → ℕ
epoch_of none = 0
epoch_of (some l) = l.epoch

abbrev pub new_lease : String → String → Option TransportLease → ℕ → TransportLease
new_lease binding_id holder existing expires_at = record {
  binding_id = binding_id;
  holder = holder;
  epoch = epoch_of existing + 1;
  expires_at = expires_at;
}

abbrev pub acquire_over :
    Option TransportLease → String → String → ℕ → ℕ → LeaseStore → Coordinated TransportLease
acquire_over none binding_id holder ttl now s =
    save (new_lease binding_id holder none (now + ttl)) s
acquire_over (some l) binding_id holder ttl now s =
    if is_expired l now
    then save (new_lease binding_id holder (some l) (now + ttl)) s
    else if str_eq l.holder holder
    then (ok l, s)
    else (throw lease_held, s)

-- `assertPositiveTtl`, then the body.
unfoldable pub acquire : String → String → ℕ → ℕ → LeaseStore → Coordinated TransportLease
unfolding save
acquire binding_id holder ttl now s =
    if nat_eq ttl 0
    then (throw invalid_ttl, s)
    else acquire_over (s binding_id) binding_id holder ttl now s

abbrev pub authority_of : Option TransportLease → String → ℕ → ℕ → LeaseResult TransportLease
authority_of none holder epoch now = throw stale_lease
authority_of (some l) holder epoch now =
    if not (str_eq l.holder holder) || (not (nat_eq l.epoch epoch) || is_expired l now)
    then throw stale_lease
    else ok l

unfoldable pub assert_authority : String → String → ℕ → ℕ → LeaseStore → LeaseResult TransportLease
assert_authority binding_id holder epoch now s = authority_of (s binding_id) holder epoch now

abbrev pub save_until : LeaseResult TransportLease → ℕ → LeaseStore → Coordinated TransportLease
save_until (throw e) expires_at s = (throw e, s)
save_until (ok l) expires_at s = save (record l { expires_at = expires_at }) s

unfoldable pub renew : String → String → ℕ → ℕ → ℕ → ℕ → LeaseStore → Coordinated TransportLease
unfolding assert_authority save
renew binding_id holder epoch ttl now later s =
    if nat_eq ttl 0
    then (throw invalid_ttl, s)
    else save_until (assert_authority binding_id holder epoch now s) (later + ttl) s

unfoldable pub release : String → String → ℕ → ℕ → ℕ → LeaseStore → Coordinated TransportLease
unfolding assert_authority save
release binding_id holder epoch now later s =
    save_until (assert_authority binding_id holder epoch now s) later s

-- The calls that write, with the times at which they read the clock.
pub data LeaseCall : Type 0 where
  acquires : String → String → ℕ → ℕ → LeaseCall
  renews : String → String → ℕ → ℕ → ℕ → ℕ → LeaseCall
  releases : String → String → ℕ → ℕ → ℕ → LeaseCall

unfoldable pub step : LeaseCall → LeaseStore → LeaseStore
unfolding acquire renew release
step (acquires b h ttl now) s = (acquire b h ttl now s).1
step (renews b h epoch ttl now later) s = (renew b h epoch ttl now later s).1
step (releases b h epoch now later) s = (release b h epoch now later s).1

unfoldable pub steps : List LeaseCall → LeaseStore → LeaseStore
steps [] s = s
steps (c ∷ cs) s = steps cs (step c s)
