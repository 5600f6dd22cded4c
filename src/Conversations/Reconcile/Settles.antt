-- ===== src/Conversations/Reconcile/Settles.antt =====
-- What a reconciliation makes of each entry, and that it does not fail.
use agent_supervisor_runtime.Base.{
  ℕ, String, Bool, true, false, ◌&&◌, ◌||◌, List, [], ◌∷◌, ◌++◌, Option, none, some, ◌≡◌, ◌≢◌, ◌∙◌,
  refl, sym, ap, subst, arith, eq_iff, eq_refl, any, find, keep, All, is_some, Bool-cases, inl, inr,
  if◌then◌else◌,
}
use agent_supervisor_runtime.Conversations.Ledger.{
  MessageState, sent, observed, responded, MessageLedgerEntry, Ledger, LedgerResult, ok, load, save,
  transition, allowed, sort_in, sort, not_after, is_open_for, find_pending_for_binding,
}
use agent_supervisor_runtime.Conversations.Ledger.States.{load-save_self, load-save_ne}
use agent_supervisor_runtime.Conversations.Reconcile.{
  ConversationObservation, matches_request, matches_response, observe, respond, reconcile_entry,
  reconcile_entries, reconcile, push, is_sent, is_observed,
}

abbrev Entries : Type 0
Entries = List MessageLedgerEntry

abbrev Observations : Type 0
Observations = List ConversationObservation

abbrev IsOther : MessageLedgerEntry → MessageLedgerEntry → Type 0
IsOther e x = e.message_id ≢ x.message_id

-- No two entries share a message id.
abbrev pub HasDistinctIds : Entries → Type 0
HasDistinctIds [] = Unit
HasDistinctIds (e ∷ es) = All (IsOther e) es × HasDistinctIds es

abbrev IsIn : Entries → MessageLedgerEntry → Type 0
IsIn ms e = load e.message_id ms ≡ some e

module _ {κ} (P : MessageLedgerEntry → Type κ) where
  All-keep : (p : MessageLedgerEntry → Bool) (es : Entries) → All P es → All P (keep p es)
  All-keep p [] h = tt
  All-keep p (e ∷ es) h = elim (Bool-cases (p e)) [
    | inl v ↦ rw v (h.0, All-keep p es h.1)
    | inr v ↦ rw v (All-keep p es h.1)
  ]

  All-sort_in : (e : MessageLedgerEntry) (es : Entries) → P e → All P es → All P (sort_in e es)
  unfolding sort_in
  All-sort_in e [] p h = (p, tt)
  All-sort_in e (x ∷ xs) p h = elim (Bool-cases (not_after e x)) [
    | inl v ↦ rw v (p, h)
    | inr v ↦ rw v (h.0, All-sort_in e xs p h.1)
  ]

  All-sort : (es : Entries) → All P es → All P (sort es)
  unfolding sort
  All-sort [] h = tt
  All-sort (e ∷ es) h = All-sort_in e (sort es) h.0 (All-sort es h.1)

keep-HasDistinctIds :
    (p : MessageLedgerEntry → Bool) (es : Entries) → HasDistinctIds es → HasDistinctIds (keep p es)
keep-HasDistinctIds p [] h = tt
keep-HasDistinctIds p (e ∷ es) h = elim (Bool-cases (p e)) [
  | inl v ↦ rw v (All-keep (IsOther e) p es h.0, keep-HasDistinctIds p es h.1)
  | inr v ↦ rw v (keep-HasDistinctIds p es h.1)
]

sort_in-HasDistinctIds :
    (e : MessageLedgerEntry) (es : Entries)
    → All (IsOther e) es
    → HasDistinctIds es
    → HasDistinctIds (sort_in e es)
unfolding sort_in
sort_in-HasDistinctIds e [] o h = (tt, tt)
sort_in-HasDistinctIds e (x ∷ xs) o h = elim (Bool-cases (not_after e x)) [
  | inl v ↦ rw v (o, h)
  | inr v ↦
      rw v
        (All-sort_in (IsOther x) e xs (λ q. o.0 (sym q)) h.0, sort_in-HasDistinctIds e xs o.1 h.1)
]

sort-HasDistinctIds : (es : Entries) → HasDistinctIds es → HasDistinctIds (sort es)
unfolding sort
sort-HasDistinctIds [] h = tt
sort-HasDistinctIds (e ∷ es) h =
    sort_in-HasDistinctIds e (sort es) (All-sort (IsOther e) es h.0) (sort-HasDistinctIds es h.1)

IsIn-cons :
    (e : MessageLedgerEntry) (ms es : Entries)
    → All (IsOther e) es
    → All (IsIn ms) es
    → All (IsIn (e ∷ ms)) es
unfolding load
IsIn-cons e ms [] o h = tt
IsIn-cons e ms (x ∷ xs) o h =
    (ground (arith, eq_iff e.message_id x.message_id, o.0, h.0), IsIn-cons e ms xs o.1 h.1)

All-IsIn : (es : Entries) → HasDistinctIds es → All (IsIn es) es
All-IsIn [] h = tt
All-IsIn (e ∷ es) h =
    (unfold load in ground (arith, eq_refl e.message_id), IsIn-cons e es es h.0 (All-IsIn es h.1))

find_pending-All :
    (b : String) (l : Ledger)
    → HasDistinctIds l.messages
    → All (IsIn l.messages) (find_pending_for_binding b l)
unfolding find_pending_for_binding
find_pending-All b l h =
    All-sort (IsIn l.messages) (keep (is_open_for b) l.messages)
      (All-keep (IsIn l.messages) (is_open_for b) l.messages (All-IsIn l.messages h))

find_pending-HasDistinctIds :
    (b : String) (l : Ledger)
    → HasDistinctIds l.messages
    → HasDistinctIds (find_pending_for_binding b l)
unfolding find_pending_for_binding
find_pending-HasDistinctIds b l h =
    sort-HasDistinctIds (keep (is_open_for b) l.messages)
      (keep-HasDistinctIds (is_open_for b) l.messages h)

-- The state that an entry should have after the observations: a response settles a message that was
-- sent or observed, its request only shows that it arrived.
abbrev pub settled : MessageState → Bool → Bool → MessageState
settled sent requested true = responded
settled sent true false = observed
settled sent false false = sent
settled observed requested true = responded
settled s requested answered = s

-- The response that is new: that of a message sent or observed.
abbrev pub news : MessageState → Option ConversationObservation → List ConversationObservation
news sent (some reply) = reply ∷ []
news observed (some reply) = reply ∷ []
news s reply = []

abbrev pub requested_in : Observations → MessageLedgerEntry → Bool
requested_in observations e = any (matches_request e) observations

abbrev pub reply_in : Observations → MessageLedgerEntry → Option ConversationObservation
reply_in observations e = find (matches_response e) observations

abbrev pub all_news : Observations → Entries → List ConversationObservation
all_news observations [] = []
all_news observations (e ∷ es) = news e.state (reply_in observations e) ++ all_news observations es

-- The ledger holds the message of an entry, in this state.
abbrev pub StandsAs : Ledger → MessageLedgerEntry → MessageState → Type 0
StandsAs l e s =
    (x : MessageLedgerEntry) × (load e.message_id l.messages ≡ some x)
    × (x.message ≡ e.message)
    × (x.state ≡ s)

-- Ledgers that differ in the entry of one message id at most.
abbrev AgreesBut : String → Ledger → Ledger → Type 0
AgreesBut id l l' = (j : String) → id ≢ j → load j l'.messages ≡ load j l.messages

-- A run on one entry that returns `rs`, leaves the entry in state `s` and no other entry changed.
pub record Outcome (e : MessageLedgerEntry) (s : MessageState) (rs : List ConversationObservation)
    (l : Ledger) (run : LedgerResult (List ConversationObservation) × Ledger) : Type 0 where
  pub returns : run.0 ≡ ok rs
  pub stands : StandsAs run.1 e s
  pub others : AgreesBut e.message_id l run.1

-- What an operation that returns the entry makes of it.
record Entry (e : MessageLedgerEntry) (s : MessageState) (l : Ledger)
    (run : LedgerResult MessageLedgerEntry × Ledger) : Type 0 where
  current : MessageLedgerEntry
  returned : run.0 ≡ ok current
  there : load e.message_id run.1.messages ≡ some current
  same : current.message ≡ e.message
  in_state : current.state ≡ s
  others : AgreesBut e.message_id l run.1

abbrev answered : MessageState → Option ConversationObservation → MessageState
answered s none = s
answered s (some reply) = if is_observed s then responded else s

abbrev replies : MessageState → Option ConversationObservation → List ConversationObservation
replies s none = []
replies s (some reply) = if is_observed s then reply ∷ [] else []

module _ (before : String → String → Bool) (now : ℕ → ℕ) where
  transition-Entry :
      (e x : MessageLedgerEntry) (s : MessageState) (l : Ledger)
      → load e.message_id l.messages ≡ some x
      → x.message ≡ e.message
      → allowed x.state s ≡ true
      → Entry e s l (transition before now e.message_id s l)
  unfolding transition
  transition-Entry e x s l p m a =
      let y : MessageLedgerEntry = record x { state = s; updated_at = now l.ticks } in
      let i : y.message_id ≡ e.message_id = ap (λ n. n.message_id) m in
      record {
        current = y;
        returned = rw (p, a) refl;
        there =
            rw (p, a)
              (subst (λ id. load id (save before now y l.messages) ≡ some y) i
                (load-save_self before now y l.messages));
        same = m;
        in_state = refl;
        others = λ j n. rw (p, a) (load-save_ne before now y j l.messages (λ q. n (sym i ∙ q)));
      }

  is_sent-allowed : (s : MessageState) → is_sent s ≡ true → allowed s observed ≡ true
  unfolding allowed
  is_sent-allowed s p = ground arith

  is_observed-allowed : (s : MessageState) → is_observed s ≡ true → allowed s responded ≡ true
  unfolding allowed
  is_observed-allowed s p = ground arith

  and_left : (a b : Bool) → a && b ≡ true → a ≡ true
  and_left a b p = ground arith

  observe-Entry :
      (e : MessageLedgerEntry) (seen : Bool) (l : Ledger)
      → IsIn l.messages e
      → Entry e
          (if is_sent e.state && seen then observed else e.state)
          l
          (observe before now e seen l)
  unfolding observe
  observe-Entry e seen l p = elim (Bool-cases (is_sent e.state && seen)) [
    | inl v ↦ rw v (
        transition-Entry e e observed l p refl
          (is_sent-allowed e.state (and_left (is_sent e.state) seen v)))
    | inr v ↦ rw v (record {
      current = e;
      returned = refl;
      there = p;
      same = refl;
      in_state = refl;
      others = λ j n. refl;
    })
  ]

  respond-Outcome :
      (e c : MessageLedgerEntry) (reply : Option ConversationObservation) (l : Ledger)
      → load e.message_id l.messages ≡ some c
      → c.message ≡ e.message
      → Outcome e
          (answered c.state reply)
          (replies c.state reply)
          l
          (respond before now e (ok c) reply l)
  unfolding respond
  respond-Outcome e c none l p m = record {
    returns = refl;
    stands = (c, p, m, refl);
    others = λ j n. refl;
  }
  respond-Outcome e c (some reply) l p m = elim (Bool-cases (is_observed c.state)) [
    | inl v ↦
        let moved : Entry e responded l (transition before now e.message_id responded l) =
          transition-Entry e c responded l p m (is_observed-allowed c.state v) in
        rw v (record {
          returns = rw (ap (λ r. push r reply) moved.returned) refl;
          stands = (moved.current, moved.there, moved.same, moved.in_state);
          others = moved.others;
        })
    | inr v ↦ rw v (record { returns = refl; stands = (c, p, m, refl); others = λ j n. refl })
  ]

  settled_lem :
      (s : MessageState) (requested : Bool) (reply : Option ConversationObservation)
      → (answered (if is_sent s && (requested || is_some reply) then observed else s) reply
          ≡ settled s requested (is_some reply))
        × (replies (if is_sent s && (requested || is_some reply) then observed else s) reply
            ≡ news s reply)
  settled_lem s requested reply = ground arith

  respond_after :
      (e : MessageLedgerEntry) (s : MessageState) (reply : Option ConversationObservation)
      (l : Ledger) (run : LedgerResult MessageLedgerEntry × Ledger)
      → Entry e s l run
      → Outcome e (answered s reply) (replies s reply) l (respond before now e run.0 reply run.1)
  respond_after e s reply l run o =
      let r : Outcome e (answered s reply) (replies s reply) run.1
          (respond before now e (ok o.current) reply run.1) =
        subst
          (λ t.
            Outcome e (answered t reply) (replies t reply) run.1
              (respond before now e (ok o.current) reply run.1))
          o.in_state (respond-Outcome e o.current reply run.1 o.there o.same) in
      rw o.returned (record {
        returns = r.returns;
        stands = r.stands;
        others = λ j n. r.others j n ∙ o.others j n;
      })

  reconcile_entry-Outcome :
      (obs : Observations) (e : MessageLedgerEntry) (l : Ledger)
      → IsIn l.messages e
      → Outcome e
          (settled e.state (requested_in obs e) (is_some (reply_in obs e)))
          (news e.state (reply_in obs e))
          l
          (reconcile_entry before now obs e l)
  unfolding reconcile_entry
  reconcile_entry-Outcome obs e l p =
      let seen : Bool = requested_in obs e || is_some (reply_in obs e) in
      let (a, b) = settled_lem e.state (requested_in obs e) (reply_in obs e) in
      rw (← a, ← b)
        (respond_after e (if is_sent e.state && seen then observed else e.state) (reply_in obs e) l
          (observe before now e seen l) (observe-Entry e seen l p))

  -- A run over a list of entries: what it returns, what it makes of each, and that it leaves the rest.
  pub record Outcomes (obs : Observations) (es : Entries) (l : Ledger)
      (run : LedgerResult (List ConversationObservation) × Ledger) : Type 0 where
    pub all_return : run.0 ≡ ok (all_news obs es)
    pub all_stand :
        All
          (λ e. StandsAs run.1 e (settled e.state (requested_in obs e) (is_some (reply_in obs e))))
          es
    pub rest :
        (j : String)
        → All (λ (e : MessageLedgerEntry). e.message_id ≢ j) es
        → load j run.1.messages ≡ load j l.messages

  still-IsIn :
      (e : MessageLedgerEntry) (l l' : Ledger) (es : Entries)
      → AgreesBut e.message_id l l'
      → All (IsOther e) es
      → All (IsIn l.messages) es
      → All (IsIn l'.messages) es
  still-IsIn e l l' [] a o h = tt
  still-IsIn e l l' (x ∷ xs) a o h = (a x.message_id o.0 ∙ h.0, still-IsIn e l l' xs a o.1 h.1)

  others_of :
      (e : MessageLedgerEntry) (es : Entries)
      → All (IsOther e) es
      → All (λ (x : MessageLedgerEntry). x.message_id ≢ e.message_id) es
  others_of e [] o = tt
  others_of e (x ∷ xs) o = ((λ q. o.0 (sym q)), others_of e xs o.1)

  reconcile_entries-Outcomes :
      (obs : Observations) (es : Entries) (l : Ledger)
      → All (IsIn l.messages) es
      → HasDistinctIds es
      → Outcomes obs es l (reconcile_entries before now obs es l)
  unfolding reconcile_entries
  reconcile_entries-Outcomes obs [] l h d = record {
    all_return = refl;
    all_stand = tt;
    rest = λ j n. refl;
  }
  reconcile_entries-Outcomes obs (e ∷ es) l h d =
      let l' : Ledger = (reconcile_entry before now obs e l).1 in
      let here_now = reconcile_entry-Outcome obs e l h.0 in
      let later =
        reconcile_entries-Outcomes obs es l' (still-IsIn e l l' es here_now.others d.0 h.1) d.1 in
      let (x, p, m, s) = here_now.stands in
      rw (here_now.returns, later.all_return)
        (record {
          all_return = refl;
          all_stand =
              ((x, later.rest e.message_id (others_of e es d.0) ∙ p, m, s), later.all_stand);
          rest = λ j n. later.rest j n.1 ∙ here_now.others j n.0;
        })

  -- In a ledger whose message ids are distinct, a reconciliation never fails. It returns the first
  -- response to each pending message that was sent or observed, in the order of the pending
  -- messages; it leaves a message with such a response responded, one that was sent and only shown
  -- observed, each other pending message as it was, and all other messages untouched.
  pub reconcile-Outcomes :
      (b : String) (obs : Observations) (l : Ledger)
      → HasDistinctIds l.messages
      → Outcomes obs (find_pending_for_binding b l) l (reconcile before now b obs l)
  unfolding reconcile
  reconcile-Outcomes b obs l d =
      reconcile_entries-Outcomes obs (find_pending_for_binding b l) l (find_pending-All b l d)
        (find_pending-HasDistinctIds b l d)
