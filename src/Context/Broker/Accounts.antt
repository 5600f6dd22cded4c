-- ===== src/Context/Broker/Accounts.antt =====
-- How a fetch charges what it hands out to its scope.
use agent_supervisor_runtime.Base.{
  ℕ, suc, ◌+◌, ◌-◌, ◌≤◌, ◌<◌, min, String, [], ◌∷◌, Option, none, some, Map, ◌≡◌, ◌≢◌, ◌∙◌, refl,
  sym, subst, arith, eq_iff, eq_refl, leb, Bool-cases, inl, inr,
}
use agent_supervisor_runtime.Context.Text.{Content, byte_length, Pieces, split_utf8}
use agent_supervisor_runtime.Context.Text.Split.{split_utf8-IsSplit}
use agent_supervisor_runtime.Context.Contracts.{
  ContextCapability, Ids, ContextScope, ContextQuery, ContextRequest, ContextResponse, ContextError,
  ContextResult, ok, throw, Selector, by_ref, by_continuation, by_query, parse_context_request,
  scope_key, same_ids,
}
use agent_supervisor_runtime.Context.Broker.{
  ContextBroker, EvidenceRecord, ContinuationRecord, Options, used, Fetched, bill, answer,
  deliver_pieces, budget_left, deliver, deliver_ref, deliver_rest, drop, run_query, deliver_read,
  fetch_query, fetch_selected, fetch_in, fetch_parsed, fetch,
}

-- The bytes that a fetch hands out.
abbrev pub sent_bytes : ContextResult ContextResponse → ℕ
sent_bytes (throw x) = 0
sent_bytes (ok r) = byte_length r.content

pub same_scope : {p q : ContextScope} → some p ≡ some q → p ≡ q
same_scope e = cc

same_piece : {p q : Pieces} → some p ≡ some q → p ≡ q
same_piece e = cc

no_piece : {p : Pieces} → none ≡ some p → ⊥
no_piece e = ground arith

split_fits :
    (content : Content) (max_bytes : ℕ) (p : Pieces)
    → split_utf8 content max_bytes ≡ some p
    → byte_length p.head ≤ max_bytes
split_fits content max_bytes p e = elim (split_utf8-IsSplit content max_bytes) [
  | inl (q, f, h) ↦ subst (λ x. byte_length x.head ≤ max_bytes) (same_piece (sym f ∙ e)) h.fits
  | inr (f, n, h) ↦ absurd (no_piece (sym f ∙ e))
]

module _ (o : Options) where
  -- What a fetch adds to the usage of its scope, given the usage and the scopes before it.
  pub record Accounts (key : String) (usage : Map ℕ) (scopes : Map ContextScope) (run : Fetched)
      : Type 0 where
    pub spent : used (run.1.cycle_usage key) ≡ used (usage key) + sent_bytes run.0
    pub others : (k : String) → key ≢ k → run.1.cycle_usage k ≡ usage k
    pub bounded :
        used (usage key) ≤ o.review_cycle_budget_bytes
        → used (run.1.cycle_usage key) ≤ o.review_cycle_budget_bytes
    pub kept : run.1.scopes ≡ scopes

  refuses :
      (key : String) (x : ContextError) (b : ContextBroker)
      → Accounts key b.cycle_usage b.scopes (throw x, b)
  refuses key x b = record {
    spent = omega arith;
    others = λ k n. refl;
    bounded = λ h. h;
    kept = refl;
  }

  answer-Accounts :
      (ids : Ids) (c : ContextCapability) (head tail : Content) (b : ContextBroker)
      → byte_length head ≤ o.review_cycle_budget_bytes - used (b.cycle_usage (scope_key ids))
      → used (b.cycle_usage (scope_key ids)) < o.review_cycle_budget_bytes
      → Accounts
          (scope_key ids)
          b.cycle_usage
          b.scopes
          (answer o ids c head tail (bill (scope_key ids) (byte_length head) b))
  answer-Accounts ids c head [] b h k = record {
    spent = rw (eq_refl (scope_key ids)) refl;
    others = λ j n. ground (arith, eq_iff (scope_key ids) j);
    bounded = λ _. rw (eq_refl (scope_key ids)) (omega (arith, h, k));
    kept = refl;
  }
  answer-Accounts ids c head (x ∷ xs) b h k = record {
    spent = rw (eq_refl (scope_key ids)) refl;
    others = λ j n. ground (arith, eq_iff (scope_key ids) j);
    bounded = λ _. rw (eq_refl (scope_key ids)) (omega (arith, h, k));
    kept = refl;
  }

  pieces-Accounts :
      (ids : Ids) (c : ContextCapability) (p : Option Pieces) (content : Content)
      (b : ContextBroker)
      → split_utf8 content (min o.response_budget_bytes (budget_left o ids b)) ≡ p
      → used (b.cycle_usage (scope_key ids)) < o.review_cycle_budget_bytes
      → Accounts (scope_key ids) b.cycle_usage b.scopes (deliver_pieces o ids c p b)
  pieces-Accounts ids c none content b e k = refuses (scope_key ids) _ b
  pieces-Accounts ids c (some p) content b e k =
      answer-Accounts ids c p.head p.tail b (omega (arith, split_fits content _ p e)) k

  deliver-Accounts :
      (s : ContextScope) (c : ContextCapability) (content : Content) (b : ContextBroker)
      → Accounts (scope_key s.ids) b.cycle_usage b.scopes (deliver o s c content b)
  unfolding deliver
  deliver-Accounts s c content b =
      elim (Bool-cases (leb o.review_cycle_budget_bytes (used (b.cycle_usage (scope_key s.ids))))) [
        | inl v ↦ rw v (refuses (scope_key s.ids) _ b)
        | inr v ↦ rw v (pieces-Accounts s.ids c _ content b refl (ground arith))
      ]

  -- A scope stands under its own key.
  abbrev pub IsFiled : ContextBroker → Type 0
  IsFiled b = (k : String) (s : ContextScope) → b.scopes k ≡ some s → scope_key s.ids ≡ k

  ref-Accounts :
      (s : ContextScope) (e : Option EvidenceRecord) (b : ContextBroker)
      → Accounts (scope_key s.ids) b.cycle_usage b.scopes (deliver_ref o s e b)
  ref-Accounts s none b = refuses (scope_key s.ids) _ b
  ref-Accounts s (some r) b = elim (Bool-cases (same_ids r.ids s.ids)) [
    | inl v ↦ rw v (deliver-Accounts s r.capability r.content b)
    | inr v ↦ rw v (refuses (scope_key s.ids) _ b)
  ]

  rest-Accounts :
      (s : ContextScope) (token : String) (e : Option ContinuationRecord) (b : ContextBroker)
      → Accounts (scope_key s.ids) b.cycle_usage b.scopes (deliver_rest o s token e b)
  rest-Accounts s token none b = refuses (scope_key s.ids) _ b
  rest-Accounts s token (some r) b = elim (Bool-cases (same_ids r.ids s.ids)) [
    | inl v ↦ elim (Bool-cases (leb r.expires_at (o.now b.ticks))) [
      | inl w ↦ rw (v, w) (refuses (scope_key s.ids) _ (drop o token b))
      | inr w ↦ rw (v, w) (deliver-Accounts s r.capability r.remaining (drop o token b))
    ]
    | inr v ↦ rw v (refuses (scope_key s.ids) _ b)
  ]

  read-Accounts :
      (s : ContextScope) (c : ContextCapability) (content : ContextResult Content)
      (b : ContextBroker)
      → Accounts (scope_key s.ids) b.cycle_usage b.scopes (deliver_read o s c content b)
  read-Accounts s c (throw x) b = refuses (scope_key s.ids) _ b
  read-Accounts s c (ok content) b = deliver-Accounts s c content b

  query-Accounts :
      (s : ContextScope) (c : ContextCapability) (q : ContextQuery) (root : ContextResult String)
      (b : ContextBroker)
      → Accounts (scope_key s.ids) b.cycle_usage b.scopes (fetch_query o s c q root b)
  query-Accounts s c q (throw x) b = refuses (scope_key s.ids) _ b
  query-Accounts s c q (ok root) b =
      read-Accounts s c (run_query o root s c q.path q.query b.reads)
        (record b { reads = suc b.reads })

  selected-Accounts :
      (s : ContextScope) (selector : Selector) (b : ContextBroker)
      → Accounts (scope_key s.ids) b.cycle_usage b.scopes (fetch_selected o s selector b)
  selected-Accounts s (by_ref r) b = ref-Accounts s (b.refs r) b
  selected-Accounts s (by_continuation t) b = rest-Accounts s t (b.continuations t) b
  selected-Accounts s (by_query c q) b =
      query-Accounts s c q (o.canonical_root b.reads s.workspace_root) b

  in-Accounts :
      (key : String) (s : Option ContextScope) (selector : Selector) (b : ContextBroker)
      → IsFiled b
      → b.scopes key ≡ s
      → Accounts key b.cycle_usage b.scopes (fetch_in o s selector b)
  in-Accounts key none selector b f e = refuses key _ b
  in-Accounts key (some s) selector b f e =
      subst (λ k. Accounts k b.cycle_usage b.scopes (fetch_selected o s selector b)) (f key s e)
        (selected-Accounts s selector b)

  parsed-Accounts :
      (ids : Ids) (p : ContextResult Selector) (b : ContextBroker)
      → IsFiled b
      → Accounts (scope_key ids) b.cycle_usage b.scopes (fetch_parsed o ids p b)
  parsed-Accounts ids (throw x) b f = refuses (scope_key ids) x b
  parsed-Accounts ids (ok selector) b f = in-Accounts (scope_key ids) _ selector b f refl

  pub fetch-Accounts :
      (r : ContextRequest) (b : ContextBroker)
      → IsFiled b
      → Accounts (scope_key r.ids) b.cycle_usage b.scopes (fetch o r b)
  unfolding fetch
  fetch-Accounts r b f = parsed-Accounts r.ids (parse_context_request r) b f
