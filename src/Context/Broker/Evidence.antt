-- ===== src/Context/Broker/Evidence.antt =====
-- What a fetch hands out of a stored text, and what it keeps back for the next fetch.
use agent_supervisor_runtime.Base.{
  ℕ, ◌+◌, ◌≤◌, ◌<◌, min, String, true, false, [], ◌∷◌, ◌++◌, Option, none, some, ◌≡◌, ◌≢◌, ◌⊎◌,
  refl, ap, sym, subst, ◌∙◌, arith, eq_iff, eq_refl, str_eq, leb, Bool-cases, inl, inr,
}
use agent_supervisor_runtime.Context.Text.{Content, byte_length, Pieces, split_utf8}
use agent_supervisor_runtime.Context.Text.Split.{IsSplit, split_utf8-IsSplit}
use agent_supervisor_runtime.Context.Contracts.{
  ContextCapability, Ids, ContextScope, ContextResponse, ContextError, ok, throw, same_ids,
  scope_key,
}
use agent_supervisor_runtime.Context.Broker.{
  ContextBroker, EvidenceRecord, ContinuationRecord, Options, Fetched, bill, token_of, answer,
  deliver_pieces, budget_left, deliver, deliver_ref, fetch_ref, deliver_rest, fetch_continuation,
  drop, used,
}

-- What is left of a text under a continuation: it is filed for the scope and the capability.
pub record Kept (ids : Ids) (c : ContextCapability) (handed content : Content)
    (token : Option String) (b : ContextBroker) : Type 0 where
  pub key : String
  pub names : token ≡ some key
  pub stored : ContinuationRecord
  pub found : b.continuations key ≡ some stored
  pub whole : handed ++ stored.remaining ≡ content
  pub for_ids : stored.ids ≡ ids
  pub for_capability : stored.capability ≡ c

-- A response to a text of a scope: all of it, or its beginning with the rest kept, within the limit
-- of a response and not empty unless the text is.
pub record Serves (o : Options) (ids : Ids) (c : ContextCapability) (content : Content)
    (r : ContextResponse) (b : ContextBroker) : Type 0 where
  pub of_capability : r.capability ≡ c
  pub fits : byte_length r.content ≤ o.response_budget_bytes
  pub progress : content ≢ [] → r.content ≢ []
  pub rest :
      ((r.truncated ≡ false) × (r.continuation ≡ none) × (r.content ≡ content))
      ⊎ ((r.truncated ≡ true) × Kept ids c r.content content r.continuation b)

same_response : {r q : ContextResponse} → ok r ≡ ok q → r ≡ q
same_response e = cc

no_response : {x : ContextError} {r : ContextResponse} → throw x ≡ ok r → ⊥
no_response e = ground arith

nil_right : (cs : Content) → cs ++ [] ≡ cs
nil_right [] = refl
nil_right (c ∷ cs) = ap (λ x. c ∷ x) (nil_right cs)

append_nil : (cs ds : Content) → cs ++ [] ≡ ds → cs ≡ ds
append_nil cs ds e = sym (nil_right cs) ∙ e

module _ (o : Options) where
  answer-Serves :
      (ids : Ids) (c : ContextCapability) (head tail content : Content) (b : ContextBroker)
      (r : ContextResponse) (max_bytes : ℕ)
      → max_bytes ≤ o.response_budget_bytes
      → IsSplit content max_bytes (record { head = head; tail = tail })
      → (answer o ids c head tail b).0 ≡ ok r
      → Serves o ids c content r (answer o ids c head tail b).1
  answer-Serves ids c head [] content b r m k h e =
      subst (λ q. Serves o ids c content q b) (same_response e)
        (record {
          of_capability = refl;
          fits = omega (arith, h.fits, k);
          progress = h.progress;
          rest = inl (refl, refl, append_nil head content h.whole);
        })
  answer-Serves ids c head (x ∷ xs) content b r m k h e =
      subst (λ q. Serves o ids c content q (answer o ids c head (x ∷ xs) b).1) (same_response e)
        (record {
          of_capability = refl;
          fits = omega (arith, h.fits, k);
          progress = h.progress;
          rest = inr (
            refl,
            record {
              key = token_of o b;
              names = refl;
              stored = record {
                token = token_of o b;
                ids = ids;
                capability = c;
                remaining = x ∷ xs;
                expires_at = o.now b.ticks + o.continuation_ttl_ms;
              };
              found = rw (eq_refl (token_of o b)) refl;
              whole = h.whole;
              for_ids = refl;
              for_capability = refl;
            },
          );
        })

  pieces-Serves :
      (ids : Ids) (c : ContextCapability) (content : Content) (b : ContextBroker)
      (r : ContextResponse) (max_bytes : ℕ)
      → max_bytes ≤ o.response_budget_bytes
      → (deliver_pieces o ids c (split_utf8 content max_bytes) b).0 ≡ ok r
      → Serves o ids c content r (deliver_pieces o ids c (split_utf8 content max_bytes) b).1
  pieces-Serves ids c content b r m k e = elim (split_utf8-IsSplit content m) [
    | inl (p, f, h) ↦ rw f (
        answer-Serves ids c p.head p.tail content (bill (scope_key ids) (byte_length p.head) b) r m
          k h (subst (λ t. (deliver_pieces o ids c t b).0 ≡ ok r) f e))
    | inr (f, n, h) ↦ absurd (no_response (subst (λ t. (deliver_pieces o ids c t b).0 ≡ ok r) f e))
  ]

  deliver-Serves :
      (s : ContextScope) (c : ContextCapability) (content : Content) (b : ContextBroker)
      (r : ContextResponse)
      → (deliver o s c content b).0 ≡ ok r
      → Serves o s.ids c content r (deliver o s c content b).1
  unfolding deliver
  deliver-Serves s c content b r e =
      elim (Bool-cases (leb o.review_cycle_budget_bytes (used (b.cycle_usage (scope_key s.ids))))) [
        | inl v ↦ ground arith
        | inr v ↦ rw v (
            pieces-Serves s.ids c content b r (min o.response_budget_bytes (budget_left o s.ids b))
              (omega arith) (ground arith))
      ]

  ref_found :
      (s : ContextScope) (e : Option EvidenceRecord) (b : ContextBroker) (r : ContextResponse)
      → (deliver_ref o s e b).0 ≡ ok r
      → (record_of : EvidenceRecord) × (e ≡ some record_of)
        × (same_ids record_of.ids s.ids ≡ true)
        × Serves o s.ids record_of.capability record_of.content r (deliver_ref o s e b).1
  ref_found s none b r h = absurd (no_response h)
  ref_found s (some x) b r h = elim (Bool-cases (same_ids x.ids s.ids)) [
    | inl v ↦ (x, refl, v, rw v (deliver-Serves s x.capability x.content b r (ground arith)))
    | inr v ↦ ground arith
  ]

  -- A ref that is fetched with success names evidence of the very scope that asks for it, and the
  -- response serves that evidence's text: nothing of it is lost, what does not fit the response is
  -- kept for the same scope under the continuation that the response names.
  pub fetch_ref-Serves :
      (s : ContextScope) (ref : String) (b : ContextBroker) (r : ContextResponse)
      → (fetch_ref o s ref b).0 ≡ ok r
      → (e : EvidenceRecord) × (b.refs ref ≡ some e)
        × (same_ids e.ids s.ids ≡ true)
        × Serves o s.ids e.capability e.content r (fetch_ref o s ref b).1
  fetch_ref-Serves s ref b r h = ref_found s (b.refs ref) b r h

  IsGone : Fetched → String → ContextResponse → Type 0
  IsGone run token r = run.0 ≡ ok r → r.continuation ≢ some token → run.1.continuations token ≡ none

  answer_used_up :
      (ids : Ids) (c : ContextCapability) (head tail : Content) (token : String) (b : ContextBroker)
      (r : ContextResponse)
      → b.continuations token ≡ none
      → IsGone (answer o ids c head tail b) token r
  unfolding IsGone
  answer_used_up ids c head [] token b r n e d = n
  answer_used_up ids c head (x ∷ xs) token b r n e d =
      elim (Bool-cases (str_eq (token_of o b) token)) [
        | inl v ↦
            let same : token_of o b ≡ token = ground (arith, eq_iff (token_of o b) token) in
            absurd (d (ap (λ q. q.continuation) (sym (same_response e)) ∙ ap some same))
        | inr v ↦ rw v n
      ]

  pieces_used_up :
      (ids : Ids) (c : ContextCapability) (p : Option Pieces) (token : String) (b : ContextBroker)
      (r : ContextResponse)
      → b.continuations token ≡ none
      → IsGone (deliver_pieces o ids c p b) token r
  pieces_used_up ids c none token b r n = unfold IsGone in λ e d. n
  pieces_used_up ids c (some p) token b r n =
      answer_used_up ids c p.head p.tail token (bill (scope_key ids) (byte_length p.head) b) r n

  -- Only the token that the response itself names may stand where the one that was used stood.
  used_up :
      (s : ContextScope) (c : ContextCapability) (content : Content) (token : String)
      (b : ContextBroker) (r : ContextResponse)
      → b.continuations token ≡ none
      → IsGone (deliver o s c content b) token r
  unfolding deliver
  used_up s c content token b r n =
      elim (Bool-cases (leb o.review_cycle_budget_bytes (used (b.cycle_usage (scope_key s.ids))))) [
        | inl v ↦ rw v (unfold IsGone in λ e d. n)
        | inr v ↦ rw v (pieces_used_up s.ids c _ token b r n)
      ]

  rest_found :
      (s : ContextScope) (token : String) (e : Option ContinuationRecord) (b : ContextBroker)
      (r : ContextResponse)
      → (deliver_rest o s token e b).0 ≡ ok r
      → (record_of : ContinuationRecord) × (e ≡ some record_of)
        × (same_ids record_of.ids s.ids ≡ true)
        × (o.now b.ticks < record_of.expires_at)
        × Serves o s.ids record_of.capability record_of.remaining r (deliver_rest o s token e b).1
        × (r.continuation ≢ some token → (deliver_rest o s token e b).1.continuations token ≡ none)
  rest_found s token none b r h = absurd (no_response h)
  rest_found s token (some x) b r h = elim (Bool-cases (same_ids x.ids s.ids)) [
    | inl v ↦ elim (Bool-cases (leb x.expires_at (o.now b.ticks))) [
      | inl w ↦ ground arith
      | inr w ↦
          let got : (deliver o s x.capability x.remaining (drop o token b)).0 ≡ ok r =
            ground arith in
          (
            x,
            refl,
            v,
            ground arith,
            rw (v, w) (deliver-Serves s x.capability x.remaining (drop o token b) r got),
            λ d.
                rw (v, w)
                  (unfold IsGone in
                    used_up s x.capability x.remaining token (drop o token b) r
                      (rw (eq_refl token) refl) got d),
          )
    ]
    | inr v ↦ ground arith
  ]

  -- A continuation that is fetched with success was kept for the very scope that asks for it and
  -- had not expired; the response serves the text that was kept; and unless the new continuation
  -- has its name, the token is gone and cannot be used again.
  pub fetch_continuation-Serves :
      (s : ContextScope) (token : String) (b : ContextBroker) (r : ContextResponse)
      → (fetch_continuation o s token b).0 ≡ ok r
      → (k : ContinuationRecord) × (b.continuations token ≡ some k)
        × (same_ids k.ids s.ids ≡ true)
        × (o.now b.ticks < k.expires_at)
        × Serves o s.ids k.capability k.remaining r (fetch_continuation o s token b).1
        × (r.continuation ≢ some token
            → (fetch_continuation o s token b).1.continuations token ≡ none)
  fetch_continuation-Serves s token b r h = rest_found s token (b.continuations token) b r h
