-- ===== src/Chatgpt/Adapter/Correlation.antt =====
-- A review that the adapter returns is one of the run that was asked about.
use agent_supervisor_runtime.Base.{
  ℕ, zero, suc, String, Bool, true, false, not, ◌&&◌, Option, none, some, ◌≡◌, refl, ◌∙◌, find,
  arith, eq_iff, eq_refl, subst, Bool-cases, inl, inr,
}
use agent_supervisor_runtime.Contracts.Supervisor.{ReviewRequest}
use agent_supervisor_runtime.Contracts.Review.{Review, is_given, valid_review, parse_review}
use agent_supervisor_runtime.Core.Orchestrator.Identity.{identity_error, review_identity_error}
use agent_supervisor_runtime.Conversations.Ledger.{MessageLedgerEntry, find_pending_for_binding}
use agent_supervisor_runtime.Context.Contracts.{Ids}
use agent_supervisor_runtime.Chatgpt.Envelopes.{
  AsrEnvelope, valid_envelope, review_request, context_response, SupervisorReplyEnvelope,
  ParsedReply, not_json, review_object, other_value, ContextRequestEnvelope,
}
use agent_supervisor_runtime.Chatgpt.Adapter.Session.{
  Session, AdapterOptions, AdapterError, invalid_envelope, AdapterResult, ok, throw, Call, continue,
  ◌>>=◌, ◌>>◌, pure, append, new_message_id, sequence_number,
}
use agent_supervisor_runtime.Chatgpt.Adapter.Exchange.{
  check, correlated, to_review, review_of, needs_instruction, respond_to_context_request,
  outbound_entry, context_payload, send_pending,
}
use agent_supervisor_runtime.Chatgpt.Adapter.Loop.{
  finish_review, answer_request, on_reply, review_loop, request_for, request_review, ids_of,
  asks_for, manifest_for, existing_or_new_id, existing_or_next, persist, send_in,
}

abbrev Yields : {A : Type 0} → (A → Type 0) → AdapterResult A × Session → Type 0
Yields P (ok a, s) = P a
Yields P (throw e, s) = Unit

-- A call whose value, if it returns one, has a property.
record Gives (A : Type 0) (P : A → Type 0) (m : Call A) : Type 0 where
  run : (s : Session) → Yields P (m s)

Yields-continue :
    {A B : Type 0} (Q : A → Type 0) (P : B → Type 0) (x : AdapterResult A × Session)
    (f : A → Call B)
    → Yields Q x
    → ((a : A) → Q a → Gives _ P (f a))
    → Yields P (continue x f)
Yields-continue Q P (ok a, s) f q h = (h a q).run s
Yields-continue Q P (throw e, s) f q h = tt

Gives-bind :
    {A B : Type 0} {Q : A → Type 0} {P : B → Type 0} (m : Call A) (f : A → Call B)
    → Gives _ Q m
    → ((a : A) → Q a → Gives _ P (f a))
    → Gives _ P (m >>= f)
Gives-bind {Q = Q} {P = P} m f q h = record { run = λ s. Yields-continue Q P (m s) f (q.run s) h }

abbrev Any : {A : Type 0} → A → Type 0
Any a = Unit

Yields-Any : {A : Type 0} (x : AdapterResult A × Session) → Yields Any x
Yields-Any (ok a, s) = tt
Yields-Any (throw e, s) = tt

-- Whatever the first call returns.
Gives-then :
    {A B : Type 0} {P : B → Type 0} (m : Call A) (f : A → Call B)
    → ((a : A) → Gives _ P (f a))
    → Gives _ P (m >>= f)
Gives-then {P = P} m f h = record {
  run = λ s. Yields-continue Any P (m s) f (Yields-Any (m s)) (λ a u. h a);
}

Yields-map :
    {A : Type 0} (Q P : A → Type 0) (x : AdapterResult A × Session)
    → ((a : A) → Q a → P a)
    → Yields Q x
    → Yields P x
Yields-map Q P (ok a, s) h q = h a q
Yields-map Q P (throw e, s) h q = tt

Gives-map :
    {A : Type 0} {Q P : A → Type 0} {m : Call A} → ((a : A) → Q a → P a) → Gives _ Q m → Gives _ P m
Gives-map {Q = Q} {P = P} {m = m} h q = record { run = λ s. Yields-map Q P (m s) h (q.run s) }

-- A review of this task and run that the schema admits.
pub record IsReviewOf (ids : Ids) (review : Review) : Type 0 where
  pub of_task : review.task_id ≡ ids.task_id
  pub of_run : review.run_id ≡ ids.run_id
  pub valid : valid_review review ≡ true

to_review-Yields :
    (reply : SupervisorReplyEnvelope) (s : Session)
    → Yields (IsReviewOf reply.ids) (to_review reply s)
unfolding to_review parse_review
to_review-Yields reply s =
    elim (Bool-cases (needs_instruction reply.decision && not (is_given reply.instruction))) [
      | inl v ↦ rw v tt
      | inr v ↦ elim (Bool-cases (valid_review (review_of reply))) [
        | inl w ↦ rw (v, w) (record { of_task = refl; of_run = refl; valid = w })
        | inr w ↦ rw (v, w) tt
      ]
    ]

record SameRun (a b : Ids) : Type 0 where
  task : a.task_id ≡ b.task_id
  run : a.run_id ≡ b.run_id

same_review : (a b : Ids) → SameRun a b → (r : Review) → IsReviewOf a r → IsReviewOf b r
same_review a b k r v = record {
  of_task = v.of_task ∙ k.task;
  of_run = v.of_run ∙ k.run;
  valid = v.valid;
}

same_self : (a : Ids) → SameRun a a
same_self a = record { task = refl; run = refl }

returned : (e : AsrEnvelope) → Gives _ (λ (a : AsrEnvelope). SameRun a.ids e.ids) (pure e)
returned e = record { run = λ s. same_self e.ids }

correlated-SameRun :
    (ids : Ids) (in_reply_to : String) (out : AsrEnvelope)
    → correlated ids in_reply_to out ≡ true
    → SameRun ids out.ids
unfolding correlated
correlated-SameRun ids in_reply_to out h = record {
  task = ground (arith, eq_iff ids.task_id out.ids.task_id);
  run = ground (arith, eq_iff ids.run_id out.ids.run_id);
}

-- After a check of correlation.
checked :
    {B : Type 0} {P : B → Type 0} (b : Bool) (e : AdapterError) (k : Call B)
    → (b ≡ true → Gives _ P k)
    → Gives _ P (check b e >> k)
checked true e k h = h refl
checked false e k h = record { run = λ s. tt }

returned_same : {A : Type 0} {a b : A} → ok a ≡ ok b → a ≡ b
returned_same e = cc

not_returned : {A : Type 0} {e : AdapterError} {a : A} → throw e ≡ ok a → ⊥
not_returned e = ground arith

no_identity_error :
    (ids : Ids) (input : ReviewRequest) (r : Review)
    → ids.task_id ≡ input.task.task_id
    → ids.run_id ≡ input.result.run_id
    → IsReviewOf ids r
    → review_identity_error input.task input.result.run_id r ≡ none
unfolding identity_error
no_identity_error ids input r p q k =
    rw (k.of_task, k.of_run, p, q, eq_refl input.task.task_id, eq_refl input.result.run_id) refl

Yields-at :
    {A : Type 0} (P : A → Type 0) (x : AdapterResult A × Session) (a : A)
    → x.0 ≡ ok a
    → Yields P x
    → P a
Yields-at P (ok b, s) a h q = subst P (returned_same h) q
Yields-at P (throw e, s) a h q = absurd (not_returned h)

module _ (o : AdapterOptions) where
  finish_review-Gives :
      (out : AsrEnvelope) (text : String) (reply : SupervisorReplyEnvelope)
      → Gives _ (IsReviewOf out.ids) (finish_review o out text reply)
  unfolding finish_review
  finish_review-Gives out text reply =
      checked (correlated reply.ids reply.in_reply_to out) _ _ (λ c. Gives-then _ _ (λ u.
        Gives-map
          (same_review reply.ids out.ids (correlated-SameRun reply.ids reply.in_reply_to out c))
          (record { run = λ s. to_review-Yields reply s })))

  respond-Gives :
      (r : ContextRequestEnvelope)
      → Gives _ (λ (e : AsrEnvelope). SameRun e.ids r.ids) (respond_to_context_request o r)
  unfolding respond_to_context_request
  respond-Gives r = Gives-then (context_payload o o.has_broker r) _ (λ payload.
      Gives-then (new_message_id o) _ (λ id. Gives-then (sequence_number o) _ (λ n.
        let out : AsrEnvelope = record {
          message_id = id;
          ids = r.ids;
          kind = context_response;
          sequence = n;
          correlation_id = some r.message_id;
        } in
        Gives-then (check (valid_envelope out) invalid_envelope) _ (λ c.
          Gives-then (append o (outbound_entry o out (o.response_text out payload))) _ (λ e.
            Gives-then (send_pending o id (o.response_text out payload)) _ (λ u. returned out))))))

  answer_request-Gives :
      (out : AsrEnvelope) (text : String) (again : AsrEnvelope → Call Review)
      (r : ContextRequestEnvelope)
      → ((next : AsrEnvelope) → Gives _ (IsReviewOf next.ids) (again next))
      → Gives _ (IsReviewOf out.ids) (answer_request o out text again r)
  answer_request-Gives out text again r h = checked (correlated r.ids r.in_reply_to out) _ _ (λ c.
      Gives-then _ _ (λ u. Gives-bind _ _ (respond-Gives r) (λ next k.
        let m = correlated-SameRun r.ids r.in_reply_to out c in
        Gives-map
          (same_review next.ids out.ids (record { task = k.task ∙ m.task; run = k.run ∙ m.run }))
          (h next))))

  on_reply-Gives :
      (out : AsrEnvelope) (text : String) (again : AsrEnvelope → Call Review) (p : ParsedReply)
      → ((next : AsrEnvelope) → Gives _ (IsReviewOf next.ids) (again next))
      → Gives _ (IsReviewOf out.ids) (on_reply o out text again p)
  on_reply-Gives out text again not_json h = record { run = λ s. tt }
  on_reply-Gives out text again (review_object raw) h =
      Gives-then _ _ (λ reply. finish_review-Gives out text reply)
  on_reply-Gives out text again (other_value raw) h =
      Gives-then _ _ (λ r. answer_request-Gives out text again r h)

  review_loop-Gives :
      (fuel : ℕ) (out : AsrEnvelope) → Gives _ (IsReviewOf out.ids) (review_loop o fuel out)
  unfolding review_loop
  review_loop-Gives zero out = record { run = λ s. tt }
  review_loop-Gives (suc fuel) out = Gives-then _ _ (λ text.
      on_reply-Gives out text (λ next. review_loop o fuel next) (o.parse_json text)
        (λ next. review_loop-Gives fuel next))

  request_for-Gives :
      (fuel : ℕ) (input : ReviewRequest) (existing : Option MessageLedgerEntry)
      → Gives _ (IsReviewOf (ids_of o input)) (request_for o fuel input existing)
  unfolding request_for
  request_for-Gives fuel input existing =
      Gives-then (manifest_for o o.has_broker input) _ (λ available.
        Gives-then (existing_or_new_id o existing) _ (λ id.
          Gives-then (existing_or_next o existing) _ (λ n.
            let out : AsrEnvelope = record {
              message_id = id;
              ids = ids_of o input;
              kind = review_request;
              sequence = n;
              correlation_id = none;
            } in
            Gives-then (check (valid_envelope out) invalid_envelope) _ (λ c.
              Gives-then _ _ (λ packet.
                Gives-then (persist o existing out (o.review_text out packet)) _ (λ entry.
                  Gives-then (send_in o entry.state id (o.review_text out packet)) _
                    (λ u. review_loop-Gives fuel out)))))))

  -- A review that a request for one returns, from any session, passes the orchestrator's check that it
  -- is of the task and run that were asked about, and the schema of a review admits it.
  pub review_identity_error-request_review :
      (fuel : ℕ) (input : ReviewRequest) (s : Session) (r : Review)
      → (request_review o fuel input s).0 ≡ ok r
      → (review_identity_error input.task input.result.run_id r ≡ none) × (valid_review r ≡ true)
  unfolding request_review
  review_identity_error-request_review fuel input s r h =
      let k = Yields-at _ (request_review o fuel input s) r h (
        (request_for-Gives fuel input
            (find (asks_for input) (find_pending_for_binding o.binding.binding_id s.ledger))).run
          s) in
      (no_identity_error (ids_of o input) input r refl refl k, k.valid)
