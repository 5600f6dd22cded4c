-- ===== src/Companion/Exchange/Waiting.antt =====
-- How the wait for a response ends.
use agent_supervisor_runtime.Base.{
  ℕ, zero, suc, ◌+◌, ◌≤◌, ◌<◌, String, true, false, List, [], ◌∷◌, Option, none, some, ◌≡◌, ◌≢◌,
  refl, sym, ap, subst, ◌∙◌, arith, leb, ltb, Bool-cases, Option-cases, inl, inr,
}
use agent_supervisor_runtime.Conversations.Transport.{ResponseRequest}
use agent_supervisor_runtime.Conversations.Manager.{Registration}
use agent_supervisor_runtime.Companion.Page.{PageMessage, GenerationState, idle}
use agent_supervisor_runtime.Companion.State.{
  Companion, CompanionOptions, out_of_fuel, CompanionResult, ok, throw, continue, tick, delay, ask,
}
use agent_supervisor_runtime.Companion.Ready.{is_bound_to, is_assistant, is_idle, is_text_of}
use agent_supervisor_runtime.Companion.Exchange.{
  unwrap_json_fence, find_correlated_assistant, replies, look, settled, pause, next_look,
  response_loop, finally_idle, wait_for_response,
}
use agent_supervisor_runtime.Companion.Exchange.Authority.{InFlight, set_in_flight-eq, flagged}

-- One of the messages is an assistant's, and its text without the fence is this reply, in answer to
-- that message.
pub data Answered (o : CompanionOptions) (id reply : String) : List PageMessage → Type 0 where
  here :
      {m : PageMessage} {ms : List PageMessage}
      → is_assistant m.role ≡ true
      → unwrap_json_fence o m.content ≡ reply
      → is_text_of (o.in_reply_to reply) id ≡ true
      → Answered o id reply (m ∷ ms)
  there :
      {m : PageMessage} {ms : List PageMessage}
      → Answered o id reply ms
      → Answered o id reply (m ∷ ms)

abbrev without_reply : CompanionResult String → CompanionResult (Option String)
without_reply (ok reply) = ok none
without_reply (throw e) = throw e

same_text : {a b : String} → some a ≡ some b → a ≡ b
same_text e = cc

module _ (o : CompanionOptions) (id : String) where
  find-Answered :
      (ms : List PageMessage) (reply : String)
      → find_correlated_assistant o ms id ≡ some reply
      → Answered o id reply ms
  unfolding find_correlated_assistant
  find-Answered [] reply e = ground arith
  find-Answered (m ∷ ms) reply e = elim (Bool-cases (replies o id m)) [
    | inr n ↦ there (find-Answered ms reply (rw n at e))
    | inl v ↦
        let same : unwrap_json_fence o m.content ≡ reply = same_text (rw v at e) in
        here (ground (arith, v)) same (rw⁻¹ same (ground (arith, v)))
  ]

  -- The reply was on the page while nothing was being generated.
  pub record Correlated (reply : String) : Type 0 where
    pub at : ℕ
    pub messages : List PageMessage
    pub observed : o.observe_messages at ≡ some messages
    pub answered : Answered o id reply messages
    pub complete : o.detect_generation_state (suc at) ≡ some idle

module _ (o : CompanionOptions) (id : String) (d : ℕ) (quick : (n : ℕ) → o.lasts n ≤ d) where
  abbrev Found : CompanionResult (Option String) → Type 0
  Found (ok (some reply)) = Correlated o id reply
  Found _ = Unit

  record Looked (s : Companion) (x : CompanionResult (Option String) × Companion) : Type 0 where
    manager : x.1.manager ≡ s.manager
    later : s.time ≤ x.1.time
    soon : x.1.time ≤ s.time + (d + d)
    fuelled : x.0 ≢ throw out_of_fuel
    found : Found x.0

  -- One call after the look at the messages.
  record Settled (s : Companion) (x : CompanionResult (Option String) × Companion) : Type 0 where
    manager : x.1.manager ≡ s.manager
    later : s.time ≤ x.1.time
    soon : x.1.time ≤ s.time + d
    fuelled : x.0 ≢ throw out_of_fuel
    found : Found x.0

  is_idle-eq : (g : GenerationState) → is_idle g ≡ true → g ≡ idle
  is_idle-eq idle h = refl
  is_idle-eq g h = ground arith

  settled-Settled :
      (r : Option String) (s : Companion) (at : ℕ) (ms : List PageMessage)
      → s.calls ≡ suc at
      → o.observe_messages at ≡ some ms
      → find_correlated_assistant o ms id ≡ r
      → Settled s (settled o r s)
  unfolding ask tick
  settled-Settled none s at ms c e f = record {
    manager = refl;
    later = omega arith;
    soon = omega (arith, quick s.calls);
    fuelled = λ k. ground arith;
    found = tt;
  }
  settled-Settled (some reply) s at ms c e f = elim (Option-cases s.driver) [
    | inl n ↦ rw n (record {
      manager = refl;
      later = omega arith;
      soon = omega (arith, quick s.calls);
      fuelled = λ k. ground arith;
      found = tt;
    })
    | inr (d, k) ↦ elim (Option-cases (o.detect_generation_state s.calls)) [
      | inl n ↦
          rw (k, n)
            (record {
              manager = refl;
              later = omega arith;
              soon = omega (arith, quick s.calls);
              fuelled = λ k. ground arith;
              found = tt;
            })
      | inr (g, n) ↦ elim (Bool-cases (is_idle g)) [
        | inr v ↦
            rw (k, n, v)
              (record {
                manager = refl;
                later = omega arith;
                soon = omega (arith, quick s.calls);
                fuelled = λ k. ground arith;
                found = tt;
              })
        | inl v ↦
            rw (k, n, v)
              (record {
                manager = refl;
                later = omega arith;
                soon = omega (arith, quick s.calls);
                fuelled = λ k. ground arith;
                found = record {
                  at = at;
                  messages = ms;
                  observed = e;
                  answered = find-Answered o id ms reply f;
                  complete =
                      ap (λ i. o.detect_generation_state i) (sym c) ∙ n ∙ ap some (is_idle-eq g v);
                };
              })
      ]
    ]
  ]

  look-Looked : (s : Companion) → Looked s (look o id s)
  unfolding look ask tick
  look-Looked s = elim (Option-cases s.driver) [
    | inl n ↦ rw n (record {
      manager = refl;
      later = omega arith;
      soon = omega (arith, quick s.calls);
      fuelled = λ k. ground arith;
      found = tt;
    })
    | inr (d, e) ↦ elim (Option-cases (o.observe_messages s.calls)) [
      | inl n ↦
          rw (e, n)
            (record {
              manager = refl;
              later = omega arith;
              soon = omega (arith, quick s.calls);
              fuelled = λ k. ground arith;
              found = tt;
            })
      | inr (ms, n) ↦
          let w =
            settled-Settled (find_correlated_assistant o ms id)
              (record (tick o s) { driver = some d }) s.calls ms refl n refl in
          rw (e, n)
            (record {
              manager = w.manager;
              later = omega (arith, w.later);
              soon = omega (arith, w.soon, quick s.calls);
              fuelled = w.fuelled;
              found = w.found;
            })
    ]
  ]

  -- What the loop leaves, and how it ends.
  record Ended (limit : ℕ) (s : Companion) (x : CompanionResult String × Companion) : Type 0 where
    manager : x.1.manager ≡ s.manager
    soon : x.1.time ≤ limit
    fuelled : x.0 ≢ throw out_of_fuel
    correlated : (reply : String) → x.0 ≡ ok reply → Correlated o id reply

  pause-later : (s : Companion) → 0 < o.poll_interval_ms → s.time < (pause o s).time
  unfolding pause delay tick
  pause-later s h = ground (arith, h)

  pause-soon : (s : Companion) → (pause o s).time ≤ s.time + (o.poll_interval_ms + d)
  unfolding pause delay tick
  pause-soon s = elim (Bool-cases (ltb 0 o.poll_interval_ms)) [
    | inl v ↦ rw v (omega (arith, quick s.calls))
    | inr v ↦ rw v (omega arith)
  ]

  -- The latest end of a wait: two calls of a look begun by the deadline, and a pause.
  abbrev limit_of : ℕ → ℕ
  limit_of deadline = deadline + (d + d + (o.poll_interval_ms + d))

  pause-manager : (s : Companion) → (pause o s).manager ≡ s.manager
  unfolding pause delay tick
  pause-manager s = ground arith

  same_reply : {a b : String} → ok a ≡ ok b → a ≡ b
  same_reply e = cc

  turn-Ended :
      (deadline : ℕ) (s : Companion) (x : CompanionResult (Option String) × Companion)
      (again : Companion → CompanionResult String × Companion)
      → s.time ≤ deadline
      → Looked s x
      → ((s' : Companion)
          → s.time ≤ s'.time
          → (pause o s').time ≤ limit_of deadline
          → Ended (limit_of deadline) (pause o s') (again (pause o s')))
      → Ended (limit_of deadline) s (continue x (λ found. next_look o found again))
  turn-Ended deadline s (ok (some reply), s') again t w h = record {
    manager = w.manager;
    soon = omega (arith, t, w.soon);
    fuelled = λ k. ground arith;
    correlated = λ r e. subst (Correlated o id) (same_reply e) w.found;
  }
  turn-Ended deadline s (ok none, s') again t w h =
      let k = h s' w.later (omega (arith, t, w.soon, pause-soon s')) in
      record {
        manager = k.manager ∙ pause-manager s' ∙ w.manager;
        soon = k.soon;
        fuelled = k.fuelled;
        correlated = k.correlated;
      }
  turn-Ended deadline s (throw e, s') again t w h = record {
    manager = w.manager;
    soon = omega (arith, t, w.soon);
    fuelled = λ k. w.fuelled (ap without_reply k);
    correlated = λ r k. ground arith;
  }

  response_loop-Ended :
      (fuel deadline : ℕ) (s : Companion)
      → 0 < o.poll_interval_ms
      → 0 < fuel
      → deadline + 1 < s.time + fuel
      → s.time ≤ limit_of deadline
      → Ended (limit_of deadline) s (response_loop o fuel deadline id s)
  unfolding response_loop
  response_loop-Ended zero deadline s p f h l = absurd (omega (arith, f))
  response_loop-Ended (suc fuel) deadline s p f h l = elim (Bool-cases (leb s.time deadline)) [
    | inr v ↦ rw v (record {
      manager = refl;
      soon = l;
      fuelled = λ k. ground arith;
      correlated = λ r k. ground arith;
    })
    | inl v ↦ rw v (
        turn-Ended deadline s (look o id s) (response_loop o fuel deadline id) (ground (arith, v))
          (look-Looked s)
          (λ s' k t.
            let q = pause-later s' p in
            response_loop-Ended fuel deadline (pause o s') p (ground (arith, h, v))
              (omega (arith, q, k, h)) t))
  ]

module _ (o : CompanionOptions) (r : ResponseRequest) where
  -- How a wait for a response ends.
  pub record Waited (limit : ℕ) (x : CompanionResult String × Companion) : Type 0 where
    pub in_flight : InFlight o false x.1.manager
    pub ends : x.0 ≢ throw out_of_fuel
    pub in_time : x.1.time ≤ limit
    pub correlated : (reply : String) → x.0 ≡ ok reply → Correlated o r.in_reply_to reply

module _ (o : CompanionOptions) (r : ResponseRequest) (d : ℕ)
    (quick : (n : ℕ) → o.lasts n ≤ d) where
  finally_idle-Waited :
      (limit : ℕ) (s : Companion) (x : CompanionResult String × Companion) (k : Registration)
      → Ended o r.in_reply_to d quick limit s x
      → s.manager.registrations o.id ≡ some k
      → Waited o r limit (finally_idle o x)
  finally_idle-Waited limit s (ok reply, s') k w e =
      let there : s'.manager.registrations o.id ≡ some k = rw w.manager e in
      rw (set_in_flight-eq o false k s' there) (record {
        in_flight = flagged o false k s'.manager there;
        ends = λ q. ground arith;
        in_time = w.soon;
        correlated = w.correlated;
      })
  finally_idle-Waited limit s (throw e', s') k w e =
      let there : s'.manager.registrations o.id ≡ some k = rw w.manager e in
      rw (set_in_flight-eq o false k s' there) (record {
        in_flight = flagged o false k s'.manager there;
        ends = w.fuelled;
        in_time = w.soon;
        correlated = λ reply q. ground arith;
      })

  -- Where the poll interval is above 0 and each call of the page or the timer takes d at most, a wait
  -- for a response on the conversation that is bound ends, at the latest the time limit, the poll
  -- interval and three calls after it began; fuel above the time limit is enough. Whether it returns
  -- or throws, no exchange is in flight afterwards. What it returns is the text, without its fence, of
  -- an assistant's message that answers the request and was on the page while nothing was being
  -- generated.
  pub wait_for_response-Waited :
      (fuel : ℕ) (s : Companion) (k : Registration)
      → 0 < o.poll_interval_ms
      → o.response_timeout_ms + 1 < fuel
      → is_bound_to r.binding_id s.binding ≡ true
      → s.manager.registrations o.id ≡ some k
      → Waited o r
          (s.time + o.response_timeout_ms + (d + d + (o.poll_interval_ms + d)))
          (wait_for_response o fuel r s)
  unfolding wait_for_response
  wait_for_response-Waited fuel s k p f b e = rw b (
      finally_idle-Waited _ s _ k
        (response_loop-Ended o r.in_reply_to d quick fuel (s.time + o.response_timeout_ms) s p
          (omega (arith, f)) (omega (arith, f)) (omega arith))
        e)
