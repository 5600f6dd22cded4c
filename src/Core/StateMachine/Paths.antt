-- ===== src/Core/StateMachine/Paths.antt =====
-- What a sequence of events that the table accepts looks like.
use agent_supervisor_runtime.Base.{
  ◌≡◌, refl, ◌↔◌, true, false, ◌&&◌, is_some, Option, none, some, List, [], ◌∷◌, arith, InOrder,
  InOrder-tail, done, take, skip,
}
use agent_supervisor_runtime.Core.StateMachine.{
  RunState, created, ready, dispatched, running, retry_ready, result_ready, reviewing,
  revision_ready, completed, blocked, StateEvent, validate, dispatch, start, worker_succeeded,
  worker_retry, worker_failed, request_review, review_pass, review_revise, block, user_resolved,
  transition, is_terminal,
}

-- The events fed one after another; `none` when one of them is refused.
abbrev pub feed : Option RunState → List StateEvent → Option RunState
feed o [] = o
feed none (e ∷ es) = none
feed (some s) (e ∷ es) = feed (transition s e) es

abbrev pub from_result : List StateEvent
from_result = request_review ∷ review_pass ∷ []

abbrev pub from_dispatch : List StateEvent
from_dispatch = dispatch ∷ start ∷ worker_succeeded ∷ from_result

-- What still has to happen before a task in this state can be completed.
abbrev pub outstanding : RunState → List StateEvent
outstanding dispatched = start ∷ worker_succeeded ∷ from_result
outstanding running = worker_succeeded ∷ from_result
outstanding result_ready = from_result
outstanding reviewing = review_pass ∷ []
outstanding completed = []
outstanding _ = from_dispatch

abbrev HappensFrom : Option RunState → List StateEvent → Type 0
HappensFrom none es = ⊥
HappensFrom (some s) es = InOrder (outstanding s) es

-- An event takes its own mark off the list, or puts earlier marks back on.
outstanding-transition :
    (s : RunState) (e : StateEvent) (es : List StateEvent)
    → HappensFrom (transition s e) es
    → InOrder (outstanding s) (e ∷ es)
unfolding transition
outstanding-transition created validate es h = skip h
outstanding-transition created block es h = skip h
outstanding-transition ready dispatch es h = take refl h
outstanding-transition ready block es h = skip h
outstanding-transition dispatched start es h = take refl h
outstanding-transition dispatched block es h = skip (InOrder-tail h)
outstanding-transition running worker_succeeded es h = take refl h
outstanding-transition running worker_retry es h = skip (InOrder-tail (InOrder-tail h))
outstanding-transition running block es h = skip (InOrder-tail (InOrder-tail h))
outstanding-transition running worker_failed es h = skip (InOrder-tail (InOrder-tail h))
outstanding-transition retry_ready dispatch es h = take refl h
outstanding-transition retry_ready block es h = skip h
outstanding-transition result_ready request_review es h = take refl h
outstanding-transition result_ready block es h = skip (InOrder-tail (InOrder-tail (InOrder-tail h)))
outstanding-transition reviewing review_pass es h = take refl h
outstanding-transition reviewing review_revise es h =
    skip (InOrder-tail (InOrder-tail (InOrder-tail (InOrder-tail h))))
outstanding-transition reviewing block es h =
    skip (InOrder-tail (InOrder-tail (InOrder-tail (InOrder-tail h))))
outstanding-transition revision_ready dispatch es h = take refl h
outstanding-transition revision_ready block es h = skip h
outstanding-transition blocked user_resolved es h = skip h
outstanding-transition s e es h = elim h [ ]

completing :
    (o : Option RunState) (es : List StateEvent) → feed o es ≡ some completed → HappensFrom o es
completing none [] h = cc
completing none (e ∷ es) h = cc
completing (some completed) [] h = done
completing (some s) [] h = cc
completing (some s) (e ∷ es) h = outstanding-transition s e es (completing (transition s e) es h)

-- Whatever events the table accepts from a state, if they end in COMPLETED then a dispatch, a start,
-- a worker success, a review request and a review pass stand among them in this order, less those
-- that the state already has behind it.
pub completed_path :
    (s : RunState) (es : List StateEvent)
    → feed (some s) es ≡ some completed
    → InOrder (outstanding s) es
completed_path s es h = completing (some s) es h

-- COMPLETED is entered from REVIEWING by REVIEW_PASS and in no other way.
pub transition-completed :
    (s : RunState) (e : StateEvent)
    → (transition s e ≡ some completed) ↔ ((s ≡ reviewing) × (e ≡ review_pass))
unfolding transition
transition-completed s e = ground arith

-- A state accepts BLOCK exactly when it is not terminal; the one accepted event of a terminal state
-- is USER_RESOLVED of BLOCKED, which leads to READY.
pub transition-is_terminal :
    (s : RunState) (e : StateEvent)
    → ((transition s block ≡ some blocked) ↔ (is_terminal s ≡ false))
      × ((is_terminal s && is_some (transition s e) ≡ true) ↔ ((s ≡ blocked) × (e ≡ user_resolved)))
      × (transition blocked user_resolved ≡ some ready)
unfolding transition
transition-is_terminal s e = ground arith
