-- ===== src/Companion/Connecting/Stuck.antt =====
-- What a page that could not be loaded leaves.
use agent_supervisor_runtime.Base.{true, none, ◌≡◌, ◌≢◌}
use agent_supervisor_runtime.Companion.State.{Companion, out_of_fuel, CompanionResult, ok, throw}

-- A browser context without a page driver.
pub record Stuck (s : Companion) : Type 0 where
  pub context : s.context ≡ true
  pub driver : s.driver ≡ none

-- The call throws, and not for want of fuel.
pub record StaysStuck (x : CompanionResult (Unit {0}) × Companion) : Type 0 where
  pub stuck : Stuck x.1
  pub threw : x.0 ≢ ok tt
  pub ends : x.0 ≢ throw out_of_fuel
