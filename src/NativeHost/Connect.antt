-- ===== src/NativeHost/Connect.antt =====
-- native-host/bridge.ts: `connectWithAutoStart`. The client's connect and the start of the runtime are
-- parameters.
pub mod Attempts
use agent_supervisor_runtime.Base.{ℕ, zero, suc, ◌+◌, Bool, true, false, not, ◌&&◌, if◌then◌else◌}

pub record NativeHostBridgeOptions : Type 0 where
  pub connect : ℕ → Bool  -- whether that attempt connects
  pub has_start : Bool
  pub start_runtime : Bool  -- whether it returns

-- The calls made so far, and the flag `started`.
pub record Connecting : Type 0 where
  pub connects : ℕ
  pub starts : ℕ
  pub sleeps : ℕ
  pub started : Bool

pub data Connection : Type 0 where
  connected start_failed runtime_connect_timeout : Connection

-- `connectAttempts`, where it is not given
abbrev pub default_attempts : ℕ
default_attempts = 20

module _ (o : NativeHostBridgeOptions) where
  abbrev pub attempt : Connecting → Connecting
  attempt c = record c { connects = c.connects + 1 }

  abbrev pub start : Connecting → Connecting
  start c = record c { starts = c.starts + 1; started = true }

  -- Before each attempt but the first.
  abbrev pub sleep_before : ℕ → Connecting → Connecting
  sleep_before zero c = c
  sleep_before (suc left) c = record c { sleeps = c.sleeps + 1 }

  -- The `catch`, and the attempts that follow.
  abbrev pub start_once :
      (Connecting → Connection × Connecting) → Connecting → Connection × Connecting
  start_once more c =
      if not c.started && o.has_start
      then if o.start_runtime then more (start c) else (start_failed, start c)
      else more c

  -- With this many attempts left.
  unfoldable pub attempts : ℕ → Connecting → Connection × Connecting
  attempts zero c = (runtime_connect_timeout, c)
  attempts (suc left) c =
      if o.connect c.connects
      then (connected, attempt c)
      else start_once (λ c'. attempts left (sleep_before left c')) (attempt c)

  abbrev pub nothing_yet : Connecting
  nothing_yet = record { connects = 0; starts = 0; sleeps = 0; started = false }

  unfoldable pub connect_with_auto_start : ℕ → Connection × Connecting
  unfolding attempts
  connect_with_auto_start n = attempts n nothing_yet
