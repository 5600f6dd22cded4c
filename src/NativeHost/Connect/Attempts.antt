-- ===== src/NativeHost/Connect/Attempts.antt =====
-- When the host connects to the runtime.
use agent_supervisor_runtime.Base.{
  ℕ, zero, suc, ◌+◌, ◌≤◌, ◌<◌, true, false, not, ◌&&◌, ◌≡◌, ◌≢◌, refl, subst, arith, Bool-cases,
  inl, inr, if◌then◌else◌,
}
use agent_supervisor_runtime.NativeHost.Connect.{
  NativeHostBridgeOptions, Connecting, Connection, connected, attempt, start, sleep_before,
  start_once, attempts, connect_with_auto_start, nothing_yet,
}

-- Connected after an attempt that was not later than this one, the runtime started once at most.
pub record ConnectsBy (k : ℕ) (x : Connection × Connecting) : Type 0 where
  pub connects : x.0 ≡ connected
  pub soon : x.1.connects ≤ k + 1
  pub once : x.1.starts ≤ 1

-- The runtime has been started once, or not at all where it has not been.
abbrev StartedOnce : Connecting → Type 0
StartedOnce c = c.starts ≡ (if c.started then 1 else 0)

module _ (o : NativeHostBridgeOptions) (k : ℕ) (there : o.connect k ≡ true) where
  start_once-ConnectsBy :
      (more : Connecting → Connection × Connecting) (c : Connecting)
      → o.start_runtime ≡ true
      → StartedOnce c
      → ((c' : Connecting) → c'.connects ≡ c.connects → StartedOnce c' → ConnectsBy k (more c'))
      → ConnectsBy k (start_once o more c)
  start_once-ConnectsBy more c s n h = elim (Bool-cases (not c.started && o.has_start)) [
    | inr v ↦ rw v (h c refl n)
    | inl v ↦ rw (v, s) (h (start o c) refl (ground (arith, n, v)))
  ]

  slept :
      (left : ℕ) (c : Connecting)
      → StartedOnce c
      → ((sleep_before o left c).connects ≡ c.connects) × StartedOnce (sleep_before o left c)
  slept zero c n = (refl, n)
  slept (suc left) c n = (refl, n)

  not_now : (n : ℕ) → o.connect n ≡ false → n ≤ k → n < k
  not_now n v l =
      let other : n ≢ k = λ p. ground (arith, subst (λ i. o.connect i ≡ false) p v, there) in
      omega (arith, l, other)

  attempts-ConnectsBy :
      (left : ℕ) (c : Connecting)
      → o.start_runtime ≡ true
      → StartedOnce c
      → c.connects ≤ k
      → k < c.connects + left
      → ConnectsBy k (attempts o left c)
  unfolding attempts
  attempts-ConnectsBy zero c s n l h = absurd (omega (arith, l, h))
  attempts-ConnectsBy (suc left) c s n l h = elim (Bool-cases (o.connect c.connects)) [
    | inl v ↦ rw v (record { connects = refl; soon = omega (arith, l); once = ground (arith, n) })
    | inr v ↦ rw v (
        start_once-ConnectsBy (λ c'. attempts o left (sleep_before o left c')) (attempt o c) s n
          (λ c' e m.
            let q = slept left c' m in
            let p = not_now c.connects v l in
            attempts-ConnectsBy left (sleep_before o left c') s q.1 (omega (arith, q.0, e, p))
              (omega (arith, q.0, e, h))))
  ]

  -- Where one of the allowed attempts would connect and the runtime, if it can be started, starts, the
  -- host does connect: by that attempt at the latest, and with one start of the runtime at most.
  pub connect_with_auto_start-ConnectsBy :
      (n : ℕ) → k < n → o.start_runtime ≡ true → ConnectsBy k (connect_with_auto_start o n)
  unfolding connect_with_auto_start
  connect_with_auto_start-ConnectsBy n h s =
      attempts-ConnectsBy n (nothing_yet o) s refl (omega arith) (omega (arith, h))
