-- ===== src/Examples/Transports.antt =====
-- The transport manager at concrete inputs.
use agent_supervisor_runtime.Base.{
  ℕ, ◌<◌, String, true, false, some, ◌≡◌, ◌≢◌, refl, arith, insert, no_entries, eq_iff,
}
use agent_supervisor_runtime.Conversations.Lease.{TransportLease}
use agent_supervisor_runtime.Conversations.Lease as Lease
use agent_supervisor_runtime.Conversations.Lease.Fencing.{IsFiled}
use agent_supervisor_runtime.Conversations.Transport.{standby, active}
use agent_supervisor_runtime.Conversations.Manager.{
  Registration, TransportManager, ok, acquire, make_active, assert_send_authority,
}
use agent_supervisor_runtime.Conversations.Manager.Handover.{assert_send_authority-acquire}
use agent_supervisor_runtime.Conversations.Manager.Preemption.{
  IsLive, Preempted, acquire-leases, acquire-Preempted,
}

abbrev companion_lease : TransportLease
companion_lease = record { binding_id = "b"; holder = "companion"; epoch = 1; expires_at = 10 }

abbrev extension_lease : TransportLease
extension_lease = record { binding_id = "b"; holder = "extension"; epoch = 2; expires_at = 22 }

abbrev companion : Registration
companion = record { priority = 1; status = active; exchange_in_flight = false }

abbrev busy_companion : Registration
busy_companion = record companion { exchange_in_flight = true }

abbrev extension : Registration
extension = record { priority = 2; status = standby; exchange_in_flight = false }

abbrev idle : TransportManager
idle = record {
  registrations = insert "companion" companion (insert "extension" extension no_entries);
  leases = insert "b" companion_lease no_entries;
}

abbrev busy : TransportManager
busy = record idle {
  registrations = insert "companion" busy_companion (insert "extension" extension no_entries);
}

idle-IsFiled : IsFiled idle.leases
idle-IsFiled = record { at_binding = λ b l e. ground (arith, eq_iff "b" b) }

idle-IsLive : IsLive "b" "extension" 4 companion_lease idle
idle-IsLive = record {
  held = refl;
  other = λ e. ground (arith, eq_iff "companion" "extension");
  unexpired = omega arith;
}

busy-IsLive : IsLive "b" "extension" 4 companion_lease busy
busy-IsLive = record {
  held = refl;
  other = λ e. ground (arith, eq_iff "companion" "extension");
  unexpired = omega arith;
}

taken_over : (acquire "b" "extension" 15 4 5 6 7 idle).0 ≡ ok (some extension_lease)
unfolding acquire make_active Lease.acquire Lease.release
taken_over = refl

assert_send_authority-acquire_example :
    ((later : ℕ)
      → later < 22
      → assert_send_authority "b" "extension" 2 later (acquire "b" "extension" 15 4 5 6 7 idle).1
        ≡ ok tt)
    × ((j b' : String) (epoch now : ℕ)
        → "extension" ≢ j
        → assert_send_authority b' j epoch now (acquire "b" "extension" 15 4 5 6 7 idle).1 ≢ ok tt)
assert_send_authority-acquire_example =
    assert_send_authority-acquire "b" "extension" 15 4 5 6 7 idle extension_lease taken_over

acquire-leases_example : (acquire "b" "extension" 15 4 5 6 7 busy).1.leases ≡ busy.leases
acquire-leases_example =
    acquire-leases "b" "extension" 15 4 5 6 7 companion_lease busy_companion busy busy-IsLive refl
      refl

acquire-Preempted_example : Preempted "extension" companion_lease idle extension_lease
acquire-Preempted_example =
    acquire-Preempted "b" "extension" 15 4 5 6 7 companion_lease extension_lease idle idle-IsFiled
      idle-IsLive taken_over
