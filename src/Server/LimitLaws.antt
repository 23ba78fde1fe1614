-- ===== src/Server/LimitLaws.antt =====
-- How many connections are served at a time.
use secretd.Server.Limits.{ended, connected}
use secretd.Prelude.{◌≤◌, List, [], ◌∷◌, arith, Bool-cases, inl, inr, leb, ◌==◌}
use secretd.Server.Limits.{Active, arrive, arrive_all, max_connections, Arrival, connected}

-- No more than 64 connections are counted, and no more are served than are counted.
pub record IsLimited (a : Active) : Type 0 where
  pub counted : a.counter ≤ max_connections
  pub served : a.threads ≤ a.counter

arrive-keeps : (arrival : Arrival) (a : Active) → IsLimited a → IsLimited (arrive arrival a)
unfolding arrive
arrive-keeps (connected started) a h = elim (Bool-cases (leb max_connections a.counter)) [
  | inl full ↦ rw full (record { counted = h.counted; served = h.served })
  | inr room ↦ rw room (record { counted = ground arith; served = ground (arith, h.served) })
]
arrive-keeps ended a h = elim (Bool-cases (a.threads == 0)) [
  | inl idle ↦ rw idle h
  | inr busy ↦
      rw busy (record { counted = ground (arith, h.counted); served = ground (arith, h.served) })
]

-- Whatever connections come, start and end, in whatever order, at most 64 are served at a time, if
-- it was so at the start.
pub arrive_all-IsLimited :
    (arrivals : List Arrival) (a : Active) → IsLimited a → IsLimited (arrive_all arrivals a)
unfolding arrive_all
arrive_all-IsLimited [] a h = h
arrive_all-IsLimited (arrival ∷ arrivals) a h =
    arrive_all-IsLimited arrivals (arrive arrival a) (arrive-keeps arrival a h)
