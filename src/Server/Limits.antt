-- ===== src/Server/Limits.antt =====
-- src/ipc/server.rs: the loop that accepts connections, and the count of those that are served.
use secretd.Prelude.{◌==◌, ℕ, suc, ◌-◌, Bool, List, [], ◌∷◌, leb, if◌then◌else◌}

abbrev pub max_connections : ℕ
max_connections = 64

pub data Arrival : Type 0 where
  -- a connection, and whether its thread could be started
  connected : Bool → Arrival
  -- a thread has ended
  ended : Arrival

-- The counter `active`, the threads that serve a connection, and the clients that were sent away.
pub record Active : Type 0 where
  pub counter : ℕ
  pub threads : ℕ
  pub refused : ℕ

-- The guard that counts down is made by the thread: one that could not be started stays counted.
unfoldable pub arrive : Arrival → Active → Active
arrive (connected started) a =
    if leb max_connections a.counter then record a { refused = suc a.refused } else record a {
      counter = suc a.counter;
      threads = if started then suc a.threads else a.threads;
    }
arrive ended a =
    if a.threads == 0 then a else record a { counter = a.counter - 1; threads = a.threads - 1 }

unfoldable pub arrive_all : List Arrival → Active → Active
unfolding arrive
arrive_all [] a = a
arrive_all (arrival ∷ arrivals) a = arrive_all arrivals (arrive arrival a)
