-- ===== src/Broker/Threads/Interleaved.antt =====
-- Requests of any number of connections, in any interleaving of their atomic steps.
use vibe_coding_secret_manag.Prelude.{ℕ, zero, suc, List, [], ◌∷◌, ◌++◌}
use vibe_coding_secret_manag.Broker.{Host, Service}
use vibe_coding_secret_manag.Broker.Threads.{Thread, ended, goes, Event, arrives, turn, step_at}
use vibe_coding_secret_manag.Broker.Threads.Cases.{occurs, all_occur}
use vibe_coding_secret_manag.Broker.Threads.Steady.{IsSteady}
use vibe_coding_secret_manag.Broker.Threads.Safe.{Safe, safe_goes}
use vibe_coding_secret_manag.Broker.Threads.Requests.{request-Safe}

pub data AllSafe (outside : ℕ) : List Thread → Type 0 where
  no_threads : AllSafe outside []
  next_thread :
      {thread : Thread} {threads : List Thread}
      → Safe outside thread
      → AllSafe outside threads
      → AllSafe outside (thread ∷ threads)

-- The threads can all go on, and the broker is steady.
pub record IsRunning (outside : ℕ) (now : List Thread × Service) : Type 0 where
  pub safe : AllSafe outside now.0
  pub steady : IsSteady outside now.1

module _ {outside : ℕ} (host : Host) where
  step_at-IsRunning :
      (n : ℕ) (threads : List Thread) (s : Service)
      → AllSafe outside threads
      → IsSteady outside s
      → IsRunning outside (step_at n threads s)
  unfolding step_at
  step_at-IsRunning n [] s no_threads p = record { safe = no_threads; steady = p }
  step_at-IsRunning zero (ended ∷ threads) s a p = record { safe = a; steady = p }
  step_at-IsRunning zero (goes step rest ∷ threads) s (next_thread (safe_goes keeps next) a) p =
      record { safe = next_thread (next s) a; steady = keeps s p }
  step_at-IsRunning (suc n) (thread ∷ threads) s (next_thread safe a) p =
      let later = step_at-IsRunning n threads s a p in
      record { safe = next_thread safe later.safe; steady = later.steady }

  AllSafe-append :
      (threads : List Thread) (thread : Thread)
      → AllSafe outside threads
      → Safe outside thread
      → AllSafe outside (threads ++ thread ∷ [])
  AllSafe-append [] thread a p = next_thread p no_threads
  AllSafe-append (other ∷ threads) thread (next_thread q a) p =
      next_thread q (AllSafe-append threads thread a p)

  pub occurs-IsRunning :
      (event : Event) (now : List Thread × Service)
      → IsRunning outside now
      → IsRunning outside (occurs host event now)
  unfolding occurs
  occurs-IsRunning (arrives request) (threads, s) r = record {
    safe = AllSafe-append threads _ r.safe (request-Safe host request);
    steady = r.steady;
  }
  occurs-IsRunning (turn n) (threads, s) r = step_at-IsRunning n threads s r.safe r.steady

  pub all_occur-IsRunning :
      (events : List Event) (now : List Thread × Service)
      → IsRunning outside now
      → IsRunning outside (all_occur host events now)
  unfolding all_occur
  all_occur-IsRunning [] now r = r
  all_occur-IsRunning (event ∷ events) now r =
      all_occur-IsRunning events _ (occurs-IsRunning event now r)

  -- Whatever requests arrive, and whichever request the scheduler gives each step to, a broker
  -- whose tables are well-formed, and whose power manager is active exactly while the one
  -- inhibitor that it has is running, is left so by any number of such events, in any order.
  pub all_occur-IsSteady :
      (events : List Event) (s : Service)
      → IsSteady outside s
      → IsSteady outside (all_occur host events ([], s)).1
  all_occur-IsSteady events s p =
      (all_occur-IsRunning events ([], s) (record { safe = no_threads; steady = p })).steady
