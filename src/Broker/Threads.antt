-- ===== src/Broker/Threads.antt =====
-- The requests of several connections at once: ipc.Serve answers each connection on its own goroutine.
-- A thread is the sequence of the steps of one request that no other goroutine comes between: a call
-- under a mutex of the broker, the store or the power manager, one query or one whole transaction on
-- the only connection of the database (SetMaxOpenConns(1)), or one response. `sent` is then the log of
-- what all the connections get. What a process writes is one step with its start, since it touches
-- nothing but that log.
pub mod Cases
pub mod Alone
pub mod Whole
pub mod Commits
pub mod Steady
pub mod Safe
pub mod Requests
pub mod Interleaved
pub mod Race
use vibe_coding_secret_manag.Prelude.{
  ℕ, zero, suc, ◌+◌, List, [], ◌∷◌, ◌++◌, map, Bytes, ℤ, Bool, false, none, some, if◌then◌else◌,
}
use vibe_coding_secret_manag.Outcome.{Result, ok, err}
use vibe_coding_secret_manag.Model.{Action, AuditEvent}
use vibe_coding_secret_manag.Machine.Exec.{Exec, KeySet, transaction}
use vibe_coding_secret_manag.Api.{Answer, Request, status_is}
use vibe_coding_secret_manag.Vault.Session.{is_unlocked}
use vibe_coding_secret_manag.Vault.Secrets.{sort_by}
use vibe_coding_secret_manag.Vault.Audit.{append_audit}
use vibe_coding_secret_manag.Runner.{run_code}
use vibe_coding_secret_manag.Broker.{Host, Service, Serve, in_store, get_store, fail, done}
use vibe_coding_secret_manag.Broker.Actions.{
  stream_outputs, invocation_of, run_error, run_event, send_result,
}

-- A step changes the broker, and what is left of the thread depends on what the step has found.
pub data Thread : Type 0 where
  ended : Thread
  goes : (Service → Service) → (Service → Thread) → Thread

-- A thread without any other thread.
unfoldable pub run_alone : Thread → Service → Service
run_alone ended s = s
run_alone (goes step rest) s = run_alone (rest s) (step s)

module _ (host : Host) where
  -- where a step has failed, fail
  unfoldable pub go_on : {A : Type 0} → (A → Thread) → Result A → Thread
  go_on rest (ok a) = rest a
  go_on rest (err e) = goes (fail host e) (λ s. ended)

  unfoldable pub act : {A : Type 0} → Serve A → (A → Thread) → Thread
  act m rest = goes (λ s. (m s).1) (λ s. go_on rest (m s).0)

  abbrev pub within : {A : Type 0} → Exec A → (A → Thread) → Thread
  within m rest = act (in_store m) rest

  unfoldable pub answers : Answer → Thread
  answers answer = goes (done host answer) (λ s. ended)

  -- done(b.status()): getStore, the power manager's flag, whether the store is unlocked
  unfoldable pub status_thread : Thread
  status_thread =
      goes (λ s. (get_store host s).1)
        λ before.
          goes (λ s. s)
            λ s.
              goes (λ t. t)
                λ t. answers (
                  status_is (record {
                    initialized = s.opened;
                    unlocked = if s.opened then is_unlocked t.store else false;
                    vault_id = if s.opened then t.store.vault_id else [];
                    started_at = host.started_at;
                    power_hold = s.power.active;
                  }))

  -- RecordAudit, where the error is not looked at
  unfoldable pub audit_thread : AuditEvent → Thread → Thread
  audit_thread event rest =
      goes (λ s. s)
        λ s. elim s.store.keys [
          | none ↦ rest
          | some keys ↦
              goes
                (λ t.
                  (in_store (transaction host.env (append_audit host.env keys.audit event)) t).1)
                λ t. rest
        ]

  -- runner.Run, with the writers that are closed after it, and its result
  unfoldable pub run_process : Action → List (Bytes × Bytes) → Serve (ℤ × Bool)
  run_process action values s =
      let sorted = sort_by (λ (v : Bytes × Bytes). v.0) values in
      let inv = invocation_of host action sorted in
      let ended = host.process s.runs inv in
      let (lost, s') =
        stream_outputs host action.output_policy (map (λ (v : Bytes × Bytes). v.1) sorted)
          ended.outputs (record s { runs = s.runs + 1 }) in
      (ok (run_code inv (run_error ended lost)), s')

  -- runAction from the resolved secrets on
  unfoldable pub resolved_thread : Action → List (Bytes × Bytes) → Thread
  resolved_thread action values = act (run_process action values) λ result.
      audit_thread (run_event host action result)
        (act (send_result host action.name result) λ a. ended)

-- What happens next: a request arrives, or the scheduler gives one thread a step.
pub data Event : Type 0 where
  arrives : Request → Event
  turn : ℕ → Event

-- One step of the n-th thread.
unfoldable pub step_at : ℕ → List Thread → Service → List Thread × Service
step_at n [] s = ([], s)
step_at zero (ended ∷ threads) s = (ended ∷ threads, s)
step_at zero (goes step rest ∷ threads) s = (rest s ∷ threads, step s)
step_at (suc n) (thread ∷ threads) s =
    let (others, after) = step_at n threads s in (thread ∷ others, after)
