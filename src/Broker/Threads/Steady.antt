-- ===== src/Broker/Threads/Steady.antt =====
-- What every atomic step of a thread keeps: well-formed tables, and one inhibitor for an active manager.
use vibe_coding_secret_manag.Prelude.{ℕ, Bool, false, List, ℤ, Bytes, equal, codes, if_both}
use vibe_coding_secret_manag.Outcome.{Error, Result, ok, err}
use vibe_coding_secret_manag.Model.{Action}
use vibe_coding_secret_manag.Machine.Exec.{Exec, Machine}
use vibe_coding_secret_manag.Machine.Triples.{Keeps, Keeps-from, Keeps-after}
use vibe_coding_secret_manag.Api.{Answer, Response}
use vibe_coding_secret_manag.Power.Balance.{
  IsBalanced, start_power-IsBalanced, stop_power-IsBalanced,
}
use vibe_coding_secret_manag.Broker.{
  Stream, Host, Service, in_store, opened_by, get_store, hold_power, release_power, new_value, send,
  fail, done,
}
use vibe_coding_secret_manag.Broker.Actions.{target_of, send_event, send_result}
use vibe_coding_secret_manag.Broker.Events.{stream_outputs-keeps}
use vibe_coding_secret_manag.Broker.Stores.{IsStore, open_file-IsStore}
use vibe_coding_secret_manag.Broker.Threads.{run_process}

-- The tables are well-formed, and one inhibitor more than `outside` runs exactly while the manager is
-- active.
pub record IsSteady (outside : ℕ) (s : Service) : Type 0 where
  pub store : IsStore false s.store
  pub power : IsBalanced outside s.power s.system

module _ {outside : ℕ} where
  pub in_store-IsSteady :
      {A : Type 0} {m : Exec A} → Keeps (IsStore false) m → Keeps (IsSteady outside) (in_store m)
  unfolding in_store
  in_store-IsSteady k =
      Keeps-from λ s p. record { store = Keeps-after k s.store p.store; power = p.power }

  pub release_power-IsSteady : Keeps (IsSteady outside) release_power
  unfolding release_power
  release_power-IsSteady = Keeps-from λ s p. record {
    store = p.store;
    power = stop_power-IsBalanced outside s.power s.system p.power;
  }

  module _ (host : Host) where
    pub get_store-IsSteady : Keeps (IsSteady outside) (get_store host)
    unfolding get_store opened_by
    get_store-IsSteady = Keeps-from λ s p.
        if_both s.opened (λ (r : Result (Unit {0}) × Service). IsSteady outside r.1) (λ e. p)
          (λ e. go s _ p (Keeps-after (open_file-IsStore host.env) s.store p.store))
      where
        go :
            (s : Service) (r : Result (Unit {0}) × Machine)
            → IsSteady outside s
            → IsStore false r.1
            → IsSteady outside (opened_by s r).1
        go s (ok a, t) p h = record { store = h; power = p.power }
        go s (err e, t) p h = record { store = h; power = p.power }

    pub hold_power-IsSteady : Keeps (IsSteady outside) (hold_power host)
    unfolding hold_power
    hold_power-IsSteady = Keeps-from λ s p. record {
      store = p.store;
      power = start_power-IsBalanced host.tools host.platform outside s.power s.system p.power;
    }

    pub new_value-IsSteady : (name : Bytes) → Keeps (IsSteady outside) (new_value host name)
    unfolding new_value
    new_value-IsSteady name = Keeps-from λ s p. record { store = p.store; power = p.power }

    pub send-IsSteady :
        (r : Response) (s : Service) → IsSteady outside s → IsSteady outside (send host r s).1
    unfolding send
    send-IsSteady r s p =
        if_both (host.drops s.sends) (λ (r : Bool × Service). IsSteady outside r.1)
          (λ e. record { store = p.store; power = p.power })
          (λ e. record { store = p.store; power = p.power })

    pub fail-IsSteady :
        (e : Error) (s : Service) → IsSteady outside s → IsSteady outside (fail host e s)
    unfolding fail
    fail-IsSteady e s p = send-IsSteady _ s p

    pub done-IsSteady :
        (answer : Answer) (s : Service) → IsSteady outside s → IsSteady outside (done host answer s)
    unfolding done
    done-IsSteady answer s p =
        if_both (host.encodes answer) (IsSteady outside) (λ e. send-IsSteady _ s p)
          (λ e. fail-IsSteady _ s p)

    pub send_result-IsSteady :
        (name : Bytes) (result : ℤ × Bool) → Keeps (IsSteady outside) (send_result host name result)
    unfolding send_result
    send_result-IsSteady name result = Keeps-from λ s p. send-IsSteady _ s p

    target_of-IsSteady :
        (policy : Bytes) (stream : Stream) (bytes : Bytes) (s : Service)
        → IsSteady outside s
        → IsSteady outside (target_of host policy stream bytes s).1
    unfolding target_of send_event
    target_of-IsSteady policy stream bytes s p =
        if_both (equal policy (codes "redacted")) (λ (r : Bool × Service). IsSteady outside r.1)
          (λ e. send-IsSteady _ s p) (λ e. p)

    pub run_process-IsSteady :
        (action : Action) (values : List (Bytes × Bytes))
        → Keeps (IsSteady outside) (run_process host action values)
    unfolding run_process
    run_process-IsSteady action values = Keeps-from λ s p.
        stream_outputs-keeps host action.output_policy (IsSteady outside)
          (λ stream bytes t q. target_of-IsSteady action.output_policy stream bytes t q) _ _ _
          (record { store = p.store; power = p.power })
