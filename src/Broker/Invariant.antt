-- ===== src/Broker/Invariant.antt =====
-- What holds of the broker between any two steps of its operations.
use vibe_coding_secret_manag.Prelude.{
  ℕ, ◌≡◌, refl, Bool, true, false, Bytes, Bool-cases, inl, inr, if_both,
}
use vibe_coding_secret_manag.Outcome.{Error, Result, ok, err}
use vibe_coding_secret_manag.Machine.Exec.{Exec, Machine}
use vibe_coding_secret_manag.Machine.Triples.{Triple, Ends, Keeps, Keeps-from, Keeps-after}
use vibe_coding_secret_manag.Api.{Answer, Response}
use vibe_coding_secret_manag.Broker.{
  power_result, Host, Service, Serve, in_store, get_store, opened_by, status, hold_power,
  release_power, new_value, send, fail, done, reply,
}
use vibe_coding_secret_manag.Power.{Manager, System, stop_power, start_power}
use vibe_coding_secret_manag.Power.Balance.{
  IsBalanced, start_power-IsBalanced, stop_power-IsBalanced,
}
use vibe_coding_secret_manag.Vault.Session.{is_unlocked, unlock, lock}
use vibe_coding_secret_manag.Vault.Invariant.{IsWellFormed}
use vibe_coding_secret_manag.Broker.Stores.{open_file-IsStore, IsStore, unlock-IsStore, any-IsStore}

-- The tables are well-formed, one inhibitor runs exactly while the manager is active, and it is active
-- only while the vault is unlocked.
pub record IsSound (outside : ℕ) (s : Service) : Type 0 where
  pub store : IsStore s.power.active s.store
  pub power : IsBalanced outside s.power s.system

-- A sound broker whose store is unlocked.
pub record IsOpen (outside : ℕ) (s : Service) : Type 0 where
  pub sound : IsSound outside s
  pub keyed : is_unlocked s.store ≡ true

module _ {outside : ℕ} where
  pub in_store-IsSound :
      {A : Type 0} {m : Exec A}
      → ((needed : Bool) → Keeps (IsStore needed) m)
      → Keeps (IsSound outside) (in_store m)
  unfolding in_store
  in_store-IsSound k =
      Keeps-from
        λ s p. record { store = Keeps-after (k s.power.active) s.store p.store; power = p.power }

  pub release_power-IsSound :
      Triple
        (λ s. IsWellFormed s.store.db × IsBalanced outside s.power s.system)
        release_power
        (λ a. IsSound outside)
        (IsSound outside)
  unfolding release_power stop_power
  release_power-IsSound = record {
    at = λ s p. record {
      store = record { well = p.0; unlocked = refl };
      power = stop_power-IsBalanced outside s.power s.system p.1;
    };
  }

  pub lock-IsSound :
      Triple
        (IsSound outside)
        (in_store lock)
        (λ a s. IsWellFormed s.store.db × IsBalanced outside s.power s.system)
        (IsSound outside)
  unfolding in_store lock
  lock-IsSound = record { at = λ s p. (p.store.well, p.power) }

  pub opened_by-IsSound :
      (s : Service) (r : Result (Unit {0}) × Machine)
      → IsSound outside s
      → IsStore s.power.active r.1
      → IsSound outside (opened_by s r).1
  unfolding opened_by
  opened_by-IsSound s (ok a, t) p h = record { store = h; power = p.power }
  opened_by-IsSound s (err e, t) p h = record { store = h; power = p.power }

  module _ (host : Host) where
    pub get_store-IsSound : Keeps (IsSound outside) (get_store host)
    unfolding get_store
    get_store-IsSound = Keeps-from λ s p.
        if_both s.opened (λ (r : Result (Unit {0}) × Service). IsSound outside r.1) (λ e. p)
          (λ e. opened_by-IsSound s _ p (Keeps-after (open_file-IsStore host.env) s.store p.store))

    pub status-IsSound : Keeps (IsSound outside) (status host)
    unfolding status
    status-IsSound = Keeps-from (λ s p. Keeps-after get_store-IsSound s p)

    pub new_value-IsSound : (name : Bytes) → Keeps (IsSound outside) (new_value host name)
    unfolding new_value
    new_value-IsSound name = Keeps-from (λ s p. record { store = p.store; power = p.power })

    pub send-IsSound :
        (r : Response) (s : Service) → IsSound outside s → IsSound outside (send host r s).1
    unfolding send
    send-IsSound r s p = elim (Bool-cases (host.drops s.sends)) [
      | inl e ↦ rw e (record { store = p.store; power = p.power })
      | inr e ↦ rw e (record { store = p.store; power = p.power })
    ]

    pub fail-IsSound :
        (e : Error) (s : Service) → IsSound outside s → IsSound outside (fail host e s)
    unfolding fail
    fail-IsSound e s p = send-IsSound _ s p

    pub done-IsSound :
        (answer : Answer) (s : Service) → IsSound outside s → IsSound outside (done host answer s)
    unfolding done
    done-IsSound answer s p = elim (Bool-cases (host.encodes answer)) [
      | inl e ↦ rw e (send-IsSound _ s p)
      | inr e ↦ rw e (fail-IsSound _ s p)
    ]

    pub reply-IsSound :
        (m : Serve Answer) (s : Service)
        → Keeps (IsSound outside) m
        → IsSound outside s
        → IsSound outside (reply host m s)
    unfolding reply
    reply-IsSound m s k p = go (m s) (k.at s p)
      where
        go :
            (r : Result Answer × Service)
            → Ends (λ a. IsSound outside) (IsSound outside) r
            → IsSound outside (reply host (λ t. r) s)
        go (ok answer, t) q = done-IsSound answer t q
        go (err e, t) q = fail-IsSound e t q

    -- An unlocked store is what lets the broker hold the system awake.
    pub hold_power-IsSound :
        Triple (IsOpen outside) (hold_power host) (λ a. IsSound outside) (IsSound outside)
    unfolding hold_power
    hold_power-IsSound = record {
      at = λ s p.
          go s (start_power host.tools host.platform s.power s.system) p (
            start_power-IsBalanced host.tools host.platform outside s.power s.system p.sound.power);
    }
      where
        go :
            (s : Service) (r : Bool × Manager × System)
            → IsOpen outside s
            → IsBalanced outside r.1 r.2
            → Ends
                (λ a. IsSound outside)
                (IsSound outside)
                (power_result r.0, record s { power = r.1; system = r.2 })
        go s (true, m, y) p b = record {
          store = any-IsStore _ s.store (record { well = p.sound.store.well; unlocked = p.keyed });
          power = b;
        }
        go s (false, m, y) p b = record {
          store = any-IsStore _ s.store (record { well = p.sound.store.well; unlocked = p.keyed });
          power = b;
        }

    pub unlock_store-IsSound :
        (password : Bytes)
        → Triple
            (IsSound outside)
            (in_store (unlock host.env password))
            (λ a. IsOpen outside)
            (IsSound outside)
    unfolding in_store
    unlock_store-IsSound password = record {
      at = λ s p.
          go s p (unlock host.env password s.store)
            ((unlock-IsStore host.env password).at s.store p.store);
    }
      where
        go :
            (s : Service)
            → IsSound outside s
            → (r : Result (Unit {0}) × Machine)
            → Ends (λ a. IsStore true) (IsStore s.power.active) r
            → Ends (λ a. IsOpen outside) (IsSound outside) (in_store (λ t. r) s)
        go s p (ok a, t) h = record {
          sound = record { store = any-IsStore _ t h; power = p.power };
          keyed = h.unlocked;
        }
        go s p (err e, t) h = record { store = h; power = p.power }
