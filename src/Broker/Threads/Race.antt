-- ===== src/Broker/Threads/Race.antt =====
-- An unlock and a lock of two connections at once.
use vibe_coding_secret_manag.Prelude.{
  ◌≡◌, ap, ◌∙◌, refl, true, false, List, [], ◌∷◌, Option, some, none, Bytes, equal, codes, arith,
}
use vibe_coding_secret_manag.Outcome.{bad_json, Result, ok, require}
use vibe_coding_secret_manag.Machine.Exec.{Exec, Machine, lift}
use vibe_coding_secret_manag.Api.{UnlockRequest, Request}
use vibe_coding_secret_manag.Power.{System, acquire, start_power, stop_power, ends_inhibitor}
use vibe_coding_secret_manag.Vault.Session.{unlock, lock, set_keys, is_unlocked}
use vibe_coding_secret_manag.Broker.{
  Host, Service, Serve, in_store, get_store, hold_power, release_power,
}
use vibe_coding_secret_manag.Broker.Handle.{operation_of}
use vibe_coding_secret_manag.Broker.Threads.{
  Thread, act, go_on, status_thread, Event, arrives, turn, step_at,
}
use vibe_coding_secret_manag.Broker.Threads.Cases.{
  unlock_thread, lock_thread, operation_thread, dispatch_thread, request_thread, occurs, all_occur,
}

abbrev pub request_of : Bytes → Bytes → Request
request_of operation payload = record { id = []; operation = operation; payload = payload }

-- The unlock goes on until its keys are installed, then the lock until it has called Stop, and then
-- the unlock calls Start.
abbrev pub overtaken : Bytes → List Event
overtaken payload =
    arrives (request_of (codes "unlock") payload)
    ∷ arrives (request_of (codes "lock") [])
    ∷ turn 0
    ∷ turn 0
    ∷ turn 0
    ∷ turn 1
    ∷ turn 1
    ∷ turn 1
    ∷ turn 0
    ∷ []

-- These events take the threads and the broker there.
record Leads (host : Host) (events : List Event) (threads : List Thread) (s : Service)
    (now : List Thread × Service) : Type 0 where
  pub path : all_occur host events (threads, s) ≡ now

module _ (host : Host) {now : List Thread × Service} where
  module _ {A : Type 0} (m : Serve A) (rest : A → Thread) {threads : List Thread}
      {events : List Event} {s t : Service} {a : A} where
    -- A turn of the first thread, and of the second, that succeeds.
    first_turn :
        m s ≡ (ok a, t)
        → Leads host events (rest a ∷ threads) t now
        → Leads host (turn 0 ∷ events) (act host m rest ∷ threads) s now
    unfolding all_occur occurs step_at act go_on
    first_turn e later = record {
      path =
          ap
            (λ (r : Result A × Service). all_occur host events (go_on host rest r.0 ∷ threads, r.1))
            e
          ∙ later.path;
    }

    second_turn :
        {thread : Thread}
        → m s ≡ (ok a, t)
        → Leads host events (thread ∷ rest a ∷ threads) t now
        → Leads host (turn 1 ∷ events) (thread ∷ act host m rest ∷ threads) s now
    unfolding all_occur occurs step_at act go_on
    second_turn {thread} e later = record {
      path =
          ap
            (λ (r : Result A × Service).
              all_occur host events (thread ∷ go_on host rest r.0 ∷ threads, r.1))
            e
          ∙ later.path;
    }

  both_arrive :
      {encoded : Bytes} {events : List Event} {s : Service}
      → Leads host events (unlock_thread host encoded ∷ lock_thread host ∷ []) s now
      → Leads host
          (arrives (request_of (codes "unlock") encoded)
            ∷ arrives (request_of (codes "lock") [])
            ∷ events)
          []
          s
          now
  unfolding all_occur occurs request_thread dispatch_thread operation_thread operation_of equal
      unlock_thread lock_thread
  both_arrive later = record { path = later.path }

no_turn : (host : Host) {threads : List Thread} {s : Service} → Leads host [] threads s (threads, s)
unfolding all_occur
no_turn host = record { path = refl }

module _ (host : Host) where
  -- What the broker has once the unlock has installed its keys, the lock has ended, and the unlock has
  -- called Start.
  abbrev left : Service → Machine → System → Service
  left s t asked = record s {
    store = record t { keys = none };
    power = record { active = true; stop_function = some ends_inhibitor };
    system = asked;
  }

  held :
      (s : Service) (t : Machine) (asked : System)
      → acquire host.tools host.platform (stop_power s.power s.system).1
        ≡ (some (ends_inhibitor, true), asked)
      → hold_power host (release_power (in_store lock (record s { store = t })).1).1
        ≡ (ok tt, left s t asked)
  unfolding hold_power release_power in_store lock set_keys start_power stop_power
  held s t asked a = rw a refl

  get_store_opened : (s : Service) → s.opened ≡ true → get_store host s ≡ (ok tt, s)
  unfolding get_store
  get_store_opened s o = ground (arith, o)

  payload-ok :
      {A : Type 0} {found : Option A} {payload : A} {s : Service}
      → found ≡ some payload
      → lift (require bad_json found) s ≡ (ok payload, s)
  unfolding lift
  payload-ok {s = s} p = ap (λ o. (require bad_json o, s)) p

  in_store_ok :
      {A : Type 0} (m : Exec A) {s : Service} {t : Machine} {a : A}
      → m s.store ≡ (ok a, t)
      → in_store m s ≡ (ok a, record s { store = t })
  unfolding in_store
  in_store_ok {A} m {s} e = ap (λ (r : Result A × Machine). (r.0, record s { store = r.1 })) e

  overtaken-left :
      (encoded : Bytes) (payload : UnlockRequest) (s : Service) (t : Machine) (asked : System)
      → s.opened ≡ true
      → host.unlock_payload encoded ≡ some payload
      → unlock host.env payload.password s.store ≡ (ok tt, t)
      → acquire host.tools host.platform (stop_power s.power s.system).1
        ≡ (some (ends_inhibitor, true), asked)
      → Leads host
          (overtaken encoded)
          []
          s
          (status_thread host ∷ status_thread host ∷ [], left s t asked)
  unfolding unlock_thread lock_thread in_store lock set_keys release_power
  overtaken-left encoded payload s t asked o p u a =
      let s1 : Service = record s { store = t } in
      let s2 : Service = (in_store lock s1).1 in
      let s3 : Service = (release_power s2).1 in
      both_arrive host (
        first_turn host _ _ (payload-ok p) (
          first_turn host _ _ (get_store_opened s o) (
            first_turn host _ _ (in_store_ok (unlock host.env payload.password) u) (
              second_turn host _ _ (get_store_opened s1 o) (
                second_turn host _ _ {t = s2} refl (
                  second_turn host _ _ {t = s3} refl
                    (first_turn host _ _ (held s t asked a) (no_turn host))))))))

  -- With an open store, a password that Unlock of the store accepts and an inhibitor that can be
  -- acquired once Stop has been called, there is an interleaving of a request to unlock and a
  -- request to lock that ends with the vault locked and the power manager active, with that
  -- inhibitor: the lock runs between the Unlock of the store and the Start of the manager.
  pub overtaken-all_occur :
      (encoded : Bytes) (payload : UnlockRequest) (s : Service) (t : Machine) (asked : System)
      → s.opened ≡ true
      → host.unlock_payload encoded ≡ some payload
      → unlock host.env payload.password s.store ≡ (ok tt, t)
      → acquire host.tools host.platform (stop_power s.power s.system).1
        ≡ (some (ends_inhibitor, true), asked)
      → let after = (all_occur host (overtaken encoded) ([], s)).1 in
        (after.power.active ≡ true) × (after.system ≡ asked) × (is_unlocked after.store ≡ false)
  unfolding is_unlocked
  overtaken-all_occur encoded payload s t asked o p u a =
      rw (overtaken-left encoded payload s t asked o p u a).path (refl, refl, refl)
