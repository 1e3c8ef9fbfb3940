-- ===== src/Broker/Unlocking.antt =====
-- The unlock request: the vault first, and then the inhibitor.
use vibe_coding_secret_manag.Prelude.{
  ℕ, ◌≡◌, refl, ap, subst, ◌∙◌, Bool, true, false, [], ◌∷◌, ◌++◌, none, some, Bytes, if_both,
}
use vibe_coding_secret_manag.Outcome.{Error, Result, ok, require, bad_json}
use vibe_coding_secret_manag.Machine.Exec.{Machine, Run, lift, ◌>>=◌, ◌>>◌}
use vibe_coding_secret_manag.Machine.Env.{Env}
use vibe_coding_secret_manag.Machine.Triples.{Triple, Ends, Triple-bind, Keeps-lift, Keeps-from}
use vibe_coding_secret_manag.Power.{Manager, System, start_power}
use vibe_coding_secret_manag.Api.{Answer, UnlockRequest, Request, Response}
use vibe_coding_secret_manag.Broker.{
  Host, Service, in_store, get_store, hold_power, status, succeed, send, fail, done, reply,
}
use vibe_coding_secret_manag.Broker.Handle.{
  unlock_op, operation_of, unlock_case, serve, dispatch, handle,
}
use vibe_coding_secret_manag.Broker.Locked.{failure}
use vibe_coding_secret_manag.Vault.Session.{
  unlock, is_unlocked, unlock_locked, install_keys, set_keys,
}

-- One final response has been sent, which is a success if `well`, and nothing else has changed.
pub record IsAnswered (well : Bool) (before after : Service) : Type 0 where
  pub store : after.store ≡ before.store
  pub power : after.power ≡ before.power
  pub system : after.system ≡ before.system
  pub response : Response
  pub grown : after.sent ≡ before.sent ++ response ∷ []
  pub outcome : response.is_ok ≡ well
  pub ends : response.is_final ≡ true

-- The state of the broker once the store is unlocked and the inhibitor has been asked for.
abbrev pub held : Service → Machine → Bool × Manager × System → Service
held s t started = record s { store = t; power = started.1; system = started.2 }

module _ {S A B : Type 0} where
  bind_ok :
      (m : Run S A) (f : A → Run S B) (s t : S) (a : A) → m s ≡ (ok a, t) → (m >>= f) s ≡ f a t
  unfolding ◌>>=◌
  bind_ok m f s t a h = rw (h, ◌>>=◌) refl

-- An Unlock that succeeds has installed keys, or has found them.
module _ (env : Env) where
  abbrev Anything : Machine → Type 0
  Anything s = Unit {0}

  install_keys-keyed :
      (dek : Bytes) → Triple Anything (install_keys env dek) (λ a t. is_unlocked t ≡ true) Anything
  unfolding install_keys set_keys is_unlocked
  install_keys-keyed dek = Triple-bind (Keeps-lift _) λ metadata.
      Triple-bind (Keeps-lift _)
        λ lookup. Triple-bind (Keeps-lift _) λ audit. record { at = λ s p. refl }

  unlock-keyed :
      (password : Bytes)
      → Triple Anything (unlock env password) (λ a t. is_unlocked t ≡ true) Anything
  unfolding unlock unlock_locked
  unlock-keyed password = record {
    at = λ s p.
        if_both (is_unlocked s)
          (Ends {A = Unit {0}} (λ a (t : Machine). is_unlocked t ≡ true) Anything) (λ e. e)
          (λ e. (Triple-bind (Keeps-from (λ t q. tt)) install_keys-keyed).at s p);
  }

  unlock-is_unlocked :
      (password : Bytes) (s t : Machine) → unlock env password s ≡ (ok tt, t) → is_unlocked t ≡ true
  unlock-is_unlocked password s t h =
      subst (Ends (λ a (t : Machine). is_unlocked t ≡ true) Anything) h
        ((unlock-keyed password).at s tt)

module _ (host : Host) (up : (n : ℕ) → host.drops n ≡ false)
    (encodes : (answer : Answer) → host.encodes answer ≡ true) where
  fail-IsAnswered : (e : Error) (s : Service) → IsAnswered false s (fail host e s)
  unfolding fail send
  fail-IsAnswered e s = record {
    store = rw (up s.sends, fail) refl;
    power = rw (up s.sends, fail) refl;
    system = rw (up s.sends, fail) refl;
    response = failure e;
    grown = rw (up s.sends, fail) refl;
    outcome = refl;
    ends = refl;
  }

  done-IsAnswered :
      (answer : Answer) (s u : Service) → u ≡ s → IsAnswered true s (done host answer u)
  unfolding done send succeed
  done-IsAnswered answer s u e =
      subst (λ s. IsAnswered true s (done host answer u)) e
        (rw (encodes answer) (record {
          store = rw (up u.sends, succeed) refl;
          power = rw (up u.sends, succeed) refl;
          system = rw (up u.sends, succeed) refl;
          response = record {
            id = [];
            is_ok = true;
            event = [];
            answer = some answer;
            error = none;
            is_final = true;
          };
          grown = rw (up u.sends, succeed) refl;
          outcome = refl;
          ends = refl;
        }))

  get_store_opened : (s : Service) → s.opened ≡ true → get_store host s ≡ (ok tt, s)
  unfolding get_store
  get_store_opened s opened = rw opened refl

  -- Whether the inhibitor runs decides what the client is told.
  hold_power-IsAnswered :
      (s : Service) (started : Bool × Manager × System)
      → s.opened ≡ true
      → start_power host.tools host.platform s.power s.system ≡ started
      → IsAnswered started.0
          (held s s.store started)
          (reply host (hold_power host >> status host) s)
  unfolding ◌>>=◌ reply hold_power status
  hold_power-IsAnswered s (true, m, y) opened e =
      let same = get_store_opened (held s s.store (true, m, y)) opened in
      rw e (done-IsAnswered _ _ _ (ap (λ (r : Result (Unit {0}) × Service). r.1) same))
  hold_power-IsAnswered s (false, m, y) opened e =
      rw e (fail-IsAnswered _ (held s s.store (false, m, y)))

  unlock_case-steps :
      (encoded : Bytes) (payload : UnlockRequest) (s : Service) (t : Machine)
      → s.opened ≡ true
      → host.unlock_payload encoded ≡ some payload
      → unlock host.env payload.password s.store ≡ (ok tt, t)
      → unlock_case host encoded s ≡ (hold_power host >> status host) (record s { store = t })
  unfolding unlock_case lift in_store
  unlock_case-steps encoded payload s t opened asked unlocks =
      bind_ok (lift (require bad_json (host.unlock_payload encoded))) _ s s payload (rw asked refl)
      ∙ bind_ok (get_store host) _ s s tt (get_store_opened s opened)
      ∙ bind_ok (in_store (unlock host.env payload.password)) _ s (record s { store = t }) tt
          (rw unlocks refl)

  -- With an open store, no response dropped and every answer encoded, an unlock request whose
  -- password Unlock of the store accepts leaves the vault unlocked, whether or not the inhibitor
  -- starts, with the store as Unlock leaves it, and sends one final response, which is a success
  -- exactly where the inhibitor starts.
  pub handle-IsAnswered :
      (request : Request) (payload : UnlockRequest) (s : Service) (t : Machine)
      → s.opened ≡ true
      → operation_of request.operation ≡ some unlock_op
      → host.unlock_payload request.payload ≡ some payload
      → unlock host.env payload.password s.store ≡ (ok tt, t)
      → let started = start_power host.tools host.platform s.power s.system in
        (is_unlocked (handle host request s).store ≡ true)
        × IsAnswered started.0 (held s t started) (handle host request s)
  unfolding handle dispatch serve reply
  handle-IsAnswered request payload s t opened unlocking asked unlocks =
      let answered : IsAnswered (start_power host.tools host.platform s.power s.system).0
          (held s t (start_power host.tools host.platform s.power s.system))
          (handle host request s) =
        rw unlocking (
          rw (unlock_case-steps request.payload payload s t opened asked unlocks)
            (hold_power-IsAnswered (record s { store = t }) _ opened refl)) in
      (
        ap is_unlocked answered.store
            ∙ unlock-is_unlocked host.env payload.password s.store t unlocks,
        answered,
      )
