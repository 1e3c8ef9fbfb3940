-- ===== src/Broker/Approval.antt =====
-- An action is configured only with the master password.
use vibe_coding_secret_manag.Prelude.{
  ℕ, ◌≡◌, refl, sym, ap, subst, true, false, [], ◌∷◌, ◌++◌, some, Bytes,
}
use vibe_coding_secret_manag.Outcome.{Error, Result, ok, err, require, bad_json}
use vibe_coding_secret_manag.Machine.Exec.{Machine, Exec, lift, pure, ◌>>=◌, ◌>>◌}
use vibe_coding_secret_manag.Machine.Rules.{Frame, Alike}
use vibe_coding_secret_manag.Machine.Triples.{Triple, Ends, Triple-bind}
use vibe_coding_secret_manag.Api.{action_is, Answer, ConfigureActionRequest, Request}
use vibe_coding_secret_manag.Broker.{Host, Service, Serve, in_store, get_store, send, fail, reply}
use vibe_coding_secret_manag.Broker.Names.{validate_action}
use vibe_coding_secret_manag.Broker.Locked.{failure}
use vibe_coding_secret_manag.Broker.Handle.{
  configure_op, operation_of, with_policy, configure_case, serve, dispatch, handle,
}
use vibe_coding_secret_manag.Vault.Session.{verify_password}
use vibe_coding_secret_manag.Vault.Actions.{put_action}
use vibe_coding_secret_manag.Vault.Frames.{Frame-verify_password}

-- The vault and the client's responses, but for one failure.
pub record IsDenied (before after : Service) : Type 0 where
  pub tables : after.store.db ≡ before.store.db
  pub keys : after.store.keys ≡ before.store.keys
  pub error : Error
  pub answered : after.sent ≡ before.sent ++ failure error ∷ []

-- Where the case fails, before any response.
record IsKept (before after : Service) : Type 0 where
  pub store : Alike before.store after.store
  pub sent : after.sent ≡ before.sent

module _ (host : Host) (s : Service) where
  IsKept-same : (t : Service) → t ≡ s → IsKept s t
  IsKept-same t e = record {
    store = record {
      db = ap (λ (t : Service). t.store.db) e;
      keys = ap (λ (t : Service). t.store.keys) e;
    };
    sent = ap (λ (t : Service). t.sent) e;
  }

  lift-Keeps : {A : Type 0} (r : Result A) → Triple (λ t. t ≡ s) (lift r) (λ a t. t ≡ s) (IsKept s)
  unfolding lift
  lift-Keeps (ok a) = record { at = λ t p. p }
  lift-Keeps (err e) = record { at = λ t p. IsKept-same t p }

  get_store-Keeps : s.opened ≡ true → Triple (λ t. t ≡ s) (get_store host) (λ a t. t ≡ s) (IsKept s)
  unfolding get_store
  get_store-Keeps opened = record {
    at = λ t p.
        subst (λ (t : Service). Ends {A = Unit {0}} (λ a t. t ≡ s) (IsKept s) (get_store host t))
          (sym p) (rw opened refl);
  }

  in_store-fails :
      {A : Type 0} (m : Exec A) (e : Error)
      → Frame m
      → (m s.store).0 ≡ err e
      → Triple (λ t. t ≡ s) (in_store m) (λ a t. ⊥) (IsKept s)
  unfolding in_store
  in_store-fails {A = A} m e f fails = record {
    at = λ t p.
        subst (λ (t : Service). Ends (λ a t. ⊥) (IsKept s) (in_store m t)) (sym p)
          (go (m s.store) fails (f.at s.store));
  }
    where
      go :
          (r : Result A × Machine)
          → r.0 ≡ err e
          → Alike s.store r.1
          → Ends (λ a t. ⊥) (IsKept s) (in_store (λ t. r) s)
      go (ok a, t) h k = absurd (cc)
      go (err x, t) h k = record { store = k; sent = refl }

  known :
      {A B : Type 0} (a : A) (f : A → Serve B)
      → Triple (λ t. t ≡ s) (f a) (λ b t. ⊥) (IsKept s)
      → Triple (λ t. t ≡ s) (lift (ok a) >>= f) (λ b t. ⊥) (IsKept s)
  unfolding ◌>>=◌ lift
  known a f k = record { at = λ t p. k.at t p }

  configure_case-fails :
      (encoded : Bytes) (payload : ConfigureActionRequest) (e : Error)
      → s.opened ≡ true
      → host.configure_payload encoded ≡ some payload
      → (verify_password host.env payload.master_password s.store).0 ≡ err e
      → Triple (λ t. t ≡ s) (configure_case host encoded) (λ a t. ⊥) (IsKept s)
  unfolding configure_case
  configure_case-fails encoded payload e opened asked wrong =
      subst
        (λ o.
          Triple (λ t. t ≡ s) (lift (require bad_json o) >>= after_payload) (λ a t. ⊥) (IsKept s))
        (sym asked)
        (known payload after_payload (
          Triple-bind (lift-Keeps _) λ checked. Triple-bind (get_store-Keeps opened) λ a.
            Triple-bind
              (in_store-fails _ e (Frame-verify_password host.env payload.master_password) wrong)
              λ b. record { at = λ t h. absurd h }))
    where
      after_payload : ConfigureActionRequest → Serve Answer
      after_payload payload = do
        lift (validate_action (with_policy payload.action))
        get_store host
        in_store (verify_password host.env payload.master_password)
        stored ← in_store (put_action host.env (with_policy payload.action))
        pure (action_is stored)

module _ (host : Host) (up : (n : ℕ) → host.drops n ≡ false) where
  reply-IsDenied :
      (m : Serve Answer) (s : Service)
      → Triple (λ t. t ≡ s) m (λ a t. ⊥) (IsKept s)
      → IsDenied s (reply host m s)
  unfolding reply fail send
  reply-IsDenied m s k = go (m s) (k.at s refl)
    where
      go :
          (r : Result Answer × Service)
          → Ends (λ a t. ⊥) (IsKept s) r
          → IsDenied s (reply host (λ t. r) s)
      go (ok answer, t) p = absurd p
      go (err e, t) p = record {
        tables = rw (up t.sends, fail) p.store.db;
        keys = rw (up t.sends, fail) p.store.keys;
        error = e;
        answered = rw (up t.sends, fail) (ap (λ l. l ++ failure e ∷ []) p.sent);
      }

  -- With an open store whose VerifyPassword fails on the password of a request, and no response
  -- dropped, `action.configure` leaves the tables and the keys as they were, and sends one
  -- response, which is a failure.
  pub handle-IsDenied :
      (request : Request) (payload : ConfigureActionRequest) (e : Error) (s : Service)
      → s.opened ≡ true
      → operation_of request.operation ≡ some configure_op
      → host.configure_payload request.payload ≡ some payload
      → (verify_password host.env payload.master_password s.store).0 ≡ err e
      → IsDenied s (handle host request s)
  unfolding handle dispatch serve
  handle-IsDenied request payload e s opened asked read wrong =
      rw asked (
        reply-IsDenied _ s
          (configure_case-fails host s request.payload payload e opened read wrong))
