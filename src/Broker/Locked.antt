-- ===== src/Broker/Locked.antt =====
-- Requests while the vault is locked.
use vibe_coding_secret_manag.Prelude.{
  ℕ, ◌≡◌, refl, ap, true, false, [], ◌∷◌, ◌++◌, Option, none, some, Bytes,
}
use vibe_coding_secret_manag.Outcome.{Error, unknown_operation, Result, ok, err}
use vibe_coding_secret_manag.Machine.Triples.{Ends}
use vibe_coding_secret_manag.Api.{Answer, Request, Response}
use vibe_coding_secret_manag.Broker.{Host, Service, Serve, send, fail, reply}
use vibe_coding_secret_manag.Broker.Handle.{
  Operation, status_op, unlock_op, lock_op, create_op, rotate_op, revoke_op, list_op, configure_op,
  actions_op, run_op, audit_op, operation_of, failed_run, serve, dispatch, handle,
}
use vibe_coding_secret_manag.Broker.Refusals.{
  is_allowed_locked, IsShut, IsRefusal, create_case-IsRefusal, rotate_case-IsRefusal,
  revoke_case-IsRefusal, list_case-IsRefusal, actions_case-IsRefusal, audit_case-IsRefusal,
  run_case-IsRefusal, configure_case-IsRefusal,
}

-- One response has been sent, which is the failure `e`.
abbrev pub failure : Error → Response
failure e = record {
  id = [];
  is_ok = false;
  event = [];
  answer = none;
  error = some e;
  is_final = true;
}

pub record IsRefusedBy (before after : Service) : Type 0 where
  pub tables : after.store.db ≡ before.store.db
  pub locked : after.store.keys ≡ none
  pub error : Error
  pub answered : after.sent ≡ before.sent ++ failure error ∷ []

module _ (host : Host) (up : (n : ℕ) → host.drops n ≡ false) where
  fail-IsRefusedBy :
      (e : Error) (s t : Service) → IsShut s.store.db s.sent t → IsRefusedBy s (fail host e t)
  unfolding fail send
  fail-IsRefusedBy e s t p = record {
    tables = rw (up t.sends, fail) p.0.1;
    locked = rw (up t.sends, fail) p.0.0;
    error = e;
    answered = rw (up t.sends, fail) (ap (λ m. m ++ failure e ∷ []) p.1);
  }

  reply-IsRefusedBy :
      (m : Serve Answer) (s : Service)
      → s.store.keys ≡ none
      → IsRefusal s.store.db s.sent m
      → IsRefusedBy s (reply host m s)
  unfolding reply
  reply-IsRefusedBy m s locked k = go (m s) (k.at s ((locked, refl), refl))
    where
      go :
          (r : Result Answer × Service)
          → Ends (λ a s. ⊥) (IsShut s.store.db s.sent) r
          → IsRefusedBy s (reply host (λ t. r) s)
      go (ok answer, t) p = absurd p
      go (err e, t) p = fail-IsRefusedBy e s t p

  failed_run-IsRefusedBy :
      (m : Serve (Unit {0})) (s : Service)
      → s.store.keys ≡ none
      → IsRefusal s.store.db s.sent m
      → IsRefusedBy s (failed_run host (m s))
  unfolding failed_run
  failed_run-IsRefusedBy m s locked k = go (m s) (k.at s ((locked, refl), refl))
    where
      go :
          (r : Result (Unit {0}) × Service)
          → Ends (λ a s. ⊥) (IsShut s.store.db s.sent) r
          → IsRefusedBy s (failed_run host r)
      go (ok a, t) p = absurd p
      go (err e, t) p = fail-IsRefusedBy e s t p

  dispatch-IsRefusedBy :
      (operation : Option Operation) (encoded : Bytes) (s : Service)
      → s.store.keys ≡ none
      → is_allowed_locked operation ≡ false
      → IsRefusedBy s (dispatch host operation encoded s)
  unfolding dispatch serve
  dispatch-IsRefusedBy none encoded s locked other =
      fail-IsRefusedBy unknown_operation s s ((locked, refl), refl)
  dispatch-IsRefusedBy (some status_op) encoded s locked other = absurd (cc)
  dispatch-IsRefusedBy (some unlock_op) encoded s locked other = absurd (cc)
  dispatch-IsRefusedBy (some lock_op) encoded s locked other = absurd (cc)
  dispatch-IsRefusedBy (some create_op) encoded s locked other =
      reply-IsRefusedBy _ s locked (create_case-IsRefusal host encoded)
  dispatch-IsRefusedBy (some rotate_op) encoded s locked other =
      reply-IsRefusedBy _ s locked (rotate_case-IsRefusal host encoded)
  dispatch-IsRefusedBy (some revoke_op) encoded s locked other =
      reply-IsRefusedBy _ s locked (revoke_case-IsRefusal host encoded)
  dispatch-IsRefusedBy (some list_op) encoded s locked other =
      reply-IsRefusedBy _ s locked (list_case-IsRefusal host encoded)
  dispatch-IsRefusedBy (some configure_op) encoded s locked other =
      reply-IsRefusedBy _ s locked (configure_case-IsRefusal host encoded)
  dispatch-IsRefusedBy (some actions_op) encoded s locked other =
      reply-IsRefusedBy _ s locked (actions_case-IsRefusal host encoded)
  dispatch-IsRefusedBy (some run_op) encoded s locked other =
      failed_run-IsRefusedBy _ s locked (run_case-IsRefusal host encoded)
  dispatch-IsRefusedBy (some audit_op) encoded s locked other =
      reply-IsRefusedBy _ s locked (audit_case-IsRefusal host encoded)

  -- While the vault is locked and no response is dropped, every operation but status, unlock and
  -- lock leaves the tables as they were and the vault locked, and sends one response, which is a
  -- failure.
  pub handle-IsRefusedBy :
      (request : Request) (s : Service)
      → s.store.keys ≡ none
      → is_allowed_locked (operation_of request.operation) ≡ false
      → IsRefusedBy s (handle host request s)
  unfolding handle
  handle-IsRefusedBy request s locked other =
      dispatch-IsRefusedBy (operation_of request.operation) request.payload s locked other
