-- ===== src/Broker/Sound.antt =====
-- Every request keeps the broker's invariant.
use vibe_coding_secret_manag.Prelude.{
  ℕ, Bool, List, [], ◌∷◌, Option, none, some, Bytes, equal, codes, if_both,
}
use vibe_coding_secret_manag.Outcome.{unknown_operation, Result, ok, err}
use vibe_coding_secret_manag.Machine.Triples.{
  Triple-bind, Keeps, Keeps-from, Keeps-after, Keeps-lift, keeping,
}
use vibe_coding_secret_manag.Model.{Action}
use vibe_coding_secret_manag.Api.{Request}
use vibe_coding_secret_manag.Broker.{Stream, Host, Ended, Service}
use vibe_coding_secret_manag.Runner.{Invocation}
use vibe_coding_secret_manag.Broker.Actions.{
  target_of, send_event, send_result, finish_run, run_prepared, run_resolved, run_action,
}
use vibe_coding_secret_manag.Broker.Events.{stream_outputs-keeps}
use vibe_coding_secret_manag.Broker.Handle.{
  Operation, status_op, unlock_op, lock_op, create_op, rotate_op, revoke_op, list_op, configure_op,
  actions_op, run_op, audit_op, operation_of, unlock_case, lock_case, create_case, rotate_case,
  revoke_case, list_case, configure_case, actions_case, audit_case, run_case, failed_run, serve,
  dispatch, handle,
}
use vibe_coding_secret_manag.Broker.Stores.{
  tame_Frame, create_secret-IsStore, rotate_secret-IsStore, revoke_secret-IsStore,
  put_action-IsStore, record_audit-IsStore,
}
use vibe_coding_secret_manag.Broker.Invariant.{
  IsSound, in_store-IsSound, release_power-IsSound, lock-IsSound, get_store-IsSound, status-IsSound,
  new_value-IsSound, send-IsSound, fail-IsSound, reply-IsSound, hold_power-IsSound,
  unlock_store-IsSound,
}
use vibe_coding_secret_manag.Vault.Frames.{
  Frame-list_secrets, Frame-list_actions, Frame-list_audit, Frame-get_action, Frame-resolve_secrets,
  Frame-verify_password,
}

ruleset tame_steps = (
  keeping, in_store-IsSound, get_store-IsSound, status-IsSound, new_value-IsSound, tame_Frame,
  create_secret-IsStore, rotate_secret-IsStore, revoke_secret-IsStore, put_action-IsStore,
  Frame-list_secrets, Frame-list_actions, Frame-list_audit, Frame-get_action, Frame-resolve_secrets,
  Frame-verify_password,
)

-- Requests, one after the other.
abbrev pub handle_all : Host → List Request → Service → Service
handle_all host [] s = s
handle_all host (request ∷ requests) s = handle_all host requests (handle host request s)

module _ {outside : ℕ} (host : Host) where
  unlock_case-IsSound : (encoded : Bytes) → Keeps (IsSound outside) (unlock_case host encoded)
  unfolding unlock_case
  unlock_case-IsSound encoded = Triple-bind (Keeps-lift _) λ payload.
      Triple-bind (get_store-IsSound host) λ a.
        Triple-bind (unlock_store-IsSound host payload.password)
          λ b. Triple-bind (hold_power-IsSound host) λ c. status-IsSound host

  lock_case-IsSound : Keeps (IsSound outside) (lock_case host)
  unfolding lock_case
  lock_case-IsSound =
      Triple-bind (get_store-IsSound host) λ a.
        Triple-bind lock-IsSound λ b. Triple-bind release_power-IsSound λ c. status-IsSound host

  create_case-IsSound : (encoded : Bytes) → Keeps (IsSound outside) (create_case host encoded)
  unfolding create_case
  create_case-IsSound encoded = search tame_steps depth 12

  rotate_case-IsSound : (encoded : Bytes) → Keeps (IsSound outside) (rotate_case host encoded)
  unfolding rotate_case
  rotate_case-IsSound encoded = search tame_steps depth 12

  revoke_case-IsSound : (encoded : Bytes) → Keeps (IsSound outside) (revoke_case host encoded)
  unfolding revoke_case
  revoke_case-IsSound encoded = search tame_steps depth 12

  list_case-IsSound : (encoded : Bytes) → Keeps (IsSound outside) (list_case host encoded)
  unfolding list_case
  list_case-IsSound encoded = search tame_steps depth 12

  configure_case-IsSound : (encoded : Bytes) → Keeps (IsSound outside) (configure_case host encoded)
  unfolding configure_case
  configure_case-IsSound encoded = search tame_steps depth 12

  actions_case-IsSound : (encoded : Bytes) → Keeps (IsSound outside) (actions_case host encoded)
  unfolding actions_case
  actions_case-IsSound encoded = search tame_steps depth 12

  audit_case-IsSound : (encoded : Bytes) → Keeps (IsSound outside) (audit_case host encoded)
  unfolding audit_case
  audit_case-IsSound encoded = search tame_steps depth 12

  target_of-IsSound :
      (policy : Bytes) (stream : Stream) (bytes : Bytes) (s : Service)
      → IsSound outside s
      → IsSound outside (target_of host policy stream bytes s).1
  unfolding target_of send_event
  target_of-IsSound policy stream bytes s p =
      if_both (equal policy (codes "redacted")) (λ (r : Bool × Service). IsSound outside r.1)
        (λ e. send-IsSound host _ s p) (λ e. p)

  finish_run-IsSound :
      (action : Action) (inv : Invocation) (ended : Ended) (r : Bool × Service)
      → IsSound outside r.1
      → IsSound outside (finish_run host action inv ended r).1
  unfolding finish_run send_result
  finish_run-IsSound action inv ended (lost, s) p =
      send-IsSound host _ _
        (Keeps-after (in_store-IsSound (λ needed. record_audit-IsStore host.env _)) s p)

  run_resolved-IsSound :
      (action : Action) (values : List (Bytes × Bytes))
      → Keeps (IsSound outside) (run_resolved host action values)
  unfolding run_resolved run_prepared
  run_resolved-IsSound action values = Keeps-from λ s p. finish_run-IsSound action _ _ _ (
      stream_outputs-keeps host action.output_policy (IsSound outside)
        (λ stream bytes t q. target_of-IsSound action.output_policy stream bytes t q) _ _ _
        (record { store = p.store; power = p.power }))

  run_case-IsSound : (encoded : Bytes) → Keeps (IsSound outside) (run_case host encoded)
  unfolding run_case run_action
  run_case-IsSound encoded = search (tame_steps, run_resolved-IsSound) depth 12

  failed_run-IsSound :
      (r : Result (Unit {0}) × Service) → IsSound outside r.1 → IsSound outside (failed_run host r)
  unfolding failed_run
  failed_run-IsSound (ok a, s) p = p
  failed_run-IsSound (err e, s) p = fail-IsSound host e s p

  dispatch-IsSound :
      (operation : Option Operation) (encoded : Bytes) (s : Service)
      → IsSound outside s
      → IsSound outside (dispatch host operation encoded s)
  unfolding dispatch serve
  dispatch-IsSound none encoded s p = fail-IsSound host unknown_operation s p
  dispatch-IsSound (some status_op) encoded s p = reply-IsSound host _ s (status-IsSound host) p
  dispatch-IsSound (some unlock_op) encoded s p =
      reply-IsSound host _ s (unlock_case-IsSound encoded) p
  dispatch-IsSound (some lock_op) encoded s p = reply-IsSound host _ s lock_case-IsSound p
  dispatch-IsSound (some create_op) encoded s p =
      reply-IsSound host _ s (create_case-IsSound encoded) p
  dispatch-IsSound (some rotate_op) encoded s p =
      reply-IsSound host _ s (rotate_case-IsSound encoded) p
  dispatch-IsSound (some revoke_op) encoded s p =
      reply-IsSound host _ s (revoke_case-IsSound encoded) p
  dispatch-IsSound (some list_op) encoded s p = reply-IsSound host _ s (list_case-IsSound encoded) p
  dispatch-IsSound (some configure_op) encoded s p =
      reply-IsSound host _ s (configure_case-IsSound encoded) p
  dispatch-IsSound (some actions_op) encoded s p =
      reply-IsSound host _ s (actions_case-IsSound encoded) p
  dispatch-IsSound (some run_op) encoded s p =
      failed_run-IsSound _ (Keeps-after (run_case-IsSound encoded) s p)
  dispatch-IsSound (some audit_op) encoded s p =
      reply-IsSound host _ s (audit_case-IsSound encoded) p

  -- Requests that are handled one after the other, none beginning before the one before it has
  -- ended, and each of which may succeed or fail, keep the broker's invariant: the tables are
  -- well-formed, one inhibitor more than the system has otherwise runs exactly while the power
  -- manager is active, and the manager is active only while the vault is unlocked.
  pub handle_all-IsSound :
      (requests : List Request) (s : Service)
      → IsSound outside s
      → IsSound outside (handle_all host requests s)
  unfolding handle
  handle_all-IsSound [] s p = p
  handle_all-IsSound (request ∷ requests) s p =
      handle_all-IsSound requests _
        (dispatch-IsSound (operation_of request.operation) request.payload s p)
