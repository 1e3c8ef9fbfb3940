-- ===== src/Broker/Threads/Requests.antt =====
-- The thread of every request keeps the broker steady, step by step.
use vibe_coding_secret_manag.Prelude.{ℕ, List, [], ◌∷◌, Option, none, some, Bytes}
use vibe_coding_secret_manag.Outcome.{unknown_operation}
use vibe_coding_secret_manag.Model.{Scope, Action, AuditEvent}
use vibe_coding_secret_manag.Machine.Exec.{KeySet, transaction}
use vibe_coding_secret_manag.Vault.Audit.{append_audit}
use vibe_coding_secret_manag.Machine.Triples.{Keeps-after}
use vibe_coding_secret_manag.Api.{Request}
use vibe_coding_secret_manag.Broker.{Host, in_store}
use vibe_coding_secret_manag.Broker.Handle.{
  Operation, status_op, unlock_op, lock_op, create_op, rotate_op, revoke_op, list_op, configure_op,
  actions_op, run_op, audit_op, operation_of,
}
use vibe_coding_secret_manag.Broker.Threads.{Thread, goes, audit_thread, resolved_thread}
use vibe_coding_secret_manag.Broker.Threads.Cases.{
  unlock_thread, lock_thread, create_thread, rotate_thread, revoke_thread, list_thread, put_thread,
  configure_thread, actions_thread, events_thread, resolve_thread, run_thread, operation_thread,
  dispatch_thread, request_thread,
}
use vibe_coding_secret_manag.Broker.Threads.Commits.{append_audit-commits}
use vibe_coding_secret_manag.Broker.Threads.Steady.{
  in_store-IsSteady, send_result-IsSteady, run_process-IsSteady,
}
use vibe_coding_secret_manag.Broker.Threads.Safe.{
  Safe, safe_ended, safe_goes, failing, Safe-act, Safe-status, safe_steps,
}

module _ {outside : ℕ} (host : Host) where
  Safe-put : (keys : KeySet) (given : Action) → Safe outside (put_thread host keys given)
  unfolding put_thread
  Safe-put keys given = search safe_steps depth 24

  Safe-audit :
      (event : AuditEvent) (rest : Thread)
      → Safe outside rest
      → Safe outside (audit_thread host event rest)
  unfolding audit_thread
  Safe-audit event rest p = safe_goes (λ s q. q) λ s. go s.store.keys
    where
      go :
          (keys : Option KeySet)
          → Safe outside (elim keys [
            | none ↦ rest
            | some keys ↦
                goes
                  (λ t.
                    (in_store (transaction host.env (append_audit host.env keys.audit event)) t).1)
                  λ t. rest
          ])
      go none = p
      go (some keys) =
          safe_goes (Keeps-after (in_store-IsSteady (append_audit-commits host.env keys event)))
            (λ s. p)

  Safe-resolved :
      (action : Action) (values : List (Bytes × Bytes))
      → Safe outside (resolved_thread host action values)
  unfolding resolved_thread
  Safe-resolved action values =
      Safe-act host _ _ (run_process-IsSteady host action values) λ result.
        Safe-audit _ _
          (Safe-act host _ _ (send_result-IsSteady host action.name result) λ a. safe_ended)

  Safe-resolve :
      (keys : KeySet) (scope : Scope) (mappings : List (Bytes × Bytes))
      (rest : List (Bytes × Bytes) → Thread)
      → ((values : List (Bytes × Bytes)) → Safe outside (rest values))
      → Safe outside (resolve_thread host keys scope mappings rest)
  unfolding resolve_thread
  Safe-resolve keys scope [] rest p = p []
  Safe-resolve keys scope ((env_name, name) ∷ mappings) rest p =
      let later = λ (value : Bytes).
        Safe-resolve keys scope mappings _ (λ values. p ((env_name, value) ∷ values)) in
      search (safe_steps, later) depth 12

  operation-Safe :
      (operation : Operation) (encoded : Bytes)
      → Safe outside (operation_thread host operation encoded)
  unfolding operation_thread unlock_thread lock_thread create_thread rotate_thread revoke_thread
      list_thread configure_thread actions_thread events_thread run_thread
  operation-Safe status_op encoded = Safe-status host
  operation-Safe unlock_op encoded = search safe_steps depth 20
  operation-Safe lock_op encoded = search safe_steps depth 20
  operation-Safe create_op encoded = search safe_steps depth 20
  operation-Safe rotate_op encoded = search safe_steps depth 20
  operation-Safe revoke_op encoded = search safe_steps depth 20
  operation-Safe list_op encoded = search safe_steps depth 20
  operation-Safe configure_op encoded = search (safe_steps, Safe-put) depth 20
  operation-Safe actions_op encoded = search safe_steps depth 20
  operation-Safe run_op encoded = search (safe_steps, Safe-resolve, Safe-resolved) depth 20
  operation-Safe audit_op encoded = search safe_steps depth 20

  pub request-Safe : (request : Request) → Safe outside (request_thread host request)
  unfolding request_thread dispatch_thread
  request-Safe request = go (operation_of request.operation)
    where
      go :
          (operation : Option Operation)
          → Safe outside (dispatch_thread host operation request.payload)
      go none = failing host unknown_operation
      go (some operation) = operation-Safe operation request.payload
