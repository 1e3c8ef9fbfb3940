-- ===== src/Broker/Threads/Whole.antt =====
-- The thread of a request without any other against Handle.
use vibe_coding_secret_manag.Prelude.{
  Bool, ℤ, ◌≡◌, refl, sym, ◌∙◌, ap, List, [], ◌∷◌, Option, none, some, Bytes,
}
use vibe_coding_secret_manag.Outcome.{Result, ok, err}
use vibe_coding_secret_manag.Model.{Scope, Action, AuditEvent}
use vibe_coding_secret_manag.Machine.Exec.{KeySet, copy_keys, ◌>>=◌}
use vibe_coding_secret_manag.Api.{Answer, Request}
use vibe_coding_secret_manag.Broker.{Host, Service, Serve, in_store, done, reply}
use vibe_coding_secret_manag.Broker.Actions.{
  run_resolved, run_prepared, finish_run, run_action, run_event, send_result,
}
use vibe_coding_secret_manag.Broker.Handle.{
  Operation, status_op, unlock_op, lock_op, create_op, rotate_op, revoke_op, list_op, configure_op,
  actions_op, run_op, audit_op, operation_of, unlock_case, lock_case, create_case, rotate_case,
  revoke_case, list_case, configure_case, actions_case, audit_case, run_case, failed_run, serve,
  dispatch, handle,
}
use vibe_coding_secret_manag.Vault.Secrets.{
  create_secret, rotate_secret, revoke_secret, list_secrets, resolve_secrets, resolve_each,
  resolve_one,
}
use vibe_coding_secret_manag.Vault.Actions.{put_action, prepare_action, get_action, list_actions}
use vibe_coding_secret_manag.Vault.Audit.{list_audit, record_audit}
use vibe_coding_secret_manag.Broker.Threads.{
  Thread, ended, run_alone, go_on, act, audit_thread, run_process, resolved_thread,
}
use vibe_coding_secret_manag.Broker.Threads.Cases.{
  unlock_thread, lock_thread, create_thread, rotate_thread, revoke_thread, list_thread, put_thread,
  configure_thread, actions_thread, events_thread, resolve_thread, run_thread, operation_thread,
  dispatch_thread, request_thread,
}
use vibe_coding_secret_manag.Broker.Threads.Alone.{
  Alone, finish, Alone-act, Alone-split, Alone-pure, Alone-status, alone_rules,
}

module _ (host : Host) (encoded : Bytes) where
  unlock-Alone : Alone host (done host) (unlock_case host encoded) (unlock_thread host encoded)
  unfolding unlock_case unlock_thread
  unlock-Alone = search alone_rules depth 12

  create-Alone : Alone host (done host) (create_case host encoded) (create_thread host encoded)
  unfolding create_case create_thread create_secret
  create-Alone = search alone_rules depth 16

  rotate-Alone : Alone host (done host) (rotate_case host encoded) (rotate_thread host encoded)
  unfolding rotate_case rotate_thread rotate_secret
  rotate-Alone = search alone_rules depth 18

  revoke-Alone : Alone host (done host) (revoke_case host encoded) (revoke_thread host encoded)
  unfolding revoke_case revoke_thread revoke_secret
  revoke-Alone = search alone_rules depth 16

  list-Alone : Alone host (done host) (list_case host encoded) (list_thread host encoded)
  unfolding list_case list_thread list_secrets
  list-Alone = search alone_rules depth 14

  configure-Alone :
      Alone host (done host) (configure_case host encoded) (configure_thread host encoded)
  unfolding configure_case configure_thread put_action prepare_action put_thread
  configure-Alone = search alone_rules depth 24

  actions-Alone : Alone host (done host) (actions_case host encoded) (actions_thread host encoded)
  unfolding actions_case actions_thread list_actions
  actions-Alone = search alone_rules depth 14

  audit-Alone : Alone host (done host) (audit_case host encoded) (events_thread host encoded)
  unfolding audit_case events_thread list_audit
  audit-Alone = search alone_rules depth 14

module _ (host : Host) where
  lock-Alone : Alone host (done host) (lock_case host) (lock_thread host)
  unfolding lock_case lock_thread
  lock-Alone = search alone_rules depth 12

  Alone-resolve :
      {B : Type 0} {after : B → Service → Service} (keys : KeySet) (scope : Scope)
      (mappings : List (Bytes × Bytes)) (g : List (Bytes × Bytes) → Serve B)
      (rest : List (Bytes × Bytes) → Thread)
      → ((values : List (Bytes × Bytes)) → Alone host after (g values) (rest values))
      → Alone host after
          (in_store (resolve_each host.env keys scope mappings) >>= g)
          (resolve_thread host keys scope mappings rest)
  unfolding resolve_each resolve_thread resolve_one
  Alone-resolve keys scope [] g rest p = Alone-pure host [] g _ (p [])
  Alone-resolve keys scope ((env_name, name) ∷ mappings) g rest p = Alone-split host _ _ _ _ (
      Alone-split host _ _ _ _ (
        Alone-act host _ _ _ λ object. Alone-split host _ _ _ _ (
          Alone-act host _ _ _ λ version. Alone-act host _ _ _ λ value. Alone-split host _ _ _ _ (
            Alone-resolve keys scope mappings _ _
              λ values. Alone-pure host _ g _ (p ((env_name, value) ∷ values))))))

  -- RecordAudit, and what comes behind it
  audit_thread-alone :
      (event : AuditEvent) (rest : Thread) (s : Service)
      → run_alone (audit_thread host event rest) s
        ≡ run_alone rest (in_store (record_audit host.env event) s).1
  unfolding audit_thread run_alone in_store record_audit copy_keys ◌>>=◌
  audit_thread-alone event rest s = go s.store.keys refl
    where
      go :
          (keys : Option KeySet)
          → s.store.keys ≡ keys
          → run_alone (audit_thread host event rest) s
            ≡ run_alone rest (in_store (record_audit host.env event) s).1
      go none e = rw e refl
      go (some keys) e = rw e refl

  after_run : Unit {0} → Service → Service
  after_run a s = s

  last_step :
      (m : Serve (Unit {0})) (s : Service)
      → run_alone (act host m (λ a. ended)) s ≡ finish host after_run (m s)
  unfolding act run_alone go_on finish after_run
  last_step m s = go (m s)
    where
      go :
          (r : Result (Unit {0}) × Service)
          → run_alone (go_on host (λ a. ended) r.0) r.1 ≡ finish host after_run r
      go (ok a, t) = refl
      go (err e, t) = refl

  -- runAction from the end of the process on
  logged : Action → ℤ × Bool → Serve (Unit {0})
  logged action result s =
      send_result host action.name result
        (in_store (record_audit host.env (run_event host action result)) s).1

  run_resolved-logged :
      (action : Action) (values : List (Bytes × Bytes)) (s : Service)
      → run_resolved host action values s ≡ (run_process host action values >>= logged action) s
  unfolding run_process run_resolved run_prepared finish_run logged ◌>>=◌
  run_resolved-logged action values s = refl

  logged-Alone :
      (action : Action) (result : ℤ × Bool)
      → Alone host after_run (logged action result) (
          audit_thread host
            (run_event host action result)
            (act host (send_result host action.name result) (λ a. ended)))
  unfolding logged
  logged-Alone action result = record {
    at = λ s.
        audit_thread-alone (run_event host action result) _ s
        ∙ last_step (send_result host action.name result) _;
  }

  resolved_thread-Alone :
      (action : Action) (values : List (Bytes × Bytes))
      → Alone host after_run (run_resolved host action values) (resolved_thread host action values)
  unfolding resolved_thread
  resolved_thread-Alone action values = record {
    at = λ s.
        (Alone-act host (run_process host action values) (logged action) _ (logged-Alone action)).at
          s
        ∙ ap (finish host after_run) (sym (run_resolved-logged action values s));
  }

  run-Alone :
      (encoded : Bytes) → Alone host after_run (run_case host encoded) (run_thread host encoded)
  unfolding run_case run_thread run_action get_action resolve_secrets
  run-Alone encoded = search (alone_rules, Alone-resolve, resolved_thread-Alone) depth 16

  answered_as : (m : Serve Answer) (s : Service) → reply host m s ≡ finish host (done host) (m s)
  unfolding reply finish
  answered_as m s = go (m s)
    where
      go : (r : Result Answer × Service) → reply host (λ t. r) s ≡ finish host (done host) r
      go (ok a, t) = refl
      go (err e, t) = refl

  failed_as : (r : Result (Unit {0}) × Service) → failed_run host r ≡ finish host after_run r
  unfolding failed_run finish after_run
  failed_as (ok a, t) = refl
  failed_as (err e, t) = refl

  replied :
      {m : Serve Answer} {thread : Thread} (s : Service)
      → Alone host (done host) m thread
      → run_alone thread s ≡ reply host m s
  replied {m} s p = p.at s ∙ sym (answered_as m s)

  dispatch_thread-dispatch :
      (operation : Option Operation) (encoded : Bytes) (s : Service)
      → run_alone (dispatch_thread host operation encoded) s ≡ dispatch host operation encoded s
  unfolding dispatch_thread operation_thread dispatch serve run_alone
  dispatch_thread-dispatch none encoded s = refl
  dispatch_thread-dispatch (some status_op) encoded s = replied s (Alone-status host)
  dispatch_thread-dispatch (some unlock_op) encoded s = replied s (unlock-Alone host encoded)
  dispatch_thread-dispatch (some lock_op) encoded s = replied s lock-Alone
  dispatch_thread-dispatch (some create_op) encoded s = replied s (create-Alone host encoded)
  dispatch_thread-dispatch (some rotate_op) encoded s = replied s (rotate-Alone host encoded)
  dispatch_thread-dispatch (some revoke_op) encoded s = replied s (revoke-Alone host encoded)
  dispatch_thread-dispatch (some list_op) encoded s = replied s (list-Alone host encoded)
  dispatch_thread-dispatch (some configure_op) encoded s = replied s (configure-Alone host encoded)
  dispatch_thread-dispatch (some actions_op) encoded s = replied s (actions-Alone host encoded)
  dispatch_thread-dispatch (some run_op) encoded s =
      (run-Alone encoded).at s ∙ sym (failed_as (run_case host encoded s))
  dispatch_thread-dispatch (some audit_op) encoded s = replied s (audit-Alone host encoded)

  -- The atomic steps of a request, with no other request between them, do to the broker what
  -- Handle does, for every request and every state.
  pub request_thread-handle :
      (request : Request) (s : Service)
      → run_alone (request_thread host request) s ≡ handle host request s
  unfolding request_thread handle
  request_thread-handle request s =
      dispatch_thread-dispatch (operation_of request.operation) request.payload s
