-- ===== src/Broker/Replies.antt =====
-- Every request has one final response.
use vibe_coding_secret_manag.Prelude.{
  ℤ, ℕ, ◌+◌, ◌≡◌, refl, ap, ◌∙◌, Bool, true, false, List, [], ◌∷◌, ◌++◌, append_assoc, all, not,
  Option, none, some, Bytes, Bool-cases, inl, inr,
}
use vibe_coding_secret_manag.Outcome.{unknown_operation, Error, Result, ok, err}
use vibe_coding_secret_manag.Machine.Triples.{Triple, Ends, Triple-bind, Keeps, Keeps-lift}
use vibe_coding_secret_manag.Api.{Answer, Request, Response}
use vibe_coding_secret_manag.Broker.{Ended, Host, Service, Serve, in_store, send, fail, done, reply}
use vibe_coding_secret_manag.Broker.Actions.{
  send_result, finish_run, run_prepared, run_resolved, run_action,
}
use vibe_coding_secret_manag.Broker.Silent.{
  Sent, in_store-Keeps, get_store-Keeps, unlock_case-Keeps, lock_case-Keeps, create_case-Keeps,
  rotate_case-Keeps, revoke_case-Keeps, list_case-Keeps, configure_case-Keeps, actions_case-Keeps,
  audit_case-Keeps, status-Keeps,
}
use vibe_coding_secret_manag.Broker.Events.{Streams, Streams-refl, stream_outputs-Streams}
use vibe_coding_secret_manag.Runner.{Invocation}
use vibe_coding_secret_manag.Model.{Action}
use vibe_coding_secret_manag.Broker.Handle.{
  dispatch, run_case, failed_run, status_op, unlock_op, lock_op, create_op, rotate_op, revoke_op,
  list_op, configure_op, actions_op, run_op, audit_op, Operation, operation_of, serve, handle,
}

-- Some events, and then one response that is final.
pub record OneFinal (before : List Response) (after : Service) : Type 0 where
  pub events : List Response
  pub last : Response
  pub grown : after.sent ≡ before ++ (events ++ last ∷ [])
  pub open_ended : all (λ r. not r.is_final) events ≡ true
  pub ends : last.is_final ≡ true

module _ (host : Host) (up : (n : ℕ) → host.drops n ≡ false) where
  send-sent :
      (r : Response) (s : Service)
      → ((send host r s).0 ≡ true) × ((send host r s).1.sent ≡ s.sent ++ r ∷ [])
  unfolding send
  send-sent r s = (rw (up s.sends), rw (up s.sends))

  last_response :
      {l : List Response} {s t : Service} (r : Response)
      → Sent l s
      → Streams s t
      → r.is_final ≡ true
      → OneFinal l (send host r t).1
  last_response {l} {s} {t} r p events final = record {
    events = events.events;
    last = r;
    grown =
        (send-sent r t).1
        ∙ ap (λ m. m ++ r ∷ []) (events.grown ∙ ap (λ m. m ++ events.events) p)
        ∙ append_assoc l events.events (r ∷ []);
    open_ended = events.open_ended;
    ends = final;
  }

  fail-OneFinal :
      (e : Error) {l : List Response} (s : Service) → Sent l s → OneFinal l (fail host e s)
  unfolding fail
  fail-OneFinal e s p = last_response _ p (Streams-refl s) refl

  done-OneFinal :
      (answer : Answer) {l : List Response} (s : Service)
      → Sent l s
      → OneFinal l (done host answer s)
  unfolding done
  done-OneFinal answer s p = elim (Bool-cases (host.encodes answer)) [
    | inr e ↦ rw e (fail-OneFinal _ s p)
    | inl e ↦ rw e (last_response _ p (Streams-refl s) refl)
  ]

  reply-OneFinal :
      (m : Serve Answer) (s : Service) → Keeps (Sent s.sent) m → OneFinal s.sent (reply host m s)
  unfolding reply
  reply-OneFinal m s k = go (m s) (k.at s refl)
    where
      go :
          (r : Result Answer × Service)
          → Ends (λ a. Sent s.sent) (Sent s.sent) r
          → OneFinal s.sent (reply host (λ t. r) s)
      go (ok answer, t) p = done-OneFinal answer t p
      go (err e, t) p = fail-OneFinal e t p

  send_result-OneFinal :
      (name : Bytes) (result : ℤ × Bool) {l : List Response} {s : Service} (t : Service)
      → Sent l s
      → Streams s t
      → Ends (λ a. OneFinal l) (Sent l) (send_result host name result t)
  unfolding send_result
  send_result-OneFinal name (code, failed) {l} t p events =
      rw ((send-sent _ t).0) (last_response _ p events refl)

  run_prepared-OneFinal :
      (action : Action) (values : List Bytes) (inv : Invocation) (ended : Ended) (s : Service)
      {l : List Response}
      → Sent l s
      → Ends (λ a. OneFinal l) (Sent l) (run_prepared host action values inv ended s)
  unfolding run_prepared finish_run in_store
  run_prepared-OneFinal action values inv ended s p =
      let events = stream_outputs-Streams host action.output_policy values ended.outputs s in
      send_result-OneFinal action.name _ {s = s} _ p
        (record { events = events.events; grown = events.grown; open_ended = events.open_ended })

  run_resolved-OneFinal :
      (action : Action) (values : List (Bytes × Bytes)) (l : List Response)
      → Triple (Sent l) (run_resolved host action values) (λ a. OneFinal l) (Sent l)
  unfolding run_resolved
  run_resolved-OneFinal action values l = record {
    at = λ s p. run_prepared-OneFinal action _ _ _ (record s { runs = s.runs + 1 }) p;
  }

  run_case-OneFinal :
      (encoded : Bytes) (l : List Response)
      → Triple (Sent l) (run_case host encoded) (λ a. OneFinal l) (Sent l)
  unfolding run_case run_action
  run_case-OneFinal encoded l = Triple-bind (Keeps-lift _) λ payload.
      Triple-bind (get_store-Keeps host) λ opened.
        Triple-bind (in_store-Keeps _)
          λ action. Triple-bind (in_store-Keeps _) λ values. run_resolved-OneFinal action values l

  failed_run-OneFinal :
      (m : Serve (Unit {0})) (s : Service)
      → Triple (Sent s.sent) m (λ a. OneFinal s.sent) (Sent s.sent)
      → OneFinal s.sent (failed_run host (m s))
  unfolding failed_run
  failed_run-OneFinal m s k = go (m s) (k.at s refl)
    where
      go :
          (r : Result (Unit {0}) × Service)
          → Ends (λ a. OneFinal s.sent) (Sent s.sent) r
          → OneFinal s.sent (failed_run host r)
      go (ok a, t) p = p
      go (err e, t) p = fail-OneFinal e t p

  serve-OneFinal :
      (operation : Operation) (encoded : Bytes) (s : Service)
      → OneFinal s.sent (serve host operation encoded s)
  unfolding serve
  serve-OneFinal status_op encoded s = reply-OneFinal _ s (status-Keeps host)
  serve-OneFinal unlock_op encoded s = reply-OneFinal _ s (unlock_case-Keeps host encoded)
  serve-OneFinal lock_op encoded s = reply-OneFinal _ s (lock_case-Keeps host)
  serve-OneFinal create_op encoded s = reply-OneFinal _ s (create_case-Keeps host encoded)
  serve-OneFinal rotate_op encoded s = reply-OneFinal _ s (rotate_case-Keeps host encoded)
  serve-OneFinal revoke_op encoded s = reply-OneFinal _ s (revoke_case-Keeps host encoded)
  serve-OneFinal list_op encoded s = reply-OneFinal _ s (list_case-Keeps host encoded)
  serve-OneFinal configure_op encoded s = reply-OneFinal _ s (configure_case-Keeps host encoded)
  serve-OneFinal actions_op encoded s = reply-OneFinal _ s (actions_case-Keeps host encoded)
  serve-OneFinal run_op encoded s = failed_run-OneFinal _ s (run_case-OneFinal encoded s.sent)
  serve-OneFinal audit_op encoded s = reply-OneFinal _ s (audit_case-Keeps host encoded)

  dispatch-OneFinal :
      (operation : Option Operation) (encoded : Bytes) (s : Service)
      → OneFinal s.sent (dispatch host operation encoded s)
  unfolding dispatch
  dispatch-OneFinal none encoded s = fail-OneFinal unknown_operation s refl
  dispatch-OneFinal (some operation) encoded s = serve-OneFinal operation encoded s

  -- While no response is dropped, Handle answers every request: it sends events that are not
  -- final, and behind them exactly one response that is final.
  pub handle-OneFinal : (request : Request) (s : Service) → OneFinal s.sent (handle host request s)
  unfolding handle
  handle-OneFinal request s = dispatch-OneFinal (operation_of request.operation) request.payload s
