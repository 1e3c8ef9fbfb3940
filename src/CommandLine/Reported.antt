-- ===== src/CommandLine/Reported.antt =====
-- `vcsm run` prints what the broker let through, and exits with the code of the process.
use vibe_coding_secret_manag.Prelude.{
  ℕ, ◌≤◌, length, contains, has_byte, ◌≡◌, refl, sym, ap, ap₂, ◌∙◌, Bool, true, false, List, [],
  ◌∷◌, ◌++◌, map, append-nil, Option, none, some, Bytes, codes, equal, ℤ, pos, if◌then◌else◌,
}
use vibe_coding_secret_manag.Redaction.Straddle.{IsUnbordered}
use vibe_coding_secret_manag.Outcome.{process_failed}
use vibe_coding_secret_manag.Model.{Action}
use vibe_coding_secret_manag.Runner.{Invocation, Failure, run_code}
use vibe_coding_secret_manag.Api.{Answer, run_result, Response}
use vibe_coding_secret_manag.Broker.{Stream, stdout, stderr, Ended, Host, Service, in_store, send}
use vibe_coding_secret_manag.Broker.Actions.{
  stream_name, send_result, finish_run, run_prepared, run_error,
}
use vibe_coding_secret_manag.Broker.Events.{stream_outputs-keeps}
use vibe_coding_secret_manag.Broker.Coerced.{Coerces, IsAscii}
use vibe_coding_secret_manag.Broker.Redacted.{
  stdout_text-append, stdout_text, contains-run_prepared,
}
use vibe_coding_secret_manag.Ipc.{with_id, call_loop}
use vibe_coding_secret_manag.CommandLine.Client.{
  Console, on_run, new_console, run_status, CallError, is_zero,
}
use vibe_coding_secret_manag.CommandLine.Outputs.{
  event_of, print_all, print_all-stdout, Shows, target_of-Shows, stream_outputs-lost,
}

-- The client on the responses of a run.
module _ (id : Bytes) (ending : Option CallError) where
  client : List Response → Console → Option CallError × Console
  client responses c = call_loop on_run ending (map (with_id id) responses) c

  client-events :
      (pieces : List (Stream × Bytes)) (rest : List Response) (c : Console)
      → client (map event_of pieces ++ rest) c ≡ client rest (print_all pieces c)
  unfolding client call_loop with_id on_run print_all event_of stream_name equal
  client-events [] rest c = refl
  client-events ((stdout, text) ∷ pieces) rest c = client-events pieces rest _
  client-events ((stderr, text) ∷ pieces) rest c = client-events pieces rest _

-- The final response of a run, and what `vcsm run` returns for it.
final_of : Bytes → ℤ × Bool → Response
final_of name (code, failed) = record {
  id = [];
  is_ok = if failed then false else true;
  event = [];
  answer = some (run_result (record { action = name; exit_code = code }));
  error = if failed then some process_failed else none;
  is_final = true;
}

-- The code of the process; 1 where it is 0 but the run has failed.
abbrev pub reported : ℤ × Bool → ℤ
reported (code, true) = if is_zero code then pos 1 else code
reported (code, false) = code

final_silent : (name : Bytes) (result : ℤ × Bool) → stdout_text (final_of name result ∷ []) ≡ []
unfolding final_of equal
final_silent name (code, failed) = refl

client-final :
    (id : Bytes) (ending : Option CallError) (name : Bytes) (result : ℤ × Bool) (c : Console)
    → (run_status (client id ending (final_of name result ∷ []) c) ≡ reported result)
      × ((client id ending (final_of name result ∷ []) c).1.stdout ≡ c.stdout)
unfolding client call_loop with_id on_run final_of equal run_status
client-final id ending name (code, true) c = (refl, refl)
client-final id ending name (code, false) c = (refl, refl)

run_error-failure : (ended : Ended) → run_error ended false ≡ ended.failure
unfolding run_error
run_error-failure ended = go ended.failure
  where
    go : (failure : Option Failure) → run_error (record ended { failure = failure }) false ≡ failure
    go none = refl
    go (some f) = refl

module _ (host : Host) (up : (n : ℕ) → host.drops n ≡ false)
    (encodes : (answer : Answer) → host.encodes answer ≡ true) where
  send_result-sent :
      (name : Bytes) (result : ℤ × Bool) (s : Service)
      → (send_result host name result s).1.sent ≡ s.sent ++ final_of name result ∷ []
  unfolding send_result send final_of
  send_result-sent name (code, failed) s = rw (encodes _, up s.sends) refl

  run_prepared-sent :
      (action : Action) (values : List Bytes) (inv : Invocation) (ended : Ended) (s : Service)
      → s.sent ≡ []
      → (pieces : List (Stream × Bytes)) × ((run_prepared host action values inv ended s).1.sent
          ≡ map event_of pieces ++ final_of action.name (run_code inv ended.failure) ∷ [])
  unfolding run_prepared finish_run in_store
  run_prepared-sent action values inv ended s fresh =
      let shows =
        stream_outputs-keeps host action.output_policy Shows
          (λ stream bytes t p. target_of-Shows host action.output_policy stream bytes t p) values
          ended.outputs s (record { pieces = []; sent = fresh }) in
      let kept = stream_outputs-lost host action.output_policy up values ended.outputs s in
      (
        shows.pieces,
        send_result-sent action.name _ _
            ∙ ap₂ (λ l r. l ++ final_of action.name r ∷ []) shows.sent
                (ap (λ b. run_code inv (run_error ended b)) kept
                  ∙ ap (run_code inv) (run_error-failure ended)),
      )

  -- What `vcsm run` does with these responses.
  client-run_prepared :
      (action : Action) (values : List Bytes) (inv : Invocation) (ended : Ended) (s : Service)
      (id : Bytes) (ending : Option CallError)
      → s.sent ≡ []
      → let sent = (run_prepared host action values inv ended s).1.sent in
        let done = client id ending sent new_console in
        (run_status done ≡ reported (run_code inv ended.failure))
        × (done.1.stdout ≡ stdout_text sent)
  client-run_prepared action values inv ended s id ending fresh =
      let (pieces, sent) = run_prepared-sent action values inv ended s fresh in
      let last = final_of action.name (run_code inv ended.failure) in
      let read =
        ap (λ l. client id ending l new_console) sent
        ∙ client-events id ending pieces (last ∷ []) new_console in
      let (status, printed) =
        client-final id ending action.name (run_code inv ended.failure)
          (print_all pieces new_console) in
      let texts : stdout_text (map event_of pieces)
          ≡ stdout_text (run_prepared host action values inv ended s).1.sent =
        sym (
          ap stdout_text sent
          ∙ stdout_text-append (map event_of pieces) (last ∷ [])
          ∙ ap (λ t. stdout_text (map event_of pieces) ++ t)
              (final_silent action.name (run_code inv ended.failure))
          ∙ append-nil (stdout_text (map event_of pieces))) in
      (
        ap run_status read ∙ status,
        ap (λ r. r.1.stdout) read ∙ printed ∙ print_all-stdout pieces new_console ∙ texts,
      )

  -- While no response is dropped and every answer is encoded, and nothing has been sent before,
  -- `vcsm run` exits with the code that Run makes of the end of the process, and with 1 where
  -- that is 0 but the run has failed.
  pub run_status-run_prepared :
      (action : Action) (values : List Bytes) (inv : Invocation) (ended : Ended) (s : Service)
      (id : Bytes) (ending : Option CallError)
      → s.sent ≡ []
      → let sent = map (with_id id) (run_prepared host action values inv ended s).1.sent in
        run_status (call_loop on_run ending sent new_console)
        ≡ reported (run_code inv ended.failure)
  unfolding client
  run_status-run_prepared action values inv ended s id ending fresh =
      (client-run_prepared action values inv ended s id ending fresh).0

  -- If a secret value is an ASCII text of at least three bytes that is unbordered, holds no
  -- bracket and is no part of the word REDACTED, it does not occur in what `vcsm run` prints to
  -- standard output for an action with the output policy `redacted` that is given the value
  -- alone, whatever bytes the process writes and however they are cut, while no response is
  -- dropped, every answer is encoded, the JSON text of a string replaces no byte but those behind
  -- ASCII, by others behind ASCII, and nothing has been sent before.
  pub contains-call_loop :
      (coerces : Coerces host.as_text) (action : Action) (v : Bytes) (inv : Invocation)
      (ended : Ended) (s : Service) (id : Bytes) (ending : Option CallError)
      → action.output_policy ≡ codes "redacted"
      → s.sent ≡ []
      → 3 ≤ length v
      → IsUnbordered v
      → IsAscii v
      → has_byte b'[' v ≡ false
      → has_byte b']' v ≡ false
      → contains v (codes "REDACTED") ≡ false
      → let sent = map (with_id id) (run_prepared host action (v ∷ []) inv ended s).1.sent in
        contains v (call_loop on_run ending sent new_console).1.stdout ≡ false
  unfolding client
  contains-call_loop coerces action v inv ended s id ending redacted fresh long unbordered ascii
        opening closing inner =
      ap (contains v) (client-run_prepared action (v ∷ []) inv ended s id ending fresh).1
      ∙ contains-run_prepared host up coerces action v inv ended s redacted fresh long unbordered
          ascii opening closing inner
