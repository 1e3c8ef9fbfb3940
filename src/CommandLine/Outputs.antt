-- ===== src/CommandLine/Outputs.antt =====
-- What a run sends before its final response, and what the client prints of it.
use vibe_coding_secret_manag.Prelude.{
  ℕ, ◌≡◌, refl, sym, ap, ◌∙◌, Bool, true, false, List, [], ◌∷◌, ◌++◌, map, append_assoc, append-nil,
  none, some, Bytes, codes, equal, if_both,
}
use vibe_coding_secret_manag.Redaction.Simulation.{TakesAlike, write-WritesAlike}
use vibe_coding_secret_manag.Redaction.Stream.{buffer}
use vibe_coding_secret_manag.Api.{output_text, Response}
use vibe_coding_secret_manag.Broker.{Stream, stdout, stderr, Host, Service, send}
use vibe_coding_secret_manag.Broker.Actions.{
  is_missing, Pipe, open_pipe, copy_piece, copy_outputs, send_event, target_of, stream_outputs,
  stream_name,
}
use vibe_coding_secret_manag.Broker.Redacted.{stdout_text}
use vibe_coding_secret_manag.CommandLine.Client.{Console}

-- The event that carries what was written to a stream.
unfoldable pub event_of : Stream × Bytes → Response
unfolding stream_name
event_of (stream, text) = record {
  id = [];
  is_ok = true;
  event = stream_name stream;
  answer = some (output_text text);
  error = none;
  is_final = false;
}

-- What the client prints of some output.
unfoldable pub print_all : List (Stream × Bytes) → Console → Console
print_all [] c = c
print_all ((stdout, text) ∷ pieces) c = print_all pieces (record c { stdout = c.stdout ++ text })
print_all ((stderr, text) ∷ pieces) c = print_all pieces (record c { stderr = c.stderr ++ text })

pub print_all-exit_code :
    (pieces : List (Stream × Bytes)) (c : Console) → (print_all pieces c).exit_code ≡ c.exit_code
unfolding print_all
print_all-exit_code [] c = refl
print_all-exit_code ((stdout, text) ∷ pieces) c = print_all-exit_code pieces _
print_all-exit_code ((stderr, text) ∷ pieces) c = print_all-exit_code pieces _

pub print_all-stdout :
    (pieces : List (Stream × Bytes)) (c : Console)
    → (print_all pieces c).stdout ≡ c.stdout ++ stdout_text (map event_of pieces)
unfolding print_all event_of stream_name equal
print_all-stdout [] c = sym (append-nil c.stdout)
print_all-stdout ((stdout, text) ∷ pieces) c =
    print_all-stdout pieces _ ∙ append_assoc c.stdout text (stdout_text (map event_of pieces))
print_all-stdout ((stderr, text) ∷ pieces) c = print_all-stdout pieces _

-- A broker that has sent only output since it had sent nothing.
pub record Shows (s : Service) : Type 0 where
  pub pieces : List (Stream × Bytes)
  pub sent : s.sent ≡ map event_of pieces

pub map-event_of :
    (l m : List (Stream × Bytes)) → map event_of (l ++ m) ≡ map event_of l ++ map event_of m
map-event_of [] m = refl
map-event_of (x ∷ l) m = ap (◌∷◌ (event_of x)) (map-event_of l m)

module _ (host : Host) (policy : Bytes) where
  pub target_of-Shows :
      (stream : Stream) (bytes : Bytes) (s : Service)
      → Shows s
      → Shows (target_of host policy stream bytes s).1
  unfolding target_of send_event send event_of
  target_of-Shows stream bytes s p =
      if_both (equal policy (codes "redacted")) (λ (r : Bool × Service). Shows r.1)
        (λ e.
          if_both (host.drops s.sends) (λ (r : Bool × Service). Shows r.1)
            (λ k. record { pieces = p.pieces; sent = p.sent })
            (λ k. record {
              pieces = p.pieces ++ (stream, host.as_text bytes) ∷ [];
              sent =
                  ap (λ l. l ++ event_of (stream, host.as_text bytes) ∷ []) p.sent
                  ∙ sym (map-event_of p.pieces ((stream, host.as_text bytes) ∷ []));
            }))
        (λ e. p)

-- While no response is dropped, no copying is lost.
module _ (host : Host) (policy : Bytes) (up : (n : ℕ) → host.drops n ≡ false) where
  pub taking :
      (stream : Stream) → TakesAlike (λ s d. Unit {0}) (target_of host policy stream) buffer
  unfolding target_of send_event send
  taking stream = record {
    taken = λ bytes s.
        if_both (equal policy (codes "redacted")) (λ (r : Bool × Service). r.0 ≡ true)
          (λ e. rw (up s.sends) refl) (λ e. refl);
    other_taken = λ bytes d. refl;
    related = λ bytes s d r. tt;
  }

  pub copy_piece-lost :
      (stream : Stream) (piece : Bytes) (pipe : Pipe) (s : Service)
      → pipe.lost ≡ false
      → (copy_piece (target_of host policy stream) piece pipe s).0.lost ≡ false
  unfolding copy_piece
  copy_piece-lost stream piece pipe s still =
      let w =
        write-WritesAlike (λ t d. Unit {0}) (target_of host policy stream) buffer (taking stream)
          pipe.writer piece s [] tt in
      rw still (ap is_missing w.count)

  pub copy_outputs-lost :
      (outputs : List (Stream × Bytes)) (out error : Pipe) (s : Service)
      → out.lost ≡ false
      → error.lost ≡ false
      → let (out', error', s') = copy_outputs (target_of host policy) outputs out error s in
        (out'.lost ≡ false) × (error'.lost ≡ false)
  unfolding copy_outputs
  copy_outputs-lost [] out error s o e = (o, e)
  copy_outputs-lost ((stdout, piece) ∷ rest) out error s o e =
      copy_outputs-lost rest _ error _ (copy_piece-lost stdout piece out s o) e
  copy_outputs-lost ((stderr, piece) ∷ rest) out error s o e =
      copy_outputs-lost rest out _ _ o (copy_piece-lost stderr piece error s e)

  pub stream_outputs-lost :
      (values : List Bytes) (outputs : List (Stream × Bytes)) (s : Service)
      → (stream_outputs host policy values outputs s).0 ≡ false
  unfolding stream_outputs
  stream_outputs-lost values outputs s =
      let (o, e) = copy_outputs-lost outputs (open_pipe values) (open_pipe values) s refl refl in
      rw (o, e) refl
