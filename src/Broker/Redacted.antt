-- ===== src/Broker/Redacted.antt =====
-- What the client of a run reads, under the output policy `redacted`.
use vibe_coding_secret_manag.Prelude.{
  ℕ, ◌≤◌, ◌≡◌, refl, sym, ap, subst, ◌∙◌, Bool, false, List, [], ◌∷◌, ◌++◌, append_assoc,
  append-nil, Option, some, Bytes, codes, length, contains, has_byte, equal, Bool-cases, inl, inr,
  arith, if◌then◌else◌,
}
use vibe_coding_secret_manag.Redaction.{Writer, new_writer, write, close}
use vibe_coding_secret_manag.Redaction.Straddle.{IsUnbordered}
use vibe_coding_secret_manag.Redaction.Stream.{buffer, write_all, stream, contains-stream}
use vibe_coding_secret_manag.Redaction.Destination.{write-destination, close-destination}
use vibe_coding_secret_manag.Redaction.Simulation.{TakesAlike, write-WritesAlike, close-related}
use vibe_coding_secret_manag.Model.{Action}
use vibe_coding_secret_manag.Runner.{Invocation}
use vibe_coding_secret_manag.Api.{Answer, output_text, Response}
use vibe_coding_secret_manag.Broker.{Stream, stdout, stderr, Ended, Host, Service, in_store, send}
use vibe_coding_secret_manag.Broker.Coerced.{
  Coerced, Coerces, IsAscii, nothing_left, Coerced-append, Coerced-contains,
}
use vibe_coding_secret_manag.Broker.Actions.{
  is_missing, Pipe, open_pipe, copy_piece, copy_outputs, send_event, target_of, stream_outputs,
  stream_name, send_result, finish_run, run_prepared,
}

abbrev pub text_in : Option Answer → Bytes
text_in (some (output_text text)) = text
text_in _ = []

-- What the client reads of standard output: the texts of the events with that name.
abbrev pub stdout_text : List Response → Bytes
stdout_text [] = []
stdout_text (r ∷ rs) =
    (if equal r.event (codes "stdout") then text_in r.answer else []) ++ stdout_text rs

-- What the process writes to standard output.
abbrev pub stdout_pieces : List (Stream × Bytes) → List Bytes
stdout_pieces [] = []
stdout_pieces ((stdout, piece) ∷ rest) = piece ∷ stdout_pieces rest
stdout_pieces ((stderr, piece) ∷ rest) = stdout_pieces rest

pub stdout_text-append :
    (l m : List Response) → stdout_text (l ++ m) ≡ stdout_text l ++ stdout_text m
stdout_text-append [] m = refl
stdout_text-append (r ∷ l) m =
    rw (stdout_text-append l m) (sym (append_assoc _ (stdout_text l) (stdout_text m)))

-- The client has read `base`, and behind it the text of what a buffer holds.
record Reads (base : Bytes) (s : Service) (d : Bytes) : Type 0 where
  pub text : Bytes
  pub reads : stdout_text s.sent ≡ base ++ text
  pub coerced : Coerced d text

module _ (host : Host) (up : (n : ℕ) → host.drops n ≡ false) (coerces : Coerces host.as_text)
    (base : Bytes) where
  stdout-TakesAlike : TakesAlike (Reads base) (target_of host (codes "redacted") stdout) buffer
  unfolding target_of send_event send stream_name equal
  stdout-TakesAlike = record {
    taken = λ bytes s. rw (up s.sends);
    other_taken = λ bytes d. refl;
    related = λ bytes s d r. rw (up s.sends) (record {
      text = r.text ++ host.as_text bytes;
      reads =
          stdout_text-append s.sent _
          ∙ rw (append-nil (host.as_text bytes)) (
              ap (λ t. t ++ host.as_text bytes) r.reads
              ∙ append_assoc base r.text (host.as_text bytes));
      coerced =
          Coerced-append d r.text bytes (host.as_text bytes) r.coerced (coerces.coerced bytes);
    });
  }

  -- A write to standard error is not read as standard output.
  stderr-Reads :
      (d bytes : Bytes) (s : Service)
      → Reads base s d
      → Reads base (target_of host (codes "redacted") stderr bytes s).1 d
  unfolding target_of send_event send stream_name equal
  stderr-Reads d bytes s r = rw (up s.sends) (record {
    text = r.text;
    reads = stdout_text-append s.sent _ ∙ append-nil (stdout_text s.sent) ∙ r.reads;
    coerced = r.coerced;
  })

  abbrev target : Stream → Bytes → Service → Bool × Service
  target = target_of host (codes "redacted")

  -- The pipe of standard output against a buffer.
  record IsCopied (pipe : Pipe) (s : Service) (w : Writer) (d : Bytes) : Type 0 where
    pub open_still : pipe.lost ≡ false
    pub writer : pipe.writer ≡ w
    pub reads : Reads base s d

  stdout_piece-IsCopied :
      (piece : Bytes) (pipe : Pipe) (s : Service) (w : Writer) (d : Bytes)
      → IsCopied pipe s w d
      → let (pipe', s') = copy_piece (target stdout) piece pipe s in
        let (w', n, d') = write buffer w piece d in IsCopied pipe' s' w' d'
  unfolding copy_piece
  stdout_piece-IsCopied piece pipe s w d c =
      let same =
        write-WritesAlike (Reads base) (target stdout) buffer stdout-TakesAlike pipe.writer piece s
          d c.reads in
      subst
        (λ v.
          IsCopied (copy_piece (target stdout) piece pipe s).0
            (copy_piece (target stdout) piece pipe s).1 (write buffer v piece d).0
            (write buffer v piece d).2)
        c.writer
        (rw c.open_still (record {
          open_still = ap is_missing same.count;
          writer = same.writer;
          reads = same.related;
        }))

  stderr_piece-Reads :
      (piece : Bytes) (pipe : Pipe) (s : Service) (d : Bytes)
      → Reads base s d
      → Reads base (copy_piece (target stderr) piece pipe s).1 d
  unfolding copy_piece
  stderr_piece-Reads piece pipe s d r =
      let moved =
        write-destination (target stderr) (λ t. Reads base t d) pipe.writer piece s r
          (λ bytes. stderr-Reads d bytes s r) in
      elim (Bool-cases pipe.lost) [ inl e ↦ rw e r | inr e ↦ rw e moved ]

  outputs-IsCopied :
      (outputs : List (Stream × Bytes)) (out error : Pipe) (s : Service) (w : Writer) (d : Bytes)
      → IsCopied out s w d
      → let (out', error', s') = copy_outputs target outputs out error s in
        let (w', d') = write_all w (stdout_pieces outputs) d in IsCopied out' s' w' d'
  unfolding copy_outputs write_all
  outputs-IsCopied [] out error s w d c = c
  outputs-IsCopied ((stdout, piece) ∷ rest) out error s w d c =
      outputs-IsCopied rest _ error _ _ _ (stdout_piece-IsCopied piece out s w d c)
  outputs-IsCopied ((stderr, piece) ∷ rest) out error s w d c =
      outputs-IsCopied rest out _ _ w d (record {
        open_still = c.open_still;
        writer = c.writer;
        reads = stderr_piece-Reads piece error s d c.reads;
      })

  stderr_close-Reads :
      (w : Writer) (s : Service) (d : Bytes)
      → Reads base s d
      → Reads base (close (target stderr) w s).2 d
  stderr_close-Reads w s d r =
      close-destination (target stderr) (λ t. Reads base t d) w s r
        (λ bytes. stderr-Reads d bytes s r)

  stream_outputs-Reads :
      (values : List Bytes) (outputs : List (Stream × Bytes)) (s : Service)
      → Reads base s []
      → Reads base
          (stream_outputs host (codes "redacted") values outputs s).1
          (stream values (stdout_pieces outputs))
  unfolding stream_outputs stream
  stream_outputs-Reads values outputs s r =
      let copied =
        outputs-IsCopied outputs (open_pipe values) (open_pipe values) s (new_writer values) []
          (record { open_still = refl; writer = refl; reads = r }) in
      let (out, error, s1) = copy_outputs target outputs (open_pipe values) (open_pipe values) s in
      let (w, d) = write_all (new_writer values) (stdout_pieces outputs) [] in
      let closed =
        close-related (Reads base) (target stdout) buffer stdout-TakesAlike out.writer s1 d
          copied.reads in
      stderr_close-Reads error.writer (close (target stdout) out.writer s1).2 _ (
        subst (λ v. Reads base (close (target stdout) out.writer s1).2 (close buffer v d).2)
          copied.writer closed)

module _ (host : Host) (up : (n : ℕ) → host.drops n ≡ false) (coerces : Coerces host.as_text) where
  -- What the client of a run has read is the text of the stream that the writer lets through.
  run_prepared-Reads :
      (action : Action) (values : List Bytes) (inv : Invocation) (ended : Ended) (s : Service)
      → action.output_policy ≡ codes "redacted"
      → Reads
          (stdout_text s.sent)
          (run_prepared host action values inv ended s).1
          (stream values (stdout_pieces ended.outputs))
  unfolding run_prepared finish_run send_result send in_store equal
  run_prepared-Reads action values inv ended s redacted =
      let (lost, s1) = stream_outputs host action.output_policy values ended.outputs s in
      let streamed : Reads (stdout_text s.sent) s1 (stream values (stdout_pieces ended.outputs)) =
        rw redacted (
          stream_outputs-Reads host up coerces (stdout_text s.sent) values ended.outputs s (record {
            text = [];
            reads = sym (append-nil (stdout_text s.sent));
            coerced = nothing_left;
          })) in
      rw (up s1.sends) (record {
        text = streamed.text;
        reads = stdout_text-append s1.sent _ ∙ append-nil (stdout_text s1.sent) ∙ streamed.reads;
        coerced = streamed.coerced;
      })

  contains-text :
      (v s t : Bytes)
      → 3 ≤ length v
      → IsAscii v
      → Coerced s t
      → contains v s ≡ false
      → contains v t ≡ false
  contains-text [] s t long ascii p h = absurd (omega (arith, long))
  contains-text (a ∷ x) s t long ascii p h = Coerced-contains a x s t ascii p h

  -- What the client of a run has read holds no secret.
  pub contains-run_prepared :
      (action : Action) (v : Bytes) (inv : Invocation) (ended : Ended) (s : Service)
      → action.output_policy ≡ codes "redacted"
      → s.sent ≡ []
      → 3 ≤ length v
      → IsUnbordered v
      → IsAscii v
      → has_byte b'[' v ≡ false
      → has_byte b']' v ≡ false
      → contains v (codes "REDACTED") ≡ false
      → contains v (stdout_text (run_prepared host action (v ∷ []) inv ended s).1.sent) ≡ false
  contains-run_prepared action v inv ended s redacted fresh long unbordered ascii opening closing
        inner =
      let r = run_prepared-Reads action (v ∷ []) inv ended s redacted in
      let begun : stdout_text s.sent ≡ [] = ap stdout_text fresh in
      ap (contains v) (r.reads ∙ ap (λ b. b ++ r.text) begun)
      ∙ contains-text v _ r.text long ascii r.coerced
          (contains-stream v long unbordered opening closing inner (stdout_pieces ended.outputs))
