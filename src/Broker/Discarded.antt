-- ===== src/Broker/Discarded.antt =====
-- A run under any output policy but `redacted`: what the process writes is discarded.
use vibe_coding_secret_manag.Prelude.{
  ◌≡◌, refl, sym, ap, ap₂, ◌∙◌, true, false, ◌||◌, List, [], ◌∷◌, Bytes, codes, equal,
}
use vibe_coding_secret_manag.Redaction.{Writer, close}
use vibe_coding_secret_manag.Redaction.Stream.{buffer}
use vibe_coding_secret_manag.Redaction.Destination.{close-destination}
use vibe_coding_secret_manag.Redaction.Simulation.{TakesAlike, write-WritesAlike}
use vibe_coding_secret_manag.Model.{Action}
use vibe_coding_secret_manag.Runner.{Invocation}
use vibe_coding_secret_manag.Broker.{Stream, stdout, stderr, Ended, Host, Service}
use vibe_coding_secret_manag.Broker.Actions.{
  is_missing, Pipe, open_pipe, copy_piece, copy_outputs, target_of, run_error, stream_outputs,
  finish_run, run_error, run_prepared,
}

module _ (host : Host) (policy : Bytes) (discards : equal policy (codes "redacted") ≡ false)
    (s : Service) where
  target_of_same :
      (stream : Stream) (bytes : Bytes) (t : Service)
      → target_of host policy stream bytes t ≡ (true, t)
  unfolding target_of
  target_of_same stream bytes t = rw discards

  discarding : (stream : Stream) → TakesAlike (λ t d. t ≡ s) (target_of host policy stream) buffer
  discarding stream = record {
    taken = λ bytes t. rw (target_of_same stream bytes t);
    other_taken = λ bytes d. refl;
    related = λ bytes t d e. rw (target_of_same stream bytes t) e;
  }

  record IsUntouched (pipe : Pipe) (t : Service) : Type 0 where
    pub open_still : pipe.lost ≡ false
    pub same : t ≡ s

  copy_piece-IsUntouched :
      (stream : Stream) (piece : Bytes) (pipe : Pipe) (t : Service)
      → IsUntouched pipe t
      → let (pipe', t') = copy_piece (target_of host policy stream) piece pipe t in
        IsUntouched pipe' t'
  unfolding copy_piece
  copy_piece-IsUntouched stream piece pipe t c =
      let w =
        write-WritesAlike (λ t d. t ≡ s) (target_of host policy stream) buffer (discarding stream)
          pipe.writer piece t [] c.same in
      rw c.open_still (record { open_still = ap is_missing w.count; same = w.related })

  -- Neither pipe is lost, and nothing has been sent.
  abbrev AllUntouched : Pipe → Pipe → Service → Type 0
  AllUntouched out error t = IsUntouched out t × (error.lost ≡ false)

  copy_outputs-AllUntouched :
      (outputs : List (Stream × Bytes)) (out error : Pipe) (t : Service)
      → AllUntouched out error t
      → let (out', error', t') = copy_outputs (target_of host policy) outputs out error t in
        AllUntouched out' error' t'
  unfolding copy_outputs
  copy_outputs-AllUntouched [] out error t c = c
  copy_outputs-AllUntouched ((stdout, piece) ∷ rest) out error t (c, k) =
      copy_outputs-AllUntouched rest _ error _ (copy_piece-IsUntouched stdout piece out t c, k)
  copy_outputs-AllUntouched ((stderr, piece) ∷ rest) out error t (c, k) =
      let e =
        copy_piece-IsUntouched stderr piece error t (record { open_still = k; same = c.same }) in
      copy_outputs-AllUntouched rest out _ _
        (record { open_still = c.open_still; same = e.same }, e.open_still)

  close_same :
      (stream : Stream) (w : Writer) (t : Service)
      → t ≡ s
      → (close (target_of host policy stream) w t).2 ≡ s
  close_same stream w t e =
      close-destination (target_of host policy stream) (λ t. t ≡ s) w t e
        (λ bytes. rw (target_of_same stream bytes t) e)

  stream_outputs_same :
      (values : List Bytes) (outputs : List (Stream × Bytes))
      → stream_outputs host policy values outputs s ≡ (false, s)
  unfolding stream_outputs
  stream_outputs_same values outputs =
      let (out, error, s1) =
        copy_outputs (target_of host policy) outputs (open_pipe values) (open_pipe values) s in
      let (c, k) =
        copy_outputs-AllUntouched outputs (open_pipe values) (open_pipe values) s
          (record { open_still = refl; same = refl }, refl) in
      let closed = close_same stdout out.writer s1 c.same in
      let both =
        close_same stderr error.writer (close (target_of host policy stdout) out.writer s1).2
          closed in
      let lost : out.lost || error.lost ≡ false = rw (c.open_still, k) in
      ap₂ (λ b t. (b, t)) lost both

-- Under an output policy other than `redacted`, a run is the same as one of a process that writes
-- nothing, and as one that is given no secret values to redact.
pub run_prepared_discards :
    (host : Host) (action : Action) (values : List Bytes) (inv : Invocation) (ended : Ended)
    (s : Service)
    → equal action.output_policy (codes "redacted") ≡ false
    → run_prepared host action values inv ended s
      ≡ run_prepared host action [] inv (record ended { outputs = [] }) s
unfolding run_prepared finish_run run_error
run_prepared_discards host action values inv ended s discards =
    let same = stream_outputs_same host action.output_policy discards s in
    ap (finish_run host action inv ended) (same values ended.outputs)
    ∙ sym (ap (finish_run host action inv (record ended { outputs = [] })) (same [] []))
