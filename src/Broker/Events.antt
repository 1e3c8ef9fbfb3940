-- ===== src/Broker/Events.antt =====
-- The responses that a run sends before its final one.
use vibe_coding_secret_manag.Prelude.{
  ◌≡◌, refl, sym, ap, ◌∙◌, Bool, true, List, [], ◌∷◌, ◌++◌, append_assoc, append-nil, all, not,
  arith, Bytes, equal, codes, Bool-cases, inl, inr,
}
use vibe_coding_secret_manag.Api.{Response}
use vibe_coding_secret_manag.Broker.{Stream, stdout, stderr, Host, Service, send}
use vibe_coding_secret_manag.Redaction.{Writer, close}
use vibe_coding_secret_manag.Redaction.Destination.{write-destination, close-destination}
use vibe_coding_secret_manag.Broker.Actions.{
  Pipe, open_pipe, copy_piece, copy_outputs, send_event, target_of, stream_outputs,
}

-- What has been sent from one state to another: events, none of them final.
pub record Streams (before after : Service) : Type 0 where
  pub events : List Response
  pub grown : after.sent ≡ before.sent ++ events
  pub open_ended : all (λ r. not r.is_final) events ≡ true

all-append :
    {A : Type 0} (p : A → Bool) (l m : List A)
    → all p l ≡ true
    → all p m ≡ true
    → all p (l ++ m) ≡ true
all-append p [] m h k = k
all-append p (a ∷ l) m h k = ground (arith, all-append p l m)

pub Streams-refl : (s : Service) → Streams s s
Streams-refl s = record { events = []; grown = sym (append-nil s.sent); open_ended = refl }

Streams-trans : {s t u : Service} → Streams s t → Streams t u → Streams s u
Streams-trans {s} {t} {u} p q = record {
  events = p.events ++ q.events;
  grown = q.grown ∙ ap (λ l. l ++ q.events) p.grown ∙ append_assoc s.sent p.events q.events;
  open_ended = all-append _ p.events q.events p.open_ended q.open_ended;
}

-- What every event keeps, the whole output keeps.
module _ (host : Host) (policy : Bytes) (P : Service → Type 0)
    (keeps : (stream : Stream) (bytes : Bytes) (t : Service)
      → P t
      → P (target_of host policy stream bytes t).1) where
  copy_piece-keeps :
      (stream : Stream) (piece : Bytes) (pipe : Pipe) (s : Service)
      → P s
      → P (copy_piece (target_of host policy stream) piece pipe s).1
  unfolding copy_piece
  copy_piece-keeps stream piece pipe s p =
      let moved =
        write-destination (target_of host policy stream) P pipe.writer piece s p
          (λ bytes. keeps stream bytes s p) in
      elim (Bool-cases pipe.lost) [ inl e ↦ rw e p | inr e ↦ rw e moved ]

  copy_outputs-keeps :
      (outputs : List (Stream × Bytes)) (out error : Pipe) (s : Service)
      → P s
      → P (copy_outputs (target_of host policy) outputs out error s).2
  unfolding copy_outputs
  copy_outputs-keeps [] out error s p = p
  copy_outputs-keeps ((stdout, piece) ∷ rest) out error s p =
      copy_outputs-keeps rest _ error _ (copy_piece-keeps stdout piece out s p)
  copy_outputs-keeps ((stderr, piece) ∷ rest) out error s p =
      copy_outputs-keeps rest out _ _ (copy_piece-keeps stderr piece error s p)

  close-keeps :
      (stream : Stream) (w : Writer) (s : Service)
      → P s
      → P (close (target_of host policy stream) w s).2
  close-keeps stream w s p =
      close-destination (target_of host policy stream) P w s p (λ bytes. keeps stream bytes s p)

  pub stream_outputs-keeps :
      (values : List Bytes) (outputs : List (Stream × Bytes)) (s : Service)
      → P s
      → P (stream_outputs host policy values outputs s).1
  unfolding stream_outputs
  stream_outputs-keeps values outputs s p = close-keeps stderr _ _ (
      close-keeps stdout _ _ (copy_outputs-keeps outputs (open_pipe values) (open_pipe values) s p))

module _ (host : Host) where
  target_of-Streams :
      (policy : Bytes) (stream : Stream) (piece : Bytes) (s : Service)
      → Streams s (target_of host policy stream piece s).1
  unfolding target_of send_event send
  target_of-Streams policy stream piece s = elim (Bool-cases (equal policy (codes "redacted"))) [
    | inr e ↦ rw e (Streams-refl s)
    | inl e ↦ rw e (elim (Bool-cases (host.drops s.sends)) [
      | inl k ↦ rw k (record { events = []; grown = sym (append-nil s.sent); open_ended = refl })
      | inr k ↦ rw k (record { events = _ ∷ []; grown = refl; open_ended = refl })
    ])
  ]

  pub stream_outputs-Streams :
      (policy : Bytes) (values : List Bytes) (outputs : List (Stream × Bytes)) (s : Service)
      → Streams s (stream_outputs host policy values outputs s).1
  stream_outputs-Streams policy values outputs s =
      stream_outputs-keeps host policy (Streams s)
        (λ stream bytes t p. Streams-trans p (target_of-Streams policy stream bytes t)) values
        outputs s (Streams-refl s)
