-- ===== src/Redaction/Stream.antt =====
-- A stream of writes against one replacement over the whole output.
use mathlib.Core.List.{flatten}
use vibe_coding_secret_manag.Redaction.Partial.{partial_suffix_length-Held}
use vibe_coding_secret_manag.Redaction.Replace.{replace_all-append}
use vibe_coding_secret_manag.Redaction.Safe.{contains-replace_all}
use vibe_coding_secret_manag.Redaction.Straddle.{IsUnbordered, no_straddle}
use vibe_coding_secret_manag.Redaction.{
  Writer, new_writer, write, close, marker, replace_all, partial_suffix_length, redact,
}
use vibe_coding_secret_manag.Prelude.{
  false, codes, contains, has_byte, ℕ, ◌-◌, ◌≤◌, ◌≡◌, sym, ap, ◌∙◌, inl, inr, Bool, true, List, [],
  ◌∷◌, ◌++◌, append-nil, append_assoc, arith, length, length-drop, take, drop, take-append-drop,
  Bytes, Option, some, Bool-cases, ge→ltb, ◌==◌, ==_iff,
}

-- A destination that takes every write, such as a bytes.Buffer.
abbrev pub buffer : Bytes → Bytes → Bool × Bytes
buffer p d = (true, d ++ p)

unfoldable pub write_all : Writer → List Bytes → Bytes → Writer × Bytes
write_all w [] d = (w, d)
write_all w (p ∷ ps) d = let (w', n, d') = write buffer w p d in write_all w' ps d'

abbrev pub finish : Writer × Bytes → Bytes
finish r = (close buffer r.0 r.1).2

-- What a buffer holds after NewWriter, a Write of each chunk and Close.
unfoldable pub stream : List Bytes → List Bytes → Bytes
unfolding write_all
stream values chunks = let (w, d) = write_all (new_writer values) chunks [] in (close buffer w d).2

abbrev pub one : Bytes → Bytes → Writer
one v pending = record { values = v ∷ []; pending = pending }

abbrev pub held : Bytes → Bytes → ℕ
held v g = length g - partial_suffix_length (one v g)

module _ (v : Bytes) where
  -- One Write emits the replaced front, and holds the rest back.
  pub write_lem :
      (q p d : Bytes)
      → write buffer (one v q) p d ≡ (
        one v (drop (held v (q ++ p)) (q ++ p)),
        some (length p),
        d ++ replace_all v marker (take (held v (q ++ p)) (q ++ p)),
      )
  unfolding write redact replace_all
  write_lem q p d = elim (Bool-cases (held v (q ++ p) == 0)) [
    | inl none_out ↦ rw none_out (rw ((==_iff _ _).0 none_out) (rw append-nil))
    | inr some_out ↦ rw some_out
  ]

  pub close_lem : (q d : Bytes) → (close buffer (one v q) d).2 ≡ d ++ replace_all v marker q
  unfolding close redact replace_all
  close_lem [] d = sym (append-nil d)
  close_lem (c ∷ q) d = ground arith

  pub new_writer-one : 3 ≤ length v → new_writer (v ∷ []) ≡ one v []
  unfolding new_writer
  new_writer-one h = rw (ge→ltb (length v) 3 h)

module _ (v : Bytes) (unbordered : IsUnbordered v) where
  -- Cutting where Write cuts does not change the replacement of what is still to come.
  cut_lem :
      (g rest : Bytes)
      → replace_all v marker (g ++ rest)
        ≡ replace_all v marker (take (held v g) g)
          ++ replace_all v marker (drop (held v g) g ++ rest)
  cut_lem g rest =
      let h = partial_suffix_length-Held v g in
      let n = held v g in
      let k : length (drop n g) ≡ partial_suffix_length (one v g) =
        omega (arith, length-drop n g, h.within) in
      let parts = take-append-drop n g in
      ap (λ (t : Bytes). replace_all v marker (t ++ rest)) (sym parts)
      ∙ ap (replace_all v marker) (append_assoc (take n g) (drop n g) rest)
      ∙ replace_all-append v marker (take n g) (drop n g ++ rest) (
          no_straddle v unbordered (drop n g) rest (rw k h.meets) (take n g)
            (rw (parts, k) (λ m a b c e. let l = h.longest m e b c in omega arith)))

  write_all_lem :
      (ps : List Bytes) (q d : Bytes)
      → finish (write_all (one v q) ps d) ≡ d ++ replace_all v marker (q ++ flatten ps)
  unfolding write_all flatten
  write_all_lem [] q d = rw (append-nil q) (close_lem v q d)
  write_all_lem (p ∷ ps) q d =
      let g = q ++ p in
      ap (λ (r : Writer × Option ℕ × Bytes). finish (write_all r.0 ps r.2)) (write_lem v q p d)
      ∙ write_all_lem ps (drop (held v g) g) (d ++ replace_all v marker (take (held v g) g))
      ∙ append_assoc d _ _
      ∙ ap (λ (t : Bytes). d ++ t)
          (sym (cut_lem g (flatten ps)) ∙ ap (replace_all v marker) (append_assoc q p (flatten ps)))

  -- For a value of at least three bytes that is unbordered, however the output is cut into
  -- writes, what the writer passes on is the replacement of the value over the whole output.
  pub stream_eq_replace_all :
      3 ≤ length v
      → (chunks : List Bytes) → stream (v ∷ []) chunks ≡ replace_all v marker (flatten chunks)
  unfolding stream
  stream_eq_replace_all long chunks =
      rw (stream, new_writer-one v long) (write_all_lem chunks [] [])

-- If a value of at least three bytes is unbordered, holds no bracket and is no part of the word
-- REDACTED, it does not occur in what the writer passes on, however the output is cut into
-- writes.
pub contains-stream :
    (v : Bytes)
    → 3 ≤ length v
    → IsUnbordered v
    → has_byte b'[' v ≡ false
    → has_byte b']' v ≡ false
    → contains v (codes "REDACTED") ≡ false
    → (chunks : List Bytes) → contains v (stream (v ∷ []) chunks) ≡ false
contains-stream v long unbordered opening closing inner chunks =
    rw (stream_eq_replace_all v unbordered long chunks)
      (contains-replace_all v (flatten chunks) (omega arith) opening closing inner)
