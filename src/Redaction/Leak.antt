-- ===== src/Redaction/Leak.antt =====
-- A value that some proper part both starts and ends is cut when a write ends with it.
use vibe_coding_secret_manag.Redaction.Partial.{partial_suffix_length-Held}
use vibe_coding_secret_manag.Redaction.Replace.{replace_all_short}
use vibe_coding_secret_manag.Redaction.Stream.{
  buffer, stream, write_all, one, held, write_lem, new_writer-one, close_lem,
}
use vibe_coding_secret_manag.Redaction.{Writer, close, marker, replace_all, partial_suffix_length}
use vibe_coding_secret_manag.Prelude.{
  Option, ℕ, ◌-◌, ◌≤◌, ◌<◌, ◌≡◌, sym, ap, ◌∙◌, [], ◌∷◌, arith, length, length-take, length-drop,
  take, drop, take-append-drop, Bytes,
}

-- Where a proper part of a value of three bytes or more both starts and ends it, one Write of the
-- value and a Close pass the value on unchanged.
pub bordered_value_leaks :
    (v : Bytes) (j : ℕ)
    → 3 ≤ length v
    → 0 < j
    → j < length v
    → take j v ≡ drop (length v - j) v
    → stream (v ∷ []) (v ∷ []) ≡ v
unfolding stream write_all
bordered_value_leaks v j long pj jl border =
    let h = partial_suffix_length-Held v v in
    let n = held v v in
    let some_held : 0 < partial_suffix_length (one v v) =
      omega (arith, h.longest j (sym border) jl (omega arith)) in
    let front : replace_all v marker (take n v) ≡ take n v =
      replace_all_short v marker (take n v) (omega (arith, length-take n v)) in
    let back : replace_all v marker (drop n v) ≡ drop n v =
      replace_all_short v marker (drop n v) (omega (arith, length-drop n v, h.proper)) in
    rw (stream, new_writer-one v long)
      (ap (λ (r : Writer × Option ℕ × Bytes). (close buffer r.0 r.2).2) (write_lem v [] v [])
        ∙ close_lem v (drop n v) _
        ∙ rw (front, back) (take-append-drop n v))
