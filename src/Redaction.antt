-- ===== src/Redaction.antt =====
-- internal/redaction/redaction.go: replacing secret values in text and in a stream of writes.
-- The lock of a Writer makes each method atomic, so a method is a function on its state.
mod Replace
pub mod Partial
pub mod Straddle
pub mod Stream
pub mod Leak
pub mod Safe
pub mod Agree
pub mod Failure
pub mod Destination
pub mod Simulation
unfoldable pub use Replace.{replace_all}
use vibe_coding_secret_manag.Prelude.{
  ℕ, zero, suc, ◌-◌, Bool, true, false, List, [], ◌∷◌, ◌++◌, map, Option, none, some, length, take,
  drop, Bytes, codes, equal, ltb, ◌==◌, if◌then◌else◌,
}

abbrev pub marker : Bytes
marker = codes "[REDACTED]"

-- Redact(text, values)
unfoldable pub redact_values : Bytes → List Bytes → Bytes
redact_values text [] = text
redact_values text (value ∷ values) =
    redact_values (if ltb (length value) 3 then text else replace_all value marker text) values

unfoldable pub redact_text : Bytes → List Bytes → Bytes
unfolding redact_values
redact_text text values = if length text == 0 then text else redact_values text values

pub record Writer : Type 0 where
  pub values : List Bytes
  pub pending : Bytes

-- NewWriter; the copy that it makes of each value is the value itself here.
unfoldable pub keep_long : List Bytes → List Bytes
keep_long [] = []
keep_long (value ∷ values) =
    let rest = keep_long values in if ltb (length value) 3 then rest else value ∷ rest

unfoldable pub new_writer : List Bytes → Writer
unfolding keep_long
new_writer values = record { values = keep_long values; pending = [] }

-- The inner loop of partialSuffixLength, from `length` down to `longest`.
unfoldable pub longest_match : Bytes → Bytes → ℕ → ℕ → ℕ
longest_match pending value longest zero = longest
longest_match pending value longest (suc n) =
    let shorter = longest_match pending value longest n in
    if ltb longest (suc n)
    then (if equal (drop (length pending - suc n) pending) (take (suc n) value)
        then suc n
        else shorter)
    else longest

unfoldable pub longest_partial : Bytes → ℕ → List Bytes → ℕ
unfolding longest_match
longest_partial pending longest [] = longest
longest_partial pending longest (value ∷ values) =
    let most = length value - 1 in
    let bound = if ltb (length pending) most then length pending else most in
    longest_partial pending (longest_match pending value longest bound) values

unfoldable pub partial_suffix_length : Writer → ℕ
unfolding longest_partial
partial_suffix_length w = longest_partial w.pending 0 w.values

-- (w *Writer) redact
unfoldable pub redact_with : List Bytes → Bytes → Bytes
redact_with [] text = text
redact_with (value ∷ values) text = redact_with values (replace_all value marker text)

unfoldable pub redact : Writer → Bytes → Bytes
unfolding redact_with
redact w text = redact_with w.values text

-- zeroing a value in place
unfoldable pub zeroed : Bytes → Bytes
zeroed = map (λ _. 0)

-- `dst` is any io.Writer: it takes bytes, changes its state, and says whether it took them.
module _ {ℓ} {D : Type ℓ} (dst_write : Bytes → D → Bool × D) where
  -- Write: `some n` is `(n, nil)`, and `none` is `(0, err)`.
  unfoldable pub write : Writer → Bytes → D → Writer × Option ℕ × D
  unfolding partial_suffix_length redact
  write w p dst =
      let grown = record w { pending = w.pending ++ p } in
      let flush = length grown.pending - partial_suffix_length grown in
      let (ok, dst') = dst_write (redact grown (take flush grown.pending)) dst in
      if flush == 0
      then (grown, some (length p), dst)
      else if ok
      then (record grown { pending = drop flush grown.pending }, some (length p), dst')
      else (grown, none, dst')

  -- Close: true for a nil error.
  unfoldable pub close : Writer → D → Writer × Bool × D
  unfolding redact zeroed
  close w dst =
      let (ok, dst') = dst_write (redact w w.pending) dst in
      let emptied : Writer = record { values = map zeroed w.values; pending = [] } in
      if length w.pending == 0
      then (record w { values = map zeroed w.values }, true, dst)
      else if ok
      then (emptied, true, dst')
      else (w, false, dst')
