-- ===== src/Redaction/Failure.antt =====
-- The writer when its destination refuses a write, and what Close leaves.
use vibe_coding_secret_manag.Redaction.{Writer, write, close, zeroed}
use vibe_coding_secret_manag.Prelude.{◌≡◌, Bool, true, false, [], ◌++◌, map, none, arith, Bytes}

module _ {ℓ} {D : Type ℓ} (dst_write : Bytes → D → Bool × D) (w : Writer) where
  -- A Write that fails has lost nothing: the writer holds all that it held, the new bytes behind
  -- it, and its values.
  pub write_fails :
      (p : Bytes) (d : D)
      → (write dst_write w p d).1 ≡ none
      → ((write dst_write w p d).0.pending ≡ w.pending ++ p)
        × ((write dst_write w p d).0.values ≡ w.values)
  unfolding write
  write_fails p d h = ground arith

  -- A Close that succeeds leaves nothing pending, and zeros in place of every value.
  pub close_zeroes :
      (d : D)
      → (close dst_write w d).1 ≡ true
      → ((close dst_write w d).0.pending ≡ [])
        × ((close dst_write w d).0.values ≡ map zeroed w.values)
  unfolding close
  close_zeroes d h = ground arith

  -- A Close that fails leaves the writer as it was, its values not zeroed.
  pub close_fails : (d : D) → (close dst_write w d).1 ≡ false → (close dst_write w d).0 ≡ w
  unfolding close
  close_fails d h = ground arith
