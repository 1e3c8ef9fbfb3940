-- ===== src/Redaction/Destination.antt =====
-- What a writer does to its destination: nothing, or one write.
use vibe_coding_secret_manag.Redaction.{Writer, partial_suffix_length, redact, write, close}
use vibe_coding_secret_manag.Prelude.{
  ◌-◌, Bool, ◌++◌, Bytes, length, take, ◌==◌, Bool-cases, inl, inr,
}

module _ {ℓ} {D : Type ℓ} (dst_write : Bytes → D → Bool × D) (R : D → Type ℓ) where
  pub write-destination :
      (w : Writer) (p : Bytes) (d : D)
      → R d
      → ((bytes : Bytes) → R (dst_write bytes d).1)
      → R (write dst_write w p d).2
  unfolding write
  write-destination w p d still moved =
      let grown = record w { pending = w.pending ++ p } in
      let flush = length grown.pending - partial_suffix_length grown in
      elim (Bool-cases (flush == 0)) [
        | inl e ↦ rw e still
        | inr e ↦
            rw e (elim (Bool-cases (dst_write (redact grown (take flush grown.pending)) d).0) [
              | inl k ↦ rw k (moved _)
              | inr k ↦ rw k (moved _)
            ])
      ]

  pub close-destination :
      (w : Writer) (d : D)
      → R d
      → ((bytes : Bytes) → R (dst_write bytes d).1)
      → R (close dst_write w d).2
  unfolding close
  close-destination w d still moved = elim (Bool-cases (length w.pending == 0)) [
    | inl e ↦ rw e still
    | inr e ↦ rw e (elim (Bool-cases (dst_write (redact w w.pending) d).0) [
      | inl k ↦ rw k (moved _)
      | inr k ↦ rw k (moved _)
    ])
  ]
