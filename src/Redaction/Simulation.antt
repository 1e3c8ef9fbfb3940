-- ===== src/Redaction/Simulation.antt =====
-- A writer does the same to two destinations that take every write.
use vibe_coding_secret_manag.Redaction.{Writer, partial_suffix_length, redact, write, close}
use vibe_coding_secret_manag.Prelude.{
  ℕ, ◌-◌, ◌≡◌, refl, Bool, true, ◌++◌, Option, some, Bytes, length, take, ◌==◌, Bool-cases, inl,
  inr,
}

-- Both destinations take the bytes, and stay related.
pub record TakesAlike {D E : Type 0} (R : D → E → Type 0) (dst : Bytes → D → Bool × D)
    (other : Bytes → E → Bool × E) : Type 0 where
  pub taken : (bytes : Bytes) (d : D) → (dst bytes d).0 ≡ true
  pub other_taken : (bytes : Bytes) (e : E) → (other bytes e).0 ≡ true
  pub related : (bytes : Bytes) (d : D) (e : E) → R d e → R (dst bytes d).1 (other bytes e).1

pub record WritesAlike {D E : Type 0} (R : D → E → Type 0) (p : Bytes) (one : Writer × Option ℕ × D)
    (other : Writer × Option ℕ × E) : Type 0 where
  pub writer : one.0 ≡ other.0
  pub count : one.1 ≡ some (length p)
  pub related : R one.2 other.2

module _ {D E : Type 0} (R : D → E → Type 0) (dst : Bytes → D → Bool × D)
    (other : Bytes → E → Bool × E) (alike : TakesAlike R dst other) where
  pub write-WritesAlike :
      (w : Writer) (p : Bytes) (d : D) (e : E)
      → R d e
      → WritesAlike R p (write dst w p d) (write other w p e)
  unfolding write
  write-WritesAlike w p d e r =
      let grown = record w { pending = w.pending ++ p } in
      let flush = length grown.pending - partial_suffix_length grown in
      let out = redact grown (take flush grown.pending) in
      elim (Bool-cases (flush == 0)) [
        | inl h ↦ rw h (record { writer = refl; count = refl; related = r })
        | inr h ↦
            rw (h, alike.taken out d, alike.other_taken out e)
              (record { writer = refl; count = refl; related = alike.related out d e r })
      ]

  pub close-related : (w : Writer) (d : D) (e : E) → R d e → R (close dst w d).2 (close other w e).2
  unfolding close
  close-related w d e r = elim (Bool-cases (length w.pending == 0)) [
    | inl h ↦ rw h r
    | inr h ↦
        let out = redact w w.pending in
        rw (h, alike.taken out d, alike.other_taken out e) (alike.related out d e r)
  ]
