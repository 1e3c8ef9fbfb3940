-- ===== src/Redaction/Partial.antt =====
-- What partialSuffixLength finds for one value: the longest proper prefix of the value that ends
-- the pending bytes.
use vibe_coding_secret_manag.Redaction.{longest_match, partial_suffix_length}
use vibe_coding_secret_manag.Prelude.{
  ℕ, zero, suc, ◌-◌, ◌≤◌, ◌<◌, ◌≡◌, ◌≢◌, subst, drop-length, zero_or_pos, inl, inr, [], ◌∷◌, arith,
  length, take, drop, Bytes, equal, equal_iff, Bool-cases, ltb, ltb→lt, ltb→ge, lt→ltb,
}

-- The last `n` bytes of `pending` are the first `n` of `value`.
abbrev pub Meets : Bytes → Bytes → ℕ → Type 0
Meets pending value n = drop (length pending - n) pending ≡ take n value

module _ (pending value : Bytes) where
  longest_match-le : (n : ℕ) → longest_match pending value 0 n ≤ n
  unfolding longest_match
  longest_match-le zero = omega arith
  longest_match-le (suc n) = ground (arith, longest_match-le n)

  longest_match-Meets :
      (n : ℕ)
      → 0 < longest_match pending value 0 n
      → Meets pending value (longest_match pending value 0 n)
  unfolding longest_match
  longest_match-Meets zero h = absurd (omega arith)
  longest_match-Meets (suc n) h =
      elim (Bool-cases (equal (drop (length pending - suc n) pending) (take (suc n) value))) [
        | inl same ↦ rw (lt→ltb 0 (suc n) (omega arith), same) ((equal_iff _ _).0 same)
        | inr other ↦
            rw (lt→ltb 0 (suc n) (omega arith), other)
              (longest_match-Meets n (rw (lt→ltb 0 (suc n) (omega arith), other) at h))
      ]

  longest_match_longest :
      (n m : ℕ) → Meets pending value m → m ≤ n → m ≤ longest_match pending value 0 n
  unfolding longest_match
  longest_match_longest zero m e h = omega arith
  longest_match_longest (suc n) m e h =
      elim (Bool-cases (equal (drop (length pending - suc n) pending) (take (suc n) value))) [
        | inl same ↦ rw (lt→ltb 0 (suc n) (omega arith), same) h
        | inr other ↦
            let ne : m ≢ suc n =
              λ q. cc ((equal_iff _ _).1 (subst (Meets pending value) q e), other) in
            rw (lt→ltb 0 (suc n) (omega arith), other) (longest_match_longest n m e (omega arith))
      ]

-- The number of bytes that a writer with one value holds back, and what it is worth.
pub record Held (value pending : Bytes) (k : ℕ) : Type 0 where
  pub proper : k ≤ length value - 1
  pub within : k ≤ length pending
  pub meets : Meets pending value k
  pub longest : (m : ℕ) → Meets pending value m → m < length value → m ≤ length pending → m ≤ k

module _ (value pending : Bytes) where
  longest_match-Held :
      (b : ℕ)
      → b ≤ length value - 1
      → b ≤ length pending
      → ((m : ℕ) → m < length value → m ≤ length pending → m ≤ b)
      → Held value pending (longest_match pending value 0 b)
  longest_match-Held b p q all = record {
    proper = omega (arith, longest_match-le pending value b);
    within = omega (arith, longest_match-le pending value b);
    meets = elim (zero_or_pos (longest_match pending value 0 b)) [
      | inl none_held ↦
          rw none_held (
            let e : length pending - 0 ≡ length pending = omega arith in rw e (drop-length pending))
      | inr some_held ↦ longest_match-Meets pending value b some_held
    ];
    longest = λ m e lv lp. longest_match_longest pending value b m e (all m lv lp);
  }

  -- `partialSuffixLength` of a writer with one value is the longest match there is.
  pub partial_suffix_length-Held :
      Held value pending (partial_suffix_length (record { values = value ∷ []; pending = pending }))
  unfolding partial_suffix_length
  partial_suffix_length-Held = elim (Bool-cases (ltb (length pending) (length value - 1))) [
    | inl short ↦ rw short (
        longest_match-Held (length pending) (let l = ltb→lt _ _ short in omega arith) (omega arith)
          (λ m lv lp. lp))
    | inr long ↦ rw long (
        longest_match-Held (length value - 1) (omega arith) (let l = ltb→ge _ _ long in omega arith)
          (λ m lv lp. omega arith))
  ]
