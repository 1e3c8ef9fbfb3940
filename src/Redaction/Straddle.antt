-- ===== src/Redaction/Straddle.antt =====
-- Where the writer cuts the stream, no occurrence of an unbordered value is cut.
use vibe_coding_secret_manag.Redaction.Partial.{Meets}
use vibe_coding_secret_manag.Redaction.Replace.{NoStraddle, take-is_prefix, is_prefix-take}
use vibe_coding_secret_manag.Prelude.{
  ℕ, suc, ◌-◌, ◌+◌, ◌≤◌, ◌<◌, ◌≡◌, ◌≢◌, sym, ap, ◌∙◌, inl, inr, true, [], ◌∷◌, ◌++◌, append_assoc,
  arith, length, length-append, take, drop, take_past, take_front, take-take, take-append,
  drop-append, Bytes, is_prefix, Bool-cases, leb, leb→le, leb→gt,
}

-- No proper part of `v` both starts and ends it.
abbrev pub IsUnbordered : Bytes → Type 0
IsUnbordered v = (j : ℕ) → 0 < j → j < length v → take j v ≢ drop (length v - j) v

module _ (v : Bytes) (unbordered : IsUnbordered v) (keep rest : Bytes)
    (front : keep ≡ take (length keep) v) where
  -- A match that runs past `f` but not past `keep` would make `v` bordered.
  no_match_within :
      (f : Bytes) (j : ℕ)
      → 0 < length f
      → 0 < j
      → j ≤ length keep
      → length v ≡ length f + j
      → f ++ take j (keep ++ rest) ≡ v
      → ⊥
  no_match_within f j pf pj jk lv e =
      let inner : take j (keep ++ rest) ≡ take j v =
        take_front j keep rest jk ∙ ap (take j) front ∙ take-take j (length keep) v jk in
      let at : length v - j ≡ length f = omega arith in
      let parts : f ++ take j v ≡ v = rw (← inner) e in
      unbordered j pj (omega arith)
        (rw at (sym (drop-append f (take j v)) ∙ ap (drop (length f)) parts))

  -- One that runs past both would show a longer front of `v` at the end of the pending bytes.
  no_match_beyond :
      (f : Bytes) (n : ℕ)
      → length keep < n
      → f ++ take n (keep ++ rest) ≡ v
      → f ++ keep ≡ take (length (f ++ keep)) v
  no_match_beyond f n kn e =
      let inner : take n (keep ++ rest) ≡ keep ++ take (n - length keep) rest =
        take_past n keep rest (omega arith) in
      let parts : (f ++ keep) ++ take (n - length keep) rest ≡ v =
        append_assoc f keep _ ∙ rw (← inner) e in
      sym (take-append (f ++ keep) _) ∙ ap (take (length (f ++ keep))) parts

  match_ends :
      (f : Bytes)
      → 0 < length f
      → (length (f ++ keep) < length v → f ++ keep ≢ take (length (f ++ keep)) v)
      → is_prefix v (f ++ (keep ++ rest)) ≡ true
      → length v ≤ length f
  match_ends f pf far h = elim (Bool-cases (leb (length v) (length f))) [
    | inl ends ↦ leb→le _ _ ends
    | inr past ↦
        let lt = leb→gt _ _ past in
        let n = length v - length f in
        let e : f ++ take n (keep ++ rest) ≡ v =
          sym (take_past (length v) f (keep ++ rest) (omega arith)) ∙ take-is_prefix v _ h in
        elim (Bool-cases (leb n (length keep))) [
          | inl within ↦
              absurd (no_match_within f n pf (omega arith) (leb→le _ _ within) (omega arith) e)
          | inr beyond ↦
              let gt = leb→gt _ _ beyond in
              absurd (far (omega (arith, length-append f keep)) (no_match_beyond f n gt e))
        ]
  ]

  pub no_straddle :
      (f : Bytes)
      → ((m : ℕ)
          → length keep < m
          → m < length v
          → m ≤ length (f ++ keep)
          → Meets (f ++ keep) v m
          → ⊥)
      → NoStraddle v f (keep ++ rest)
  no_straddle [] far = tt
  no_straddle (c ∷ f) far =
      let whole : suc (length (f ++ keep)) - suc (length (f ++ keep)) ≡ 0 = omega arith in
      let ends = λ (h : is_prefix v (c ∷ f ++ (keep ++ rest)) ≡ true).
        match_ends (c ∷ f) (omega arith)
          (λ lt e.
            far (length (c ∷ f ++ keep)) (omega (arith, length-append f keep)) lt (omega arith)
              (rw whole e))
          h in
      (
        λ h.
            is_prefix-take v (c ∷ f)
              (sym (take_front (length v) (c ∷ f) (keep ++ rest) (ends h)) ∙ take-is_prefix v _ h),
        no_straddle f (λ m a b d e. far m a b (omega arith) (
            let at : suc (length (f ++ keep)) - m ≡ suc (length (f ++ keep) - m) = omega arith in
            rw at e)),
      )
