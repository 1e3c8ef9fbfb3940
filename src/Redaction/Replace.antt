-- ===== src/Redaction/Replace.antt =====
-- bytes.ReplaceAll and strings.ReplaceAll for a non-empty `old`: the leftmost matches that do not
-- overlap. Both callers drop values shorter than three bytes, so an empty `old` does not occur.
use vibe_coding_secret_manag.Prelude.{
  ℕ, zero, suc, ◌-◌, ◌≤◌, ◌<◌, ◌≡◌, refl, sym, ap, inl, inr, true, false, [], ◌∷◌, ◌++◌,
  append_assoc, arith, length, take, Bytes, is_prefix, Bool-cases, if◌then◌else◌,
}

-- `skip` bytes of the text are still part of the last match.
unfoldable pub replace_from : Bytes → Bytes → ℕ → Bytes → Bytes
replace_from old new skip [] = []
replace_from old new (suc skip) (c ∷ s) = replace_from old new skip s
replace_from old new zero (c ∷ s) =
    let found = is_prefix old (c ∷ s) in
    (if found then new else c ∷ []) ++ replace_from old new (if found then length old - 1 else 0) s

unfoldable pub replace_all : Bytes → Bytes → Bytes → Bytes
unfolding replace_from
replace_all old new s = replace_from old new 0 s

pub is_prefix-append : (u s t : Bytes) → is_prefix u s ≡ true → is_prefix u (s ++ t) ≡ true
unfolding is_prefix
is_prefix-append [] s t h = refl
is_prefix-append (x ∷ u) [] t h = absurd (cc)
is_prefix-append (x ∷ u) (c ∷ s) t h = ground (arith, is_prefix-append u s t)

pub length-le-is_prefix : (u s : Bytes) → is_prefix u s ≡ true → length u ≤ length s
unfolding is_prefix
length-le-is_prefix [] s h = omega arith
length-le-is_prefix (x ∷ u) [] h = absurd (cc)
length-le-is_prefix (x ∷ u) (c ∷ s) h = ground (arith, length-le-is_prefix u s)

-- A match is the front of the text.
pub take-is_prefix : (u s : Bytes) → is_prefix u s ≡ true → take (length u) s ≡ u
unfolding is_prefix
take-is_prefix [] s h = refl
take-is_prefix (x ∷ u) [] h = absurd (cc)
take-is_prefix (x ∷ u) (c ∷ s) h = ground (arith, take-is_prefix u s)

pub is_prefix-take : (u s : Bytes) → take (length u) s ≡ u → is_prefix u s ≡ true
unfolding is_prefix
is_prefix-take [] s h = refl
is_prefix-take (x ∷ u) [] h = absurd (cc)
is_prefix-take (x ∷ u) (c ∷ s) h = ground (arith, is_prefix-take u s)

-- No match of `u` starts in the first text and ends in the second.
abbrev pub NoStraddle : Bytes → Bytes → Bytes → Type 0
NoStraddle u [] b = Unit {0}
NoStraddle u (c ∷ a) b =
    (is_prefix u (c ∷ a ++ b) ≡ true → is_prefix u (c ∷ a) ≡ true) × NoStraddle u a b

module _ (old new : Bytes) where
  replace_from-append :
      (k : ℕ) (a b : Bytes)
      → k ≤ length a
      → NoStraddle old a b
      → replace_from old new k (a ++ b) ≡ replace_from old new k a ++ replace_from old new 0 b
  unfolding replace_from
  replace_from-append zero [] b h n = refl
  replace_from-append (suc k) [] b h n = absurd (omega arith)
  replace_from-append (suc k) (c ∷ a) b h n = replace_from-append k a b (omega arith) n.1
  replace_from-append zero (c ∷ a) b h n = elim (Bool-cases (is_prefix old (c ∷ a))) [
    | inl hit ↦
        let le = length-le-is_prefix old (c ∷ a) hit in
        rw (hit, is_prefix-append old (c ∷ a) b hit)
          (rw (replace_from-append (length old - 1) a b (omega arith) n.1)
            (sym (append_assoc new _ _)))
    | inr miss ↦
        let miss' : is_prefix old (c ∷ a ++ b) ≡ false = ground (arith, n.0) in
        rw (miss, miss') (ap (◌∷◌ c) (replace_from-append 0 a b (omega arith) n.1))
  ]

  -- Where no match crosses the cut, replacing each part is replacing the whole.
  pub replace_all-append :
      (a b : Bytes)
      → NoStraddle old a b
      → replace_all old new (a ++ b) ≡ replace_all old new a ++ replace_all old new b
  unfolding replace_all
  replace_all-append a b n = replace_from-append 0 a b (omega arith) n

  -- A text shorter than `old` is not changed.
  pub replace_all_short : (s : Bytes) → length s < length old → replace_all old new s ≡ s
  unfolding replace_all
  replace_all_short [] h = refl
  replace_all_short (c ∷ s) h = elim (Bool-cases (is_prefix old (c ∷ s))) [
    | inl hit ↦ absurd (let le = length-le-is_prefix old (c ∷ s) hit in omega arith)
    | inr miss ↦ rw miss (ap (◌∷◌ c) (replace_all_short s (omega arith)))
  ]
