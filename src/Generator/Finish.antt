-- ===== src/Generator/Finish.antt =====
-- The loop of Generate ends as soon as the random source gives bytes that are not rejected.
use vibe_coding_secret_manag.Generator.{
  Profile, get, limit, chosen, fill, fill_loop, generated, strength, with_strength, generate,
}
use vibe_coding_secret_manag.Prelude.{
  ℕ, zero, suc, ◌-◌, ◌≤◌, ◌<◌, ◌≡◌, refl, inl, inr, Bool, true, false, ◌||◌, [], ◌∷◌, ◌++◌, Option,
  none, some, arith, length, length-append, get_or, Bytes, Bool-cases, ltb, ltb→lt, ◌==◌,
}

-- Some byte of the batch chooses a letter, of `n`.
abbrev pub useful : ℕ → Bytes → Bool
useful n [] = false
useful n (c ∷ random) = ltb c (limit n) || useful n random

rejected : (n c : ℕ) → chosen n c ≡ none → ltb c (limit n) ≡ false
unfolding chosen
rejected n c h = ground arith

module _ (alphabet : Bytes) (target : ℕ) where
  length-fill : (random value : Bytes) → length value ≤ length (fill alphabet target random value)
  unfolding fill
  length-fill [] value = omega arith
  length-fill (c ∷ random) value = go (chosen (length alphabet) c) refl (λ v. length-fill random v)
    where
      go :
          (o : Option ℕ)
          → chosen (length alphabet) c ≡ o
          → ((v : Bytes) → length v ≤ length (fill alphabet target random v))
          → length value ≤ length (fill alphabet target (c ∷ random) value)
      go none e rest = rw (e, fill) (rest value)
      go (some i) e rest =
          let letter = get_or alphabet i 0 ∷ [] in
          let longer = length-append value letter in
          elim (Bool-cases (length (value ++ letter) == target)) [
            | inl full ↦ rw (e, fill) (rw full (omega arith))
            | inr more ↦ rw (e, fill) (rw more (omega (arith, rest (value ++ letter))))
          ]

  fill-grows :
      (random value : Bytes)
      → useful (length alphabet) random ≡ true
      → length value < length (fill alphabet target random value)
  unfolding fill
  fill-grows [] value h = absurd (cc)
  fill-grows (c ∷ random) value h =
      go (chosen (length alphabet) c) refl (λ u. fill-grows random value u)
    where
      go :
          (o : Option ℕ)
          → chosen (length alphabet) c ≡ o
          → (useful (length alphabet) random ≡ true
              → length value < length (fill alphabet target random value))
          → length value < length (fill alphabet target (c ∷ random) value)
      go none e rest = rw (e, fill) (rest (ground (arith, rejected (length alphabet) c e)))
      go (some i) e rest =
          let letter = get_or alphabet i 0 ∷ [] in
          let longer = length-append value letter in
          elim (Bool-cases (length (value ++ letter) == target)) [
            | inl full ↦ rw (e, fill) (rw full (omega arith))
            | inr more ↦
                rw (e, fill) (rw more (omega (arith, length-fill random (value ++ letter))))
          ]

module _ (read : ℕ → Option Bytes) (p : Profile)
    (supply : (i : ℕ)
      → (random : Bytes) × (read i ≡ some random)
        × (useful (length p.alphabet) random ≡ true)) where
  fill_loop_ends :
      (fuel i : ℕ) (start : Bytes)
      → p.value_length - length start < fuel
      → (value : Bytes) × (fill_loop read p fuel i start ≡ generated value p)
  unfolding fill_loop
  fill_loop_ends zero i start h = absurd (omega arith)
  fill_loop_ends (suc fuel) i start h = elim (Bool-cases (ltb (length start) p.value_length)) [
    | inl more ↦
        let (random, got, good) = supply i in
        let next = fill p.alphabet p.value_length random start in
        let lt = ltb→lt _ _ more in
        let (value, e) =
          fill_loop_ends fuel (suc i) next
            (omega (arith, fill-grows p.alphabet p.value_length random start good)) in
        (value, rw (more, got, fill_loop) e)
    | inr done ↦ (start, rw (done, fill_loop))
  ]

-- With a random source that never fails, each of whose batches holds a byte that is not rejected,
-- and with more fuel than the value has bytes, Generate returns a value for a known profile.
pub generate_ends :
    (read : ℕ → Option Bytes) (fuel : ℕ) (name : Bytes) (p : Profile)
    → get name ≡ some p
    → p.value_length < fuel
    → ((i : ℕ)
        → (random : Bytes) × (read i ≡ some random) × (useful (length p.alphabet) random ≡ true))
    → (value : Bytes) × (generate read fuel name
        ≡ generated value (record p { strength_bits = strength p }))
unfolding generate
generate_ends read fuel name p known enough supply =
    let (value, e) = fill_loop_ends read p supply fuel 0 [] (omega arith) in
    (value, rw (generate, known) (rw e (unfold with_strength in refl)))
