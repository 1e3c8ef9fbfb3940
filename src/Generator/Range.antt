-- ===== src/Generator/Range.antt =====
-- What a generated value is made of.
use native.Mathlib.Nat.{mod-lt}
use vibe_coding_secret_manag.Generator.{
  Profile, default_profile, alnum_profile, password_profile, database_profile, get, chosen, fill,
  fill_loop, Generated, generated, random_error, strength, with_strength, unknown_profile,
  out_of_fuel, generate,
}
use vibe_coding_secret_manag.Prelude.{
  ℕ, zero, suc, ◌≤◌, ◌<◌, ◌≡◌, refl, ◌⊎◌, inl, inr, Bool, true, false, not, ◌||◌, ◌&&◌, [], ◌∷◌,
  ◌++◌, Option, none, some, arith, length, length-append, all, get_or, Bytes, has_byte, Bool-cases,
  ltb→lt, ltb→ge, ap, ◌∙◌, leb, ltb, ◌==◌,
}

-- The letters that README.md and the profiles' comment call safe: A-Z, a-z, 0-9 and `-`, `_`, `.`.
abbrev pub is_safe : ℕ → Bool
is_safe c =
    leb b'A' c && leb c b'Z'
    || leb b'a' c && leb c b'z'
    || leb b'0' c && leb c b'9'
    || c == b'-'
    || c == b'_'
    || c == b'.'

abbrev pub in_alphabet : Bytes → ℕ → Bool
in_alphabet alphabet c = has_byte c alphabet

profile_cases :
    (name : Bytes) (p : Profile)
    → get name ≡ some p
    → (p ≡ default_profile) ⊎ (p ≡ alnum_profile) ⊎ (p ≡ password_profile) ⊎ (p ≡ database_profile)
unfolding get
profile_cases name p h = ground arith

-- No letter stands twice.
abbrev pub distinct : Bytes → Bool
distinct [] = true
distinct (c ∷ s) = not (has_byte c s) && distinct s

pub record IsSound (p : Profile) : Type 0 where
  pub some_letter : 0 < length p.alphabet
  pub byte_sized : length p.alphabet ≤ 256
  pub safe : all is_safe p.alphabet ≡ true
  pub no_repeat : distinct p.alphabet ≡ true
  pub strong : 200 ≤ strength p

default_IsSound : IsSound default_profile
unfolding strength has_byte
default_IsSound = record {
  some_letter = omega arith;
  byte_sized = omega arith;
  safe = refl;
  no_repeat = refl;
  strong = omega arith;
}

alnum_IsSound : IsSound alnum_profile
unfolding strength has_byte
alnum_IsSound = record {
  some_letter = omega arith;
  byte_sized = omega arith;
  safe = refl;
  no_repeat = refl;
  strong = omega arith;
}

password_IsSound : IsSound password_profile
unfolding strength has_byte
password_IsSound = record {
  some_letter = omega arith;
  byte_sized = omega arith;
  safe = refl;
  no_repeat = refl;
  strong = omega arith;
}

database_IsSound : IsSound database_profile
unfolding strength has_byte
database_IsSound = record {
  some_letter = omega arith;
  byte_sized = omega arith;
  safe = refl;
  no_repeat = refl;
  strong = omega arith;
}

-- Every profile that `get` finds has between 1 and 256 letters, all different and safe, and a
-- strength of at least 200 bits.
pub get-IsSound : (name : Bytes) (p : Profile) → get name ≡ some p → IsSound p
get-IsSound name p h = elim (profile_cases name p h) [
  | inl e ↦ rw e default_IsSound
  | inr (inl e) ↦ rw e alnum_IsSound
  | inr (inr (inl e)) ↦ rw e password_IsSound
  | inr (inr (inr e)) ↦ rw e database_IsSound
]

chosen-lt : (n c i : ℕ) → 0 < n → chosen n c ≡ some i → i < n
unfolding chosen
chosen-lt n c i pos h = ground (arith, mod-lt c pos)

has_byte-get_or :
    (alphabet : Bytes) (i : ℕ)
    → i < length alphabet
    → has_byte (get_or alphabet i 0) alphabet ≡ true
unfolding has_byte
has_byte-get_or [] i h = absurd (omega arith)
has_byte-get_or (c ∷ s) zero h = ground arith
has_byte-get_or (c ∷ s) (suc i) h = ground (arith, has_byte-get_or s i)

all-snoc :
    (alphabet value : Bytes) (c : ℕ)
    → all (in_alphabet alphabet) value ≡ true
    → has_byte c alphabet ≡ true
    → all (in_alphabet alphabet) (value ++ c ∷ []) ≡ true
all-snoc alphabet [] c h k = ground arith
all-snoc alphabet (d ∷ value) c h k = ground (arith, all-snoc alphabet value c)

-- Bytes of the alphabet, and not too many of them.
pub record Fits (alphabet : Bytes) (target : ℕ) (value : Bytes) : Type 0 where
  pub letters : all (in_alphabet alphabet) value ≡ true
  pub most : length value ≤ target

module _ (alphabet : Bytes) (target : ℕ) (some_letter : 0 < length alphabet) where
  push-Fits :
      (value : Bytes) (c i : ℕ)
      → length value < target
      → chosen (length alphabet) c ≡ some i
      → Fits alphabet target value
      → Fits alphabet target (value ++ get_or alphabet i 0 ∷ [])
  push-Fits value c i room h f = record {
    letters =
        all-snoc alphabet value _ f.letters
          (has_byte-get_or alphabet i (chosen-lt _ c i some_letter h));
    most = omega (arith, length-append value (get_or alphabet i 0 ∷ []));
  }

  pub fill-Fits :
      (random value : Bytes)
      → length value < target
      → Fits alphabet target value
      → Fits alphabet target (fill alphabet target random value)
  unfolding fill
  fill-Fits [] value room f = f
  fill-Fits (c ∷ random) value room f =
      go (chosen (length alphabet) c) refl (λ v r g. fill-Fits random v r g)
    where
      go :
          (o : Option ℕ)
          → chosen (length alphabet) c ≡ o
          → ((v : Bytes)
              → length v < target
              → Fits alphabet target v
              → Fits alphabet target (fill alphabet target random v))
          → Fits alphabet target (fill alphabet target (c ∷ random) value)
      go none e rest = rw (e, fill) (rest value room f)
      go (some i) e rest =
          let f' = push-Fits value c i room e f in
          elim (Bool-cases (length (value ++ get_or alphabet i 0 ∷ []) == target)) [
            | inl full ↦ rw (e, fill) (rw full f')
            | inr more ↦ rw (e, fill) (rw more (rest _ (let most = f'.most in ground arith) f'))
          ]

-- What the loop returns is complete, and of the profile that it was given.
pub record IsValueOf (p : Profile) (value : Bytes) (q : Profile) : Type 0 where
  pub profile : q ≡ p
  pub complete : length value ≡ p.value_length
  pub letters : all (in_alphabet p.alphabet) value ≡ true

module _ (read : ℕ → Option Bytes) (p : Profile) (some_letter : 0 < length p.alphabet) where
  pub fill_loop-IsValueOf :
      (fuel i : ℕ) (start value : Bytes) (q : Profile)
      → Fits p.alphabet p.value_length start
      → fill_loop read p fuel i start ≡ generated value q
      → IsValueOf p value q
  unfolding fill_loop
  fill_loop-IsValueOf zero i start value q f h = absurd (cc)
  fill_loop-IsValueOf (suc fuel) i start value q f h =
      go (ltb (length start) p.value_length) (read i) refl refl (λ random room.
        fill_loop-IsValueOf fuel (suc i) (fill p.alphabet p.value_length random start) value q
          (fill-Fits p.alphabet p.value_length some_letter random start room f))
    where
      go :
          (b : Bool) (o : Option Bytes)
          → ltb (length start) p.value_length ≡ b
          → read i ≡ o
          → ((random : Bytes)
              → length start < p.value_length
              → fill_loop read p fuel (suc i) (fill p.alphabet p.value_length random start)
                ≡ generated value q
              → IsValueOf p value q)
          → IsValueOf p value q
      go false o done e rest =
          let same : generated start p ≡ generated value q = rw (done, fill_loop) at h in
          let v : start ≡ value = cc in
          record {
            profile = cc;
            complete = omega (arith, ltb→ge _ _ done, f.most, ap length v);
            letters = rw (← v) f.letters;
          }
      go true none more e rest =
          let failed : random_error ≡ generated value q = rw (more, e, fill_loop) at h in
          absurd (cc)
      go true (some random) more e rest =
          rest random (ltb→lt _ _ more) (rw (more, e, fill_loop) at h)

with_strength_inv :
    (g : Generated) (value : Bytes) (q : Profile)
    → with_strength g ≡ generated value q
    → (p : Profile) × (g ≡ generated value p) × (q ≡ record p { strength_bits = strength p })
unfolding with_strength
with_strength_inv (generated v p) value q h = (p, cc, cc)
with_strength_inv unknown_profile value q h = absurd (cc)
with_strength_inv random_error value q h = absurd (cc)
with_strength_inv out_of_fuel value q h = absurd (cc)

-- A value that Generate returns for a known profile has the length of the profile, only letters
-- of its alphabet, and a strength that is worked out anew and is at least 200 bits.
pub generate-IsValueOf :
    (read : ℕ → Option Bytes) (fuel : ℕ) (name value : Bytes) (p q : Profile)
    → get name ≡ some p
    → generate read fuel name ≡ generated value q
    → (length value ≡ p.value_length)
      × (all (in_alphabet p.alphabet) value ≡ true)
      × (q ≡ record p { strength_bits = strength p })
      × (200 ≤ q.strength_bits)
unfolding generate
generate-IsValueOf read fuel name value p q known h =
    let sound = get-IsSound name p known in
    let ran : with_strength (fill_loop read p fuel 0 []) ≡ generated value q =
      rw (known, generate) at h in
    let (p', looped, is_q) = with_strength_inv _ value q ran in
    let v =
      fill_loop-IsValueOf read p sound.some_letter fuel 0 [] value p'
        (record { letters = refl; most = omega arith }) looped in
    let same : q ≡ record p { strength_bits = strength p } = is_q ∙ rw v.profile in
    (v.complete, v.letters, same, rw same sound.strong)
