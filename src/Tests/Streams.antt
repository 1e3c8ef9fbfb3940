-- ===== src/Tests/Streams.antt =====
-- Runs of the theorems on redaction, on the generator and on the crypto package.
use mathlib.Core.List.{flatten}
use vibe_coding_secret_manag.Prelude.{
  ℕ, zero, suc, ◌*◌, ◌↔◌, ◌≡◌, ◌≤◌, ◌/◌, refl, ap, equal, Bool, true, false, List, [], ◌∷◌, ◌++◌,
  Option, some, arith, Bytes, codes, length, has_byte, all,
}
use vibe_coding_secret_manag.Generator.{
  Profile, alnum_profile, get, generate, Generated, generated, strength, limit,
}
use vibe_coding_secret_manag.Generator.Range.{in_alphabet, generate-IsValueOf}
use vibe_coding_secret_manag.Generator.Uniform.{ways, ways_uniform}
use vibe_coding_secret_manag.Generator.Finish.{generate_ends}
use vibe_coding_secret_manag.SecureCrypto.{default_kdf_params, derive_kek}
use vibe_coding_secret_manag.SecureCrypto.Lookup.{lookup_message_injective}
use vibe_coding_secret_manag.SecureCrypto.Sealing.{derive_kek_iff}
use vibe_coding_secret_manag.Outcome.{ok}
use vibe_coding_secret_manag.Tests.Toy.{toy, filled}
use vibe_coding_secret_manag.Redaction.{
  Writer, new_writer, marker, replace_all, redact, redact_text,
}
use vibe_coding_secret_manag.Redaction.Straddle.{IsUnbordered}
use vibe_coding_secret_manag.Redaction.Stream.{stream, stream_eq_replace_all}
use vibe_coding_secret_manag.Redaction.Agree.{redact_text-redact}
use vibe_coding_secret_manag.Redaction.Leak.{bordered_value_leaks}

abbrev pub value : Bytes
value = codes "abc"

abbrev pieces : List Bytes
pieces = codes "x ab" ∷ codes "c y" ∷ []

pub value-IsUnbordered : IsUnbordered value
unfolding equal
value-IsUnbordered zero p l = absurd (omega arith)
value-IsUnbordered (suc zero) p l =
    λ e. let differ : true ≡ false = ap (λ s. equal s (codes "a")) e in cc
value-IsUnbordered (suc (suc zero)) p l =
    λ e. let differ : true ≡ false = ap (λ s. equal s (codes "ab")) e in cc
value-IsUnbordered (suc (suc (suc j))) p l = absurd (omega arith)

stream_eq_replace_all_example :
    stream (value ∷ []) pieces ≡ replace_all value marker (flatten pieces)
stream_eq_replace_all_example = stream_eq_replace_all value value-IsUnbordered (omega arith) pieces

redact_text-redact_example :
    redact_text (codes "abcdabc") (value ∷ codes "bcd" ∷ [])
    ≡ redact (new_writer (value ∷ codes "bcd" ∷ [])) (codes "abcdabc")
redact_text-redact_example = redact_text-redact (codes "abcdabc") (value ∷ codes "bcd" ∷ [])

abbrev broken : Bytes → Bytes → Bool × Bytes
broken bytes d = (false, d)

abbrev holding : Writer
holding = record { values = value ∷ []; pending = codes "ab" }

bordered_value_leaks_example : stream (codes "abca" ∷ []) (codes "abca" ∷ []) ≡ codes "abca"
bordered_value_leaks_example =
    bordered_value_leaks (codes "abca") 1 (omega arith) (omega arith) (omega arith) refl

-- a random source whose every batch of 64 bytes is all fives
abbrev fives : ℕ → Option Bytes
fives i = some (filled 64 5)

ways_uniform_example : ways 62 61 256 ≡ 256 / 62
ways_uniform_example = ways_uniform 62 61 (omega arith) (omega arith)

generate_ends_example :
    (made : Bytes) × (generate fives 45 (codes "alnum")
      ≡ generated made (record alnum_profile { strength_bits = strength alnum_profile }))
unfolding get equal limit
generate_ends_example =
    generate_ends fives 45 (codes "alnum") alnum_profile refl (omega arith)
      (λ i. (filled 64 5, refl, refl))

generate-IsValueOf_example :
    (length (filled 44 (b'F')) ≡ 44)
    × (all (in_alphabet alnum_profile.alphabet) (filled 44 (b'F')) ≡ true)
    × (record alnum_profile { strength_bits = 261 }
        ≡ record alnum_profile { strength_bits = strength alnum_profile })
    × (200 ≤ 261)
unfolding get equal generate vibe_coding_secret_manag.Generator.with_strength
    vibe_coding_secret_manag.Generator.fill_loop vibe_coding_secret_manag.Generator.fill
    vibe_coding_secret_manag.Generator.chosen strength
generate-IsValueOf_example =
    generate-IsValueOf fives 45 (codes "alnum") (filled 44 (b'F')) alnum_profile
      (record alnum_profile { strength_bits = 261 }) refl refl

lookup_message_injective_example : codes "ab" ∷ codes "c" ∷ [] ≡ codes "ab" ∷ codes "c" ∷ []
unfolding has_byte
lookup_message_injective_example =
    lookup_message_injective (codes "ab" ∷ codes "c" ∷ []) (codes "ab" ∷ codes "c" ∷ [])
      (refl, (refl, tt)) (refl, (refl, tt)) refl

derive_kek_iff_example :
    (derive_kek toy (codes "password") (filled 16 7) default_kdf_params
      ≡ ok (codes "password" ++ filled 16 7))
    ↔ ((1 ≤ 8) × (8 ≤ 4096) × (16 ≤ 16) × (19 * 1024 ≤ 64 * 1024) × (2 ≤ 3) × (1 ≤ 1))
derive_kek_iff_example = derive_kek_iff toy (codes "password") (filled 16 7) default_kdf_params
