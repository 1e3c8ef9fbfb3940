-- ===== src/Generator.antt =====
-- internal/generator/generator.go: secret values drawn from an alphabet by rejection sampling.
-- The operating system's random source is an argument, `read i` being what the i-th call of
-- rand.Read gives: the bytes, or none for an error.
pub mod Range
pub mod Finish
pub mod Uniform
use vibe_coding_secret_manag.Prelude.{
  ℕ, zero, suc, ◌+◌, ◌-◌, ◌*◌, ◌/◌, ◌%◌, ◌^◌, List, [], ◌∷◌, ◌++◌, Bool, true, false, Option, none,
  some, length, get_or, Bytes, codes, equal, ltb, leb, ◌==◌, if◌then◌else◌,
}

pub record Profile : Type 0 where
  pub name : Bytes
  pub alphabet : Bytes
  pub value_length : ℕ
  pub strength_bits : ℕ

abbrev pub default_profile : Profile
default_profile = record {
  name = codes "default";
  alphabet = codes "ABCDEFGHIJKLMNOPQRSTUVWXYZabcdefghijklmnopqrstuvwxyz0123456789-_";
  value_length = 43;
  strength_bits = 258;
}

abbrev pub alnum_profile : Profile
alnum_profile = record {
  name = codes "alnum";
  alphabet = codes "ABCDEFGHIJKLMNOPQRSTUVWXYZabcdefghijklmnopqrstuvwxyz0123456789";
  value_length = 44;
  strength_bits = 262;
}

abbrev pub password_profile : Profile
password_profile = record {
  name = codes "password";
  alphabet = codes "ABCDEFGHJKLMNPQRSTUVWXYZabcdefghijkmnopqrstuvwxyz23456789-_.";
  value_length = 40;
  strength_bits = 238;
}

abbrev pub database_profile : Profile
database_profile = record {
  name = codes "database";
  alphabet = codes "ABCDEFGHIJKLMNOPQRSTUVWXYZabcdefghijklmnopqrstuvwxyz0123456789";
  value_length = 44;
  strength_bits = 262;
}

-- The map `profiles`.
unfoldable pub find_profile : Bytes → Option Profile
find_profile name =
    if equal name (codes "default")
    then some default_profile
    else if equal name (codes "alnum")
    then some alnum_profile
    else if equal name (codes "password")
    then some password_profile
    else if equal name (codes "database")
    then some database_profile
    else none

-- Get; `none` is the error for an unknown profile.
unfoldable pub get : Bytes → Option Profile
unfolding find_profile
get name = find_profile (if length name == 0 then codes "default" else name)

-- The candidates from here on are rejected, for an alphabet of `n` letters.
unfoldable pub limit : ℕ → ℕ
limit n = 256 - 256 % n

-- The index of the letter that a candidate byte chooses.
unfoldable pub chosen : ℕ → ℕ → Option ℕ
unfolding limit
chosen n candidate = if leb (limit n) candidate then none else some (candidate % n)

-- The inner loop over one batch. `value` is the part of the value that has been written.
unfoldable pub fill : Bytes → ℕ → Bytes → Bytes → Bytes
fill alphabet target [] value = value
fill alphabet target (candidate ∷ random) value = elim (chosen (length alphabet) candidate) [
  | none ↦ fill alphabet target random value
  | some i ↦
      let value' = value ++ get_or alphabet i 0 ∷ [] in
      elim (length value' == target) [ true ↦ value' | false ↦ fill alphabet target random value' ]
]

pub data Generated : Type 0 where
  generated : Bytes → Profile → Generated
  unknown_profile random_error out_of_fuel : Generated

-- The outer loop, on fuel: the value is complete, or the next batch is read.
unfoldable pub fill_loop : (ℕ → Option Bytes) → Profile → ℕ → ℕ → Bytes → Generated
fill_loop read p zero i value = out_of_fuel
fill_loop read p (suc fuel) i value = elim (ltb (length value) p.value_length) [
  | false ↦ generated value p
  | true ↦ elim (read i) [
    | none ↦ random_error
    | some random ↦ fill_loop read p fuel (suc i) (fill p.alphabet p.value_length random value)
  ]
]

unfoldable pub floor_log2 : ℕ → ℕ → ℕ
floor_log2 zero n = 0
floor_log2 (suc fuel) n = let rest = floor_log2 fuel (n / 2) in if ltb n 2 then 0 else suc rest

-- floor(Length * log2(len(Alphabet))), as the integer logarithm of len(Alphabet) ^ Length. A byte
-- alphabet has at most 256 letters, so eight halvings for each letter of the value are enough.
unfoldable pub strength : Profile → ℕ
unfolding floor_log2
strength p = floor_log2 (8 * p.value_length + 1) (length p.alphabet ^ p.value_length)

-- `profile.StrengthBits = ...` at the end of Generate.
unfoldable pub with_strength : Generated → Generated
with_strength (generated value p) = generated value (record p { strength_bits = strength p })
with_strength other = other

-- Generate
unfoldable pub generate : (ℕ → Option Bytes) → ℕ → Bytes → Generated
generate read fuel name = elim (get name) [
  | none ↦ unknown_profile
  | some p ↦ with_strength (fill_loop read p fuel 0 [])
]
