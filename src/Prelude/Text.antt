-- ===== src/Prelude/Text.antt =====
-- Byte strings: Go's `string` and `[]byte` as lists of byte values.
use Prim.Native.Nat.{ℕ}
use Prim.Native.Char.{code}
use Prim.Native.String.{String}
use mathlib.Core.Path.{◌≡◌, refl}
use mathlib.Core.Logic.{◌↔◌}
use mathlib.Core.Bool.{Bool, true, false, ◌&&◌, ◌||◌}
use mathlib.Core.List.{List, [], ◌∷◌, ◌++◌}
use native.Mathlib.Omega.{arith}
use vibe_coding_secret_manag.Prelude.Tests.{ltb, ◌==◌}

abbrev pub Bytes : Type 0
Bytes = List ℕ

-- The bytes of an ASCII literal.
abbrev pub codes : String → Bytes
codes String.[] = []
codes (String.◌∷◌ c s) = code c ∷ codes s

-- bytes.Equal, and == on strings
unfoldable pub equal : Bytes → Bytes → Bool
equal [] [] = true
equal (x ∷ a) (y ∷ b) = x == y && equal a b
equal _ _ = false

pub equal_iff : (s t : Bytes) → (equal s t ≡ true) ↔ (s ≡ t)
unfolding equal
equal_iff [] [] = ground arith
equal_iff [] (d ∷ t) = ground arith
equal_iff (c ∷ s) [] = ground arith
equal_iff (c ∷ s) (d ∷ t) = ground (arith, equal_iff s t)

pub equal_refl : (a : Bytes) → equal a a ≡ true
equal_refl a = (equal_iff a a).1 refl

-- The order of byte strings, which is Go's < and SQLite's order of TEXT.
unfoldable pub text_ltb : Bytes → Bytes → Bool
text_ltb s [] = false
text_ltb [] (d ∷ t) = true
text_ltb (c ∷ s) (d ∷ t) = ltb c d || c == d && text_ltb s t

-- bytes.HasPrefix(s, u)
unfoldable pub is_prefix : Bytes → Bytes → Bool
is_prefix [] s = true
is_prefix (x ∷ u) [] = false
is_prefix (x ∷ u) (c ∷ s) = x == c && is_prefix u s

-- bytes.Contains(s, u)
unfoldable pub contains : Bytes → Bytes → Bool
contains u [] = is_prefix u []
contains u (c ∷ s) = is_prefix u (c ∷ s) || contains u s

-- bytes.IndexByte(s, b) >= 0
unfoldable pub has_byte : ℕ → Bytes → Bool
has_byte b [] = false
has_byte b (c ∷ s) = c == b || has_byte b s

pub has_byte-append : (b : ℕ) (s t : Bytes) → has_byte b (s ++ t) ≡ has_byte b s || has_byte b t
unfolding has_byte
has_byte-append b [] t = refl
has_byte-append b (c ∷ s) t = ground (arith, has_byte-append b s t)

-- Texts with no `b` are read back from in front of a `b`.
pub split_at_byte :
    (b : ℕ) (s t u v : Bytes)
    → has_byte b s ≡ false
    → has_byte b t ≡ false
    → s ++ b ∷ u ≡ t ++ b ∷ v
    → (s ≡ t) × (u ≡ v)
unfolding has_byte
split_at_byte b [] [] u v hs ht e = (refl, cc)
split_at_byte b [] (d ∷ t) u v hs ht e = ground arith
split_at_byte b (c ∷ s) [] u v hs ht e = ground arith
split_at_byte b (c ∷ s) (d ∷ t) u v hs ht e =
    let (p, q) = split_at_byte b s t u v (ground arith) (ground arith) (cc) in (ground arith, q)
