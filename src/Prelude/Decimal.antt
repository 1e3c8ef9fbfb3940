-- ===== src/Prelude/Decimal.antt =====
-- What `%d` prints of a number that is not negative.
use Prim.Native.Nat.{ℕ, zero, suc, ◌+◌, ◌-◌, ◌*◌, ◌/◌, ◌%◌, ◌<◌}
use mathlib.Core.Path.{◌≡◌, refl, sym, ap, ◌∙◌}
use mathlib.Core.Logic.{inl, inr}
use mathlib.Core.List.{[], ◌∷◌, ◌++◌}
use native.Mathlib.Omega.{arith}
use vibe_coding_secret_manag.Prelude.Tests.{ltb, if◌then◌else◌, Bool-cases, ltb→ge}
use vibe_coding_secret_manag.Prelude.Text.{Bytes}

digits_of : ℕ → ℕ → Bytes
digits_of zero n = []
digits_of (suc fuel) n =
    let front = digits_of fuel (n / 10) in
    if ltb n 10 then (48 + n) ∷ [] else front ++ (48 + n % 10) ∷ []

-- A number has at most as many digits as it counts, and one.
unfoldable pub decimal : ℕ → Bytes
unfolding digits_of
decimal n = digits_of (suc n) n

abbrev read : ℕ → Bytes → ℕ
read acc [] = acc
read acc (c ∷ s) = read (acc * 10 + (c - 48)) s

read-snoc : (acc : ℕ) (s : Bytes) (c : ℕ) → read acc (s ++ c ∷ []) ≡ read acc s * 10 + (c - 48)
read-snoc acc [] c = refl
read-snoc acc (d ∷ s) c = read-snoc (acc * 10 + (d - 48)) s c

read-digits_of : (fuel n : ℕ) → n < fuel → read 0 (digits_of fuel n) ≡ n
unfolding digits_of
read-digits_of zero n h = absurd (omega arith)
read-digits_of (suc fuel) n h = elim (Bool-cases (ltb n 10)) [
  | inl small ↦ rw small (omega arith)
  | inr large ↦
      let ge = ltb→ge n 10 large in
      rw large (
        read-snoc 0 (digits_of fuel (n / 10)) (48 + n % 10)
        ∙ omega (arith, read-digits_of fuel (n / 10) (omega arith)))
]

-- Different numbers are printed differently.
pub decimal_injective : (m n : ℕ) → decimal m ≡ decimal n → m ≡ n
unfolding decimal
decimal_injective m n e =
    sym (read-digits_of (suc m) m (omega arith))
    ∙ ap (read 0) e
    ∙ read-digits_of (suc n) n (omega arith)
