-- ===== src/Generator/Uniform.antt =====
-- Rejection sampling avoids modulo bias.
use native.Mathlib.Nat.{mul-add-mod_self_right, mod-le, div-add-mod', mod-lt, mod-eq_of_lt}
use vibe_coding_secret_manag.Generator.{limit, chosen}
use vibe_coding_secret_manag.Prelude.{
  ℕ, zero, suc, ◌+◌, ◌*◌, ◌/◌, ◌%◌, ◌≤◌, ◌<◌, ◌≡◌, refl, Bool, false, none, some, arith, leb, ◌==◌,
  if◌then◌else◌, ◌∙◌,
}

abbrev pub chooses : ℕ → ℕ → ℕ → Bool
chooses n j c = elim (chosen n c) [ none ↦ false | some i ↦ i == j ]

-- How many of the first `m` bytes choose the letter at index `j`, of `n`.
abbrev pub ways : ℕ → ℕ → ℕ → ℕ
ways n j zero = 0
ways n j (suc m) = (if chooses n j m then 1 else 0) + ways n j m

residues : ℕ → ℕ → ℕ → ℕ
residues n j zero = 0
residues n j (suc m) = (if m % n == j then 1 else 0) + residues n j m

module _ (n j : ℕ) (in_range : j < n) where
  residues_block :
      (q r : ℕ)
      → r ≤ n
      → residues n j (q * n + r) ≡ residues n j (q * n) + (if leb r j then 0 else 1)
  unfolding residues
  residues_block q zero h = let e : q * n + 0 ≡ q * n = omega arith in rw e (ground arith)
  residues_block q (suc r) h =
      let e : q * n + suc r ≡ suc (q * n + r) = omega arith in
      let m : (q * n + r) % n ≡ r = mul-add-mod_self_right q n r ∙ mod-eq_of_lt h in
      rw e (ground (arith, residues_block q r))

  residues_blocks : (q : ℕ) → residues n j (q * n) ≡ q
  unfolding residues
  residues_blocks zero = let e : 0 * n ≡ 0 = omega arith in rw e
  residues_blocks (suc q) =
      let e : suc q * n ≡ q * n + n = omega arith in
      rw e (ground (arith, residues_block q n, residues_blocks q))

module _ (n j : ℕ) where
  ways_below : (m : ℕ) → m ≤ limit n → ways n j m ≡ residues n j m
  unfolding residues chosen
  ways_below zero h = refl
  ways_below (suc m) h = ground (arith, ways_below m)

  ways_above : (k : ℕ) → ways n j (k + limit n) ≡ ways n j (limit n)
  unfolding chosen
  ways_above zero = let e : 0 + limit n ≡ limit n = omega arith in rw e
  ways_above (suc k) =
      let e : suc k + limit n ≡ suc (k + limit n) = omega arith in
      rw e (ground (arith, ways_above k))

-- Of the 256 values of a candidate byte, each letter of an alphabet of 1 to 256 letters is chosen
-- by equally many, as many as fit.
pub ways_uniform : (n j : ℕ) → n ≤ 256 → j < n → ways n j 256 ≡ 256 / n
unfolding limit
ways_uniform n j byte_sized in_range =
    let le = mod-lt 256 {m = n} (omega arith) in
    let cut : limit n ≡ 256 / n * n = omega (arith, div-add-mod' 256 n) in
    let e : 256 % n + limit n ≡ 256 = omega (arith, mod-le 256 n) in
    rw e at (ways_above n j (256 % n))
    ∙ ways_below n j (limit n) (omega arith)
    ∙ rw cut (residues_blocks n j in_range (256 / n))
