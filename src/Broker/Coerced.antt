-- ===== src/Broker/Coerced.antt =====
-- What encoding/json makes of an output that is not UTF-8, for the eventWriter of
-- internal/broker/broker.go.
use vibe_coding_secret_manag.Prelude.{
  ℕ, ◌≤◌, ◌<◌, ◌≡◌, refl, true, false, [], ◌∷◌, ◌++◌, append_assoc, arith, Bytes, is_prefix,
  contains, Bool-cases, inl, inr,
}

-- Bytes of an ASCII text, and bytes behind ASCII.
abbrev pub IsAscii : Bytes → Type 0
IsAscii [] = Unit {0}
IsAscii (c ∷ s) = (c < 128) × IsAscii s

abbrev pub IsHigh : Bytes → Type 0
IsHigh [] = Unit {0}
IsHigh (c ∷ s) = (128 ≤ c) × IsHigh s

-- The second text is the first one, but that any byte behind ASCII may have become others behind ASCII:
-- a byte that is not UTF-8 becomes those of U+FFFD.
pub data Coerced : Bytes → Bytes → Type 0 where
  nothing_left : Coerced [] []
  kept : {c : ℕ} {s t : Bytes} → c < 128 → Coerced s t → Coerced (c ∷ s) (c ∷ t)
  replaced :
      {c d : ℕ} {s t : Bytes} (more : Bytes)
      → 128 ≤ c
      → 128 ≤ d
      → IsHigh more
      → Coerced s t
      → Coerced (c ∷ s) (d ∷ (more ++ t))

-- What encoding/json does to a text.
pub record Coerces (as_text : Bytes → Bytes) : Type 0 where
  pub coerced : (s : Bytes) → Coerced s (as_text s)

pub Coerced-append : (s t u v : Bytes) → Coerced s t → Coerced u v → Coerced (s ++ u) (t ++ v)
Coerced-append [] [] u v nothing_left q = q
Coerced-append [] (d ∷ t) u v p q = elim p [ ]
Coerced-append (c ∷ s) _ u v (kept {t = t} low p) q = kept low (Coerced-append s t u v p q)
Coerced-append (c ∷ s) (d ∷ _) u v (replaced {t = t} more high other highs p) q =
    rw (append_assoc more t v) (replaced more high other highs (Coerced-append s t u v p q))

Coerced-is_prefix :
    (x s t : Bytes) → IsAscii x → Coerced s t → is_prefix x t ≡ true → is_prefix x s ≡ true
unfolding is_prefix
Coerced-is_prefix [] s t ascii p h = refl
Coerced-is_prefix (a ∷ x) [] [] ascii nothing_left h = h
Coerced-is_prefix (a ∷ x) [] (d ∷ t) ascii p h = elim p [ ]
Coerced-is_prefix (a ∷ x) (c ∷ s) _ ascii (kept {t = t} low p) h =
    ground (arith, Coerced-is_prefix x s t ascii.1 p)
Coerced-is_prefix (a ∷ x) (c ∷ s) (d ∷ _) ascii (replaced more high other highs p) h =
    absurd (ground (arith, ascii.0))

-- An ASCII text does not begin within the others.
contains-high :
    (a : ℕ) (x more t : Bytes)
    → a < 128
    → IsHigh more
    → contains (a ∷ x) (more ++ t) ≡ true
    → contains (a ∷ x) t ≡ true
unfolding contains is_prefix
contains-high a x [] t low highs h = h
contains-high a x (c ∷ more) t low highs h =
    contains-high a x more t low highs.1 (ground (arith, highs.0))

Coerced-contains_found :
    (a : ℕ) (x s t : Bytes)
    → IsAscii (a ∷ x)
    → Coerced s t
    → contains (a ∷ x) t ≡ true
    → contains (a ∷ x) s ≡ true
unfolding contains
Coerced-contains_found a x [] [] ascii nothing_left h = h
Coerced-contains_found a x [] (d ∷ t) ascii p h = elim p [ ]
Coerced-contains_found a x (c ∷ s) _ ascii (kept {t = t} low p) h = ground (
  arith,
  Coerced-contains_found a x s t ascii p,
  Coerced-is_prefix (a ∷ x) (c ∷ s) (c ∷ t) ascii (kept low p),
)
Coerced-contains_found a x (c ∷ s) (d ∷ _) ascii (replaced {t = t} more high other highs p) h =
    let later =
      Coerced-contains_found a x s t ascii p
        (contains-high a x (d ∷ more) t ascii.0 (other, highs) h) in
    ground (arith, later)

-- An ASCII text that is not in the output is not in what is made of the output.
pub Coerced-contains :
    (a : ℕ) (x s t : Bytes)
    → IsAscii (a ∷ x)
    → Coerced s t
    → contains (a ∷ x) s ≡ false
    → contains (a ∷ x) t ≡ false
Coerced-contains a x s t ascii p h = elim (Bool-cases (contains (a ∷ x) t)) [
  | inl e ↦ absurd (let bad = Coerced-contains_found a x s t ascii p e in cc)
  | inr e ↦ e
]
