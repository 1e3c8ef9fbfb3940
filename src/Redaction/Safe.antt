-- ===== src/Redaction/Safe.antt =====
-- What the replacement leaves of a value.
use vibe_coding_secret_manag.Redaction.Replace.{replace_from}
use vibe_coding_secret_manag.Redaction.{marker, replace_all}
use vibe_coding_secret_manag.Prelude.{
  ℕ, zero, suc, ◌-◌, ◌<◌, ◌≡◌, refl, inl, inr, true, false, [], ◌∷◌, ◌++◌, arith, length, Bytes,
  codes, is_prefix, contains, has_byte, Bool-cases,
}

is_prefix-nil : (u : Bytes) → 0 < length u → is_prefix u [] ≡ false
unfolding is_prefix
is_prefix-nil [] h = absurd (omega arith)
is_prefix-nil (c ∷ u) h = refl

-- A match without the byte `b` does not go past it.
is_prefix_before :
    (u x : Bytes) (b : ℕ) (t : Bytes)
    → has_byte b u ≡ false
    → is_prefix u (x ++ b ∷ t) ≡ true
    → is_prefix u x ≡ true
unfolding is_prefix has_byte
is_prefix_before [] x b t hb h = refl
is_prefix_before (c ∷ u) [] b t hb h = ground arith
is_prefix_before (c ∷ u) (d ∷ x) b t hb h = ground (arith, is_prefix_before u x b t)

contains_around :
    (u x : Bytes) (b : ℕ) (t : Bytes)
    → 0 < length u
    → has_byte b u ≡ false
    → contains u x ≡ false
    → contains u t ≡ false
    → contains u (x ++ b ∷ t) ≡ false
unfolding contains
contains_around u [] b t pos hb hx ht = ground (arith, is_prefix_before u [] b t hb)
contains_around u (c ∷ x) b t pos hb hx ht =
    ground (arith, is_prefix_before u (c ∷ x) b t hb, contains_around u x b t pos hb)

module _ (v : Bytes) (opening : has_byte b'[' v ≡ false) where
  -- A match in the replaced text was one in the text.
  is_prefix-replace_from :
      (u s : Bytes)
      → has_byte b'[' u ≡ false
      → is_prefix u (replace_from v marker 0 s) ≡ true
      → is_prefix u s ≡ true
  unfolding replace_from is_prefix has_byte
  is_prefix-replace_from [] s hb h = refl
  is_prefix-replace_from (c ∷ u) [] hb h = h
  is_prefix-replace_from (c ∷ u) (d ∷ s) hb h = elim (Bool-cases (is_prefix v (d ∷ s))) [
    | inl hit ↦
        let h' : is_prefix (c ∷ u) (marker ++ replace_from v marker (length v - 1) s) ≡ true =
          rw hit at h in
        ground arith
    | inr miss ↦
        let h' : is_prefix (c ∷ u) (d ∷ replace_from v marker 0 s) ≡ true = rw miss at h in
        ground (arith, is_prefix-replace_from u s)
  ]

  contains-replace_from :
      0 < length v
      → has_byte b']' v ≡ false
      → contains v (codes "REDACTED") ≡ false
      → (k : ℕ) (s : Bytes) → contains v (replace_from v marker k s) ≡ false
  unfolding replace_from contains
  contains-replace_from pos closing inner k [] = is_prefix-nil v pos
  contains-replace_from pos closing inner (suc k) (c ∷ s) =
      contains-replace_from pos closing inner k s
  contains-replace_from pos closing inner zero (c ∷ s) = elim (Bool-cases (is_prefix v (c ∷ s))) [
    | inl hit ↦ rw hit (
        contains_around v [] b'[' _ pos opening (is_prefix-nil v pos) (
          contains_around v (codes "REDACTED") b']' _ pos closing inner
            (contains-replace_from pos closing inner (length v - 1) s)))
    | inr miss ↦ rw miss (elim (Bool-cases (is_prefix v (c ∷ replace_from v marker 0 s))) [
      | inl found ↦ absurd (cc (miss, is_prefix-replace_from v (c ∷ s) opening (rw miss found)))
      | inr clean ↦ rw clean (contains-replace_from pos closing inner 0 s)
    ])
  ]

-- Replacing a value that holds no bracket and is no part of the word REDACTED leaves no occurrence
-- of it.
pub contains-replace_all :
    (v s : Bytes)
    → 0 < length v
    → has_byte b'[' v ≡ false
    → has_byte b']' v ≡ false
    → contains v (codes "REDACTED") ≡ false
    → contains v (replace_all v marker s) ≡ false
unfolding replace_all
contains-replace_all v s pos opening closing inner =
    contains-replace_from v opening pos closing inner 0 s
