-- ===== src/Machine/Triples.antt =====
-- Triples for runs: from states with `P`, a run that succeeds ends with `Q`, and one that fails with
-- `E`.
use vibe_coding_secret_manag.Prelude.{◌≡◌, refl, Bool, true, false, if◌then◌else◌}
use vibe_coding_secret_manag.Outcome.{Result, ok, err}
use vibe_coding_secret_manag.Machine.Exec.{Run, pure, lift, ◌>>=◌}

module _ {S A : Type 0} where
  abbrev pub Ends : (A → S → Type 0) → (S → Type 0) → Result A × S → Type 0
  Ends Q E (ok a, s) = Q a s
  Ends Q E (err e, s) = E s

  pub record Triple (P : S → Type 0) (m : Run S A) (Q : A → S → Type 0) (E : S → Type 0)
      : Type 0 where
    pub at : (s : S) → P s → Ends Q E (m s)

  -- A run that keeps `P`, whether it succeeds or fails.
  abbrev pub Keeps : (S → Type 0) → Run S A → Type 0
  Keeps P m = Triple P m (λ a. P) P

module _ {S A : Type 0} {P : S → Type 0} where
  pub Keeps-pure : (a : A) → Keeps P (pure a)
  unfolding pure
  Keeps-pure a = record { at = λ s p. p }

  pub Keeps-lift : (r : Result A) → Keeps P (lift r)
  unfolding lift
  Keeps-lift (ok a) = record { at = λ s p. p }
  Keeps-lift (err e) = record { at = λ s p. p }

  pub Keeps-if : (b : Bool) {m n : Run S A} → Keeps P m → Keeps P n → Keeps P (if b then m else n)
  Keeps-if true p q = p
  Keeps-if false p q = q

  -- What holds of the state that a run ends in.
  pub Keeps-after : {m : Run S A} → Keeps P m → (s : S) → P s → P (m s).1
  Keeps-after {m} k s p = go (m s) (k.at s p)
    where
      go : (r : Result A × S) → Ends (λ a. P) P r → P r.1
      go (ok a, t) h = h
      go (err e, t) h = h

  pub Keeps-from : {m : Run S A} → ((s : S) → P s → P (m s).1) → Keeps P m
  Keeps-from {m} k = record { at = λ s p. go (m s) (k s p) }
    where
      go : (r : Result A × S) → P r.1 → Ends (λ a. P) P r
      go (ok a, t) h = h
      go (err e, t) h = h

module _ {S A B : Type 0} {P : S → Type 0} {Q : A → S → Type 0} {R : B → S → Type 0}
    {E : S → Type 0} where
  pub Triple-bind :
      {m : Run S A} {f : A → Run S B}
      → Triple P m Q E
      → ((a : A) → Triple (Q a) (f a) R E)
      → Triple P (m >>= f) R E
  unfolding ◌>>=◌
  Triple-bind {m} {f} p q = record { at = λ s h. go s (m s).0 (m s).1 refl (p.at s h) }
    where
      go : (s : S) (r : Result A) (t : S) → m s ≡ (r, t) → Ends Q E (m s) → Ends R E ((m >>= f) s)
      go s (ok a) t e h = rw (e, ◌>>=◌) ((q a).at t (rw e at h))
      go s (err x) t e h = rw (e, ◌>>=◌) (let k : E t = rw e at h in k)

module _ {S A B : Type 0} {P : S → Type 0} where
  pub Keeps-bind :
      {m : Run S A} {f : A → Run S B} → Keeps P m → ((a : A) → Keeps P (f a)) → Keeps P (m >>= f)
  Keeps-bind p q = Triple-bind p q

pub ruleset keeping = (Keeps-pure, Keeps-lift, Keeps-if, Keeps-bind)
