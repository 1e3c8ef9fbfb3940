-- ===== src/Machine/Rules.antt =====
-- Rules for code on the machine: what a step that succeeds has done, which steps leave the tables
-- alone, and which leave them alone where they fail.
use vibe_coding_secret_manag.Prelude.{
  ℕ, ◌+◌, ◌≡◌, refl, sym, ap, subst, ◌∙◌, Bool, true, false, some, arith, if◌then◌else◌,
}
use vibe_coding_secret_manag.Outcome.{Error, Result, ok, err}
use vibe_coding_secret_manag.Machine.Tables.{Db}
use vibe_coding_secret_manag.Machine.Env.{Env}
use vibe_coding_secret_manag.Machine.Exec.{
  KeySet, Machine, Run, Exec, pure, lift, draw, clock, query, statement, transaction, copy_keys,
  no_rows_as, ◌>>=◌,
}

module _ {S A B : Type 0} where
  -- A block that succeeds has succeeded in its first step and in the rest.
  pub >>=-ok :
      (m : Run S A) (f : A → Run S B) (s t : S) (b : B)
      → (m >>= f) s ≡ (ok b, t)
      → (a : A) × (u : S) × (m s ≡ (ok a, u)) × (f a u ≡ (ok b, t))
  unfolding ◌>>=◌
  >>=-ok m f s t b h = go (m s).0 (m s).1 refl
    where
      go :
          (r : Result A) (u : S)
          → m s ≡ (r, u)
          → (a : A) × (u : S) × (m s ≡ (ok a, u)) × (f a u ≡ (ok b, t))
      go (ok a) u e = (a, u, e, rw (e, ◌>>=◌) at h)
      go (err x) u e = absurd (let bad : (err x, u) ≡ (ok b, t) = rw (e, ◌>>=◌) at h in cc)

  -- The same for a proof that goes on from there.
  pub >>=-elim :
      {P : Type 0} (m : Run S A) (f : A → Run S B) (s t : S) {b : B}
      → (m >>= f) s ≡ (ok b, t)
      → ((a : A) (u : S) → m s ≡ (ok a, u) → f a u ≡ (ok b, t) → P)
      → P
  >>=-elim m f s t h k = let (a, u, e, h') = >>=-ok m f s t _ h in k a u e h'

module _ {S A : Type 0} where
  pub lift-ok : (r : Result A) {s t : S} {a : A} → lift r s ≡ (ok a, t) → (r ≡ ok a) × (t ≡ s)
  unfolding lift
  lift-ok r h = (cc, cc)

  pub pure-ok : {a b : A} {s t : S} → pure a s ≡ (ok b, t) → (b ≡ a) × (t ≡ s)
  unfolding pure
  pure-ok h = (cc, cc)

module _ {A : Type 0} where
  -- A statement that succeeds has made the change that it describes.
  pub statement-ok :
      (env : Env) (q : Db → Result (A × Db)) (s t : Machine) (a : A)
      → statement env q s ≡ (ok a, t)
      → (q s.db ≡ ok (a, t.db)) × (t.keys ≡ s.keys)
  unfolding statement
  statement-ok env q s t a h = go (q s.db) refl
    where
      go : (r : Result (A × Db)) → q s.db ≡ r → (q s.db ≡ ok (a, t.db)) × (t.keys ≡ s.keys)
      go (ok (b, db)) e = ground arith
      go (err x) e = ground arith

pub copy_keys-ok :
    (s t : Machine) (keys : KeySet) → copy_keys s ≡ (ok keys, t) → (s.keys ≡ some keys) × (t ≡ s)
unfolding copy_keys
copy_keys-ok s t keys h = (ground arith, ground arith)

-- Two states with the same tables and keys.
pub record Alike (s t : Machine) : Type 0 where
  pub db : t.db ≡ s.db
  pub keys : t.keys ≡ s.keys

pub Alike-refl : (s : Machine) → Alike s s
Alike-refl s = record { db = refl; keys = refl }

pub Alike-trans : {s t u : Machine} → Alike s t → Alike t u → Alike s u
Alike-trans p q = record { db = q.db ∙ p.db; keys = q.keys ∙ p.keys }

-- A step that changes neither the tables nor the keys, whether it succeeds or not.
pub record Frame {A : Type 0} (m : Exec A) : Type 0 where
  pub at : (s : Machine) → Alike s (m s).1

module _ {A : Type 0} where
  pub Frame-pure : (a : A) → Frame (pure a)
  unfolding pure
  Frame-pure a = record { at = λ s. Alike-refl s }

  pub Frame-lift : (r : Result A) → Frame (lift r)
  unfolding lift
  Frame-lift r = record { at = λ s. Alike-refl s }

  pub Frame-query : (env : Env) (q : Db → Result A) → Frame (query env q)
  unfolding query
  Frame-query env q = record { at = λ s. ground arith }

  pub Frame-no_rows_as : (e : Error) {m : Exec A} → Frame m → Frame (no_rows_as e m)
  unfolding no_rows_as
  Frame-no_rows_as e {m} f = record { at = λ s. ground (arith, f.at s) }

  pub Frame-if : (b : Bool) {m n : Exec A} → Frame m → Frame n → Frame (if b then m else n)
  Frame-if true p q = p
  Frame-if false p q = q

  -- What a step left that leaves the state alike.
  pub Frame-ok : {m : Exec A} {s t : Machine} {a : A} → Frame m → m s ≡ (ok a, t) → Alike s t
  Frame-ok {s = s} f e = rw e at (f.at s)

pub Frame-draw : (env : Env) (size : ℕ) → Frame (draw env size)
unfolding draw
Frame-draw env size = record { at = λ s. ground arith }

pub Frame-clock : (env : Env) → Frame (clock env)
unfolding clock
Frame-clock env = record { at = λ s. record { db = refl; keys = refl } }

pub Frame-copy_keys : Frame copy_keys
unfolding copy_keys
Frame-copy_keys = record { at = λ s. ground arith }

module _ {A B : Type 0} where
  pub Frame-bind :
      {m : Exec A} {f : A → Exec B} → Frame m → ((a : A) → Frame (f a)) → Frame (m >>= f)
  unfolding ◌>>=◌
  Frame-bind {m} {f} p q = record { at = λ s. go s (m s).0 (m s).1 refl }
    where
      go : (s : Machine) (r : Result A) (u : Machine) → m s ≡ (r, u) → Alike s ((m >>= f) s).1
      go s (ok a) u e =
          let first : Alike s u = rw e at (p.at s) in
          let second : Alike u (f a u).1 = (q a).at u in rw (e, ◌>>=◌) (Alike-trans first second)
      go s (err x) u e = rw (e, ◌>>=◌) (rw e at (p.at s))

-- A transaction that succeeds has run its statements on the tables as they were.
pub transaction-ok :
    {A : Type 0} (env : Env) (body : Exec A) (s t : Machine) (a : A)
    → transaction env body s ≡ (ok a, t)
    → (s' t' : Machine) × (body s' ≡ (ok a, t')) × Alike s s' × Alike t' t
unfolding transaction
transaction-ok {A} env body s t a h = go (body begun).0 (body begun).1 refl
  where
    begun : Machine
    begun = record s { calls = s.calls + 1 }

    go :
        (r : Result A) (u : Machine)
        → body begun ≡ (r, u)
        → (s' t' : Machine) × (body s' ≡ (ok a, t')) × Alike s s' × Alike t' t
    go (ok b) u e = (begun, u, ground arith, record { db = refl; keys = refl }, ground arith)
    go (err x) u e = absurd (ground arith)

pub query-ok :
    {A : Type 0} (env : Env) (q : Db → Result A) (s t : Machine) {a : A}
    → query env q s ≡ (ok a, t)
    → q s.db ≡ ok a
unfolding query
query-ok env q s t h = ground arith

-- A transaction of an unlocked vault that succeeds has run its statements with the keys.
pub keyed_transaction-ok :
    {A : Type 0} (env : Env) (body : KeySet → Exec A) (keys : KeySet) (s t : Machine) (a : A)
    → s.keys ≡ some keys
    → (copy_keys >>= λ k. transaction env (body k)) s ≡ (ok a, t)
    → (s' t' : Machine) × (body keys s' ≡ (ok a, t')) × Alike s s' × Alike t' t
keyed_transaction-ok env body keys s t a k h = >>=-elim _ _ _ _ h λ found u e h'.
    let (fk, fu) = copy_keys-ok s u found e in
    let same : found ≡ keys = cc in
    let (s', t', ran, before, after) = transaction-ok env (body found) u t a h' in
    (s', t', subst (λ k. body k s' ≡ (ok a, t')) same ran, subst (λ m. Alike m s') fu before, after)

pub ruleset frame_rules = (
  Frame-pure, Frame-lift, Frame-query, Frame-no_rows_as, Frame-if, Frame-draw, Frame-clock,
  Frame-copy_keys, Frame-bind,
)

-- A step that leaves the tables as they were where it fails.
pub record IsAtomic {A : Type 0} (m : Exec A) : Type 0 where
  pub at : (s t : Machine) (e : Error) → m s ≡ (err e, t) → t.db ≡ s.db

module _ {A : Type 0} where
  pub Frame-IsAtomic : {m : Exec A} → Frame m → IsAtomic m
  Frame-IsAtomic f = record {
    at = λ s t e h. sym (ap (λ (r : Result A × Machine). r.1.db) h) ∙ (f.at s).db;
  }

  pub transaction-IsAtomic : (env : Env) (body : Exec A) → IsAtomic (transaction env body)
  unfolding transaction
  transaction-IsAtomic env body = record { at = λ s t e h. ground arith }

module _ {A B : Type 0} where
  -- A failing step, with what comes before it, where nothing that comes after it fails.
  pub IsAtomic-bind :
      {m : Exec A} {f : A → Exec B} → Frame m → ((a : A) → IsAtomic (f a)) → IsAtomic (m >>= f)
  unfolding ◌>>=◌
  IsAtomic-bind {m} {f} p q = record { at = λ s t x h. go s t x (m s).0 (m s).1 refl h }
    where
      go :
          (s t : Machine) (x : Error) (r : Result A) (u : Machine)
          → m s ≡ (r, u)
          → (m >>= f) s ≡ (err x, t)
          → t.db ≡ s.db
      go s t x (ok a) u e h =
          let first : Alike s u = rw e at (p.at s) in (q a).at u t x (rw (e, ◌>>=◌) at h) ∙ first.db
      go s t x (err y) u e h =
          let same : ◌≡◌ {A = Result B × Machine} (err y, u) (err x, t) = rw (e, ◌>>=◌) at h in
          let first : Alike s u = rw e at (p.at s) in cc first.db

  pub IsAtomic-then_pure : {m : Exec A} (g : A → B) → IsAtomic m → IsAtomic (m >>= λ a. pure (g a))
  unfolding ◌>>=◌
  IsAtomic-then_pure {m} g p = record { at = λ s t x h. go s t x (m s).0 (m s).1 refl h }
    where
      go :
          (s t : Machine) (x : Error) (r : Result A) (u : Machine)
          → m s ≡ (r, u)
          → (m >>= λ a. pure (g a)) s ≡ (err x, t)
          → t.db ≡ s.db
      go s t x (ok a) u e h =
          let bad : ◌≡◌ {A = Result B × Machine} (ok (g a), u) (err x, t) = rw (e, ◌>>=◌) at h in
          absurd (cc)
      go s t x (err y) u e h =
          let same : ◌≡◌ {A = Result B × Machine} (err y, u) (err x, t) = rw (e, ◌>>=◌) at h in
          let u' : t ≡ u = cc in rw u' (p.at s u y e)
