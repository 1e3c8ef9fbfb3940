-- ===== src/Machine/Exec.antt =====
-- Code that runs on the machine: it changes the state, and returns a value or an error.
use vibe_coding_secret_manag.Prelude.{ℕ, ◌+◌, Option, none, some, Bytes, if◌then◌else◌}
use vibe_coding_secret_manag.Outcome.{
  Error, locked, disk, no_random, no_rows, unique_violation, Result, ok, err,
}
use vibe_coding_secret_manag.Model.{Time}
use vibe_coding_secret_manag.Machine.Tables.{Db}
use vibe_coding_secret_manag.Machine.Env.{Env}

-- keySet
pub record KeySet : Type 0 where
  pub dek : Bytes
  pub metadata : Bytes
  pub lookup : Bytes
  pub audit : Bytes

-- A Store with its database, and how often each outside source has been asked.
pub record Machine : Type 0 where
  pub db : Db
  pub vault_id : Bytes
  pub keys : Option KeySet
  pub draws : ℕ
  pub ticks : ℕ
  pub calls : ℕ

-- A run on a state `S`.
abbrev pub Run {ℓ} : Type 0 → Type ℓ → Type ℓ
Run S A = S → Result A × S

abbrev pub Exec {ℓ} : Type ℓ → Type ℓ
Exec = Run Machine

module _ {ℓ} {S : Type 0} {A : Type ℓ} where
  unfoldable pub pure : A → Run S A
  pure a s = (ok a, s)

  unfoldable pub raise : Error → Run S A
  raise e s = (err e, s)

  unfoldable pub lift : Result A → Run S A
  lift r s = (r, s)

-- s.copyKeys: the keys, or the error that the vault is locked
unfoldable pub copy_keys : Exec KeySet
copy_keys s = elim s.keys [ none ↦ (err locked, s) | some keys ↦ (ok keys, s) ]

module _ {ℓ} {S : Type 0} {A B : Type ℓ} where
  abbrev continue : Result A → (A → Run S B) → Run S B
  continue (ok a) f s = f a s
  continue (err e) f s = (err e, s)

  infixl 10 ◌>>=◌ ◌>>◌
  unfoldable pub ◌>>=◌ : Run S A → (A → Run S B) → Run S B
  unfolding pure raise lift
  ◌>>=◌ step go s = let (r, after) = step s in continue r go after

  abbrev pub ◌>>◌ : Run S A → Run S B → Run S B
  m >> n = m >>= λ _. n

module _ (env : Env) where
  -- rand.Read, io.ReadFull(rand.Reader, ...)
  unfoldable pub draw : ℕ → Exec Bytes
  draw size s = elim (env.random s.draws size) [
    | none ↦ (err no_random, record s { draws = s.draws + 1 })
    | some bytes ↦ (ok bytes, record s { draws = s.draws + 1 })
  ]

  -- time.Now().UTC()
  unfoldable pub clock : Exec Time
  clock s = (ok (env.now s.ticks), record s { ticks = s.ticks + 1 })

  -- A query on the tables, which may also fail for an outside reason.
  unfoldable pub query {ℓ} : {A : Type ℓ} → (Db → Result A) → Exec A
  query q s =
      let s' = record s { calls = s.calls + 1 } in
      if env.fault s.calls then (err disk, s') else (q s.db, s')

  store_result {ℓ} : {A : Type ℓ} → Machine → Result (A × Db) → Result A × Machine
  store_result s (ok (a, db)) = (ok a, record s { db = db })
  store_result s (err e) = (err e, s)

  -- A statement that changes the tables, or breaks one of their constraints.
  unfoldable pub statement {ℓ} : {A : Type ℓ} → (Db → Result (A × Db)) → Exec A
  unfolding store_result
  statement q s =
      let s' = record s { calls = s.calls + 1 } in
      if env.fault s.calls then (err disk, s') else store_result s' (q s.db)

  -- What `defer tx.Rollback()` leaves of a transaction: all of it, or nothing.
  close_transaction {ℓ} : {A : Type ℓ} → Db → Result A × Machine → Result A × Machine
  close_transaction before (err e, s) = (err e, record s { db = before })
  close_transaction before (ok a, s) =
      let s' = record s { calls = s.calls + 1 } in
      if env.fault s.calls then (err disk, record s' { db = before }) else (ok a, s')

  -- A call into the file system, which may fail.
  unfoldable pub file_call : Exec (Unit {0})
  file_call s =
      let s' = record s { calls = s.calls + 1 } in
      if env.fault s.calls then (err disk, s') else (ok tt, s')

  -- BeginTx, the statements, Commit
  unfoldable pub transaction {ℓ} : {A : Type ℓ} → Exec A → Exec A
  unfolding close_transaction
  transaction body s =
      let s' = record s { calls = s.calls + 1 } in
      if env.fault s.calls then (err disk, s') else close_transaction s.db (body s')

-- The two errors of the database that the vault tells from others.
module _ {ℓ} {A : Type ℓ} where
  rename_no_rows : Error → Result A × Machine → Result A × Machine
  rename_no_rows e (err no_rows, s) = (err e, s)
  rename_no_rows e other = other

  -- errors.Is(err, sql.ErrNoRows)
  unfoldable pub no_rows_as : Error → Exec A → Exec A
  unfolding rename_no_rows
  no_rows_as e m s = rename_no_rows e (m s)

  rename_unique : Error → Result A × Machine → Result A × Machine
  rename_unique e (err unique_violation, s) = (err e, s)
  rename_unique e other = other

  -- an error message that holds the word "unique"
  unfoldable pub unique_as : Error → Exec A → Exec A
  unfolding rename_unique
  unique_as e m s = rename_unique e (m s)
