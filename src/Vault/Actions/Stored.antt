-- ===== src/Vault/Actions/Stored.antt =====
-- An action that PutAction stores is the one that GetAction returns.
use vibe_coding_secret_manag.Prelude.{
  ℕ, ◌≡◌, refl, sym, ap, subst, ◌∙◌, inl, inr, true, false, [], ◌∷◌, ◌++◌, some, arith, equal,
  equal_refl,
}
use vibe_coding_secret_manag.Outcome.{Result, ok}
use vibe_coding_secret_manag.Model.{Action}
use vibe_coding_secret_manag.Machine.Tables.{action, ObjectRow, Db}
use vibe_coding_secret_manag.Machine.Env.{Env, OpensSealed}
use vibe_coding_secret_manag.Machine.Exec.{KeySet, Machine}
use vibe_coding_secret_manag.Machine.Rules.{
  >>=-elim, pure-ok, copy_keys-ok, transaction-ok, Frame-ok,
}
use vibe_coding_secret_manag.Machine.Triples.{Keeps-after}
use vibe_coding_secret_manag.Vault.Rows.{find_token, find_id, has_clash, change_object}
use vibe_coding_secret_manag.Vault.Keys.{put_action-HasKeys}
use vibe_coding_secret_manag.Vault.Frames.{Frame-prepare_action}
use vibe_coding_secret_manag.Vault.Actions.{action_scope, open_action, put_action, get_action}
use vibe_coding_secret_manag.Vault.Actions.Lookup.{
  find_id-last, find_id-find_token, find_id-map, find_id_is, get_action_found,
}
use vibe_coding_secret_manag.Vault.Secrets.Prepared.{FullReads, change_object-KeepsPlace}
use vibe_coding_secret_manag.Vault.Secrets.Read.{find_token-map, find_token-last}
use vibe_coding_secret_manag.Vault.Actions.Writing.{
  replaced, Written, ReadsAs, Prepared, prepare_action-Prepared, write_action-objects,
}

module _ (env : Env) (keys : KeySet) where
  -- A row that has taken over the sealed action of another opens to the same.
  open_action-change_object :
      (row old : ObjectRow) (revision : ℕ)
      → old.object_id ≡ row.object_id
      → open_action env keys
          (change_object row.metadata_nonce row.metadata_ciphertext row.revision row.updated_at old)
          revision
        ≡ open_action env keys row revision
  unfolding open_action change_object
  open_action-change_object row old revision id = rw id refl

  module _ (up : (n : ℕ) → env.fault n ≡ false) (given : Action) (before : Db)
      (made : Action × ℕ × ObjectRow) (p : Prepared env keys given before made) (t : Machine)
      (unlocked : t.keys ≡ some keys) where
    get_inserted :
        has_clash made.2 before.objects ≡ false
        → t.db.objects ≡ before.objects ++ made.2 ∷ []
        → (get_action env (action_scope given) given.name t).0
          ≡ open_action env keys made.2 made.2.revision
    get_inserted fresh is =
        get_action_found env keys up (action_scope given) given.name t made.2 made.2 unlocked
          (rw (is, sym p.token) (find_token-last action before.objects made.2 p.kind fresh))
          (rw is (find_id-last before.objects made.2 fresh))

    get_replaced :
        (old : ObjectRow)
        → find_token action made.2.lookup_token before.objects ≡ some old
        → made.2.object_id ≡ old.object_id
        → t.db.objects ≡ replaced made.2 before.objects
        → (get_action env (action_scope given) given.name t).0
          ≡ open_action env keys made.2 made.2.revision
    unfolding change_object
    get_replaced old found id is =
        let row = made.2 in
        let change =
          change_object row.metadata_nonce row.metadata_ciphertext row.revision row.updated_at in
        let keeps =
          change_object-KeepsPlace row.metadata_nonce row.metadata_ciphertext row.revision
            row.updated_at in
        let picks = λ (r : ObjectRow). equal r.object_id row.object_id in
        let here : equal old.object_id row.object_id ≡ true = rw id (equal_refl old.object_id) in
        let by_token : find_token action row.lookup_token (replaced row before.objects)
            ≡ some (change old) =
          find_token-map action picks change row.lookup_token before.objects old keeps found
          ∙ rw here refl in
        let (first, there) = find_id-find_token action row.lookup_token before.objects old found in
        let there' : find_id row.object_id before.objects ≡ some first = rw id there in
        let by_id : find_id row.object_id (replaced row before.objects) ≡ some (change first) =
          find_id-map change row.object_id before.objects first keeps there' in
        get_action_found env keys up (action_scope given) given.name t (change old) (change first)
          unlocked (rw (is, sym p.token) by_token)
          (rw is
            (subst (λ j. find_id j (replaced row before.objects) ≡ some (change first)) id by_id))
        ∙ open_action-change_object row first row.revision
            (find_id_is row.object_id before.objects first there')

    get_stored :
        Written made.1 made.2 before t.db
        → (get_action env (action_scope given) given.name t).0
          ≡ open_action env keys made.2 made.2.revision
    get_stored (inl (new, fresh, is)) = get_inserted fresh is
    get_stored (inr (other, is)) = elim p.origin [
      | inl zero ↦ absurd (ground (arith, other, zero))
      | inr (old, found, id) ↦ get_replaced old found id is
    ]

module _ (env : Env) (laws : OpensSealed env) (full : FullReads env)
    (up : (n : ℕ) → env.fault n ≡ false) where
  -- On an unlocked vault, where sealed data opens, random reads are full, no database call fails
  -- for an outside reason and the JSON of the stored action reads back, a PutAction that
  -- succeeds, for a new action or one that is there already, makes GetAction return what it
  -- stored under the scope and name.
  pub get_action-put_action :
      (given stored : Action) (s t : Machine) (keys : KeySet)
      → s.keys ≡ some keys
      → ReadsAs env stored
      → put_action env given s ≡ (ok stored, t)
      → (get_action env (action_scope given) given.name t).0 ≡ ok stored
  unfolding put_action
  get_action-put_action given stored s t keys unlocked reads h =
      >>=-elim _ _ _ _ h λ keys' s1 e1 h1. >>=-elim _ _ _ _ h1 λ made s2 e2 h2.
        >>=-elim _ _ _ _ h2 λ done s3 e3 h3.
          let (opened, s1_is) = copy_keys-ok s s1 keys' e1 in
          let same : keys' ≡ keys = cc in
          let p = prepare_action-Prepared env keys' laws full given s1 s2 made e2 in
          let like = Frame-ok (Frame-prepare_action env keys' given) e2 in
          let (s', t', ran, began, ended) = transaction-ok env _ s2 s3 done e3 in
          let written = write_action-objects env keys' made.1 made.2 s' t' ran in
          let end : t.db ≡ t'.db = ap (λ (m : Machine). m.db) (pure-ok h3).1 ∙ ended.db in
          let start : s'.db ≡ s1.db = began.db ∙ like.db in
          let still : t.keys ≡ some keys' =
            subst (λ (m : Machine). m.keys ≡ some keys')
              (ap (λ (r : Result Action × Machine). r.1) h)
              (Keeps-after (put_action-HasKeys env given) s opened) in
          let found = get_stored env keys' up given s1.db made p t still (
            subst (λ d. Written made.1 made.2 d t.db) start
              (subst (Written made.1 made.2 s'.db) (sym end) written)) in
          let is : stored ≡ made.0 = (pure-ok h3).0 in
          found ∙ p.opens (subst (ReadsAs env) is reads) ∙ ap (λ (a : Action). ok a) (sym is)
