-- ===== src/Paths/Home.antt =====
-- The tilde is the home directory.
use vibe_coding_secret_manag.Prelude.{
  ◌≡◌, refl, sym, ap, ◌∙◌, true, [], ◌∷◌, ◌++◌, some, Bytes, codes, equal, is_prefix, arith,
}
use vibe_coding_secret_manag.Paths.{Surroundings, expand_path}

-- Where there is a home directory, ExpandPath of a path behind `~/` is ExpandPath of the same
-- path joined to the home directory, if that starts with a slash.
pub expand_path_home :
    (os : Surroundings) (home rest : Bytes)
    → os.home ≡ some home
    → is_prefix (codes "/") (os.join (home ∷ rest ∷ [])) ≡ true
    → expand_path os (codes "~/" ++ rest) ≡ expand_path os (os.join (home ∷ rest ∷ []))
unfolding expand_path equal is_prefix
expand_path_home os home rest there rooted = go (os.join (home ∷ rest ∷ [])) refl rooted
  where
    go :
        (joined : Bytes)
        → os.join (home ∷ rest ∷ []) ≡ joined
        → is_prefix (codes "/") joined ≡ true
        → expand_path os (codes "~/" ++ rest) ≡ expand_path os joined
    go [] e r = absurd (cc)
    go (c ∷ path) e r =
        let slash : c ≡ 47 = ground (arith, r) in
        let left : expand_path os (codes "~/" ++ rest)
            ≡ some (os.clean (os.expand_env (os.join (home ∷ rest ∷ [])))) =
          rw there refl in
        left
        ∙ ap (λ p. some (os.clean (os.expand_env p))) (e ∙ ap (λ d. d ∷ path) slash)
        ∙ sym (ap (λ d. expand_path os (d ∷ path)) slash)
