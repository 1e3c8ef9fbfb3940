-- ===== src/Vault/Context/Apart.antt =====
-- The associated data of ciphertexts in different places differ.
use vibe_coding_secret_manag.Prelude.{
  ℕ, ◌≡◌, refl, ap, true, false, equal, [], ◌∷◌, ◌++◌, Bytes, codes, decimal, has_byte,
  split_at_byte, decimal_injective,
}
use vibe_coding_secret_manag.Machine.Tables.{Kind, secret, action}
use vibe_coding_secret_manag.Vault.Context.{kind_text, object_aad, secret_aad}

prefix_cancel : (p s t : Bytes) → p ++ s ≡ p ++ t → s ≡ t
prefix_cancel [] s t e = e
prefix_cancel (c ∷ p) s t e = prefix_cancel p s t (cc)

kind_text_injective : (kind other : Kind) → kind_text kind ≡ kind_text other → kind ≡ other
unfolding equal
kind_text_injective secret secret e = refl
kind_text_injective action action e = refl
kind_text_injective secret action e =
    let differ : true ≡ false = ap (λ s. equal s (codes "secret")) e in absurd (cc)
kind_text_injective action secret e =
    let differ : true ≡ false = ap (λ s. equal s (codes "action")) e in absurd (cc)

kind_text_plain : (kind : Kind) → has_byte b':' (kind_text kind) ≡ false
unfolding has_byte
kind_text_plain secret = refl
kind_text_plain action = refl

id_and_number :
    (id other : Bytes) (n m : ℕ)
    → has_byte b':' id ≡ false
    → has_byte b':' other ≡ false
    → id ++ b':' ∷ decimal n ≡ other ++ b':' ∷ decimal m
    → (id ≡ other) × (n ≡ m)
id_and_number id other n m plain plain' e =
    let (same, rest) = split_at_byte b':' id other _ _ plain plain' e in
    (same, decimal_injective n m rest)

-- The associated data of two object rows, whose ids hold no colon, is the same only if their
-- kinds, ids and revisions are the same.
pub object_aad_injective :
    (kind other_kind : Kind) (id other : Bytes) (n m : ℕ)
    → has_byte b':' id ≡ false
    → has_byte b':' other ≡ false
    → object_aad kind id n ≡ object_aad other_kind other m
    → (kind ≡ other_kind) × (id ≡ other) × (n ≡ m)
unfolding object_aad
object_aad_injective kind other_kind id other n m plain plain' e =
    let (kinds, rest) =
      split_at_byte b':' (kind_text kind) (kind_text other_kind) _ _ (kind_text_plain kind)
        (kind_text_plain other_kind) (prefix_cancel (codes "vcsm:object:v1:") _ _ e) in
    let (ids, numbers) = id_and_number id other n m plain plain' rest in
    (kind_text_injective kind other_kind kinds, ids, numbers)

-- The associated data of two secret values, whose ids hold no colon, is the same only if their
-- ids and version numbers are the same.
pub secret_aad_injective :
    (id other : Bytes) (n m : ℕ)
    → has_byte b':' id ≡ false
    → has_byte b':' other ≡ false
    → secret_aad id n ≡ secret_aad other m
    → (id ≡ other) × (n ≡ m)
unfolding secret_aad
secret_aad_injective id other n m plain plain' e =
    id_and_number id other n m plain plain' (prefix_cancel (codes "vcsm:secret:v1:") _ _ e)
