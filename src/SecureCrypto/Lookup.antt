-- ===== src/SecureCrypto/Lookup.antt =====
-- The message that a lookup token authenticates tells the values apart.
use vibe_coding_secret_manag.SecureCrypto.{lookup_message}
use vibe_coding_secret_manag.Prelude.{
  ◌≡◌, refl, ap, false, List, [], ◌∷◌, ◌++◌, append-nil, arith, Bytes, has_byte, split_at_byte,
}

abbrev pub NoZero : List Bytes → Type 0
NoZero [] = Unit {0}
NoZero (value ∷ values) = (has_byte 0 value ≡ false) × NoZero values

-- a text with no zero byte does not go on with one
tail_differs : (s t rest : Bytes) → has_byte 0 s ≡ false → s ≡ t ++ 0 ∷ rest → ⊥
unfolding has_byte
tail_differs [] [] rest h e = cc
tail_differs [] (d ∷ t) rest h e = cc
tail_differs (c ∷ s) [] rest h e = ground arith
tail_differs (c ∷ s) (d ∷ t) rest h e = tail_differs s t rest (ground arith) (cc)

-- Two lists of values with no zero byte in them that give LookupToken the same message are the
-- same list: a project, an environment and a name cannot be shifted into one another.
pub lookup_message_injective :
    (values others : List Bytes)
    → NoZero values
    → NoZero others
    → lookup_message values ≡ lookup_message others
    → values ≡ others
unfolding lookup_message
lookup_message_injective [] [] hv ho e = refl
lookup_message_injective [] (o ∷ os) hv ho e = absurd (cc)
lookup_message_injective (v ∷ vs) [] hv ho e = absurd (cc)
lookup_message_injective (v ∷ []) (o ∷ []) hv ho e =
    let same : v ++ [] ≡ o ++ [] = cc in cc (append-nil v, append-nil o)
lookup_message_injective (v ∷ []) (o ∷ p ∷ os) hv ho e = absurd (
    tail_differs v o (p ++ lookup_message os) hv.0
      (let same : v ++ [] ≡ o ++ 0 ∷ (p ++ lookup_message os) = cc in cc (append-nil v)))
lookup_message_injective (v ∷ w ∷ vs) (o ∷ []) hv ho e = absurd (
    tail_differs o v (w ++ lookup_message vs) ho.0
      (let same : v ++ 0 ∷ (w ++ lookup_message vs) ≡ o ++ [] = cc in cc (append-nil o)))
lookup_message_injective (v ∷ w ∷ vs) (o ∷ p ∷ os) hv ho e =
    let same : v ++ 0 ∷ (w ++ lookup_message vs) ≡ o ++ 0 ∷ (p ++ lookup_message os) = cc in
    let (heads, rests) = split_at_byte 0 v o _ _ hv.0 ho.0 same in
    let tails = lookup_message_injective (w ∷ vs) (p ∷ os) hv.1 ho.1 (ap (◌∷◌ 0) rests) in cc
