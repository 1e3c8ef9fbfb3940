-- ===== src/Redaction/Agree.antt =====
-- The text form and the stream form of the redaction agree on a text that is whole.
use vibe_coding_secret_manag.Redaction.{
  keep_long, new_writer, redact, redact_with, redact_text, redact_values, replace_all,
}
use vibe_coding_secret_manag.Prelude.{
  suc, false, ◌≡◌, refl, sym, List, [], ◌∷◌, arith, length, Bytes, Bool-cases, inl, inr, ltb, ◌==◌,
}

redact_with_nil : (values : List Bytes) → redact_with values [] ≡ []
unfolding redact_with replace_all
redact_with_nil [] = refl
redact_with_nil (v ∷ values) = redact_with_nil values

redact_values_lem :
    (values : List Bytes) (text : Bytes)
    → redact_with (keep_long values) text ≡ redact_values text values
unfolding redact_with redact_values keep_long
redact_values_lem [] text = refl
redact_values_lem (v ∷ values) text = elim (Bool-cases (ltb (length v) 3)) [
  | inl short ↦ rw short (redact_values_lem values text)
  | inr long ↦ rw long (redact_values_lem values _)
]

-- Redact of a text is what a new writer makes of the same text, with the same values.
pub redact_text-redact :
    (text : Bytes) (values : List Bytes) → redact_text text values ≡ redact (new_writer values) text
unfolding redact_text redact new_writer
redact_text-redact [] values = sym (redact_with_nil (keep_long values))
redact_text-redact (c ∷ text) values =
    let full : suc (length text) == 0 ≡ false = ground arith in
    rw full (sym (redact_values_lem values (c ∷ text)))
