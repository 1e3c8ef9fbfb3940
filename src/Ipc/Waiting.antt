-- ===== src/Ipc/Waiting.antt =====
-- Wait of internal/ipc/ipc.go: dial, tick after tick, until somebody answers at the path.
use vibe_coding_secret_manag.Prelude.{
  ℕ, ◌+◌, ◌≡◌, ◌↔◌, refl, sym, ap, ◌∙◌, Bool, true, false, not, ◌&&◌, Bool-cases, inl, inr,
}
use vibe_coding_secret_manag.Outcome.{ok, err}
use vibe_coding_secret_manag.Machine.Exec.{◌>>=◌}
use vibe_coding_secret_manag.Ipc.Endpoint.{Endpoint, is_answered, os_call, dial, listen}
use vibe_coding_secret_manag.Ipc.Single.{never, listen-Listened}

-- What the select of Wait meets, failed dial after failed dial: the end of the context, or a tick, with
-- what the other processes have done at the path until then, and whether the context has ended by the
-- next dial.
pub data Wakings : Type 0 where
  context_ends : Wakings
  ticks : (Endpoint → Endpoint) → Bool → Wakings → Wakings

module _ (fails : ℕ → Bool) where
  -- Wait, for whether the context has ended at first; true is success, false the error of the context
  unfoldable pub wait : Bool → Wakings → Endpoint → Bool × Endpoint
  wait ended context_ends s =
      let (result, s') = dial fails ended s in
      elim result [ ok a ↦ (true, s') | err e ↦ (false, s') ]
  wait ended (ticks meanwhile ends later) s =
      let (result, s') = dial fails ended s in
      elim result [ ok a ↦ (true, s') | err e ↦ wait ends later (meanwhile s') ]

-- A dial has counted as a call.
abbrev pub dialled : Endpoint → Endpoint
dialled s = record s { calls = s.calls + 1 }

-- At some moment at which Wait can dial, the context has not ended and somebody answers.
pub data Reaches : Bool → Wakings → Endpoint → Type 0 where
  answers_now : {later : Wakings} {s : Endpoint} → is_answered s ≡ true → Reaches false later s
  answers_later :
      {ended ends : Bool} {meanwhile : Endpoint → Endpoint} {later : Wakings} {s : Endpoint}
      → Reaches ends later (meanwhile (dialled s))
      → Reaches ended (ticks meanwhile ends later) s

abbrev connects : Bool → Endpoint → Bool
connects ended s = not ended && is_answered s

wait-connects :
    (ended : Bool) (w : Wakings) (s : Endpoint)
    → connects ended s ≡ true
    → wait never ended w s ≡ (true, dialled s)
unfolding wait dial os_call is_answered ◌>>=◌
wait-connects true w s h = absurd (let bad : false ≡ true = h in cc)
wait-connects false context_ends s h = let up : is_answered s ≡ true = h in rw up refl
wait-connects false (ticks meanwhile ends later) s h =
    let up : is_answered s ≡ true = h in rw up refl

wait-stops :
    (ended : Bool) (s : Endpoint)
    → connects ended s ≡ false
    → (wait never ended context_ends s).0 ≡ false
unfolding wait dial os_call is_answered ◌>>=◌
wait-stops true s h = refl
wait-stops false s h = let down : is_answered s ≡ false = h in rw down refl

wait-goes_on :
    (ended ends : Bool) (meanwhile : Endpoint → Endpoint) (later : Wakings) (s : Endpoint)
    → connects ended s ≡ false
    → wait never ended (ticks meanwhile ends later) s
      ≡ wait never ends later (meanwhile (dialled s))
unfolding wait dial os_call is_answered ◌>>=◌
wait-goes_on true ends meanwhile later s h = refl
wait-goes_on false ends meanwhile later s h = let down : is_answered s ≡ false = h in rw down refl

connects-Reaches :
    (ended : Bool) (w : Wakings) (s : Endpoint) → connects ended s ≡ true → Reaches ended w s
connects-Reaches false w s h = answers_now h
connects-Reaches true w s h = absurd (cc)

wait-Reaches :
    (ended : Bool) (w : Wakings) (s : Endpoint)
    → (wait never ended w s).0 ≡ true
    → Reaches ended w s
wait-Reaches ended context_ends s h = elim (Bool-cases (connects ended s)) [
  | inl e ↦ connects-Reaches ended context_ends s e
  | inr e ↦ let stops = wait-stops ended s e in absurd (cc)
]
wait-Reaches ended (ticks meanwhile ends later) s h = elim (Bool-cases (connects ended s)) [
  | inl e ↦ connects-Reaches ended (ticks meanwhile ends later) s e
  | inr e ↦ answers_later (
      wait-Reaches ends later (meanwhile (dialled s))
        (ap (λ r. r.0) (sym (wait-goes_on ended ends meanwhile later s e)) ∙ h))
]

Reaches-wait :
    (ended : Bool) (w : Wakings) (s : Endpoint)
    → Reaches ended w s
    → (wait never ended w s).0 ≡ true
Reaches-wait ended w s (answers_now h) = ap (λ r. r.0) (wait-connects false w s h)
Reaches-wait ended (ticks meanwhile ends later) s (answers_later r) =
    elim (Bool-cases (connects ended s)) [
      | inl e ↦ ap (λ q. q.0) (wait-connects ended (ticks meanwhile ends later) s e)
      | inr e ↦
          ap (λ q. q.0) (wait-goes_on ended ends meanwhile later s e)
          ∙ Reaches-wait ends later (meanwhile (dialled s)) r
    ]

-- Where no call of the system fails, Wait succeeds exactly where, at some moment at which it can
-- dial, its context has not ended and somebody answers at the path.
pub wait_iff :
    (ended : Bool) (w : Wakings) (s : Endpoint)
    → ((wait never ended w s).0 ≡ true) ↔ Reaches ended w s
wait_iff ended w s = (wait-Reaches ended w s, Reaches-wait ended w s)

-- The `listen` of some process, in a tick behind which the context has not ended, is reached.
pub listen-Reaches :
    (ended : Bool) (later : Wakings) (s : Endpoint)
    → Reaches ended (ticks (λ t. (listen never t).1) false later) s
listen-Reaches ended later s = answers_later (answers_now (listen-Listened (dialled s)).answered)
