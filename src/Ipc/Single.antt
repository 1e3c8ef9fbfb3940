-- ===== src/Ipc/Single.antt =====
-- One broker at an endpoint.
use vibe_coding_secret_manag.Prelude.{
  ℕ, ◌+◌, ◌≡◌, ◌≢◌, refl, Bool, true, false, List, [], ◌∷◌, ==_refl, arith, if◌then◌else◌,
  Bool-cases, inl, inr,
}
use vibe_coding_secret_manag.Outcome.{already_listening, ok, err}
use vibe_coding_secret_manag.Machine.Exec.{pure, ◌>>=◌}
use vibe_coding_secret_manag.Ipc.Endpoint.{
  Entry, absent, left_over, socket_of, Endpoint, entry_answers, is_open, without, is_answered,
  close_socket, os_call, dial, remove_path, unless_answered, clear_path, bind_path, or_closed,
  secure_path, listen, close_listener,
}

-- no call of the system fails
abbrev pub never : ℕ → Bool
never n = false

-- What `listen` has done: someone answers at the path, and it is a new listener just if nobody has
-- answered before.
pub record Listened (s : Endpoint) : Type 0 where
  pub result : (listen never s).0 ≡ (if is_answered s then err already_listening else ok s.made)
  pub answered : is_answered (listen never s).1 ≡ true
  pub open_ones :
      (listen never s).1.open_ones ≡ (if is_answered s then s.open_ones else s.made ∷ s.open_ones)

-- A listener that is new.
abbrev taken : ℕ → ℕ → List ℕ → Endpoint
taken m c l = record { entry = socket_of m; open_ones = m ∷ l; made = m + 1; calls = c }

listen-free :
    (e : Entry) (m c : ℕ) (l : List ℕ)
    → entry_answers e l ≡ false
    → (d : ℕ) × (listen never (record { entry = e; open_ones = l; made = m; calls = c })
        ≡ (ok m, taken m d l))
unfolding listen os_call dial remove_path unless_answered clear_path bind_path or_closed secure_path
    is_answered pure ◌>>=◌
listen-free absent m c l e = (c + 1 + 1 + 1, refl)
listen-free left_over m c l e = (c + 1 + 1 + 1 + 1 + 1, refl)
listen-free (socket_of n) m c l e = (c + 1 + 1 + 1 + 1 + 1, rw e refl)

listen-taken :
    (e : Entry) (m c : ℕ) (l : List ℕ)
    → entry_answers e l ≡ true
    → listen never (record { entry = e; open_ones = l; made = m; calls = c })
      ≡ (err already_listening, record { entry = e; open_ones = l; made = m; calls = c + 1 + 1 })
unfolding listen os_call dial remove_path unless_answered clear_path bind_path or_closed secure_path
    is_answered pure ◌>>=◌
listen-taken absent m c l e = absurd (cc)
listen-taken left_over m c l e = absurd (cc)
listen-taken (socket_of n) m c l e = rw e refl

itself : (m : ℕ) (l : List ℕ) → is_open m (m ∷ l) ≡ true
unfolding is_open
itself m l = rw (==_refl m) refl

-- Where no call of the system fails, someone answers at the path behind `listen`; it gives a new
-- listener, which is then open besides those that were, where nobody answered before, and else
-- the error that a broker is already listening, with no listener opened or closed.
pub listen-Listened : (s : Endpoint) → Listened s
unfolding is_answered
listen-Listened s = elim (Bool-cases (is_answered s)) [
  | inl e ↦
      let h = listen-taken s.entry s.made s.calls s.open_ones e in
      record { result = rw (h, e) refl; answered = rw h e; open_ones = rw (h, e) refl }
  | inr e ↦
      let (d, h) = listen-free s.entry s.made s.calls s.open_ones e in
      record {
        result = rw (h, e) refl;
        answered = rw h (itself s.made s.open_ones);
        open_ones = rw (h, e) refl;
      }
]

gone : (n : ℕ) (l : List ℕ) → is_open n (without n l) ≡ false
unfolding is_open
gone n [] = refl
gone n (m ∷ l) = ground (arith, gone n l)

other : (n m : ℕ) (l : List ℕ) → n ≢ m → is_open n l ≡ false → is_open n (m ∷ l) ≡ false
unfolding is_open
other n m l h e = ground arith

first_close :
    (n m c : ℕ) (entry : Entry) (l : List ℕ)
    → is_open n l ≡ true
    → close_listener never n (record { entry = entry; open_ones = l; made = m; calls = c })
      ≡ record { entry = absent; open_ones = without n l; made = m; calls = c + 1 }
unfolding close_listener remove_path os_call close_socket ◌>>=◌
first_close n m c entry l e = rw e refl

second_close :
    (n m c : ℕ) (entry : Entry) (l : List ℕ)
    → is_open n l ≡ false
    → close_listener never n (record { entry = entry; open_ones = l; made = m; calls = c })
      ≡ record { entry = absent; open_ones = l; made = m; calls = c + 1 }
unfolding close_listener remove_path os_call close_socket ◌>>=◌
second_close n m c entry l e = rw e refl

-- A second Close, behind the listen of another process.
pub record Unreachable (n : ℕ) (s : Endpoint) : Type 0 where
  pub closed : Endpoint
  pub listening : Endpoint
  pub first : close_listener never n s ≡ closed
  pub listens : listen never closed ≡ (ok s.made, listening)
  pub answered : is_answered listening ≡ true
  pub silent : is_answered (close_listener never n listening) ≡ false
  pub still_open : is_open s.made (close_listener never n listening).open_ones ≡ true

-- Where no call of the system fails, a Close of an open listener, the `listen` of another
-- process, which succeeds and is answered at the path, and a second Close of the first listener
-- end with nobody answering at the path, although the new listener is open.
pub close_listener-twice :
    (n : ℕ) (s : Endpoint) → is_open n s.open_ones ≡ true → n ≢ s.made → Unreachable n s
unfolding is_answered
close_listener-twice n s e fresh =
    let left = without n s.open_ones in
    let (d, h) = listen-free absent s.made (s.calls + 1) left refl in
    let again =
      second_close n (s.made + 1) d (socket_of s.made) (s.made ∷ left)
        (other n s.made left fresh (gone n s.open_ones)) in
    record {
      closed = record s { entry = absent; open_ones = left; calls = s.calls + 1 };
      listening = taken s.made d left;
      first = first_close n s.made s.calls s.entry s.open_ones e;
      listens = h;
      answered = itself s.made left;
      silent = rw again refl;
      still_open = rw again (itself s.made left);
    }
