-- ===== src/Ipc/Endpoint.antt =====
-- internal/ipc/transport_unix.go: the socket of the broker in the file system.
use vibe_coding_secret_manag.Prelude.{
  ℕ, ◌+◌, Bool, true, false, not, ◌&&◌, ◌||◌, List, [], ◌∷◌, ◌==◌, if◌then◌else◌,
}
use vibe_coding_secret_manag.Outcome.{
  disk, connection_lost, already_listening, Result, ok, err, guard,
}
use vibe_coding_secret_manag.Machine.Exec.{Run, pure, ◌>>=◌, ◌>>◌}

-- What is at the path: nothing, what a process that has ended left there, or the socket of the n-th
-- listener.
pub data Entry : Type 0 where
  absent left_over : Entry
  socket_of : ℕ → Entry

-- The path, the listeners that are open, how many were made, and how often the system was called.
pub record Endpoint : Type 0 where
  pub entry : Entry
  pub open_ones : List ℕ
  pub made : ℕ
  pub calls : ℕ

abbrev pub is_absent : Entry → Bool
is_absent absent = true
is_absent _ = false

unfoldable pub is_open : ℕ → List ℕ → Bool
is_open n [] = false
is_open n (m ∷ others) = m == n || is_open n others

abbrev pub without : ℕ → List ℕ → List ℕ
without n [] = []
without n (m ∷ others) = let rest = without n others in if m == n then rest else m ∷ rest

abbrev pub entry_answers : Entry → List ℕ → Bool
entry_answers (socket_of n) open_ones = is_open n open_ones
entry_answers _ open_ones = false

-- whether someone listens behind the path
unfoldable pub is_answered : Endpoint → Bool
is_answered s = entry_answers s.entry s.open_ones

-- Close of a net.UnixListener, which removes the path the first time
unfoldable pub close_socket : ℕ → Endpoint → Endpoint
close_socket n s =
    if is_open n s.open_ones
    then record s { entry = absent; open_ones = without n s.open_ones }
    else s

module _ (fails : ℕ → Bool) where
  -- A call of the system, which may fail for an outside reason.
  unfoldable pub os_call : Run Endpoint (Unit {0})
  os_call s =
      let s' = record s { calls = s.calls + 1 } in
      if fails s.calls then (err disk, s') else (ok tt, s')

  -- dial, for whether its context has ended
  unfoldable pub dial : Bool → Run Endpoint (Unit {0})
  dial ended = do os_call; λ s. (guard (not ended && is_answered s) connection_lost, s)

  -- os.Remove of the path
  unfoldable pub remove_path : Run Endpoint (Unit {0})
  remove_path = do os_call; λ s. (ok tt, record s { entry = absent })

  unfoldable pub unless_answered : Result (Unit {0}) × Endpoint → Result (Unit {0}) × Endpoint
  unless_answered (ok a, s) = (err already_listening, s)
  unless_answered (err e, s) = remove_path s

  -- the check of a path that is there; its net.Dial has no context
  unfoldable pub clear_path : Run Endpoint (Unit {0})
  clear_path s = if is_absent s.entry then (ok tt, s) else unless_answered (dial false s)

  -- net.Listen
  unfoldable pub bind_path : Run Endpoint ℕ
  bind_path = do
    os_call
    λ s.
        if is_absent s.entry
        then (
          ok s.made,
          record s {
            entry = socket_of s.made;
            open_ones = s.made ∷ s.open_ones;
            made = s.made + 1;
          },
        )
        else (err disk, s)

  unfoldable pub or_closed : ℕ → Result (Unit {0}) × Endpoint → Result (Unit {0}) × Endpoint
  or_closed n (ok a, s) = (ok a, s)
  or_closed n (err e, s) = (err e, close_socket n s)

  -- os.Chmod of the path; where it fails, the listener is closed
  unfoldable pub secure_path : ℕ → Run Endpoint (Unit {0})
  secure_path n s = or_closed n (os_call s)

  -- listen
  unfoldable pub listen : Run Endpoint ℕ
  listen = do os_call; clear_path; n ← bind_path; secure_path n; pure n

  -- cleanupListener.Close; the error of os.Remove is dropped
  unfoldable pub close_listener : ℕ → Endpoint → Endpoint
  close_listener n s = (remove_path (close_socket n s)).1
