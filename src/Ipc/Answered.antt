-- ===== src/Ipc/Answered.antt =====
-- Call returns with the final response, and reads no further.
use vibe_coding_secret_manag.Prelude.{
  ℕ, ◌≡◌, refl, sym, ap, ◌∙◌, Bool, true, false, List, [], ◌∷◌, ◌++◌, map, Option, none, some,
  Bytes, take, append_assoc,
}
use vibe_coding_secret_manag.Api.{Request, Response}
use vibe_coding_secret_manag.Broker.{Host, Service}
use vibe_coding_secret_manag.Broker.Replies.{OneFinal, handle-OneFinal}
use vibe_coding_secret_manag.Broker.Handle.{handle}
use vibe_coding_secret_manag.Ipc.{
  with_id, read_on, serve_conn, serve_request, served, call_loop, max_frame,
}

module _ {S E : Type 0} where
  read_on-final :
      (b : Bool) (rest other : Option E × S) (r : Option E × S)
      → b ≡ true
      → read_on b rest r ≡ read_on b other r
  unfolding read_on
  read_on-final b rest other (some e, s) final = refl
  read_on-final b rest other (none, s) final = rw final refl

module _ {S E : Type 0} (on_response : Response → S → Option E × S) where
  -- Behind a final response nothing is read.
  call_loop_final :
      (events : List Response) (last : Response) (ending : Option E) (later : List Response) (s : S)
      → last.is_final ≡ true
      → call_loop on_response ending (events ++ last ∷ later) s
        ≡ call_loop on_response none (events ++ last ∷ []) s
  unfolding call_loop
  call_loop_final [] last ending later s final =
      read_on-final last.is_final _ _ (on_response last s) final
  call_loop_final (r ∷ events) last ending later s final =
      ap (λ rest. read_on r.is_final rest (on_response r s))
        (call_loop_final events last ending later (on_response r s).1 final)

  map-append :
      (id : Bytes) (l m : List Response)
      → map (with_id id) (l ++ m) ≡ map (with_id id) l ++ map (with_id id) m
  map-append id [] m = refl
  map-append id (r ∷ l) m = ap (◌∷◌ (with_id id r)) (map-append id l m)

  call_loop-OneFinal :
      (id : Bytes) (s : Service) (ending : Option E) (later : List Response) (t : S)
      → OneFinal [] s
      → call_loop on_response ending (map (with_id id) s.sent ++ later) t
        ≡ call_loop on_response none (map (with_id id) s.sent) t
  unfolding with_id
  call_loop-OneFinal id s ending later t one =
      let events = map (with_id id) one.events in
      let last = with_id id one.last in
      let sent : map (with_id id) s.sent ≡ events ++ last ∷ [] =
        ap (map (with_id id)) one.grown ∙ map-append id one.events (one.last ∷ []) in
      let left : map (with_id id) s.sent ++ later ≡ events ++ last ∷ later =
        ap (λ l. l ++ later) sent ∙ append_assoc events (last ∷ []) later in
      ap (λ l. call_loop on_response ending l t) left
      ∙ call_loop_final events last ending later t one.ends
      ∙ sym (ap (λ l. call_loop on_response none l t) sent)

  -- While no response is dropped, a Call of a request that the broker can read returns with the
  -- responses of that request: what follows them on the connection, and how the connection ends,
  -- is not looked at.
  pub call_loop-serve_conn :
      (host : Host) (decode : Bytes → Option Request) (bytes : Bytes) (request : Request)
      (s : Service) (ending : Option E) (later : List Response) (t : S)
      → ((n : ℕ) → host.drops n ≡ false)
      → decode (take max_frame bytes) ≡ some request
      → call_loop on_response ending ((serve_conn decode (handle host) bytes s).0 ++ later) t
        ≡ call_loop on_response none (serve_conn decode (handle host) bytes s).0 t
  unfolding serve_conn serve_request served
  call_loop-serve_conn host decode bytes request s ending later t up read = rw read (
      call_loop-OneFinal request.id _ ending later t
        (handle-OneFinal host up request (record s { sent = [] })))
