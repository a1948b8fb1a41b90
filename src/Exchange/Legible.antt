-- ===== src/Exchange/Legible.antt =====
-- The handshake with its prints: none of them leaves its buffer, and none changes what is done.
use xrnetwork.Base.{
  Ends, ℕ, ◌+◌, ◌^◌, ◌≤◌, ◌<◌, ◌≡◌, refl, ap, ◌∙◌, true, some, none, List, [], ◌++◌, length, ok,
  ◌>>=◌, arith,
}
use xrnetwork.Base.Memory.{Block}
use xrnetwork.XrMessage.{header_size, message_size}
use xrnetwork.XrMessage.RoundTrip.{built, from_raw-built, zeros-message_bytes}
use xrnetwork.Protocol.Heads.{
  code, handshake_hello, handshake_hello_ack, handshake_credentials, handshake_credentials_ack,
  participant_join,
}
use xrnetwork.Protocol.Structs.{
  kb, credentials_ack_object, hello_object, hello_ack_object, credentials_object, join_object,
}
use xrnetwork.Protocol.Builders.{build_handshake_credentials}
use xrnetwork.Printing.{Item}
use xrnetwork.Session.{Session}
use xrnetwork.Room.State.{Env, Room, id_of, put, get_participant_ptr}
use xrnetwork.Room.Deliver.{deliver_byte}
use xrnetwork.Room.Invariant.{IsOutside}
use xrnetwork.Connection.Handshake.{Service, invitation, read_handshake_ended}
use xrnetwork.Connection.Greeting.{greeting, greeting_message}
use xrnetwork.Connection.Credentials.{invitation_message}
use xrnetwork.Connection.Shown.{opening, read_handshake_shown}
use xrnetwork.Connection.Opening.{started_after, greeting-Ends}
use xrnetwork.Connection.Unended.{ended_message_shown}
use xrnetwork.Client.{
  Client, credentials_size, client_credentials, hello_reply, write_byte, read_ended,
}
use xrnetwork.Client.Shown.{case_shown, read_shown, receiving}
use xrnetwork.Client.Legible.{read_shown-ended, hello_case, credentials_case, join_case}
use xrnetwork.Client.Admission.{credentials_reply}
use xrnetwork.Exchange.{Peers, handshake}
use xrnetwork.Exchange.Turns.{
  news-posted, drop-posted, drop-unchanged, greeted, start-greeted, hello_answer, demand, demanded,
}
use xrnetwork.Exchange.Answers.{waiting, at_rest, Answers}
use xrnetwork.Exchange.Completes.{handshake_steps}
use xrnetwork.Exchange.Shown.{Talk, connect_shown, turn_shown, handshake_shown}

abbrev talk : Peers → List Item → List Item → Talk
talk p service_lines client_lines = record {
  peers = p;
  service_lines = service_lines;
  client_lines = client_lines;
}

-- The handlers of a message that was built, with their prints.
server_shown :
    (env : Env) (h hd n : ℕ) (src : Block) (r r' : Room)
    → n ≤ src.size
    → header_size + n ≤ 65535
    → read_handshake_ended env h (built hd src n) message_size r ≡ ok r'
    → (lines : List Item) × (read_handshake_shown env h (built hd src n) message_size r
        ≡ ok (r', lines))
server_shown env h hd n src r r' hs hn e =
    let msg = built hd src n in
    let shown =
      ended_message_shown env h message_size msg msg r
        (from_raw-built hd src n hs (omega (arith, hn)))
        (zeros-message_bytes hd src.at n 65535 hn) in
    (shown.0 r', shown.1 ∙ ap (λ o. o >>= λ x. ok (x, shown.0 x)) e)

connect_talks :
    (env : Env) (service : Service) (timestamp h : ℕ) (r : Room) (c : Client)
    → length service.server_name < kb
    → (lines : List Item) × (connect_shown env service timestamp h r c
        ≡ ok (
            talk
              (waiting
                (greeted env service timestamp h r)
                c
                (greeting_message (greeting service (id_of r h) timestamp)))
              lines
              []))
unfolding connect_shown put
connect_talks env service timestamp h r c short =
    let r1 = greeted env service timestamp h r in
    let greet = greeting_message (greeting service (id_of r h) timestamp) in
    let hello = greeting-Ends service (id_of r h) timestamp short in
    let lines = opening hello.0 greet in
    (
      lines,
      rw (started_after env service timestamp h r (ok hello.0) (omega (arith, short)) hello.1) (
          rw (start-greeted env service timestamp h r (omega (arith, short))) (
            ap (λ (ms : List Block). ok (talk (record (at_rest r1 c) { to_client = ms }) lines []))
              (news-posted h r r1 greet (unfold deliver_byte in refl)))),
    )

-- A turn with a message to the client that was built, and printed whole.
module _ (env : Env) (now h hd n : ℕ) (src : Block) (service_lines client_lines : List Item)
    (hh : hd < 2 ^ 16) (hs : n ≤ src.size) (hn : header_size + n ≤ 65535)
    (printed : Ends (case_shown now hd (built hd src n) (built hd src n))) where
  abbrev m : Block
  m = built hd src n

  client_shown :
      (c c' : Client)
      → read_ended now m message_size c ≡ ok c'
      → read_shown now m message_size c ≡ ok (c', receiving message_size m ++ printed.0)
  client_shown c c' e =
      read_shown-ended now hd n src c c' printed.0 hh hs (omega (arith, hn)) printed.1 e

  turn_talks :
      (hd' n' : ℕ) (src' reply : Block) (r r' : Room) (c c' : Client)
      → n' ≤ src'.size
      → header_size + n' ≤ 65535
      → Answers env now h m (built hd' src' n') reply r r' c c'
      → (sl cl : List Item) × (turn_shown env now h
            (talk (waiting r c m) service_lines client_lines)
          ≡ ok (talk (waiting r' c' reply) sl cl))
  unfolding turn_shown
  turn_talks hd' n' src' reply r r' c c' hs' hn' a =
      let shown = server_shown env h hd' n' src' r r' hs' hn' a.server_reads in
      let answer = built hd' src' n' in
      (
        service_lines ++ shown.0,
        client_lines ++ (receiving message_size m ++ printed.0),
        rw (client_shown c c' a.client_reads) (
            rw (drop-posted c c' answer a.client_posts)
              (rw shown.1 (rw (news-posted h r r' reply a.server_posts) refl))),
      )

  talk_ends :
      (r : Room) (c c' : Client)
      → read_ended now m message_size c ≡ ok c'
      → c'.posted ≡ c.posted
      → (sl cl : List Item) × (turn_shown env now h
            (talk (waiting r c m) service_lines client_lines)
          ≡ ok (talk (at_rest r c') sl cl))
  unfolding turn_shown
  talk_ends r c c' e same = (
    service_lines,
    client_lines ++ (receiving message_size m ++ printed.0),
    rw (client_shown c c' e) (rw (drop-unchanged c c' same) refl),
  )

module _ (env : Env) (service : Service) (timestamp now h : ℕ) (r : Room) (c : Client)
    (short_name : length service.server_name < kb) (id_fits : service.service_id < 2 ^ 64)
    (session_id_fits : id_of r h < 2 ^ 64) (timestamp_fits : timestamp < 2 ^ 64)
    (now_fits : now < 2 ^ 64) (drawn_fits : env.rng r.drawn < 2 ^ 64)
    (room : length r.participants < r.max_participants)
    (open_take_options : (s : Session) → s.is_open ≡ true → env.accepts_option s ≡ true)
    (is_open : (r.sessions h).is_open ≡ true) (short_address : length (env.endpoint h) ≤ 512)
    (outside : IsOutside h r) (fresh : get_participant_ptr r (env.rng r.drawn) ≡ none) where
  -- A handshake with a service whose room has a place ends, all that the two programs print of it
  -- included: no print leaves its buffer, and both ends are as without the prints. In three turns of
  -- each end, with nothing left on its way, the client is in the room under the identifier drawn,
  -- which it has taken for its own from the invitation, one participant more than before, and its
  -- updates have begun. The name of the service has fewer than 1024 bytes and the session's address
  -- at most 512, the numbers fit their words, an open socket takes its options and the session's is
  -- open, the session is not in the room and nobody has the identifier drawn.
  pub handshake_shown_completes :
      (t : Talk) × (handshake_shown env service timestamp now h r c ≡ ok t)
      × (handshake env service timestamp now h r c ≡ ok t.peers)
      × (get_participant_ptr t.peers.room (env.rng r.drawn) ≡ some h)
      × (t.peers.client.participant_id ≡ env.rng r.drawn)
      × (t.peers.client.timer_armed ≡ true)
      × (length t.peers.room.participants ≡ length r.participants + 1)
      × (t.peers.to_client ≡ [])
      × (t.peers.to_server ≡ [])
  unfolding handshake_shown
  handshake_shown_completes =
      let greet = greeting service (id_of r h) timestamp in
      let id = env.rng r.drawn in
      let steps =
        handshake_steps env service timestamp now h r c (omega (arith, short_name)) id_fits
          session_id_fits timestamp_fits now_fits drawn_fits room open_take_options is_open
          short_address outside fresh in
      let r1 = greeted env service timestamp h r in
      let r2 = demanded (hello_answer service.service_id now) h r1 in
      let r3 = steps.0 in
      let c1 = steps.1 in
      let c2 = record (write_byte credentials_reply c1) { reading = true } in
      let invited = record c2 { participant_id = id; timer_armed = true; reading = true } in
      let opened = connect_talks env service timestamp h r c short_name in
      let asked =
        turn_talks env now h (code handshake_hello) 1052 (hello_object greet) opened.0 []
          (omega arith) (omega arith) (omega arith) (hello_case now greet)
          (code handshake_hello_ack) 20500 (hello_ack_object (hello_reply service.service_id now))
          demand r1 r2 c c1 (omega arith) (omega arith) steps.2.0 in
      let admitted =
        turn_talks env now h (code handshake_credentials) 20484
          (credentials_object build_handshake_credentials) asked.0 asked.1 (omega arith)
          (omega arith) (omega arith) (credentials_case now) (code handshake_credentials_ack)
          credentials_size (credentials_ack_object client_credentials) (invitation_message id) r2 r3
          c1 c2 (omega arith) (omega arith) steps.2.1 in
      let joined =
        talk_ends env now h (code participant_join) 10256 (join_object (invitation id)) admitted.0
          admitted.1 (omega arith) (omega arith) (omega arith) (join_case now id) r3 c2 invited
          steps.2.2 refl in
      let chain =
        ap (λ o. o >>= turn_shown env now h >>= turn_shown env now h >>= turn_shown env now h)
          opened.1
        ∙ ap (λ o. o >>= turn_shown env now h >>= turn_shown env now h) asked.2
        ∙ ap (λ o. o >>= turn_shown env now h) admitted.2
        ∙ joined.2 in
      (_, chain, steps.2.3, steps.2.4, refl, refl, steps.2.5, refl, refl)
