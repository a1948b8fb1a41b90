-- ===== src/Client/Admission.antt =====
-- What the client answers, and that the server admits it.
use xrnetwork.Base.{
  ℕ, ◌+◌, ◌^◌, ◌≤◌, ◌<◌, ◌≡◌, refl, ap, ◌∙◌, true, some, none, [], ◌∷◌, ◌++◌, length, Outcome, ok,
  ◌>>=◌, arith,
}
use xrnetwork.Base.Memory.{Block, copy, strcmp_eq}
use xrnetwork.XrMessage.{header_size, message_size}
use xrnetwork.XrMessage.RoundTrip.{built, from_head-built, from_raw-built, head-built}
use xrnetwork.Protocol.Heads.{code, handshake_hello, handshake_hello_ack, handshake_credentials_ack}
use xrnetwork.Protocol.Structs.{
  HandshakeHello, hello_object, hello_ack_object, credentials_ack_object,
}
use xrnetwork.Protocol.Readers.{read_hello}
use xrnetwork.Protocol.Offsets.{read_hello-sent}
use xrnetwork.Session.{do_read_byte}
use xrnetwork.Room.State.{Env, Room, get_participant_ptr}
use xrnetwork.Room.Invariant.{IsOutside}
use xrnetwork.Connection.Handshake.{are_accepted, dispatch_handshake, read_handshake_ended}
use xrnetwork.Connection.Accepting.{are_accepted-sent}
use xrnetwork.Connection.Credentials.{asked_session, check_enters}
use xrnetwork.Connection.Greeting.{greeting_message}
use xrnetwork.Client.{
  hello_reply, Client, credentials_size, client_credentials, dispatch, on_hello, on_credentials,
  read_ended, write_byte,
}

-- The client's reply to the demand for credentials.
abbrev pub credentials_reply : Block
credentials_reply =
    built (code handshake_credentials_ack) (credentials_ack_object client_credentials)
      credentials_size

pub on_credentials-posts : (c : Client) → on_credentials c ≡ ok (write_byte credentials_reply c)
unfolding on_credentials
on_credentials-posts c = rw (
    from_head-built (code handshake_credentials_ack) (credentials_ack_object client_credentials)
      credentials_size (omega arith) (omega arith))

pub reply-are_accepted : are_accepted credentials_reply ≡ true
unfolding client_credentials strcmp_eq copy
reply-are_accepted =
    are_accepted-sent (code handshake_credentials_ack) credentials_size client_credentials
      (omega arith)

-- The handler of a read, at a message that was built.
pub read_handshake-built :
    (env : Env) (h hd : ℕ) (src : Block) (n : ℕ) (r : Room)
    → hd < 2 ^ 16
    → n ≤ src.size
    → header_size + n ≤ message_size
    → read_handshake_ended env h (built hd src n) message_size r
      ≡ dispatch_handshake env h hd (built hd src n) r
unfolding read_handshake_ended
read_handshake-built env h hd src n r hh hs hn = rw (from_raw-built hd src n hs hn) (
    ap (λ (i : ℕ). dispatch_handshake env h i (built hd src n) r)
      (head-built hd src n hh (omega arith)))

-- The client's reply to the demand for credentials lets it in, though the message carries only part
-- of the client's struct: the server's handler, given the reply as it arrives, enters the session
-- into a room with a place, under the identifier drawn, and leaves its socket as it was.
pub client_enters :
    (env : Env) (h : ℕ) (r : Room) (c : Client)
    → length r.participants < r.max_participants
    → env.accepts_option (asked_session env h r true) ≡ true
    → length (r.sessions h).ip ≤ 512
    → IsOutside h r
    → get_participant_ptr r (env.rng r.drawn) ≡ none
    → (r' : Room) × (on_credentials c ≡ ok (write_byte credentials_reply c))
      × (read_handshake_ended env h credentials_reply message_size r ≡ ok r')
      × (get_participant_ptr r' (env.rng r.drawn) ≡ some h)
      × ((r'.sessions h).is_open ≡ (r.sessions h).is_open)
unfolding dispatch_handshake
client_enters env h r c room accepted short outside fresh =
    let entered =
      check_enters env h credentials_reply r reply-are_accepted room accepted short outside fresh in
    (
      entered.0,
      on_credentials-posts c,
      read_handshake-built env h (code handshake_credentials_ack)
            (credentials_ack_object client_credentials) credentials_size r (omega arith)
            (omega arith) (omega arith)
          ∙ entered.1,
      entered.2,
      entered.4 ∙ (unfold do_read_byte in refl),
    )

pub on_hello-answers :
    (now : ℕ) (msg : Block) (c : Client)
    → let id = (read_hello msg.at header_size).service_id in
      on_hello now msg c
      ≡ ok (
          write_byte
            (built (code handshake_hello_ack) (hello_ack_object (hello_reply id now)) 20500)
            (record c { participant_id = id; service_id = id }))
unfolding on_hello
on_hello-answers now msg c = rw (
    from_head-built (code handshake_hello_ack)
      (hello_ack_object (hello_reply (read_hello msg.at header_size).service_id now)) 20500
      (omega arith) (omega arith))

-- The client's handler of a read, at a message that was built.
pub read_ended-built :
    (now hd : ℕ) (src : Block) (n : ℕ) (c : Client)
    → hd < 2 ^ 16
    → n ≤ src.size
    → header_size + n ≤ message_size
    → read_ended now (built hd src n) message_size c
      ≡ (dispatch now hd (built hd src n) c >>= λ c'. ok (record c' { reading = true }))
unfolding read_ended
read_ended-built now hd src n c hh hs hn = rw (from_raw-built hd src n hs hn) (
    ap (λ (i : ℕ). dispatch now i (built hd src n) c >>= λ c'. ok (record c' { reading = true }))
      (head-built hd src n hh (omega arith)))

-- Whatever identifier the server greets a client with, the client takes the service's identifier
-- for its own, answers with that, and reads on.
pub client_takes_service_id :
    (now : ℕ) (s : HandshakeHello) (c : Client)
    → s.service_id < 2 ^ 64
    → s.participant_id < 2 ^ 64
    → s.server_timestamp < 2 ^ 64
    → s.servername_buffersize < 2 ^ 32
    → (c' : Client) × (read_ended now (greeting_message s) message_size c ≡ ok c')
      × (c'.participant_id ≡ s.service_id)
      × (c'.service_id ≡ s.service_id)
      × (c'.posted
          ≡ c.posted
            ++ built
                (code handshake_hello_ack)
                (hello_ack_object (hello_reply s.service_id now))
                20500
              ∷ [])
      × (c'.reading ≡ true)
unfolding dispatch
client_takes_service_id now s c h1 h2 h3 h4 =
    let arrived = (read_hello-sent (code handshake_hello) s h1 h2 h3 h4).0 in
    (
      record (write_byte
          (built (code handshake_hello_ack)
            (hello_ack_object
              (hello_reply (read_hello (greeting_message s).at header_size).service_id now))
            20500)
          c) {
            participant_id = (read_hello (greeting_message s).at header_size).service_id;
            service_id = (read_hello (greeting_message s).at header_size).service_id;
            reading = true;
          },
      read_ended-built now (code handshake_hello) (hello_object s) 1052 c (omega arith)
            (omega arith) (omega arith)
          ∙ ap (λ (o : Outcome Client). o >>= λ c'. ok (record c' { reading = true }))
              (on_hello-answers now (greeting_message s) c)
          ∙ (unfold write_byte in refl),
      arrived,
      arrived,
      (unfold write_byte in
          ap
            (λ (i : ℕ).
              c.posted
              ++ built (code handshake_hello_ack) (hello_ack_object (hello_reply i now)) 20500 ∷ [])
            arrived),
      refl,
    )
