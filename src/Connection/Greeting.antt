-- ===== src/Connection/Greeting.antt =====
-- The first steps of the handshake, on both sides of the connection.
use xrnetwork.Base.{ℕ, ◌≤◌, ◌≡◌, refl, ap, [], ◌∷◌, ◌++◌, length, ok, arith, le→ltb-false}
use xrnetwork.Base.Memory.{Block, zeros, copy, bytes_of}
use xrnetwork.XrMessage.RoundTrip.{built, from_head-built}
use xrnetwork.Protocol.Heads.{code, handshake_hello}
use xrnetwork.Protocol.Structs.{kb, HandshakeHello, hello_object}
use xrnetwork.Session.{Session, handshake_reader, do_read_handshake}
use xrnetwork.Room.State.{Env, Room, id_of, put, sessions-put_self, put-put}
use xrnetwork.Room.Deliver.{deliver_byte}
use xrnetwork.Connection.Handshake.{Service, do_start_handshake, start}

-- The greeting of a service to a session.
abbrev pub greeting : Service → ℕ → ℕ → HandshakeHello
greeting service id timestamp = record {
  service_id = service.service_id;
  participant_id = id;
  server_timestamp = timestamp;
  servername_buffersize = length service.server_name;
  servername_buffer = copy zeros 0 (bytes_of service.server_name) (length service.server_name);
}

abbrev pub greeting_message : HandshakeHello → Block
greeting_message s = built (code handshake_hello) (hello_object s) 1052

-- A session as it starts: its address noted, the first read armed.
abbrev pub started_session : Env → ℕ → Room → Session
started_session env h r = do_read_handshake (record (r.sessions h) { ip = env.endpoint h })

-- The room with the session started.
abbrev pub started : Env → ℕ → Room → Room
started env h r = put r h (started_session env h r)

pub do_start-form :
    (service : Service) (timestamp h : ℕ) (r : Room) (s : Session)
    → length service.server_name ≤ kb
    → do_start_handshake service timestamp h (put r h s)
      ≡ ok (
          deliver_byte
            (greeting_message (greeting service (do_read_handshake s).m_id timestamp))
            h
            (put r h (do_read_handshake s)))
unfolding do_start_handshake
do_start-form service timestamp h r s short = rw (sessions-put_self r h s) (
    rw (put-put r h s (do_read_handshake s)) (
      rw (id_of, sessions-put_self r h (do_read_handshake s))
        (rw (le→ltb-false kb (length service.server_name) short) (
          rw (
            from_head-built (code handshake_hello)
              (hello_object (greeting service (do_read_handshake s).m_id timestamp)) 1052
              (omega arith) (omega arith))))))

-- With a service name of at most 1024 bytes, `start` returns: the session's address is noted, one
-- handshake read is armed, and the greeting is posted to this session, with the service's
-- identifier and the one that the session has; nobody enters the room.
pub start-greets :
    (env : Env) (service : Service) (timestamp h : ℕ) (r : Room)
    → length service.server_name ≤ kb
    → (r' : Room) × (start env service timestamp h r ≡ ok r')
      × (r'.posted
          ≡ r.posted ++ (h, greeting_message (greeting service (id_of r h) timestamp)) ∷ [])
      × ((r'.sessions h).ip ≡ env.endpoint h)
      × ((r'.sessions h).reads ≡ (r.sessions h).reads ++ handshake_reader ∷ [])
      × (r'.participants ≡ r.participants)
unfolding start deliver_byte do_read_handshake put
start-greets env service timestamp h r short =
    let there = sessions-put_self r h (started_session env h r) in
    (
      deliver_byte (greeting_message (greeting service (started_session env h r).m_id timestamp)) h
          (started env h r),
      do_start-form service timestamp h r (record (r.sessions h) { ip = env.endpoint h }) short,
      refl,
      ap (λ (s : Session). s.ip) there,
      ap (λ (s : Session). s.reads) there,
      refl,
    )
