-- ===== src/Exchange/Turns.antt =====
-- What each end does with each message of a handshake.
use xrnetwork.Base.{
  ℕ, ◌+◌, ◌^◌, ◌≤◌, ◌<◌, ◌≡◌, refl, ap, ◌∙◌, true, List, [], ◌∷◌, ◌++◌, length, Outcome, ok, ◌>>=◌,
  le→ltb-false, arith,
}
use xrnetwork.Base.Memory.{Block, slice}
use xrnetwork.XrMessage.{header_size, message_size}
use xrnetwork.XrMessage.RoundTrip.{built, from_head-built}
use xrnetwork.Protocol.Heads.{code, handshake_hello_ack, handshake_credentials, participant_join}
use xrnetwork.Protocol.Structs.{kb, hello_ack_object, credentials_object, join_object}
use xrnetwork.Protocol.Builders.{build_handshake_credentials}
use xrnetwork.Protocol.Readers.{read_hello_ack}
use xrnetwork.Protocol.Offsets.{read_hello_ack-sent, read_join-sent}
use xrnetwork.Session.{Session, do_read_handshake}
use xrnetwork.Room.State.{Env, Room, id_of, modify, sessions-put_self}
use xrnetwork.Room.Deliver.{deliver_byte}
use xrnetwork.Connection.Handshake.{
  Service, start, invitation, check_handshake_hello_ack, dispatch_handshake, read_handshake_ended,
}
use xrnetwork.Connection.Greeting.{
  greeting, greeting_message, started_session, started, do_start-form,
}
use xrnetwork.Connection.Credentials.{invitation_message}
use xrnetwork.Client.{hello_reply, Client, on_join, dispatch, read_ended, write_byte}
use xrnetwork.Client.Admission.{
  credentials_reply, on_credentials-posts, read_handshake-built, read_ended-built,
}
use xrnetwork.Exchange.{drop, mail, news}
use xrnetwork.Exchange.Unmoved.{Unmoved, Unmoved-trans, Unmoved-put, Unmoved-deliver_byte}

drop-append {ℓ} : {A : Type ℓ} (xs ys : List A) → drop (length xs) (xs ++ ys) ≡ ys
unfolding drop
drop-append [] ys = refl
drop-append (x ∷ xs) ys = drop-append xs ys

drop-length {ℓ} : {A : Type ℓ} (xs : List A) → drop (length xs) xs ≡ []
unfolding drop
drop-length [] = refl
drop-length (x ∷ xs) = drop-length xs

-- What was posted last is the news.
pub news-posted :
    (h : ℕ) (r r' : Room) (m : Block) → r'.posted ≡ r.posted ++ (h, m) ∷ [] → news h r r' ≡ m ∷ []
unfolding mail
news-posted h r r' m e = rw e (rw (drop-append r.posted ((h, m) ∷ [])) (ground arith))

pub drop-posted :
    (c c' : Client) (m : Block)
    → c'.posted ≡ c.posted ++ m ∷ []
    → drop (length c.posted) c'.posted ≡ m ∷ []
drop-posted c c' m e = rw e (drop-append c.posted (m ∷ []))

pub drop-unchanged : (c c' : Client) → c'.posted ≡ c.posted → drop (length c.posted) c'.posted ≡ []
drop-unchanged c c' e = rw e (drop-length c.posted)

-- The room after the greeting, after the demand for credentials.
abbrev pub greeted : Env → Service → ℕ → ℕ → Room → Room
greeted env service timestamp h r =
    deliver_byte (greeting_message (greeting service (id_of r h) timestamp)) h (started env h r)

pub start-greeted :
    (env : Env) (service : Service) (timestamp h : ℕ) (r : Room)
    → length service.server_name ≤ kb
    → start env service timestamp h r ≡ ok (greeted env service timestamp h r)
unfolding start do_read_handshake
start-greeted env service timestamp h r short =
    do_start-form service timestamp h r (record (r.sessions h) { ip = env.endpoint h }) short

abbrev pub hello_answer : ℕ → ℕ → Block
hello_answer id now = built (code handshake_hello_ack) (hello_ack_object (hello_reply id now)) 20500

abbrev pub demand : Block
demand = built (code handshake_credentials) (credentials_object build_handshake_credentials) 20484

-- The session with the configuration that an answer to the greeting carries.
abbrev pub configured : Block → Session → Session
configured msg s =
    let ack = read_hello_ack msg.at header_size in
    record s {
      m_descriptor =
          s.m_descriptor ++ slice ack.configuration_buffer 0 ack.configuration_buffersize;
    }

abbrev pub demanded : Block → ℕ → Room → Room
demanded msg h r = modify h do_read_handshake (deliver_byte demand h (modify h (configured msg) r))

check_hello_ack-demands :
    (h id now : ℕ) (r : Room)
    → id < 2 ^ 64
    → now < 2 ^ 64
    → check_handshake_hello_ack h (hello_answer id now) r
      ≡ ok (deliver_byte demand h (modify h (configured (hello_answer id now)) r))
unfolding check_handshake_hello_ack
check_hello_ack-demands h id now r hi hn =
    let size =
      (read_hello_ack-sent (code handshake_hello_ack) (hello_reply id now) hi hn (omega arith)).2 in
    let ack = read_hello_ack (hello_answer id now).at header_size in
    let inside =
      le→ltb-false message_size (header_size + 20 + ack.configuration_buffersize)
        (omega (arith, size)) in
    rw
      (
        inside,
        from_head-built (code handshake_credentials)
            (credentials_object build_handshake_credentials) 20484 (omega arith) (omega arith),
      )
      refl

pub read_handshake-demands :
    (env : Env) (h id now : ℕ) (r : Room)
    → id < 2 ^ 64
    → now < 2 ^ 64
    → read_handshake_ended env h (hello_answer id now) message_size r
      ≡ ok (demanded (hello_answer id now) h r)
unfolding dispatch_handshake
read_handshake-demands env h id now r hi hn =
    read_handshake-built env h (code handshake_hello_ack) (hello_ack_object (hello_reply id now))
      20500 r (omega arith) (omega arith) (omega arith)
    ∙ ap (λ o. o >>= λ r'. ok (modify h do_read_handshake r'))
        (check_hello_ack-demands h id now r hi hn)

pub read_ended-credentials :
    (now : ℕ) (c : Client)
    → read_ended now demand message_size c
      ≡ ok (record (write_byte credentials_reply c) { reading = true })
unfolding dispatch
read_ended-credentials now c =
    read_ended-built now (code handshake_credentials)
      (credentials_object build_handshake_credentials) 20484 c (omega arith) (omega arith)
      (omega arith)
    ∙ ap (λ (o : Outcome Client). o >>= λ c'. ok (record c' { reading = true }))
        (on_credentials-posts c)

pub read_ended-joins :
    (now id : ℕ) (c : Client)
    → id < 2 ^ 64
    → read_ended now (invitation_message id) message_size c
      ≡ ok (record c { participant_id = id; timer_armed = true; reading = true })
unfolding dispatch on_join
read_ended-joins now id c hi =
    read_ended-built now (code participant_join) (join_object (invitation id)) 10256 c (omega arith)
      (omega arith) (omega arith)
    ∙ ap (λ (i : ℕ). ok (record c { participant_id = i; reading = true; timer_armed = true }))
        (read_join-sent (code participant_join) (invitation id) hi)

pub greeted-Unmoved :
    (env : Env) (service : Service) (timestamp h : ℕ) (r : Room)
    → Unmoved h r (greeted env service timestamp h r)
greeted-Unmoved env service timestamp h r =
    Unmoved-trans h r (started env h r) (greeted env service timestamp h r)
      (Unmoved-put h r (started_session env h r) (unfold do_read_handshake in refl)
        (unfold do_read_handshake in refl))
      (Unmoved-deliver_byte h (started env h r)
        (greeting_message (greeting service (id_of r h) timestamp)) h)

pub demanded-Unmoved : (msg : Block) (h : ℕ) (r : Room) → Unmoved h r (demanded msg h r)
demanded-Unmoved msg h r =
    let r1 = modify h (configured msg) r in
    let r2 = deliver_byte demand h r1 in
    Unmoved-trans h r r2 (demanded msg h r)
      (Unmoved-trans h r r1 r2 (Unmoved-put h r (configured msg (r.sessions h)) refl refl)
        (Unmoved-deliver_byte h r1 demand h))
      (Unmoved-put h r2 (do_read_handshake (r2.sessions h)) (unfold do_read_handshake in refl)
        (unfold do_read_handshake in refl))

pub demanded-ip :
    (msg : Block) (h : ℕ) (r : Room) → ((demanded msg h r).sessions h).ip ≡ (r.sessions h).ip
unfolding deliver_byte
demanded-ip msg h r =
    let r1 = modify h (configured msg) r in
    ap (λ (s : Session). s.ip)
      (sessions-put_self (deliver_byte demand h r1) h (do_read_handshake (r1.sessions h)))
    ∙ (unfold do_read_handshake in
        ap (λ (s : Session). s.ip) (sessions-put_self r h (configured msg (r.sessions h))))

pub greeted-ip :
    (env : Env) (service : Service) (timestamp h : ℕ) (r : Room)
    → ((greeted env service timestamp h r).sessions h).ip ≡ env.endpoint h
unfolding deliver_byte
greeted-ip env service timestamp h r =
    ap (λ (s : Session). s.ip) (sessions-put_self r h (started_session env h r))
    ∙ (unfold do_read_handshake in refl)
