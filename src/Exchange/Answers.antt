-- ===== src/Exchange/Answers.antt =====
-- A turn of a handshake in which each end answers, and the one in which the client has nothing to say.
use xrnetwork.Base.{ℕ, ◌≤◌, ◌≡◌, refl, ap, List, [], ◌∷◌, ◌++◌, length, ok}
use xrnetwork.Base.Memory.{Block}
use xrnetwork.XrMessage.{message_size}
use xrnetwork.Protocol.Structs.{kb}
use xrnetwork.Room.State.{Env, Room, id_of, put}
use xrnetwork.Room.Deliver.{deliver_byte}
use xrnetwork.Connection.Handshake.{Service, read_handshake_ended}
use xrnetwork.Connection.Greeting.{greeting, greeting_message}
use xrnetwork.Client.{Client, read_ended}
use xrnetwork.Exchange.{Peers, connect, turn}
use xrnetwork.Exchange.Turns.{news-posted, drop-posted, drop-unchanged, greeted, start-greeted}

-- Both ends with one message on its way to the client, and with none.
abbrev pub waiting : Room → Client → Block → Peers
waiting r c m = record { room = r; client = c; to_client = m ∷ []; to_server = [] }

abbrev pub at_rest : Room → Client → Peers
at_rest r c = record { room = r; client = c; to_client = []; to_server = [] }

pub connect-waits :
    (env : Env) (service : Service) (timestamp h : ℕ) (r : Room) (c : Client)
    → length service.server_name ≤ kb
    → connect env service timestamp h r c
      ≡ ok (
          waiting
            (greeted env service timestamp h r)
            c
            (greeting_message (greeting service (id_of r h) timestamp)))
unfolding connect put
connect-waits env service timestamp h r c short =
    let r1 = greeted env service timestamp h r in
    rw (start-greeted env service timestamp h r short) (
      ap (λ (ms : List Block). ok (record (at_rest r1 c) { to_client = ms }))
        (news-posted h r r1 (greeting_message (greeting service (id_of r h) timestamp))
          (unfold deliver_byte in refl)))

-- What a turn does in which each end answers.
pub record Answers (env : Env) (now h : ℕ) (m answer reply : Block) (r r' : Room) (c c' : Client)
    : Type 0 where
  pub client_reads : read_ended now m message_size c ≡ ok c'
  pub client_posts : c'.posted ≡ c.posted ++ answer ∷ []
  pub server_reads : read_handshake_ended env h answer message_size r ≡ ok r'
  pub server_posts : r'.posted ≡ r.posted ++ (h, reply) ∷ []

pub turn-Answers :
    (env : Env) (now h : ℕ) (m answer reply : Block) (r r' : Room) (c c' : Client)
    → Answers env now h m answer reply r r' c c'
    → turn env now h (waiting r c m) ≡ ok (waiting r' c' reply)
unfolding turn
turn-Answers env now h m answer reply r r' c c' a = rw a.client_reads (
    rw (drop-posted c c' answer a.client_posts)
      (rw a.server_reads (rw (news-posted h r r' reply a.server_posts) refl)))

-- A turn in which the client has nothing to say.
pub turn_ends :
    (env : Env) (now h : ℕ) (r : Room) (c c' : Client) (m : Block)
    → read_ended now m message_size c ≡ ok c'
    → c'.posted ≡ c.posted
    → turn env now h (waiting r c m) ≡ ok (at_rest r c')
unfolding turn
turn_ends env now h r c c' m e1 e2 = rw e1 (rw (drop-unchanged c c' e2) refl)
