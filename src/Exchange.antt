-- ===== src/Exchange.antt =====
-- handshake.hpp and nr_client.cpp together: a service and a client on one connection. A peer's
-- messages arrive in the order in which they were posted, each in a read of its own.
pub mod Unmoved
pub mod Turns
pub mod Answers
pub mod Completes
pub mod Welcomes
pub mod Relay
pub mod Shown
pub mod Legible
use xrnetwork.Base.{
  ℕ, zero, suc, Bool, List, [], ◌∷◌, ◌++◌, length, Outcome, ok, ◌>>=◌, ◌==◌, if◌then◌else◌,
}
use xrnetwork.Base.Memory.{Block}
use xrnetwork.XrMessage.{message_size}
use xrnetwork.Room.State.{Env, Room}
use xrnetwork.Connection.Handshake.{Service, start, read_handshake_ended}
use xrnetwork.Client.{Client, read_ended}

-- Both ends, and what is on its way.
pub record Peers : Type 0 where
  pub room : Room
  pub client : Client
  pub to_client : List Block
  pub to_server : List Block

unfoldable pub drop {ℓ} : {A : Type ℓ} → ℕ → List A → List A
drop zero xs = xs
drop (suc n) [] = []
drop (suc n) (x ∷ xs) = drop n xs

-- The messages to one session.
unfoldable pub mail : ℕ → List (ℕ × Block) → List Block
mail h [] = []
mail h (p ∷ ps) = let rest = mail h ps in if p.0 == h then p.1 ∷ rest else rest

-- What an operation of the room has posted to a session.
abbrev pub news : ℕ → Room → Room → List Block
news h r r' = mail h (drop (length r.posted) r'.posted)

unfoldable pub connect : Env → Service → ℕ → ℕ → Room → Client → Outcome Peers
unfolding start mail drop
connect env service timestamp h r c = start env service timestamp h r >>= λ r'.
    ok (record { room = r'; client = c; to_client = news h r r'; to_server = [] })

-- The server's session reads the next message, if there is one.
unfoldable pub server_takes : Env → ℕ → List Block → Peers → Outcome Peers
unfolding read_handshake_ended mail drop
server_takes env h [] p = ok p
server_takes env h (m ∷ rest) p = read_handshake_ended env h m message_size p.room >>= λ r'.
    ok (record p { room = r'; to_client = p.to_client ++ news h p.room r'; to_server = rest })

unfoldable pub client_takes : ℕ → List Block → Peers → Outcome Peers
unfolding read_ended drop
client_takes now [] p = ok p
client_takes now (m ∷ rest) p = read_ended now m message_size p.client >>= λ c'. ok (record p {
  client = c';
  to_client = rest;
  to_server = p.to_server ++ drop (length p.client.posted) c'.posted;
})

-- A turn of each, the client first: it has been greeted.
unfoldable pub turn : Env → ℕ → ℕ → Peers → Outcome Peers
unfolding server_takes client_takes
turn env now h p = client_takes now p.to_client p >>= λ q. server_takes env h q.to_server q

-- The greeting and its answer, the demand for credentials and the credentials, the invitation.
unfoldable pub handshake : Env → Service → ℕ → ℕ → ℕ → Room → Client → Outcome Peers
unfolding connect turn
handshake env service timestamp now h r c =
    connect env service timestamp h r c >>= turn env now h >>= turn env now h >>= turn env now h
