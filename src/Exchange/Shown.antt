-- ===== src/Exchange/Shown.antt =====
-- The handshake of Exchange with what each of the two programs prints.
use xrnetwork.Base.{ℕ, List, [], ◌∷◌, ◌++◌, length, Outcome, ok, ◌>>=◌}
use xrnetwork.Base.Memory.{Block}
use xrnetwork.XrMessage.{message_size}
use xrnetwork.Printing.{Item}
use xrnetwork.Room.State.{Env, Room}
use xrnetwork.Connection.Handshake.{Service}
use xrnetwork.Connection.Shown.{start_shown, read_handshake_shown}
use xrnetwork.Client.{Client}
use xrnetwork.Client.Shown.{read_shown}
use xrnetwork.Exchange.{Peers, drop, news}

-- Both ends and the two outputs.
pub record Talk : Type 0 where
  pub peers : Peers
  pub service_lines : List Item
  pub client_lines : List Item

unfoldable pub connect_shown : Env → Service → ℕ → ℕ → Room → Client → Outcome Talk
unfolding start_shown drop
connect_shown env service timestamp h r c = start_shown env service timestamp h r >>= λ x.
    ok (record {
      peers = record { room = x.0; client = c; to_client = news h r x.0; to_server = [] };
      service_lines = x.1;
      client_lines = [];
    })

unfoldable pub server_takes_shown : Env → ℕ → List Block → Talk → Outcome Talk
unfolding read_handshake_shown drop
server_takes_shown env h [] t = ok t
server_takes_shown env h (m ∷ rest) t =
    read_handshake_shown env h m message_size t.peers.room >>= λ x. ok (record t {
      peers = record t.peers {
        room = x.0;
        to_client = t.peers.to_client ++ news h t.peers.room x.0;
        to_server = rest;
      };
      service_lines = t.service_lines ++ x.1;
    })

unfoldable pub client_takes_shown : ℕ → List Block → Talk → Outcome Talk
unfolding read_shown drop
client_takes_shown now [] t = ok t
client_takes_shown now (m ∷ rest) t = read_shown now m message_size t.peers.client >>= λ x.
    ok (record t {
      peers = record t.peers {
        client = x.0;
        to_client = rest;
        to_server = t.peers.to_server ++ drop (length t.peers.client.posted) x.0.posted;
      };
      client_lines = t.client_lines ++ x.1;
    })

unfoldable pub turn_shown : Env → ℕ → ℕ → Talk → Outcome Talk
unfolding server_takes_shown client_takes_shown
turn_shown env now h t =
    client_takes_shown now t.peers.to_client t >>= λ u. server_takes_shown env h u.peers.to_server u

unfoldable pub handshake_shown : Env → Service → ℕ → ℕ → ℕ → Room → Client → Outcome Talk
unfolding connect_shown turn_shown
handshake_shown env service timestamp now h r c =
    connect_shown env service timestamp h r c
    >>= turn_shown env now h
    >>= turn_shown env now h
    >>= turn_shown env now h
