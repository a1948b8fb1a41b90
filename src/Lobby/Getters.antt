-- ===== src/Lobby/Getters.antt =====
-- XRNetworkLobbyService.hpp: what the service answers about itself and its server.
use xrnetwork.Base.{
  ℕ, Bool, false, none, some, List, Outcome, ok, fault, null_pointer, ◌>>=◌, if◌then◌else◌,
}
use xrnetwork.Session.{Info}
use xrnetwork.Room.Queries.{Status, nr_ok, nr_fail}
use xrnetwork.Server
use xrnetwork.Server.{Server}
use xrnetwork.Lobby.{Lobby, tcp, udp, v4, v6}

unfoldable pub get_protocol : Lobby → ℕ
get_protocol s = elim s.protocol [ tcp ↦ 0 | udp ↦ 1 ]

unfoldable pub get_protocol_version : Lobby → ℕ
get_protocol_version s = elim s.protocol_version [ v4 ↦ 4 | v6 ↦ 6 ]

-- What is read through the pointer.
abbrev pub from_server {ℓ} : {A : Type ℓ} → (Server → A) → Lobby → Outcome A
from_server f s = elim s.server [ none ↦ fault null_pointer | some server ↦ ok (f server) ]

unfoldable pub participants_count : Lobby → Outcome ℕ
participants_count s = if s.running then from_server Server.participants_count s else ok 0

unfoldable pub get_participant_info : ℕ → Info → Lobby → Outcome Info
get_participant_info id out s =
    if s.running
    then (from_server (Server.get_participant_info id out) s >>= λ answer. answer)
    else ok out

unfoldable pub server_has_started : Lobby → Outcome Bool
server_has_started s = if s.running then from_server (λ server. server.has_started) s else ok false

-- The answer and the status; the output is left as it was where the thread does not run.
unfoldable pub get_participant_deaf : ℕ → Bool → Lobby → Outcome (Bool × Status)
get_participant_deaf id deaf s =
    if s.running
    then (from_server (Server.get_participant_deaf id) s >>= λ answer. ok (answer, nr_ok))
    else ok (deaf, nr_fail)

unfoldable pub get_auto_update_participants : Bool → Lobby → Outcome (Bool × Status)
get_auto_update_participants au s =
    if s.running
    then (from_server (λ server. server.room.auto_update) s >>= λ answer. ok (answer, nr_ok))
    else ok (au, nr_fail)

abbrev pub is_running : Lobby → Bool
is_running s = s.running

abbrev pub get_port : Lobby → ℕ
get_port s = s.port

abbrev pub get_max_participants : Lobby → ℕ
get_max_participants s = s.max_participants

abbrev pub get_socket_no_delay : Lobby → Bool
get_socket_no_delay s = s.socket_no_delay

abbrev pub get_keep_alive : Lobby → Bool
get_keep_alive s = s.keep_alive

abbrev pub get_broadcasting_all_messages : Lobby → Bool
get_broadcasting_all_messages s = s.broadcast

abbrev pub get_id : Lobby → ℕ
get_id s = s.id

abbrev pub get_service_name : Lobby → List ℕ
get_service_name s = s.service_name
