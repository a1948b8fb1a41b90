-- ===== src/Scenarios/Consoles.antt =====
-- What the console says of a newcomer, at the room of two.
use xrnetwork.Base.{◌≡◌, refl, true, some, [], ◌∷◌, codes, ok, arith}
use xrnetwork.Server.{Server}
use xrnetwork.Lobby.{Lobby, new_lobby}
use xrnetwork.Lobby.Console.{new_participant_line}
use xrnetwork.Lobby.Announced.{join-new_participant_line}
use xrnetwork.Printing.{text, number, endl}
use xrnetwork.Room.State.{Room}
use xrnetwork.Room.Members.{join}
use xrnetwork.Scenarios.{platform, room_of_two, outsider, nobody}

abbrev server_of_two : Server
server_of_two = record {
  room = room_of_two;
  acceptor_open = true;
  has_started = true;
  credentials = record { login = []; password = [] };
  service_id = 77;
  service_name = codes "demo";
}

abbrev running_lobby : Lobby
running_lobby = record (new_lobby (codes "demo") 1 5) { running = true }

join-new_participant_line_example :
    (r' : Room) × (join platform 2 room_of_two ≡ ok r')
    × (new_participant_line platform 20
          (record running_lobby { server = some (record server_of_two { room = r' }) })
        ≡ ok (
            text (codes "----- New Participant event ID: ")
            ∷ number 20
            ∷ text (codes ", IP: ")
            ∷ text (codes "::1")
            ∷ endl
            ∷ []))
join-new_participant_line_example =
    join-new_participant_line platform 2 room_of_two server_of_two running_lobby (omega arith) refl
      (omega arith) outsider nobody (omega arith, (omega arith, (omega arith, tt))) (omega arith)
      refl
