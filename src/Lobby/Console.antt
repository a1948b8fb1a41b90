-- ===== src/Lobby/Console.antt =====
-- nr_service_console.cpp: what the console does with the service. A key's output and the help text
-- are left out; what the callbacks print is in it.
use xrnetwork.Base.{
  ℕ, List, [], ◌∷◌, Bool, true, false, not, ◌||◌, Outcome, ok, ◌>>=◌, ◌==◌, if◌then◌else◌, codes,
}
use xrnetwork.Lobby
use xrnetwork.Room.State.{Env}
use xrnetwork.Room.Members.{new_info}
use xrnetwork.Printing.{Item, text, number, endl, c_text}
use xrnetwork.Printing.Digits.{digits}
use xrnetwork.Lobby.Getters.{get_participant_info}
use xrnetwork.Lobby.{Lobby}

pub record Console : Type 0 where
  pub lobby : Lobby
  pub instantiated : Bool

-- The slots by number: the three callbacks of the console, and the one below.
abbrev pub on_new_participant : ℕ
on_new_participant = 0

abbrev pub on_new_message : ℕ
on_new_message = 1

abbrev pub on_participant_leave : ℕ
on_participant_leave = 2

abbrev pub on_service_started_slot : ℕ
on_service_started_slot = 3

-- `OnNewParticipant`: the address is read up to its NUL from an array of 512 bytes.
unfoldable pub new_participant_line : Env → ℕ → Lobby → Outcome (List Item)
unfolding get_participant_info c_text
new_participant_line env id s = get_participant_info id (new_info env) s >>= λ info.
    c_text (record { size = 512; at = info.ipv4_ip }) 0 >>= λ ip. ok (
      text (codes "----- New Participant event ID: ")
      ∷ number id
      ∷ text (codes ", IP: ")
      ∷ text ip
      ∷ endl
      ∷ [])

-- `OnParticipantLeave`. `std::to_string` writes in base 10.
unfoldable pub participant_leave_line : ℕ → List Item
participant_leave_line id =
    text (codes "----- participant ")
    ∷ text (digits 10 20 id)
    ∷ text (codes " leaving room.")
    ∷ endl
    ∷ []

-- `OnServiceStarted`, up to the flag that it sets.
unfoldable pub connect_callbacks : Lobby → Outcome Lobby
connect_callbacks s = Lobby.register_callback_new_participant on_new_participant s >>= λ s1.
    Lobby.register_callback_new_message on_new_message s1 >>= λ s2.
    Lobby.register_callback_participant_leave on_participant_leave s2 >>= λ s3.
    Lobby.set_max_participants 100 s3 >>= λ p4.
    Lobby.set_max_handshake_connections 100 p4.0 >>= λ p5.
    Lobby.set_auto_update_participants true p5.0 >>= λ p6. ok p6.0

unfoldable pub on_service_started : Console → Outcome Console
unfolding connect_callbacks
on_service_started c =
    if not c.instantiated
    then (connect_callbacks c.lobby >>= λ s. ok (record { lobby = s; instantiated = true }))
    else ok c

-- The settings before the first key.
unfoldable pub prepare : Lobby → Console
prepare s = record {
  lobby =
      Lobby.set_service_name (codes "JP Service")
        (Lobby.set_socket_no_delay true (Lobby.set_port 1080 s));
  instantiated = false;
}

-- A key of the loop; the loop ends with the key 96.
unfoldable pub on_key : ℕ → Console → Outcome Console
on_key k c =
    if k == b'b' || k == b'B'
    then ok (record c {
      lobby = (Lobby.set_broadcasting_all_messages (not c.lobby.broadcast) c.lobby).0;
    })
    else if k == b'n' || k == b'N'
    then (Lobby.start c.lobby >>= λ started.
        if not c.instantiated
        then ok (record c {
          lobby = Lobby.register_callback_on_running on_service_started_slot started;
        })
        else ok (record c { lobby = started }))
    else if k == b's' || k == b'S'
    then (Lobby.stop c.lobby >>= λ s. ok (record c { lobby = s }))
    else if k == b'd' || k == b'D'
    then (Lobby.disconnect_all_participants c.lobby >>= λ s. ok (record c { lobby = s }))
    else ok c
