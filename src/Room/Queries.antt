-- ===== src/Room/Queries.antt =====
-- room.hpp: settings, callbacks and lookups of single participants.
use xrnetwork.Base.{
  ℕ, Bool, true, false, Option, none, some, [], ◌∷◌, ◌++◌, map, length, Outcome, ok, fault,
  null_pointer, out_of_bounds, ltb, if◌then◌else◌,
}
use xrnetwork.Base.Memory.{Block, copy, bytes_of}
use xrnetwork.Session.{Session, Info, set_deaf}
use xrnetwork.Room.State.{Room, Slots, on_new_message, modify, get_participant_ptr}
use xrnetwork.Room.Members.{disconnect_all_participants}

-- `NR_OK` and `NR_FAIL`.
pub data Status : Type 0 where
  nr_ok nr_fail : Status

unfoldable pub set_auto_update_participants : Bool → Room → Room
set_auto_update_participants au r = record r { auto_update = au }

unfoldable pub participants_count : Room → ℕ
participants_count r = length r.participants

unfoldable pub set_max_participants : ℕ → Room → Room
set_max_participants n r = record r { max_participants = n }

unfoldable pub set_room_keep_alive : Bool → Room → Room
set_room_keep_alive b r = record r { keep_alive = b }

unfoldable pub set_message_buffer_size : ℕ → Room → Room
set_message_buffer_size n r = record r { max_recent_msgs = n }

unfoldable pub set_broadcast_messages : Bool → Room → Room
set_broadcast_messages b r = record r { broadcast_messages = b }

unfoldable pub set_max_participant_buffer_size : ℕ → Room → Room × Status
set_max_participant_buffer_size n r = (record r { max_participant_buffer_size = n }, nr_ok)

abbrev with_slots : Slots → Room → Room
with_slots s r = record r { slots = s }

unfoldable pub register_callback_new_participant : ℕ → Room → Room
register_callback_new_participant slot r =
    with_slots (record (r.slots) { new_participant = r.slots.new_participant ++ slot ∷ [] }) r

unfoldable pub connect_on_new_participant : ℕ → Room → Room
unfolding register_callback_new_participant
connect_on_new_participant subscriber r = register_callback_new_participant subscriber r

unfoldable pub register_callback_new_message : ℕ → Room → Room
register_callback_new_message slot r =
    with_slots (record (r.slots) { new_message = r.slots.new_message ++ slot ∷ [] }) r

unfoldable pub register_callback_participant_leave : ℕ → Room → Room
register_callback_participant_leave slot r =
    with_slots (record (r.slots) { participant_leave = r.slots.participant_leave ++ slot ∷ [] }) r

unfoldable pub disconnect_all_callbacks : Room → Room
disconnect_all_callbacks r =
    with_slots
      (record {
        new_participant = [];
        new_message = [];
        broadcast_message = [];
        participant_leave = [];
      })
      r

-- The signal of a new message, with the number of its bytes.
unfoldable pub new_message : ℕ → ℕ → Room → Room
new_message id buffer_size r = record r {
  calls = r.calls ++ map (λ slot. on_new_message slot id buffer_size) r.slots.new_message;
}

unfoldable pub set_participant_deaf : ℕ → Bool → Room → Room × Status
set_participant_deaf id deaf r = elim (get_participant_ptr r id) [
  | none ↦ (r, nr_fail)
  | some h ↦ (modify h (λ s. set_deaf s deaf) r, nr_ok)
]

unfoldable pub get_participant_deaf : ℕ → Room → Bool
get_participant_deaf id r = elim (get_participant_ptr r id) [
  | none ↦ false
  | some h ↦ (r.sessions h).deaf
]

unfoldable pub participant_exist : ℕ → Room → Bool
participant_exist id r = elim (get_participant_ptr r id) [ none ↦ false | some h ↦ true ]

-- The name goes into an array of 1024 bytes. A participant without its info is read through a null
-- pointer.
copy_info : Info → Session → Option Info → Outcome Info
copy_info out s none = fault null_pointer
copy_info out s (some info) =
    if ltb 1024 (length s.m_name)
    then fault out_of_bounds
    else ok (record {
      id = info.id;
      server_id = info.server_id;
      ipv4_ip = info.ipv4_ip;
      name = copy out.name 0 (bytes_of s.m_name) (length s.m_name);
    })

unfoldable pub get_participant_info : ℕ → Info → Room → Outcome Info
unfolding copy_info
get_participant_info id out r = elim (get_participant_ptr r id) [
  | none ↦ ok out
  | some h ↦ copy_info out (r.sessions h) (r.sessions h).info
]

unfoldable pub add_rx_message : ℕ → Block → Room → Room
add_rx_message pid msg r = record r { rx_queue = r.rx_queue ++ (pid, msg) ∷ [] }

-- `~network_room`.
unfoldable pub destroy_room : Room → Room
unfolding disconnect_all_callbacks
destroy_room r = disconnect_all_participants (disconnect_all_callbacks r)

abbrev pub get_auto_update_participants : Room → Bool
get_auto_update_participants r = r.auto_update

abbrev pub get_room_keep_alive : Room → Bool
get_room_keep_alive r = r.keep_alive

abbrev pub get_max_participants : Room → ℕ
get_max_participants r = r.max_participants

abbrev pub get_message_buffer_size : Room → ℕ
get_message_buffer_size r = r.max_recent_msgs

abbrev pub get_broadcast_messages : Room → Bool
get_broadcast_messages r = r.broadcast_messages

abbrev pub get_max_participant_buffer_size : Room → ℕ
get_max_participant_buffer_size r = r.max_participant_buffer_size
