-- ===== src/Scenarios.antt =====
-- Concrete rooms, clients and services, and the theorems of the development at them.
mod Rooms
mod Handshakes
mod Messages
mod Services
mod Consoles
mod Hosts
mod Shows
mod Journeys
mod Prints
use xrnetwork.Base.{
  ℕ, ◌+◌, ◌%◌, ◌^◌, ◌≡◌, ◌≢◌, refl, arith, true, false, none, [], ◌∷◌, codes, ◌==◌, if◌then◌else◌,
}
use xrnetwork.Base.Memory.{Block, zeros}
use xrnetwork.Session.{Session}
use xrnetwork.Room.OrderedSet.{find}
use xrnetwork.Room.State.{Env, Room, get_participant_ptr}
use xrnetwork.Room.Invariant.{IsOutside}
use xrnetwork.Client.{Client}

-- A session on an open socket, with an identifier.
abbrev pub seat : ℕ → Session
seat id = record {
  m_id = id;
  deaf = false;
  m_name = [];
  ip = codes "::1";
  info = none;
  m_descriptor = codes "{}";
  is_open = true;
  keep_alive = false;
  reads = [];
  queue = [];
  in_flight = [];
  b_ready = false;
}

-- A platform where a closed socket refuses its options.
abbrev pub platform : Env
platform = record {
  rng = λ i. (20 + i) % 2 ^ 64;
  rng_fits = λ i. omega arith;
  accepts_option = λ s. s.is_open;
  endpoint = λ h. codes "::1";
  garbage = zeros;
}

-- Sessions 0 and 1 are in the room, with the identifiers 5 and 9; session 2 is outside.
abbrev pub room_of_two : Room
room_of_two = record {
  sessions = λ h. if h == 0 then seat 5 else if h == 1 then seat 9 else seat 0;
  participants = 0 ∷ 1 ∷ [];
  drawn = 0;
  max_participants = 3;
  keep_alive = true;
  broadcast_messages = false;
  auto_update = false;
  max_recent_msgs = 100;
  max_participant_buffer_size = 0;
  slots = record {
    new_participant = 7 ∷ [];
    new_message = [];
    broadcast_message = [];
    participant_leave = 8 ∷ [];
  };
  rx_queue = [];
  posted = [];
  calls = [];
}

-- The same room with no place left.
abbrev pub full_room : Room
full_room = record room_of_two { max_participants = 2 }

abbrev pub blank : Block
blank = record { size = 65536; at = zeros }

abbrev pub console : Client
console = record {
  participant_id = 0;
  service_id = 0;
  is_open = true;
  reading = true;
  timer_armed = false;
  posted = [];
  queue = [];
  in_flight = [];
}

-- Session 2 is no participant, and the first identifier drawn is nobody's.
pub outsider : IsOutside 2 room_of_two
outsider = ((λ e. omega (arith, e)), ((λ e. omega (arith, e)), tt))

pub nobody : get_participant_ptr room_of_two 20 ≡ none
unfolding get_participant_ptr find
nobody = refl
