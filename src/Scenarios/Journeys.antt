-- ===== src/Scenarios/Journeys.antt =====
-- A whole handshake, and a room that people come to and leave.
use xrnetwork.Base.{ℕ, ◌≡◌, refl, true, some, [], codes, length, ok, arith}
use xrnetwork.Session.{new_session}
use xrnetwork.Room.OrderedSet.{find}
use xrnetwork.Room.State.{put, Room, get_participant_ptr}
use xrnetwork.Room.Members.{join, enter, signal_new_participant}
use xrnetwork.Room.Queries
use xrnetwork.Room.Joining.{settled, join_branches}
use xrnetwork.Room.Leaving.{leave-HasLeft}
use xrnetwork.Room.Directory.{directory, Changes}
use xrnetwork.Room.Keeping.{IsKept, IsNew, IsDistinct}
use xrnetwork.Room.Refinement.{Moves, stays, moves_on, joins, goes, leave-drawn, Moves-refine}
use xrnetwork.Connection.Handshake.{Service}
use xrnetwork.Exchange.{handshake}
use xrnetwork.Exchange.Shown.{Talk, handshake_shown}
use xrnetwork.Exchange.Legible.{handshake_shown_completes}
use xrnetwork.Server.{new_room}
use xrnetwork.Room.Members.{leave}
use xrnetwork.Room.Returning.{join-leave_restores}
use xrnetwork.Base.{◌>>=◌, ◌∷◌, ◌<◌, ◌^◌}
use xrnetwork.Scenarios.{outsider, nobody, platform, room_of_two, console}

abbrev demo : Service
demo = record { service_id = 77; server_name = codes "demo" }

handshake_shown_completes_example :
    (t : Talk) × (handshake_shown platform demo 1000 1001 2 room_of_two console ≡ ok t)
    × (handshake platform demo 1000 1001 2 room_of_two console ≡ ok t.peers)
    × (get_participant_ptr t.peers.room 20 ≡ some 2)
    × (t.peers.client.participant_id ≡ 20)
    × (t.peers.client.timer_armed ≡ true)
    × (length t.peers.room.participants ≡ 3)
    × (t.peers.to_client ≡ [])
    × (t.peers.to_server ≡ [])
handshake_shown_completes_example =
    handshake_shown_completes platform demo 1000 1001 2 room_of_two console (omega arith)
      (omega arith) (omega arith) (omega arith) (omega arith) (omega arith) (omega arith) (λ s e. e)
      refl (omega arith) outsider nobody

-- The engine that counts from 20 differs as long as it has not come round.
pub platform-IsNew : (n : ℕ) → n < 2 ^ 63 → IsNew platform n
platform-IsNew n small j less e = omega (arith, small, less, e)

platform-IsDistinct : (n : ℕ) → n < 2 ^ 63 → IsDistinct platform n
platform-IsDistinct n small i j less below e = omega (arith, small, less, below, e)

-- A room for three: session 0 comes and goes.
abbrev empty : Room
empty = Queries.set_max_participants 3 (new_room true 0)

abbrev after_one : Room
after_one = enter 0 (settled platform 0 empty)

abbrev after_all : Room
after_all = (leave-HasLeft 0 after_one).0

empty-IsKept : IsKept platform empty
unfolding Queries.set_max_participants new_room get_participant_ptr find
empty-IsKept = record {
  valid = record { ordered = tt; bounded = omega arith };
  drawn_before = λ k h e. absurd (ground (arith, e));
}

one_comes : join platform 0 empty ≡ ok after_one
unfolding Queries.set_max_participants new_room new_session
one_comes = (join_branches platform 0 empty).2 (omega arith) refl (omega arith)

comes_and_goes : Moves platform empty after_all
unfolding Queries.set_max_participants new_room
comes_and_goes =
    moves_on (moves_on stays (joins 0 tt one_comes)) (goes 0 (leave-HasLeft 0 after_one).1)

one_drawn : after_all.drawn ≡ 1
unfolding Queries.set_max_participants new_room enter signal_new_participant put
one_drawn = leave-drawn 0 after_one after_all (leave-HasLeft 0 after_one).1

Moves-refine_example : Changes (directory empty) (directory after_all) × IsKept platform after_all
Moves-refine_example =
    Moves-refine platform empty after_all
      (platform-IsDistinct after_all.drawn (omega (arith, one_drawn))) empty-IsKept comes_and_goes

join-leave_restores_example :
    (r' : Room) × ((join platform 2 room_of_two >>= leave 2) ≡ ok r')
    × (r'.participants ≡ 0 ∷ 1 ∷ [])
join-leave_restores_example =
    join-leave_restores platform 2 room_of_two (omega arith) refl (omega arith) outsider nobody
