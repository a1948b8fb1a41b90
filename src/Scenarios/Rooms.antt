-- ===== src/Scenarios/Rooms.antt =====
-- The room of two: who joins, who leaves, what is sent.
use xrnetwork.Base.{
  ℕ, ◌+◌, ◌≤◌, ◌≡◌, ◌≢◌, refl, none, some, List, [], ◌∷◌, map, length, ok, fault, null_pointer,
  ◌==◌, if◌then◌else◌, arith,
}
use xrnetwork.Base.Memory.{Block}
use xrnetwork.Session.Writes
use xrnetwork.Session.Writes.{delivered, ended, write_run-in_flight}
use xrnetwork.Room.OrderedSet.{find}
use xrnetwork.Room.State.{Room, on_new_participant, on_participant_leave, get_participant_ptr}
use xrnetwork.Room.Deliver.{deliver_to_all_except_to_one}
use xrnetwork.Room.Members.{join, leave, disconnect_participant, init_new_participant}
use xrnetwork.Room.Invariant.{IsValid}
use xrnetwork.Room.Joining.{joined_session, join_enters}
use xrnetwork.Room.Leaving.{HasLeft, leave-HasLeft, disconnect_participant_branches}
use xrnetwork.Room.Broadcast.{posting, deliver_except-others}
use xrnetwork.Room.Announcing.{said, new_to, init_new_participant_says}
use xrnetwork.Scenarios.{outsider, nobody, seat, platform, room_of_two, blank}

two_IsValid : IsValid room_of_two
two_IsValid = record { ordered = ((omega arith, tt), (tt, tt)); bounded = omega arith }

somebody : get_participant_ptr room_of_two 5 ≡ some 0
unfolding get_participant_ptr find
somebody = refl

join_enters_example :
    (r' : Room) × (join platform 2 room_of_two ≡ ok r')
    × (r'.sessions 2 ≡ joined_session platform 2 room_of_two)
    × ((g : ℕ) → g ≢ 2 → r'.sessions g ≡ room_of_two.sessions g)
    × ((k : ℕ)
        → get_participant_ptr r' k
          ≡ (if 20 == k then some 2 else get_participant_ptr room_of_two k))
    × (length r'.participants ≡ 3)
    × (r'.calls ≡ on_new_participant 7 20 ∷ [])
    × (r'.posted ≡ [])
join_enters_example =
    join_enters platform 2 room_of_two (omega arith) refl (omega arith) outsider nobody

init_new_participant_says_example :
    (ps : List (ℕ × Block)) × (init_new_participant platform 5 room_of_two
      ≡ ok (posting ps room_of_two))
    × (map said ps ≡ new_to 1 5 ∷ new_to 0 9 ∷ [])
init_new_participant_says_example =
    init_new_participant_says platform 5 0 room_of_two somebody refl
      (omega arith, (omega arith, tt)) (omega arith) (omega arith, (omega arith, tt)) (omega arith)

leave-HasLeft_example :
    (r' : Room) × (leave 1 room_of_two ≡ ok r')
    × HasLeft 9 room_of_two r'
    × (r'.calls ≡ on_participant_leave 8 9 ∷ [])
leave-HasLeft_example = leave-HasLeft 1 room_of_two

disconnect_participant_branches_example :
    (get_participant_ptr room_of_two 20 ≡ none
      → disconnect_participant 20 room_of_two ≡ fault null_pointer)
    × ((h : ℕ)
        → get_participant_ptr room_of_two 20 ≡ some h
        → (r' : Room) × (disconnect_participant 20 room_of_two ≡ ok r')
          × HasLeft ((room_of_two.sessions h).m_id) room_of_two r')
disconnect_participant_branches_example = disconnect_participant_branches 20 room_of_two

deliver_except-others_example :
    deliver_to_all_except_to_one blank 5 room_of_two ≡ posting ((1, blank) ∷ []) room_of_two
deliver_except-others_example = deliver_except-others blank 5 room_of_two

-- Two deliveries in a row: two writes are under way at once.
write_run-in_flight_example :
    ((Writes.write_run (delivered blank ∷ delivered blank ∷ []) (seat 5)).queue ≡ [])
    × (2
        ≤ length (Writes.write_run (delivered blank ∷ delivered blank ∷ []) (seat 5)).in_flight + 0)
write_run-in_flight_example =
    write_run-in_flight (delivered blank ∷ delivered blank ∷ []) (seat 5) refl
