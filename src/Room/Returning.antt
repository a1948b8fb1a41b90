-- ===== src/Room/Returning.antt =====
-- Who joins and leaves again leaves the set as it was.
use xrnetwork.Base.{ℕ, ◌≤◌, ◌<◌, ◌≡◌, true, none, ok, ◌>>=◌, length}
use xrnetwork.Room.State.{Env, Room, id_of, put, get_participant_ptr}
use xrnetwork.Room.Members.{join, leave, enter, signal_new_participant, signal_participant_leave}
use xrnetwork.Room.Invariant.{IsOutside}
use xrnetwork.Room.Joining.{settled, drawn_session, join_branches, absent}
use xrnetwork.Room.Leaving.{without, remove_and_tell-without}
use xrnetwork.Room.Counting.{erase-insert}

-- A session that is not in the room, with an identifier that no participant has, joins a room that is
-- not full and leaves it: both calls return, and the set of participants is the one before.
pub join-leave_restores :
    (env : Env) (h : ℕ) (r : Room)
    → length r.participants < r.max_participants
    → env.accepts_option (drawn_session env h r) ≡ true
    → length (r.sessions h).ip ≤ 512
    → IsOutside h r
    → get_participant_ptr r (env.rng r.drawn) ≡ none
    → (r' : Room) × ((join env h r >>= leave h) ≡ ok r') × (r'.participants ≡ r.participants)
unfolding leave enter signal_new_participant signal_participant_leave put
join-leave_restores env h r room accepted short outside fresh =
    let r1 = enter h (settled env h r) in
    (
      without (id_of r1 h) (signal_participant_leave (id_of r1 h) r1),
      rw ((join_branches env h r).2 room accepted short)
          (remove_and_tell-without (id_of r1 h) (signal_participant_leave (id_of r1 h) r1)),
      erase-insert (id_of (settled env h r)) h r.participants
          (absent env h r room accepted short outside fresh),
    )
