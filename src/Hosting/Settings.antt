-- ===== src/Hosting/Settings.antt =====
-- What the calls of the service's user leave of its room.
use xrnetwork.Base.{ℕ, ◌≤◌, refl, Bool, List, [], ◌∷◌, length, ◌++◌, arith, Option-cases, inl, inr}
use xrnetwork.Session.{do_close, set_deaf}
use xrnetwork.Room.State.{Env, Room, Slots, modify, get_participant_ptr}
use xrnetwork.Room.Members
use xrnetwork.Room.Members.{close_each}
use xrnetwork.Room.Queries
use xrnetwork.Room.Queries.{nr_ok, nr_fail}
use xrnetwork.Room.Keeping.{IsKept}
use xrnetwork.Connection.Frame.{Quiet, Quiet-trans, Quiet-put, Quiet-do_close}
use xrnetwork.Connection.Handlers.{Quiet-refl}
use xrnetwork.Connection.Serving.{IsServing, Quiet-IsServing, Phase-carry}
use xrnetwork.Connection.Steps.{begins-IsServing}
use xrnetwork.Connection.Drawing.{Quiet-IsKept}
use xrnetwork.Connection.Drawn.{begins-IsKept}
use xrnetwork.Server
use xrnetwork.Server.{Server, new_room}

-- What holds of the room whenever no handler runs.
pub record IsSound (env : Env) (r : Room) : Type 0 where
  pub serving : IsServing r
  pub kept : IsKept env r

pub Quiet-IsSound : (env : Env) (r r' : Room) → Quiet r r' → IsSound env r → IsSound env r'
Quiet-IsSound env r r' q sound = record {
  serving = Quiet-IsServing r r' q sound.serving;
  kept = Quiet-IsKept env r r' q sound.kept;
}

-- The members that the settings write.
pub Quiet-settings :
    (keep broadcast auto : Bool) (msgs size : ℕ) (slots : Slots) (r : Room)
    → Quiet r (record r {
      keep_alive = keep;
      broadcast_messages = broadcast;
      auto_update = auto;
      max_recent_msgs = msgs;
      max_participant_buffer_size = size;
      slots = slots;
    })
Quiet-settings keep broadcast auto msgs size slots r = record {
  ids = λ g. refl;
  reads = λ g. refl;
  stays = λ g o. o;
  valid = λ v. record { ordered = v.ordered; bounded = v.bounded };
  drawn = refl;
  found = λ k h e. (unfold get_participant_ptr in e);
}

Quiet-close_each : (hs : List ℕ) (r : Room) → Quiet r (close_each hs r)
unfolding close_each
Quiet-close_each [] r = Quiet-refl r
Quiet-close_each (h ∷ hs) r =
    Quiet-trans r (modify h do_close r) (close_each hs (modify h do_close r)) (Quiet-do_close h r)
      (Quiet-close_each hs (modify h do_close r))

pub Quiet-disconnect_all : (r : Room) → Quiet r (Members.disconnect_all_participants r)
unfolding Members.disconnect_all_participants
Quiet-disconnect_all r = Quiet-close_each r.participants r

Quiet-set_deaf :
    (id : ℕ) (deaf : Bool) (r : Room) → Quiet r (Queries.set_participant_deaf id deaf r).0
unfolding Queries.set_participant_deaf set_deaf
Quiet-set_deaf id deaf r = elim (Option-cases (get_participant_ptr r id)) [
  | inl nobody ↦ rw (Queries.set_participant_deaf, nobody) (Quiet-refl r)
  | inr (h, found) ↦
      rw (Queries.set_participant_deaf, found)
        (Quiet-put r h (set_deaf (r.sessions h) deaf) refl refl)
]

pub Quiet-stop : (server : Server) → Quiet server.room (Server.stop server).room
unfolding Server.stop Server.server_disconnect_all
Quiet-stop server = ground (arith, Quiet-disconnect_all server.room)

pub Quiet-auto :
    (au : Bool) (server : Server)
    → Quiet server.room (Server.set_auto_update_participants au server).room
unfolding Server.set_auto_update_participants Queries.set_auto_update_participants
Quiet-auto au server =
    let r = server.room in
    Quiet-settings r.keep_alive r.broadcast_messages au r.max_recent_msgs
      r.max_participant_buffer_size (r.slots) r

pub Quiet-deaf :
    (id : ℕ) (deaf : Bool) (server : Server)
    → Quiet server.room (Server.set_participant_deaf id deaf server).room
unfolding Server.set_participant_deaf
Quiet-deaf id deaf server = Quiet-set_deaf id deaf server.room

pub Quiet-new_participant :
    (slot : ℕ) (server : Server)
    → Quiet server.room (Server.register_callback_new_participant slot server).room
unfolding Server.register_callback_new_participant Queries.register_callback_new_participant
Quiet-new_participant slot server =
    let r = server.room in
    Quiet-settings r.keep_alive r.broadcast_messages r.auto_update r.max_recent_msgs
      r.max_participant_buffer_size
      (record (r.slots) { new_participant = r.slots.new_participant ++ slot ∷ [] }) r

pub Quiet-new_message :
    (slot : ℕ) (server : Server)
    → Quiet server.room (Server.register_callback_new_message slot server).room
unfolding Server.register_callback_new_message Queries.register_callback_new_message
Quiet-new_message slot server =
    let r = server.room in
    Quiet-settings r.keep_alive r.broadcast_messages r.auto_update r.max_recent_msgs
      r.max_participant_buffer_size
      (record (r.slots) { new_message = r.slots.new_message ++ slot ∷ [] }) r

pub Quiet-participant_leave :
    (slot : ℕ) (server : Server)
    → Quiet server.room (Server.register_callback_participant_leave slot server).room
unfolding Server.register_callback_participant_leave Queries.register_callback_participant_leave
Quiet-participant_leave slot server =
    let r = server.room in
    Quiet-settings r.keep_alive r.broadcast_messages r.auto_update r.max_recent_msgs
      r.max_participant_buffer_size
      (record (r.slots) { participant_leave = r.slots.participant_leave ++ slot ∷ [] }) r

pub Quiet-no_callbacks :
    (server : Server) → Quiet server.room (Server.disconnect_all_callbacks server).room
unfolding Server.disconnect_all_callbacks Queries.disconnect_all_callbacks
Quiet-no_callbacks server =
    let r = server.room in
    Quiet-settings r.keep_alive r.broadcast_messages r.auto_update r.max_recent_msgs
      r.max_participant_buffer_size ((Queries.disconnect_all_callbacks r).slots) r

pub Quiet-nobody : (server : Server) → Quiet server.room (Server.server_disconnect_all server).room
unfolding Server.server_disconnect_all
Quiet-nobody server = Quiet-disconnect_all server.room

-- A limit that is no less than the number of participants.
pub limited-IsSound :
    (env : Env) (n : ℕ) (r : Room)
    → length r.participants ≤ n
    → IsSound env r
    → IsSound env (Queries.set_max_participants n r)
unfolding Queries.set_max_participants get_participant_ptr
limited-IsSound env n r fits sound = record {
  serving = record {
    valid = record { ordered = sound.serving.valid.ordered; bounded = fits };
    phases = λ h.
        Phase-carry r (record r { max_participants = n }) h refl (λ o. o) (sound.serving.phases h);
  };
  kept = record {
    valid = record { ordered = sound.kept.valid.ordered; bounded = fits };
    drawn_before = sound.kept.drawn_before;
  };
}

pub begun-IsSound :
    (env : Env) (limit : ℕ) (keep broadcast flag : Bool) (size : ℕ)
    → IsSound env (record (Queries.set_max_participants limit (new_room flag size)) {
      keep_alive = keep;
      broadcast_messages = broadcast;
    })
begun-IsSound env limit keep broadcast flag size =
    let r = Queries.set_max_participants limit (new_room flag size) in
    Quiet-IsSound env r (record r { keep_alive = keep; broadcast_messages = broadcast })
      (Quiet-settings keep broadcast r.auto_update r.max_recent_msgs r.max_participant_buffer_size
        r.slots r)
      (record {
        serving = begins-IsServing limit flag size;
        kept = begins-IsKept env limit flag size;
      })
