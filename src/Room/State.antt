-- ===== src/Room/State.antt =====
-- The state of the room, and the parts of the operations that touch one session of the store.
use xrnetwork.Base.{ℕ, ◌≡◌, ◌≢◌, ◌<◌, ◌^◌, Bool, Option, List, arith, ◌==◌, if◌then◌else◌}
use xrnetwork.Base.Memory.{Memory, Block}
use xrnetwork.Session.{Session}
use xrnetwork.Room.OrderedSet.{find}

-- What the room's code gets from outside.
pub record Env : Type 0 where
  -- output number i of a default-seeded `std::mt19937_64`, a word of 64 bits
  pub rng : ℕ → ℕ
  pub rng_fits : (i : ℕ) → rng i < 2 ^ 64
  -- whether `set_option` succeeds on the socket of a session; it throws otherwise
  pub accepts_option : Session → Bool
  -- the text of the remote address of a session, where the socket has one
  pub endpoint : ℕ → List ℕ
  -- memory that was not initialised
  pub garbage : Memory

-- A slot that a signal called, with the signal's arguments.
pub data Call : Type 0 where
  on_new_participant : ℕ → ℕ → Call
  on_participant_leave : ℕ → ℕ → Call
  on_new_message : ℕ → ℕ → ℕ → Call

-- The slots connected to each signal, first to last.
pub record Slots : Type 0 where
  pub new_participant : List ℕ
  pub new_message : List ℕ
  pub broadcast_message : List ℕ
  pub participant_leave : List ℕ

pub record Room : Type 0 where
  pub sessions : ℕ → Session
  pub participants : List ℕ
  -- how many outputs of the room's engine have been drawn
  pub drawn : ℕ
  pub max_participants : ℕ
  pub keep_alive : Bool
  pub broadcast_messages : Bool
  pub auto_update : Bool
  pub max_recent_msgs : ℕ
  pub max_participant_buffer_size : ℕ
  pub slots : Slots
  pub rx_queue : List (ℕ × Block)
  -- what the operations have caused
  pub posted : List (ℕ × Block)
  pub calls : List Call

-- The identifier of a participant, by which the set is ordered.
abbrev pub id_of : Room → ℕ → ℕ
id_of r h = (r.sessions h).m_id

-- A write through a pointer to a session.
unfoldable pub put : Room → ℕ → Session → Room
put r h s = record r { sessions = λ g. if g == h then s else r.sessions g }

abbrev pub modify : ℕ → (Session → Session) → Room → Room
modify h f r = put r h (f (r.sessions h))

unfoldable pub get_participant_ptr : Room → ℕ → Option ℕ
get_participant_ptr r id = find (id_of r) id r.participants

pub sessions-put_self : (r : Room) (h : ℕ) (s : Session) → (put r h s).sessions h ≡ s
unfolding put
sessions-put_self r h s = ground arith

pub sessions-put_ne :
    (r : Room) (h g : ℕ) (s : Session) → g ≢ h → (put r h s).sessions g ≡ r.sessions g
unfolding put
sessions-put_ne r h g s ne = ground arith

-- Of two writes of one session the later one stays.
pub put-put : (r : Room) (h : ℕ) (s t : Session) → put (put r h s) h t ≡ put r h t
unfolding put
put-put r h s t = λ i. record r { sessions = λ g. same g i }
  where
    same :
        (g : ℕ)
        → (if g == h then t else (if g == h then s else r.sessions g))
          ≡ (if g == h then t else r.sessions g)
    same g = ground arith
