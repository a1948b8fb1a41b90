-- ===== src/Session.antt =====
-- participant.hpp and session.hpp: a participant of the room, which is a session on a socket. The
-- record has the members of `nr_participant` and those of `nr_session` that its methods use, what
-- is open of its socket, the reads that are armed and the writes that have begun.
--
-- Handlers of one `io_context` run one after the other: the service has one thread for it. So the
-- mutex round the queue is held by nobody when a handler starts, and is left out.
pub mod Writes
use xrnetwork.Base.{
  ℕ, zero, suc, ◌+◌, Bool, true, false, not, Option, none, some, List, [], ◌∷◌, ◌++◌, ltb, ◌==◌,
  if◌then◌else◌,
}
use xrnetwork.Base.Memory.{Memory, Block}

pub record Info : Type 0 where
  pub ipv4_ip : Memory
  pub name : Memory
  pub id : ℕ
  pub server_id : ℕ

-- The handler of an armed `async_read`.
pub data Reader : Type 0 where
  handshake_reader byte_reader : Reader

pub record Session : Type 0 where
  pub m_id : ℕ
  pub deaf : Bool
  pub m_name : List ℕ
  pub ip : List ℕ
  pub info : Option Info
  pub m_descriptor : List ℕ
  -- the socket
  pub is_open : Bool
  pub keep_alive : Bool
  -- armed reads, `deque_write_buffer_`, and the writes that have begun and not ended
  pub reads : List Reader
  pub queue : List Block
  pub in_flight : List Block
  pub b_ready : Bool

-- A session on an open socket; the option of the socket is off until it is set.
unfoldable pub new_session : Session
new_session = record {
  m_id = 0;
  deaf = false;
  m_name = [];
  ip = [];
  info = none;
  m_descriptor = [];
  is_open = true;
  keep_alive = false;
  reads = [];
  queue = [];
  in_flight = [];
  b_ready = false;
}

-- `operator<` and `operator==` on participants and identifiers.
abbrev pub participant_lt : Session → Session → Bool
participant_lt p q = ltb p.m_id q.m_id

abbrev pub participant_eq : Session → Session → Bool
participant_eq p q = p.m_id == q.m_id

unfoldable pub set_descriptor : Session → List ℕ → Session
set_descriptor s buffer = record s { m_descriptor = s.m_descriptor ++ buffer }

unfoldable pub set_deaf : Session → Bool → Session
set_deaf s deaf = record s { deaf = deaf }

-- Shutting down and closing report errors in a code that is only printed.
unfoldable pub do_close : Session → Session
do_close s = if s.is_open then record s { is_open = false } else s

-- `close` and `disconnect` are `do_close`.
abbrev pub close : Session → Session
close s = do_close s

abbrev pub disconnect : Session → Session
disconnect s = do_close s

unfoldable pub arm : Reader → Session → Session
arm reader s = record s { reads = s.reads ++ reader ∷ [] }

unfoldable pub do_read_byte : Session → Session
unfolding arm
do_read_byte s = arm byte_reader s

unfoldable pub do_read_handshake : Session → Session
unfolding arm
do_read_handshake s = arm handshake_reader (record s { b_ready = true })

-- `do_write_byte`: the front of the queue is taken off before its write begins. An empty queue has
-- no front; both callers have looked.
unfoldable pub start_write : List Block → Session → Session
start_write [] s = s
start_write (m ∷ rest) s = record s { queue = rest; in_flight = s.in_flight ++ m ∷ [] }

unfoldable pub do_write_byte : Session → Session
unfolding start_write
do_write_byte s = start_write s.queue s

abbrev pub is_empty {ℓ} : {A : Type ℓ} → List A → Bool
is_empty [] = true
is_empty (x ∷ xs) = false

-- The task that `deliver_byte` posts.
unfoldable pub run_deliver : Block → Session → Session
unfolding do_write_byte
run_deliver m s =
    let write_byte_in_progress = not (is_empty s.queue) in
    let pushed = record s { queue = s.queue ++ m ∷ [] } in
    if not write_byte_in_progress then do_write_byte pushed else pushed

abbrev pub remove_at {ℓ} : {A : Type ℓ} → ℕ → List A → List A
remove_at i [] = []
remove_at zero (x ∷ xs) = xs
remove_at (suc i) (x ∷ xs) = x ∷ remove_at i xs

-- The handler of a write that ended well: write number `i` of those under way.
unfoldable pub write_done : ℕ → Session → Session
unfolding do_write_byte
write_done i s =
    let ended = record s { in_flight = remove_at i s.in_flight } in
    if not (is_empty ended.queue) then do_write_byte ended else ended

-- The option of the socket, where it was set by `set_keep_alive`.
abbrev pub get_keep_alive : Session → Bool
get_keep_alive s = s.keep_alive
