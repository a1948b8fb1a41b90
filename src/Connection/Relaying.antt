-- ===== src/Connection/Relaying.antt =====
-- What becomes of the messages of a session that has joined.
use xrnetwork.Base.{
  ℕ, ◌+◌, ◌^◌, ◌≤◌, ◌<◌, ◌≡◌, refl, ap, ◌∙◌, none, some, [], ◌∷◌, ◌++◌, ok, fault, null_pointer,
  ◌>>=◌, arith,
}
use xrnetwork.Base.Memory.{Block}
use xrnetwork.XrMessage.{header_size, message_size}
use xrnetwork.XrMessage.RoundTrip.{built, from_raw-built, head-built}
use xrnetwork.Protocol.Heads.{code, participant_update_ack, participant_leave_ack}
use xrnetwork.Session.{Session, do_read_byte, byte_reader}
use xrnetwork.Room.State.{Env, Room, id_of, modify, get_participant_ptr, sessions-put_self}
use xrnetwork.Room.Members.{disconnect_participant}
use xrnetwork.Room.Broadcast.{posting, copies, others, deliver_except-others}
use xrnetwork.Room.Invariant.{get_participant_ptr-put}
use xrnetwork.Room.Leaving.{disconnect_participant_branches}
use xrnetwork.Connection.Byte.{dispatch_byte, read_byte_ended}

-- The handler of a read, at a message that was built.
read_byte-built :
    (env : Env) (h hd : ℕ) (src : Block) (n : ℕ) (r : Room)
    → hd < 2 ^ 16
    → n ≤ src.size
    → header_size + n ≤ message_size
    → read_byte_ended env h (built hd src n) message_size r
      ≡ (dispatch_byte env h hd (built hd src n) r >>= λ r'. ok (modify h do_read_byte r'))
unfolding read_byte_ended
read_byte-built env h hd src n r hh hs hn = rw (from_raw-built hd src n hs hn) (
    ap (λ (i : ℕ). dispatch_byte env h i (built hd src n) r >>= λ r'. ok (modify h do_read_byte r'))
      (head-built hd src n hh (omega arith)))

module _ (env : Env) (h : ℕ) (src : Block) (n : ℕ) (held : n ≤ src.size)
    (fits : header_size + n ≤ message_size) where
  -- An update of a participant goes, whole, to each participant with another identifier, once and in
  -- the order of the identifiers, to nobody else, and the session reads on; nothing else changes.
  pub update_reaches_others :
      (r : Room)
      → let update = built (code participant_update_ack) src n in
        read_byte_ended env h update message_size r
        ≡ ok (
            modify h do_read_byte
              (posting (copies update (others (id_of r) (id_of r h) r.participants)) r))
  unfolding dispatch_byte
  update_reaches_others r =
      read_byte-built env h (code participant_update_ack) src n r (omega arith) held fits
      ∙ ap (λ r'. ok (modify h do_read_byte r'))
          (deliver_except-others (built (code participant_update_ack) src n) (id_of r h) r)

  -- A participant that says it leaves has left the room, and its session reads on, so it may say so
  -- again: the second time the server reads through a null pointer.
  pub leave_twice_faults :
      (r : Room)
      → get_participant_ptr r (id_of r h) ≡ some h
      → let farewell = built (code participant_leave_ack) src n in
        (r' : Room) × (read_byte_ended env h farewell message_size r ≡ ok r')
        × (get_participant_ptr r' (id_of r h) ≡ none)
        × ((r'.sessions h).reads ≡ (r.sessions h).reads ++ byte_reader ∷ [])
        × (read_byte_ended env h farewell message_size r' ≡ fault null_pointer)
  unfolding dispatch_byte
  leave_twice_faults r here =
      let left = (disconnect_participant_branches (id_of r h) r).1 h here in
      let r1 = left.0 in
      let r2 = modify h do_read_byte r1 in
      let self = sessions-put_self r1 h (do_read_byte (r1.sessions h)) in
      let gone : get_participant_ptr r2 (id_of r h) ≡ none =
        get_participant_ptr-put r1 h (do_read_byte (r1.sessions h)) (id_of r h)
          (unfold do_read_byte in refl)
        ∙ left.2.lookups (id_of r h)
        ∙ ground arith in
      let same : id_of r2 h ≡ id_of r h =
        ap (λ (s : Session). s.m_id) self
        ∙ (unfold do_read_byte in ap (λ (f : ℕ → Session). (f h).m_id) left.2.untouched) in
      (
        r2,
        again r ∙ ap (λ m. m >>= λ r'. ok (modify h do_read_byte r')) left.1,
        gone,
        ap (λ (s : Session). s.reads) self
            ∙ (unfold do_read_byte in
                ap (λ (f : ℕ → Session). (f h).reads ++ byte_reader ∷ []) left.2.untouched),
        again r2
            ∙ ap (λ m. m >>= λ r'. ok (modify h do_read_byte r'))
                ((disconnect_participant_branches (id_of r2 h) r2).0
                  (ap (get_participant_ptr r2) same ∙ gone)),
      )
    where
      again :
          (q : Room)
          → read_byte_ended env h (built (code participant_leave_ack) src n) message_size q
            ≡ (disconnect_participant (id_of q h) q >>= λ r'. ok (modify h do_read_byte r'))
      again q = read_byte-built env h (code participant_leave_ack) src n q (omega arith) held fits
