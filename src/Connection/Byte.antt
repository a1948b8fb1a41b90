-- ===== src/Connection/Byte.antt =====
-- session.hpp: the handlers of a session that has joined.
use xrnetwork.Base.{ℕ, ◌+◌, Outcome, ok, fault, out_of_bounds, ◌>>=◌, ltb, ◌==◌, if◌then◌else◌}
use xrnetwork.Base.Memory.{Block, slice}
use xrnetwork.XrMessage.{header_size, read_header, from_raw}
use xrnetwork.Protocol.Heads.{
  code, participant_join_ack, participant_new_ack, participant_update_ack, participant_leave_ack,
}
use xrnetwork.Protocol.Readers.{read_join_ack}
use xrnetwork.Session.{do_close, do_read_byte}
use xrnetwork.Room.State.{Env, Room, id_of, modify}
use xrnetwork.Room.Deliver.{deliver_to_all_except_to_one}
use xrnetwork.Room.Members.{init_new_participant, join, disconnect_participant, leave}

-- The reply to a join: the descriptor is replaced by as many bytes as the reply says, and the
-- identifier that stands in the reply is initialised.
unfoldable pub on_join_ack : Env → ℕ → Block → Room → Outcome Room
unfolding read_join_ack
on_join_ack env h msg r =
    let pack = read_join_ack msg.at header_size in
    if ltb msg.size (header_size + 12 + pack.json_buffersize)
    then fault out_of_bounds
    else init_new_participant env pack.participant_id (
        modify h (λ s. record s { m_descriptor = slice pack.json_buffer 0 pack.json_buffersize }) r)

-- The `switch` on the head.
unfoldable pub dispatch_byte : Env → ℕ → ℕ → Block → Room → Outcome Room
unfolding on_join_ack
dispatch_byte env h head msg r =
    if head == code participant_join_ack
    then on_join_ack env h msg r
    else if head == code participant_new_ack
    then ok r
    else if head == code participant_update_ack
    then ok (deliver_to_all_except_to_one msg (id_of r h) r)
    else if head == code participant_leave_ack
    then disconnect_participant (id_of r h) r
    else ok (modify h do_close r)

-- `do_read_byte`: the handler of a read that ended well, which arms the next read.
unfoldable pub read_byte_ended : Env → ℕ → Block → ℕ → Room → Outcome Room
unfolding dispatch_byte read_header
read_byte_ended env h buffer bytes_transferred r = from_raw buffer bytes_transferred >>= λ msg.
    dispatch_byte env h (read_header msg.at).head msg r >>= λ r'. ok (modify h do_read_byte r')

-- A read or a write that failed.
unfoldable pub transfer_failed : ℕ → Room → Outcome Room
transfer_failed h r = leave h r

-- `nr_session::start`, which a session without a handshake would begin with.
unfoldable pub session_start : Env → ℕ → Room → Outcome Room
session_start env h r = join env h (modify h (λ s. record s { ip = env.endpoint h }) r) >>= λ r'.
    ok (modify h do_read_byte r')
