-- ===== src/Room/Members.antt =====
-- room.hpp: who comes, who goes, and what the others are told.
use xrnetwork.Base.{
  ℕ, suc, Bool, Option, none, some, List, [], ◌∷◌, ◌++◌, map, length, Outcome, ok, fault, threw,
  null_pointer, out_of_bounds, ◌>>=◌, ltb, leb, ◌==◌, if◌then◌else◌,
}
use xrnetwork.Base.Memory.{Block, zeros, copy, bytes_of}
use xrnetwork.XrMessage.{from_head}
use xrnetwork.Protocol.Heads.{code, participant_new, participant_leave}
use xrnetwork.Protocol.Structs.{kb20, ParticipantNew, ParticipantLeave, new_object, leave_object}
use xrnetwork.Protocol.Builders.{new_participant_new}
use xrnetwork.Session.{Session, Info, do_close}
use xrnetwork.Room.OrderedSet.{insert, erase}
use xrnetwork.Room.State.{
  Env, Room, on_new_participant, on_participant_leave, id_of, put, modify, get_participant_ptr,
}
use xrnetwork.Room.Deliver.{deliver_byte, deliver_to_all, deliver_to_all_except_to_one}

-- `nr_participant_info()`: cleared buffers; the server's identifier is left uninitialised.
abbrev pub new_info : Env → Info
new_info env = record { ipv4_ip = zeros; name = zeros; id = 0; server_id = env.garbage 0 }

-- The option of the socket; `threw` where the socket refuses it.
unfoldable pub set_keep_alive : Env → ℕ → Bool → Room → Outcome Room
set_keep_alive env h keep_alive r =
    if env.accepts_option (r.sessions h)
    then ok (modify h (λ s. record s { keep_alive = keep_alive }) r)
    else threw

-- The address goes into an array of 512 bytes.
unfoldable pub fill_info : Env → ℕ → Room → Outcome Room
fill_info env h r =
    let s = r.sessions h in
    let address = copy zeros 0 (bytes_of s.ip) (length s.ip) in
    if ltb 512 (length s.ip)
    then fault out_of_bounds
    else ok (
        put r h
          (record s { info = some (record (new_info env) { id = s.m_id; ipv4_ip = address }) }))

unfoldable pub signal_new_participant : ℕ → Room → Room
signal_new_participant id r = record r {
  calls = r.calls ++ map (λ slot. on_new_participant slot id) r.slots.new_participant;
}

unfoldable pub signal_participant_leave : ℕ → Room → Room
signal_participant_leave id r = record r {
  calls = r.calls ++ map (λ slot. on_participant_leave slot id) r.slots.participant_leave;
}

-- The next output of the engine becomes the identifier.
unfoldable pub draw_id : Env → ℕ → Room → Room
draw_id env h r = record (modify h (λ s. record s { m_id = env.rng r.drawn }) r) {
  drawn = suc r.drawn;
}

-- `participants_.insert`, then the signal.
unfoldable pub enter : ℕ → Room → Room
unfolding signal_new_participant
enter h r =
    signal_new_participant (id_of r h)
      (record r { participants = insert (id_of r) h r.participants })

unfoldable pub join : Env → ℕ → Room → Outcome Room
unfolding draw_id set_keep_alive fill_info enter
join env h r =
    if leb r.max_participants (length r.participants)
    then ok (modify h do_close r)
    else set_keep_alive env h r.keep_alive (draw_id env h r) >>= λ r1.
        fill_info env h r1 >>= λ r2. ok (enter h r2)

-- The descriptor of a participant goes into the 20 kB of an announcement.
unfoldable pub announcement : ParticipantNew → ℕ → Session → Outcome ParticipantNew
announcement newp id s =
    if ltb kb20 (length s.m_descriptor)
    then fault out_of_bounds
    else ok (record {
      participant_id = id;
      descriptor_buffersize = length s.m_descriptor;
      descriptor_buffer =
          copy newp.descriptor_buffer 0 (bytes_of s.m_descriptor) (length s.m_descriptor);
    })

abbrev pub new_message : ParticipantNew → Outcome Block
new_message newp = from_head (code participant_new) (new_object newp) (new_object newp).size

-- The pointer that the lookup returns is not tested.
unfoldable pub new_participant_to_all : Env → ℕ → Room → Outcome Room
unfolding announcement
new_participant_to_all env np r = elim (get_participant_ptr r np) [
  | none ↦ fault null_pointer
  | some h ↦ announcement (new_participant_new np env.garbage) np (r.sessions h) >>= λ newp.
      new_message newp >>= λ msg. ok (deliver_to_all_except_to_one msg np r)
]

-- The announcements of all other participants. One temporary serves for all, so what a longer
-- descriptor wrote stays behind a shorter one.
unfoldable pub announcements : Room → ℕ → List ℕ → ParticipantNew → Outcome (List ParticipantNew)
unfolding announcement
announcements r id [] newp = ok []
announcements r id (p ∷ ps) newp =
    let skipped = announcements r id ps newp in
    let taken = announcement newp (id_of r p) (r.sessions p) >>= λ filled.
    announcements r id ps filled >>= λ rest. ok (filled ∷ rest) in
    if id == id_of r p then skipped else taken

unfoldable pub deliver_news : ℕ → List ParticipantNew → Room → Outcome Room
deliver_news h [] r = ok r
deliver_news h (newp ∷ news) r =
    new_message newp >>= λ msg. deliver_news h news (deliver_byte msg h r)

unfoldable pub send_list_of_players : Env → ℕ → Room → Outcome Room
unfolding announcements deliver_news
send_list_of_players env h r =
    announcements r (id_of r h) r.participants (new_participant_new (env.garbage 0) env.garbage)
    >>= λ news. deliver_news h news r

-- The pointer is found first, and used last.
unfoldable pub init_new_participant : Env → ℕ → Room → Outcome Room
unfolding new_participant_to_all send_list_of_players
init_new_participant env id r = elim (get_participant_ptr r id) [
  | none ↦ new_participant_to_all env id r
  | some h ↦ new_participant_to_all env id r >>= send_list_of_players env h
]

abbrev pub leave_message : ℕ → Outcome Block
leave_message id =
    let pleave : ParticipantLeave = record { participant_id = id } in
    from_head (code participant_leave) (leave_object pleave) (leave_object pleave).size

-- Erase, then tell those who are left.
unfoldable pub remove_and_tell : ℕ → Room → Outcome Room
remove_and_tell id r =
    let left = record r { participants = erase (id_of r) id r.participants } in
    leave_message id >>= λ msg. ok (deliver_to_all msg left)

-- A null pointer skips the erasure, and its identifier is read all the same.
unfoldable pub disconnect_participant_ptr : Option ℕ → Room → Outcome Room
unfolding remove_and_tell
disconnect_participant_ptr none r = fault null_pointer
disconnect_participant_ptr (some h) r = remove_and_tell (id_of r h) r

unfoldable pub disconnect_participant : ℕ → Room → Outcome Room
unfolding disconnect_participant_ptr
disconnect_participant id r = disconnect_participant_ptr (get_participant_ptr r id) r

unfoldable pub leave : ℕ → Room → Outcome Room
unfolding signal_participant_leave remove_and_tell
leave h r = let id = id_of r h in remove_and_tell id (signal_participant_leave id r)

unfoldable pub close_each : List ℕ → Room → Room
close_each [] r = r
close_each (h ∷ hs) r = close_each hs (modify h do_close r)

unfoldable pub disconnect_all_participants : Room → Room
unfolding close_each
disconnect_all_participants r = close_each r.participants r
