-- ===== src/Connection/Handlers.antt =====
-- The parts of the handlers that leave identifiers and armed reads alone.
use xrnetwork.Base.{ℕ, refl, List, ◌++◌, ok, ◌>>=◌, arith, Option-cases, inl, inr}
use xrnetwork.Base.Memory.{Block, slice}
use xrnetwork.XrMessage.{header_size}
use xrnetwork.Protocol.Readers.{read_hello_ack, read_join_ack}
use xrnetwork.Protocol.Builders.{new_participant_new, build_handshake_credentials}
use xrnetwork.Room.State.{Env, Room, id_of, modify, get_participant_ptr}
use xrnetwork.Room.Deliver.{deliver_byte, deliver_to_all_except_to_one}
use xrnetwork.Room.Members.{
  announcement, new_message, new_participant_to_all, send_list_of_players, init_new_participant,
}
use xrnetwork.Connection.Handshake.{check_handshake_hello_ack, invitation, invite}
use xrnetwork.XrMessage.{from_head}
use xrnetwork.Protocol.Heads.{code, handshake_credentials, participant_join}
use xrnetwork.Protocol.Structs.{credentials_object, join_object}
use xrnetwork.Connection.Byte.{on_join_ack, dispatch_byte}
use xrnetwork.Connection.Frame.{
  OnReturn, OnReturn->>=, OnReturn-then, Quiet, Quiet-trans, Quiet-put, Quiet-do_close,
  Quiet-deliver_byte, Quiet-deliver_except, disconnect_participant-Quiet, deliver_news-Quiet,
}

pub Quiet-refl : (r : Room) → Quiet r r
Quiet-refl r = record {
  ids = λ g. refl;
  reads = λ g. refl;
  stays = λ g o. o;
  valid = λ v. v;
  drawn = refl;
  found = λ k h e. e;
}

new_participant_to_all-Quiet :
    (env : Env) (id : ℕ) (r q : Room)
    → Quiet q r
    → OnReturn (Quiet q) (new_participant_to_all env id r)
unfolding new_participant_to_all
new_participant_to_all-Quiet env id r q a = elim (Option-cases (get_participant_ptr r id)) [
  | inl gone ↦ rw (gone, new_participant_to_all) tt
  | inr found ↦
      rw (found.1, new_participant_to_all)
        (OnReturn->>= (Quiet q)
          (announcement (new_participant_new id env.garbage) id (r.sessions found.0))
          (λ newp. new_message newp >>= λ msg. ok (deliver_to_all_except_to_one msg id r))
          (λ newp.
            OnReturn->>= (Quiet q) (new_message newp)
              (λ msg. ok (deliver_to_all_except_to_one msg id r))
              (λ msg.
                Quiet-trans q r (deliver_to_all_except_to_one msg id r) a
                  (Quiet-deliver_except msg id r))))
]

send_list-Quiet :
    (env : Env) (h : ℕ) (r q : Room) → Quiet q r → OnReturn (Quiet q) (send_list_of_players env h r)
unfolding send_list_of_players
send_list-Quiet env h r q a = OnReturn->>= (Quiet q) _ _ (λ news. deliver_news-Quiet h news r q a)

init_new_participant-Quiet :
    (env : Env) (id : ℕ) (r q : Room)
    → Quiet q r
    → OnReturn (Quiet q) (init_new_participant env id r)
unfolding init_new_participant
init_new_participant-Quiet env id r q a = elim (Option-cases (get_participant_ptr r id)) [
  | inl gone ↦ rw (gone, init_new_participant) (new_participant_to_all-Quiet env id r q a)
  | inr found ↦
      rw (found.1, init_new_participant)
        (OnReturn-then (Quiet q) (Quiet q) (new_participant_to_all env id r) _
          (new_participant_to_all-Quiet env id r q a)
          (λ r' a'. send_list-Quiet env found.0 r' q a'))
]

-- A session whose descriptor alone was changed.
Quiet-descriptor :
    (h : ℕ) (f : List ℕ → List ℕ) (r : Room)
    → Quiet r (modify h (λ s. record s { m_descriptor = f s.m_descriptor }) r)
Quiet-descriptor h f r =
    Quiet-put r h (record (r.sessions h) { m_descriptor = f (r.sessions h).m_descriptor }) refl refl

-- A delivery behind another change.
Quiet-reply : (m : Block) (h : ℕ) (q r : Room) → Quiet q r → Quiet q (deliver_byte m h r)
Quiet-reply m h q r a = Quiet-trans q r (deliver_byte m h r) a (Quiet-deliver_byte m h r)

replied-Quiet :
    (hd : ℕ) (src : Block) (n h : ℕ) (q r : Room)
    → Quiet q r
    → OnReturn (Quiet q) (from_head hd src n >>= λ reply. ok (deliver_byte reply h r))
replied-Quiet hd src n h q r a =
    OnReturn->>= (Quiet q) (from_head hd src n) (λ reply. ok (deliver_byte reply h r))
      (λ reply. Quiet-reply reply h q r a)

pub hello_ack-Quiet :
    (h : ℕ) (msg : Block) (r : Room) → OnReturn (Quiet r) (check_handshake_hello_ack h msg r)
unfolding check_handshake_hello_ack
hello_ack-Quiet h msg r =
    let ack = read_hello_ack msg.at header_size in
    let configuration = slice ack.configuration_buffer 0 ack.configuration_buffersize in
    let hc = credentials_object build_handshake_credentials in
    ground (
      arith,
      replied-Quiet (code handshake_credentials) hc hc.size h r
          (modify h (λ s. record s { m_descriptor = s.m_descriptor ++ configuration }) r)
          (Quiet-descriptor h (λ d. d ++ configuration) r),
    )

pub invite-Quiet : (h : ℕ) (r : Room) → OnReturn (Quiet r) (invite h r)
unfolding invite
invite-Quiet h r =
    let object = join_object (invitation (id_of r h)) in
    replied-Quiet (code participant_join) object object.size h r r (Quiet-refl r)

join_ack-Quiet :
    (env : Env) (h : ℕ) (msg : Block) (r : Room) → OnReturn (Quiet r) (on_join_ack env h msg r)
unfolding on_join_ack
join_ack-Quiet env h msg r =
    let pack = read_join_ack msg.at header_size in
    let descriptor = slice pack.json_buffer 0 pack.json_buffersize in
    let r1 = modify h (λ s. record s { m_descriptor = descriptor }) r in
    ground (
      arith,
      init_new_participant-Quiet env pack.participant_id r1 r
          (Quiet-descriptor h (λ d. descriptor) r),
    )

pub dispatch_byte-Quiet :
    (env : Env) (h head : ℕ) (msg : Block) (r : Room)
    → OnReturn (Quiet r) (dispatch_byte env h head msg r)
unfolding dispatch_byte
dispatch_byte-Quiet env h head msg r = ground (
  arith,
  join_ack-Quiet env h msg r,
  Quiet-refl r,
  Quiet-deliver_except msg (id_of r h) r,
  disconnect_participant-Quiet (id_of r h) r,
  Quiet-do_close h r,
)
