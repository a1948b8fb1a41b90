-- ===== src/Connection/Drawing.antt =====
-- The handlers draw the identifiers that they give, and keep those that were given.
use xrnetwork.Base.{
  ℕ, ◌≡◌, ◌≢◌, refl, sym, ap, ◌∙◌, Bool, List, Outcome, ok, fault, threw, ◌>>=◌, All-mono, arith,
}
use xrnetwork.Base.Memory.{Block}
use xrnetwork.XrMessage.{read_header, from_raw, from_head}
use xrnetwork.Protocol.Heads.{code, handshake_hello}
use xrnetwork.Protocol.Structs.{hello_object}
use xrnetwork.Protocol.Builders.{build_handshake_hello}
use xrnetwork.Session.{Session, Reader, do_read_byte, do_read_handshake}
use xrnetwork.Room.OrderedSet.{find_agree}
use xrnetwork.Room.State.{Env, Room, id_of, put, modify, sessions-put_ne, get_participant_ptr}
use xrnetwork.Room.Deliver.{deliver_byte}
use xrnetwork.Room.Members.{join, leave}
use xrnetwork.Room.Invariant.{IsOutside}
use xrnetwork.Room.Keeping.{IsKept, put-IsKept, join-IsKept}
use xrnetwork.Connection.Handshake.{
  Service, are_accepted, invite, start, do_start_handshake, check_handshake_hello_ack,
  check_handshake_credentials_ack, dispatch_handshake, read_handshake_ended,
}
use xrnetwork.Connection.Byte.{dispatch_byte, read_byte_ended, transfer_failed}
use xrnetwork.Connection.Credentials.{checked_session, check-form, checked-m_id}
use xrnetwork.Connection.Loop.{take_read}
use xrnetwork.Connection.Frame.{
  OnReturn, OnReturn->>=, OnReturn-then, OnReturn-ok, Quiet, Quiet-deliver_byte, leave-Quiet,
}
use xrnetwork.Connection.Handlers.{hello_ack-Quiet, invite-Quiet, dispatch_byte-Quiet}
use xrnetwork.Connection.Serving.{replaced-IsValid}

module _ (env : Env) where
  pub Quiet-IsKept : (r r' : Room) → Quiet r r' → IsKept env r → IsKept env r'
  Quiet-IsKept r r' q kept = record {
    valid = q.valid kept.valid;
    drawn_before = λ k h e.
        let before = kept.drawn_before k h (q.found k h e) in
        (before.0, omega (arith, before.1, q.drawn), before.2);
  }

  settled-IsKept :
      (r : Room) (m : Outcome Room) → IsKept env r → OnReturn (Quiet r) m → OnReturn (IsKept env) m
  settled-IsKept r (ok r') kept q = Quiet-IsKept r r' q kept
  settled-IsKept r (fault e) kept q = tt
  settled-IsKept r threw kept q = tt

  returned-IsKept :
      (m : Outcome Room) → ((r : Room) → m ≡ ok r → IsKept env r) → OnReturn (IsKept env) m
  returned-IsKept (ok r) h = h r refl
  returned-IsKept (fault e) h = tt
  returned-IsKept threw h = tt

  -- A session outside the room may be replaced by any other.
  pub replaced-IsKept :
      (r : Room) (h : ℕ) (s : Session) → IsOutside h r → IsKept env r → IsKept env (put r h s)
  unfolding put get_participant_ptr
  replaced-IsKept r h s outside kept = record {
    valid = replaced-IsValid r h s outside kept.valid;
    drawn_before = λ k g e. kept.drawn_before k g (
        find_agree (id_of r) (id_of (put r h s)) k r.participants (
          All-mono (λ x. x ≢ h) (λ x. id_of r x ≡ id_of (put r h s) x)
            (λ x ne. ap (λ (t : Session). t.m_id) (sym (sessions-put_ne r h x s ne))) r.participants
            outside)
        ∙ e);
  }

  pub start-IsKept :
      (service : Service) (timestamp h : ℕ) (r : Room)
      → IsKept env r
      → OnReturn (IsKept env) (start env service timestamp h r)
  unfolding start do_start_handshake do_read_handshake
  start-IsKept service timestamp h r kept =
      let noted = modify h (λ s. record s { ip = env.endpoint h }) r in
      let armed = modify h do_read_handshake noted in
      let ready =
        put-IsKept env noted h (do_read_handshake (noted.sessions h)) refl
          (put-IsKept env r h (record (r.sessions h) { ip = env.endpoint h }) refl kept) in
      OnReturn->>= (IsKept env)
        (build_handshake_hello service.service_id (id_of armed h) timestamp service.server_name)
        (λ hh. from_head (code handshake_hello) (hello_object hh) (hello_object hh).size >>= λ msg.
          ok (deliver_byte msg h armed))
        (λ hh.
          OnReturn->>= (IsKept env)
            (from_head (code handshake_hello) (hello_object hh) (hello_object hh).size)
            (λ msg. ok (deliver_byte msg h armed))
            (λ msg.
              Quiet-IsKept armed (deliver_byte msg h armed) (Quiet-deliver_byte msg h armed) ready))

  credentials-IsKept :
      (h : ℕ) (msg : Block) (r : Room) (answer : Bool)
      → are_accepted msg ≡ answer
      → IsOutside h r
      → IsKept env r
      → OnReturn (IsKept env) (check_handshake_credentials_ack env h msg r)
  unfolding put
  credentials-IsKept h msg r answer answered outside kept =
      let s = checked_session answer (r.sessions h) in
      let ready = put-IsKept env r h s (checked-m_id answer (r.sessions h)) kept in
      rw (check-form env h msg r answer answered) (
        OnReturn-then (IsKept env) (IsKept env) (join env h (put r h s)) (invite h)
          (returned-IsKept (join env h (put r h s)) (join-IsKept env h (put r h s) ready outside))
          (λ r' kept'. settled-IsKept r' (invite h r') kept' (invite-Quiet h r')))

  dispatched-IsKept :
      (h hd : ℕ) (msg : Block) (r : Room)
      → IsOutside h r
      → IsKept env r
      → OnReturn (IsKept env) (dispatch_handshake env h hd msg r)
  unfolding dispatch_handshake do_read_handshake
  dispatched-IsKept h hd msg r outside kept = ground (
    arith,
    OnReturn-then (IsKept env) (Quiet r) (check_handshake_hello_ack h msg r)
        (λ r'. ok (modify h do_read_handshake r')) (hello_ack-Quiet h msg r)
        (λ r' q.
          put-IsKept env r' h (do_read_handshake (r'.sessions h)) refl (Quiet-IsKept r r' q kept)),
    credentials-IsKept h msg r (are_accepted msg) refl outside kept,
    put-IsKept env r h (do_read_handshake (r.sessions h)) refl kept,
  )

  pub handshake-IsKept :
      (h : ℕ) (buffer : Block) (n : ℕ) (r : Room)
      → IsOutside h r
      → IsKept env r
      → OnReturn (IsKept env) (read_handshake_ended env h buffer n r)
  unfolding read_handshake_ended
  handshake-IsKept h buffer n r outside kept =
      OnReturn->>= (IsKept env) (from_raw buffer n)
        (λ msg. dispatch_handshake env h (read_header msg.at).head msg r)
        (λ msg. dispatched-IsKept h (read_header msg.at).head msg r outside kept)

  pub byte-IsKept :
      (h : ℕ) (buffer : Block) (n : ℕ) (r : Room)
      → IsKept env r
      → OnReturn (IsKept env) (read_byte_ended env h buffer n r)
  unfolding read_byte_ended do_read_byte
  byte-IsKept h buffer n r kept =
      OnReturn->>= (IsKept env) (from_raw buffer n)
        (λ msg. dispatch_byte env h (read_header msg.at).head msg r >>= λ r'.
          ok (modify h do_read_byte r'))
        (λ msg.
          OnReturn-then (IsKept env) (Quiet r) (dispatch_byte env h (read_header msg.at).head msg r)
            (λ r'. ok (modify h do_read_byte r'))
            (dispatch_byte-Quiet env h (read_header msg.at).head msg r)
            (λ r' q.
              put-IsKept env r' h (do_read_byte (r'.sessions h)) refl (Quiet-IsKept r r' q kept)))

  pub failed-IsKept :
      (h : ℕ) (r r' : Room) → IsKept env r → transfer_failed h r ≡ ok r' → IsKept env r'
  unfolding transfer_failed
  failed-IsKept h r r' kept e =
      OnReturn-ok (IsKept env) (leave h r) r' (settled-IsKept r (leave h r) kept (leave-Quiet h r))
        e

  pub taken-IsKept :
      (h : ℕ) (rest : List Reader) (r : Room) → IsKept env r → IsKept env (take_read h rest r)
  taken-IsKept h rest r = put-IsKept env r h (record (r.sessions h) { reads = rest }) refl
