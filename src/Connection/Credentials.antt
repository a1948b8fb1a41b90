-- ===== src/Connection/Credentials.antt =====
-- Whom the handshake lets into the room.
use xrnetwork.Base.{
  ℕ, ◌+◌, ◌≤◌, ◌<◌, ◌≡◌, refl, ap, ap₂, ◌∙◌, Bool, true, false, none, some, [], ◌∷◌, ◌++◌, length,
  ok, threw, ◌>>=◌, arith,
}
use xrnetwork.Base.Memory.{Block}
use xrnetwork.XrMessage.RoundTrip.{built, from_head-built}
use xrnetwork.Protocol.Heads.{code, participant_join}
use xrnetwork.Protocol.Structs.{join_object}
use xrnetwork.Session.{Session, byte_reader, do_close, do_read_byte}
use xrnetwork.Room.State.{Env, Room, id_of, put, sessions-put_self, put-put, get_participant_ptr}
use xrnetwork.Room.Deliver.{deliver_byte}
use xrnetwork.Room.Members.{join}
use xrnetwork.Room.Invariant.{IsOutside, get_participant_ptr-put, m_id-do_close, is_open-do_close}
use xrnetwork.Room.Joining.{drawn_session, join_branches, join_enters}
use xrnetwork.Connection.Handshake.{
  are_accepted, invitation, invite, check_handshake_credentials_ack,
}

-- The message that invites an identifier.
abbrev pub invitation_message : ℕ → Block
invitation_message id = built (code participant_join) (join_object (invitation id)) 10256

invite-posts :
    (h : ℕ) (r : Room) → invite h r ≡ ok (deliver_byte (invitation_message (id_of r h)) h r)
unfolding invite
invite-posts h r = rw (
    from_head-built (code participant_join) (join_object (invitation (id_of r h))) 10256
      (omega arith) (omega arith))

-- The session after the check of the credentials: closed if they are refused, and with the read of
-- a joined session armed in both cases.
abbrev pub checked_session : Bool → Session → Session
checked_session true s = do_read_byte s
checked_session false s = do_read_byte (do_close s)

pub check-form :
    (env : Env) (h : ℕ) (msg : Block) (r : Room) (answer : Bool)
    → are_accepted msg ≡ answer
    → check_handshake_credentials_ack env h msg r
      ≡ (join env h (put r h (checked_session answer (r.sessions h))) >>= invite h)
unfolding check_handshake_credentials_ack
check-form env h msg r true e = rw (e, check_handshake_credentials_ack)
check-form env h msg r false e =
    rw (e, check_handshake_credentials_ack)
      (rw (sessions-put_self r h (do_close (r.sessions h)))
        (rw (put-put r h (do_close (r.sessions h)) (do_read_byte (do_close (r.sessions h))))))

pub checked-m_id : (answer : Bool) (s : Session) → (checked_session answer s).m_id ≡ s.m_id
unfolding do_read_byte do_close
checked-m_id true s = refl
checked-m_id false s = ground arith

checked-ip : (answer : Bool) (s : Session) → (checked_session answer s).ip ≡ s.ip
unfolding do_read_byte do_close
checked-ip true s = refl
checked-ip false s = ground arith

pub checked-reads :
    (answer : Bool) (s : Session) → (checked_session answer s).reads ≡ s.reads ++ byte_reader ∷ []
unfolding do_read_byte do_close
checked-reads true s = refl
checked-reads false s = ground arith

checked-closed : (s : Session) → (checked_session false s).is_open ≡ false
unfolding do_read_byte do_close
checked-closed s = ground arith

-- The session that the socket's option is asked of.
abbrev pub asked_session : Env → ℕ → Room → Bool → Session
asked_session env h r answer = record (checked_session answer (r.sessions h)) {
  m_id = env.rng r.drawn;
}

asked :
    (env : Env) (h : ℕ) (r : Room) (answer b : Bool)
    → env.accepts_option (asked_session env h r answer) ≡ b
    → env.accepts_option (drawn_session env h (put r h (checked_session answer (r.sessions h)))) ≡ b
unfolding put
asked env h r answer b e =
    ap (λ (s : Session). env.accepts_option (record s { m_id = env.rng r.drawn }))
      (sessions-put_self r h (checked_session answer (r.sessions h)))
    ∙ e

module _ (env : Env) (h : ℕ) (msg : Block) (r : Room) (right : are_accepted msg ≡ true)
    (room : length r.participants < r.max_participants)
    (accepted : env.accepts_option (asked_session env h r true) ≡ true)
    (short : length (r.sessions h).ip ≤ 512) (outside : IsOutside h r)
    (fresh : get_participant_ptr r (env.rng r.drawn) ≡ none) where
  -- Accepted credentials bring the session into a room with a place.
  pub check_enters :
      (r' : Room) × (check_handshake_credentials_ack env h msg r ≡ ok r')
      × (get_participant_ptr r' (env.rng r.drawn) ≡ some h)
      × (length r'.participants ≡ length r.participants + 1)
      × ((r'.sessions h).is_open ≡ (r.sessions h).is_open)
      × ((r'.sessions h).reads ≡ (r.sessions h).reads ++ byte_reader ∷ [])
      × (r'.posted ≡ r.posted ++ (h, invitation_message (env.rng r.drawn)) ∷ [])
  unfolding deliver_byte put get_participant_ptr do_read_byte
  check_enters =
      let entered =
        join_enters env h (put r h s2) room (asked env h r true true accepted)
          (rw there (rw (checked-ip true (r.sessions h)) short)) outside
          (get_participant_ptr-put r h s2 (env.rng r.drawn) (checked-m_id true (r.sessions h))
            ∙ fresh) in
      (
        deliver_byte (invitation_message (id_of entered.0 h)) h entered.0,
        check-form env h msg r true right ∙ rw entered.1 (invite-posts h entered.0),
        entered.4 (env.rng r.drawn) ∙ ground arith,
        entered.5,
        ap (λ (s : Session). s.is_open) entered.2 ∙ ap (λ (s : Session). s.is_open) there,
        ap (λ (s : Session). s.reads) entered.2
            ∙ ap (λ (s : Session). s.reads) there
            ∙ checked-reads true (r.sessions h),
        ap₂ (λ ps (i : ℕ). ps ++ (h, invitation_message i) ∷ []) entered.7
            (ap (λ (s : Session). s.m_id) entered.2),
      )
    where
      s2 : Session
      s2 = checked_session true (r.sessions h)

      there : (put r h s2).sessions h ≡ s2
      there = sessions-put_self r h s2

-- On a platform where a closed socket refuses its options, which is what closing means, one client
-- that sends other credentials while the room has a place makes an exception leave the handler:
-- neither is the client turned away, nor does the handler return.
pub check_refused_throws :
    (env : Env) (h : ℕ) (msg : Block) (r : Room)
    → ((s : Session) → s.is_open ≡ false → env.accepts_option s ≡ false)
    → are_accepted msg ≡ false
    → length r.participants < r.max_participants
    → check_handshake_credentials_ack env h msg r ≡ threw
check_refused_throws env h msg r closed_refuse refused room =
    check-form env h msg r false refused
    ∙ rw (
        (join_branches env h (put r h (checked_session false (r.sessions h)))).1
          (unfold put in room)
          (asked env h r false false
            (closed_refuse (asked_session env h r false) (checked-closed (r.sessions h)))))

-- In a full room the answer to the credentials decides nothing: the handler returns, nobody enters,
-- the socket is closed, and the invitation is posted to it with the identifier it had.
pub check_full :
    (env : Env) (h : ℕ) (msg : Block) (r : Room) (answer : Bool)
    → are_accepted msg ≡ answer
    → r.max_participants ≤ length r.participants
    → (r' : Room) × (check_handshake_credentials_ack env h msg r ≡ ok r')
      × (r'.participants ≡ r.participants)
      × ((r'.sessions h).is_open ≡ false)
      × (r'.posted ≡ r.posted ++ (h, invitation_message (id_of r h)) ∷ [])
unfolding put deliver_byte
check_full env h msg r answer answered full =
    let s2 = checked_session answer (r.sessions h) in
    let r3 = put (put r h s2) h (do_close ((put r h s2).sessions h)) in
    let last : r3.sessions h ≡ do_close s2 =
      sessions-put_self (put r h s2) h (do_close ((put r h s2).sessions h))
      ∙ ap do_close (sessions-put_self r h s2) in
    (
      deliver_byte (invitation_message (id_of r3 h)) h r3,
      check-form env h msg r answer answered
          ∙ rw ((join_branches env h (put r h s2)).0 full) (invite-posts h r3),
      refl,
      ap (λ (s : Session). s.is_open) last ∙ is_open-do_close s2,
      ap (λ (i : ℕ). r.posted ++ (h, invitation_message i) ∷ [])
          (ap (λ (s : Session). s.m_id) last
            ∙ m_id-do_close s2
            ∙ checked-m_id answer (r.sessions h)),
    )
