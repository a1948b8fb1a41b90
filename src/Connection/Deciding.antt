-- ===== src/Connection/Deciding.antt =====
-- What the credentials of a client decide.
use xrnetwork.Base.{
  suc, not, if◌then◌else◌, ℕ, ◌+◌, ◌≤◌, ◌<◌, ◌≡◌, ap, ◌∙◌, true, false, none, some, [], ◌∷◌, ◌++◌,
  length, ok, threw,
}
use xrnetwork.Base.Memory.{Block}
use xrnetwork.Session.{Session, byte_reader, do_close, do_read_byte}
use xrnetwork.Room.State.{modify, Env, Room, put, sessions-put_self, get_participant_ptr}
use xrnetwork.Room.Members.{draw_id}
use xrnetwork.Room.Invariant.{IsOutside, is_open-do_close}
use xrnetwork.Room.Joining.{drawn_session, draw_id-put}
use xrnetwork.Connection.Handshake.{
  are_accepted, check_handshake_credentials_ack, credentials_thrown,
}
use xrnetwork.Connection.Credentials.{
  asked_session, invitation_message, check_enters, check_refused_throws,
}

-- What the exception leaves of the room: nobody came, and the session's socket is closed.
refused_leaves :
    (env : Env) (h : ℕ) (msg : Block) (r : Room)
    → are_accepted msg ≡ false
    → ((credentials_thrown env h msg r).participants ≡ r.participants)
      × (((credentials_thrown env h msg r).sessions h).is_open ≡ false)
      × ((credentials_thrown env h msg r).posted ≡ r.posted)
unfolding credentials_thrown put
refused_leaves env h msg r refused =
    let closed = do_close (r.sessions h) in
    let r1 = put r h closed in
    let r2 = put r1 h (do_read_byte (r1.sessions h)) in
    let form : credentials_thrown env h msg r
        ≡ put (record r2 { drawn = suc r2.drawn }) h (drawn_session env h r2) =
      ap (λ b. draw_id env h (modify h do_read_byte (if not b then modify h do_close r else r)))
        refused
      ∙ draw_id-put env h r2 in
    let last = sessions-put_self (record r2 { drawn = suc r2.drawn }) h (drawn_session env h r2) in
    let read = sessions-put_self r1 h (do_read_byte (r1.sessions h)) in
    (
      ap (λ (x : Room). x.participants) form,
      ap (λ (x : Room). (x.sessions h).is_open) form
          ∙ ap (λ (s : Session). s.is_open) last
          ∙ ap (λ (s : Session). s.is_open) read
          ∙ ap (λ (s : Session). (do_read_byte s).is_open) (sessions-put_self r h closed)
          ∙ (unfold do_read_byte in is_open-do_close (r.sessions h)),
      ap (λ (x : Room). x.posted) form,
    )

-- What the credentials decide, for a session outside a room with a place, where a socket takes its
-- options exactly while it is open, and the session's is open: with the ones that the code expects,
-- the session enters under the identifier drawn, which is nobody's; its socket stays open, its reads
-- go on as those of a joined session, and it is invited by that identifier. With any others, an
-- exception leaves the handler: the session is not in the room, nothing is posted, and its socket is
-- closed.
pub credentials_decide :
    (env : Env) (h : ℕ) (msg : Block) (r : Room)
    → ((s : Session) → env.accepts_option s ≡ s.is_open)
    → (r.sessions h).is_open ≡ true
    → length r.participants < r.max_participants
    → length (r.sessions h).ip ≤ 512
    → IsOutside h r
    → get_participant_ptr r (env.rng r.drawn) ≡ none
    → (are_accepted msg ≡ true
        → (r' : Room) × (check_handshake_credentials_ack env h msg r ≡ ok r')
          × (get_participant_ptr r' (env.rng r.drawn) ≡ some h)
          × (length r'.participants ≡ length r.participants + 1)
          × ((r'.sessions h).is_open ≡ true)
          × ((r'.sessions h).reads ≡ (r.sessions h).reads ++ byte_reader ∷ [])
          × (r'.posted ≡ r.posted ++ (h, invitation_message (env.rng r.drawn)) ∷ []))
      × (are_accepted msg ≡ false
          → (check_handshake_credentials_ack env h msg r ≡ threw)
            × ((credentials_thrown env h msg r).participants ≡ r.participants)
            × (((credentials_thrown env h msg r).sessions h).is_open ≡ false)
            × ((credentials_thrown env h msg r).posted ≡ r.posted))
unfolding do_read_byte
credentials_decide env h msg r takes is_open room short outside fresh = (
  λ right.
      let e =
        check_enters env h msg r right room (takes (asked_session env h r true) ∙ is_open) short
          outside fresh in
      (e.0, e.1, e.2, e.3, e.4 ∙ is_open, e.5, e.6),
  λ refused.
      let left = refused_leaves env h msg r refused in
      (
        check_refused_throws env h msg r (λ s closed. takes s ∙ closed) refused room,
        left.0,
        left.1,
        left.2,
      ),
)
