-- ===== src/Exchange/Completes.antt =====
-- That the handshake ends with the client in the room.
use xrnetwork.Base.{
  ℕ, ◌+◌, ◌^◌, ◌≤◌, ◌<◌, ◌≡◌, refl, sym, ap, ◌∙◌, true, some, none, List, [], ◌∷◌, ◌++◌, length, ok,
  ◌>>=◌, arith,
}
use xrnetwork.XrMessage.{message_size}
use xrnetwork.Protocol.Heads.{code, handshake_credentials_ack}
use xrnetwork.Protocol.Structs.{kb, credentials_ack_object}
use xrnetwork.Session.{Session, do_read_byte}
use xrnetwork.Room.State.{Env, Room, id_of, put, get_participant_ptr}
use xrnetwork.Room.Deliver.{deliver_byte}
use xrnetwork.Room.Invariant.{IsOutside}
use xrnetwork.Connection.Handshake.{Service, read_handshake_ended, dispatch_handshake}
use xrnetwork.Connection.Greeting.{greeting, greeting_message}
use xrnetwork.Connection.Credentials.{asked_session, check_enters, invitation_message}
use xrnetwork.Client.{Client, read_ended, credentials_size, client_credentials, write_byte}
use xrnetwork.Client.Admission.{
  credentials_reply, reply-are_accepted, read_handshake-built, client_takes_service_id,
}
use xrnetwork.Exchange.{Peers, turn, handshake}
use xrnetwork.Exchange.Unmoved.{Unmoved, Unmoved-trans}
use xrnetwork.Exchange.Turns.{
  greeted-ip, demanded-ip, greeted, hello_answer, demand, demanded, read_handshake-demands,
  read_ended-credentials, read_ended-joins, greeted-Unmoved, demanded-Unmoved,
}
use xrnetwork.Exchange.Answers.{at_rest, Answers, connect-waits, turn-Answers, turn_ends}

module _ (env : Env) (service : Service) (timestamp now h : ℕ) (r : Room) (c : Client)
    (short_name : length service.server_name ≤ kb) (id_fits : service.service_id < 2 ^ 64)
    (session_id_fits : id_of r h < 2 ^ 64) (timestamp_fits : timestamp < 2 ^ 64)
    (now_fits : now < 2 ^ 64) (drawn_fits : env.rng r.drawn < 2 ^ 64)
    (room : length r.participants < r.max_participants)
    (open_take_options : (s : Session) → s.is_open ≡ true → env.accepts_option s ≡ true)
    (is_open : (r.sessions h).is_open ≡ true) (short_address : length (env.endpoint h) ≤ 512)
    (outside : IsOutside h r) (fresh : get_participant_ptr r (env.rng r.drawn) ≡ none) where
  abbrev r1 : Room
  r1 = greeted env service timestamp h r

  abbrev r2 : Room
  r2 = demanded (hello_answer service.service_id now) h r1

  unmoved : Unmoved h r r2
  unmoved =
      Unmoved-trans h r r1 r2 (greeted-Unmoved env service timestamp h r)
        (demanded-Unmoved (hello_answer service.service_id now) h r1)

  still_open : (r2.sessions h).is_open ≡ true
  still_open = unmoved.is_open ∙ is_open

  admitted :
      (r3 : Room) × (read_handshake_ended env h credentials_reply message_size r2 ≡ ok r3)
      × (get_participant_ptr r3 (env.rng r.drawn) ≡ some h)
      × (length r3.participants ≡ length r.participants + 1)
      × (r3.posted ≡ r2.posted ++ (h, invitation_message (env.rng r.drawn)) ∷ [])
  unfolding dispatch_handshake do_read_byte
  admitted =
      let entered =
        check_enters env h credentials_reply r2 reply-are_accepted
          (rw (unmoved.participants, unmoved.max_participants) room)
          (open_take_options (asked_session env h r2 true) still_open)
          (rw
            (
              demanded-ip (hello_answer service.service_id now) h r1,
              greeted-ip env service timestamp h r,
            )
            short_address)
          (rw unmoved.participants outside)
          (unmoved.lookups (env.rng r2.drawn)
            ∙ ap (λ (i : ℕ). get_participant_ptr r (env.rng i)) unmoved.drawn
            ∙ fresh) in
      (
        entered.0,
        read_handshake-built env h (code handshake_credentials_ack)
              (credentials_ack_object client_credentials) credentials_size r2 (omega arith)
              (omega arith) (omega arith)
            ∙ entered.1,
        ap (λ (i : ℕ). get_participant_ptr entered.0 (env.rng i)) (sym unmoved.drawn) ∙ entered.2,
        entered.3 ∙ ap (λ (ps : List ℕ). length ps + 1) unmoved.participants,
        entered.6
            ∙ ap (λ (i : ℕ). r2.posted ++ (h, invitation_message (env.rng i)) ∷ []) unmoved.drawn,
      )

  -- The turns of a handshake, each with what it does, and where they end.
  pub handshake_steps :
      (r3 : Room) × (c1 : Client) × (let c2 = record (write_byte credentials_reply c1) {
        reading = true;
      } in
        let invited = record c2 {
          participant_id = env.rng r.drawn;
          timer_armed = true;
          reading = true;
        } in
        Answers env now h
          (greeting_message (greeting service (id_of r h) timestamp))
          (hello_answer service.service_id now)
          demand
          r1
          r2
          c
          c1
        × Answers env now h demand credentials_reply
            (invitation_message (env.rng r.drawn))
            r2
            r3
            c1
            c2
        × (read_ended now (invitation_message (env.rng r.drawn)) message_size c2 ≡ ok invited)
        × (handshake env service timestamp now h r c ≡ ok (at_rest r3 invited))
        × (get_participant_ptr r3 (env.rng r.drawn) ≡ some h)
        × (length r3.participants ≡ length r.participants + 1))
  unfolding handshake
  handshake_steps =
      let greet = greeting service (id_of r h) timestamp in
      let taken =
        client_takes_service_id now greet c id_fits session_id_fits timestamp_fits
          (omega (arith, short_name)) in
      let c1 = taken.0 in
      let c2 = record (write_byte credentials_reply c1) { reading = true } in
      let r3 = admitted.0 in
      let invitation = invitation_message (env.rng r.drawn) in
      let asks : Answers env now h (greeting_message greet) (hello_answer service.service_id now)
          demand r1 r2 c c1 =
        record {
          client_reads = taken.1;
          client_posts = taken.4;
          server_reads = read_handshake-demands env h service.service_id now r1 id_fits now_fits;
          server_posts = (unfold deliver_byte in unfold put in refl);
        } in
      let admits : Answers env now h demand credentials_reply invitation r2 r3 c1 c2 = record {
        client_reads = read_ended-credentials now c1;
        client_posts = (unfold write_byte in refl);
        server_reads = admitted.1;
        server_posts = admitted.4;
      } in
      let joins = read_ended-joins now (env.rng r.drawn) c2 drawn_fits in
      let chain =
        ap (λ o. o >>= turn env now h >>= turn env now h >>= turn env now h)
          (connect-waits env service timestamp h r c short_name)
        ∙ ap (λ o. o >>= turn env now h >>= turn env now h)
            (turn-Answers env now h _ _ _ r1 r2 c c1 asks)
        ∙ ap (λ o. o >>= turn env now h) (turn-Answers env now h _ _ _ r2 r3 c1 c2 admits)
        ∙ turn_ends env now h r3 c2 _ invitation joins refl in
      (r3, c1, (asks, admits, joins, chain, admitted.2, admitted.3))

  -- A handshake with a service whose room has a place ends: in three turns of each end, with nothing
  -- left on its way, the client is in the room under the identifier drawn, which it has taken for
  -- its own from the invitation, one participant more than before, and its updates have begun.
  handshake_completes :
      (p : Peers) × (handshake env service timestamp now h r c ≡ ok p)
      × (get_participant_ptr p.room (env.rng r.drawn) ≡ some h)
      × (p.client.participant_id ≡ env.rng r.drawn)
      × (p.client.timer_armed ≡ true)
      × (length p.room.participants ≡ length r.participants + 1)
      × (p.to_client ≡ [])
      × (p.to_server ≡ [])
  handshake_completes =
      let steps = handshake_steps in (_, steps.2.3, steps.2.4, refl, refl, steps.2.5, refl, refl)
