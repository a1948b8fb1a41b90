-- ===== src/Exchange/Relay.antt =====
-- An update from one client, through the service, to what another client prints.
use xrnetwork.Base.{
  ℕ, ◌+◌, ◌^◌, ◌≤◌, ◌<◌, ◌≡◌, ◌≢◌, refl, sym, ap, ◌∙◌, true, List, [], ◌∷◌, ◌++◌, All, get_or,
  length, codes, Outcome, ok, fault, out_of_bounds, threw, ◌>>=◌, arith,
}
use xrnetwork.Base.Memory.{Memory, Block, get_le, get_le_ext}
use xrnetwork.Base.Layout.{word}
use xrnetwork.XrMessage.{header_size, message_size}
use xrnetwork.XrMessage.RoundTrip.{built, from_raw-built, head-built}
use xrnetwork.Protocol.Heads.{code, participant_update_ack}
use xrnetwork.Protocol.Structs.{kb20, ParticipantUpdateAck, update_ack_object}
use xrnetwork.Protocol.Readers.{from}
use xrnetwork.Protocol.Offsets.{sent_word, sent_byte}
use xrnetwork.Printing.{Item, text, number, hex, dec, endl, show_header}
use xrnetwork.Printing.Structs.{show_update_ack}
use xrnetwork.Printing.Terminated.{c_text-reads, c_text_runs}
use xrnetwork.Session.{do_read_byte}
use xrnetwork.Room.State.{Env, Room, id_of, modify}
use xrnetwork.Room.Broadcast.{posting, copies, others}
use xrnetwork.Connection.Byte.{read_byte_ended}
use xrnetwork.Connection.Relaying.{update_reaches_others}
use xrnetwork.Client.{Client, dispatch}
use xrnetwork.Client.Shown.{by_value, receiving, case_shown, read_shown}

-- An update whose numbers fit their words.
pub record FitsUpdate (s : ParticipantUpdateAck) : Type 0 where
  pub id_fits : s.participant_id < 2 ^ 64
  pub timestamp_fits : s.origin_timestamp < 2 ^ 64
  pub size_fits : s.buffersize < 2 ^ 32

-- What is printed of an update with its text.
abbrev pub update_items : ParticipantUpdateAck → List ℕ → List Item
update_items s name =
    text (codes "participant_id: ")
    ∷ hex
    ∷ number s.participant_id
    ∷ text (codes "\norigin_timestamp: ")
    ∷ hex
    ∷ number s.origin_timestamp
    ∷ text (codes "\nbuffersize: 0x")
    ∷ hex
    ∷ number s.buffersize
    ∷ text (codes "(")
    ∷ dec
    ∷ number s.buffersize
    ∷ text (codes ") bytes")
    ∷ text (codes "\nbuffer: ")
    ∷ text name
    ∷ []

abbrev pub update_message : ParticipantUpdateAck → Block
update_message s = built (code participant_update_ack) (update_ack_object s) 20500

get_le-from : (w : ℕ) (m : Memory) (off a : ℕ) → get_le w (from m off) a ≡ get_le w m (off + a)
get_le-from w m off a = get_le_ext w (from m off) m a (off + a) λ k hk. ap m (omega arith)

bind_after :
    {A : Type 0} {B : Type 0} {C : Type 0} (m : Outcome A) (g : A → B) (k : B → C)
    → (m >>= (λ a. ok (g a)) >>= (λ b. ok (k b))) ≡ (m >>= λ a. ok (k (g a)))
bind_after (ok a) g k = refl
bind_after (fault e) g k = refl
bind_after threw g k = refl

module _ (s : ParticipantUpdateAck) (fits : FitsUpdate s) where
  copied : Block
  copied = by_value 20500 (update_message s)

  id_word : get_le 8 copied.at 0 ≡ s.participant_id
  unfolding copied
  id_word =
      get_le-from 8 (update_message s).at header_size 0
      ∙ sent_word (code participant_update_ack) 20500 [] 8 s.participant_id _ 0 refl (omega arith)
          fits.id_fits

  timestamp_word : get_le 8 copied.at 8 ≡ s.origin_timestamp
  unfolding copied
  timestamp_word =
      get_le-from 8 (update_message s).at header_size 8
      ∙ sent_word (code participant_update_ack) 20500 (word 8 s.participant_id ∷ []) 8
          s.origin_timestamp _ 8 refl (omega arith) fits.timestamp_fits

  size_word : get_le 4 copied.at 16 ≡ s.buffersize
  unfolding copied
  size_word =
      get_le-from 4 (update_message s).at header_size 16
      ∙ sent_word (code participant_update_ack) 20500
          (word 8 s.participant_id ∷ word 8 s.origin_timestamp ∷ []) 4 s.buffersize _ 16 refl
          (omega arith) fits.size_fits

  buffer_byte : (k : ℕ) → k < kb20 → copied.at (20 + k) ≡ s.buffer k
  unfolding copied
  buffer_byte k hk =
      ap (update_message s).at (omega arith)
      ∙ sent_byte (code participant_update_ack) 20500
          (word 8 s.participant_id ∷ word 8 s.origin_timestamp ∷ word 4 s.buffersize ∷ []) kb20
          s.buffer [] 20 k refl hk (omega arith)

  show-sent :
      (name : List ℕ)
      → All (λ (c : ℕ). c ≢ 0) name
      → length name < kb20
      → ((k : ℕ) → k ≤ length name → s.buffer k ≡ get_or name k 0)
      → show_update_ack copied ≡ ok (update_items s name)
  unfolding show_update_ack copied
  show-sent name solid short same =
      rw
        (
          show_update_ack,
          c_text-reads copied 20 name solid
              (λ k hk. buffer_byte k (omega (arith, hk, short)) ∙ same k hk) (omega arith),
          id_word,
          timestamp_word,
          size_word,
        )
        refl

  show_runs : ((k : ℕ) → k < kb20 → s.buffer k ≢ 0) → show_update_ack copied ≡ fault out_of_bounds
  unfolding show_update_ack copied
  show_runs endless =
      rw
        (
          show_update_ack,
          c_text_runs copied 20 (λ k hk e.
              let inside : k < kb20 = omega arith in
              endless k inside (sym (buffer_byte k inside) ∙ e)),
        )
        refl

  -- The client's handler, at a message that carries the update.
  read_shown-update :
      (now : ℕ) (c : Client)
      → read_shown now (update_message s) message_size c ≡ (
          show_update_ack copied >>= λ is. ok (
            record c { reading = true },
            receiving message_size (update_message s)
                ++ text (codes "<< PARTICIPANT_UPCATE_ACK ") ∷ endl ∷ is
                ++ endl ∷ [],
          ))
  unfolding read_shown case_shown dispatch copied show_header
  read_shown-update now c =
      rw
        (
          from_raw-built (code participant_update_ack) (update_ack_object s) 20500 (omega arith)
              (omega arith),
          head-built (code participant_update_ack) (update_ack_object s) 20500 (omega arith)
              (omega arith),
        )
        (bind_after (show_update_ack copied) _ _)

  module _ (env : Env) (h now : ℕ) (r : Room) (c : Client) where
    -- An update that a participant sends is relayed by the service, as it came, to each participant
    -- with another identifier; and a client that it comes to prints the sender's identifier, time,
    -- size and text, and reads on, with nothing else changed. The numbers fit their words, and the
    -- text has no NUL and leaves room for one.
    pub update_is_shown :
        (name : List ℕ)
        → All (λ (x : ℕ). x ≢ 0) name
        → length name < kb20
        → ((k : ℕ) → k ≤ length name → s.buffer k ≡ get_or name k 0)
        → (read_byte_ended env h (update_message s) message_size r
            ≡ ok (
                modify h do_read_byte (
                  posting
                    (copies (update_message s) (others (id_of r) (id_of r h) r.participants))
                    r)))
          × (read_shown now (update_message s) message_size c
              ≡ ok (
                record c { reading = true },
                receiving message_size (update_message s)
                    ++ text (codes "<< PARTICIPANT_UPCATE_ACK ") ∷ endl ∷ update_items s name
                    ++ endl ∷ [],
              ))
    update_is_shown name solid short same = (
      update_reaches_others env h (update_ack_object s) 20500 (omega arith) (omega arith) r,
      read_shown-update now c ∙ rw (show-sent name solid short same) refl,
    )

    -- An update whose text is not ended by a NUL is relayed to the others all the same, and each
    -- console client that it comes to reads past its copy of the update as it prints it.
    pub unended_update_faults :
        ((k : ℕ) → k < kb20 → s.buffer k ≢ 0)
        → (read_byte_ended env h (update_message s) message_size r
            ≡ ok (
                modify h do_read_byte (
                  posting
                    (copies (update_message s) (others (id_of r) (id_of r h) r.participants))
                    r)))
          × (read_shown now (update_message s) message_size c ≡ fault out_of_bounds)
    unended_update_faults endless = (
      update_reaches_others env h (update_ack_object s) 20500 (omega arith) (omega arith) r,
      read_shown-update now c ∙ rw (show_runs endless) refl,
    )
