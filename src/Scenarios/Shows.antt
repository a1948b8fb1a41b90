-- ===== src/Scenarios/Shows.antt =====
-- What is printed of an update, of a client's login and of a greeting.
use xrnetwork.Base.{
  ◌≤◌, ◌<◌, ◌≡◌, refl, true, List, [], ◌∷◌, ◌++◌, codes, length, ok, fault, out_of_bounds, ◌>>=◌,
  ◌==◌, if◌then◌else◌, arith,
}
use xrnetwork.Base.Memory.{Block, bytes_of, zeros, copy, get_le}
use xrnetwork.XrMessage.{message_size, read_header, from_raw}
use xrnetwork.XrMessage.RoundTrip.{from_raw-built, zeros-message_bytes}
use xrnetwork.Protocol.Heads.{code, handshake_credentials_ack}
use xrnetwork.Protocol.Structs.{kb, ParticipantUpdateAck, credentials_ack_object}
use xrnetwork.Printing.{Item, text, endl}
use xrnetwork.Session.{do_read_byte}
use xrnetwork.Room.State.{Room, modify}
use xrnetwork.Room.Broadcast.{posting}
use xrnetwork.Connection.Handshake.{Service, read_handshake_ended, start}
use xrnetwork.Connection.Byte.{read_byte_ended}
use xrnetwork.Connection.Shown.{read_handshake_shown, start_shown}
use xrnetwork.Connection.Unended.{ended_message_shown, unended_login_faults}
use xrnetwork.Connection.Opening.{start_shown_branches}
use xrnetwork.Client.Shown.{receiving, read_shown}
use xrnetwork.Exchange.Relay.{
  FitsUpdate, update_items, update_message, update_is_shown, unended_update_faults,
}
use xrnetwork.Scenarios.{platform, room_of_two, console}
use xrnetwork.Scenarios.Handshakes.{login_as, credentials_of}

abbrev demo : Service
demo = record { service_id = 77; server_name = codes "demo" }

abbrev hi : ParticipantUpdateAck
hi = record {
  participant_id = 5;
  origin_timestamp = 1000;
  buffersize = 2;
  buffer = bytes_of (codes "hi");
}

hi_fits : FitsUpdate hi
hi_fits = record { id_fits = omega arith; timestamp_fits = omega arith; size_fits = omega arith }

update_is_shown_example :
    (read_byte_ended platform 0 (update_message hi) message_size room_of_two
      ≡ ok (modify 0 do_read_byte (posting ((1, update_message hi) ∷ []) room_of_two)))
    × (read_shown 7 (update_message hi) message_size console
        ≡ ok (
          record console { reading = true },
          receiving message_size (update_message hi)
              ++ text (codes "<< PARTICIPANT_UPCATE_ACK ") ∷ endl ∷ update_items hi (codes "hi")
              ++ endl ∷ [],
        ))
update_is_shown_example =
    update_is_shown hi hi_fits platform 0 7 room_of_two console (codes "hi")
      ((λ e. omega (arith, e)), ((λ e. omega (arith, e)), tt)) (omega arith) (λ k hk. refl)

-- Twenty kilobytes of the letter A.
abbrev endless : ParticipantUpdateAck
endless = record hi { buffersize = 20480; buffer = λ k. 65 }

endless_fits : FitsUpdate endless
endless_fits = record {
  id_fits = omega arith;
  timestamp_fits = omega arith;
  size_fits = omega arith;
}

unended_update_faults_example :
    (read_byte_ended platform 0 (update_message endless) message_size room_of_two
      ≡ ok (modify 0 do_read_byte (posting ((1, update_message endless) ∷ []) room_of_two)))
    × (read_shown 7 (update_message endless) message_size console ≡ fault out_of_bounds)
unended_update_faults_example =
    unended_update_faults endless endless_fits platform 0 7 room_of_two console
      (λ k hk e. omega (arith, e))

ended_message_shown_example :
    (lines : Room → List Item) × (read_handshake_shown platform 2
        (credentials_of (codes "guest"))
        message_size
        room_of_two
      ≡ (read_handshake_ended platform 2 (credentials_of (codes "guest")) message_size room_of_two
          >>= λ r'. ok (r', lines r')))
ended_message_shown_example =
    ended_message_shown platform 2 message_size (credentials_of (codes "guest"))
      (credentials_of (codes "guest")) room_of_two
      (from_raw-built (code handshake_credentials_ack)
        (credentials_ack_object (login_as (codes "guest"))) 20484 (omega arith) (omega arith))
      (zeros-message_bytes (code handshake_credentials_ack)
        (credentials_ack_object (login_as (codes "guest"))).at 20484 65535 (omega arith))

-- A head of credentials, and the letter A up to the end.
abbrev flood : Block
flood = record {
  size = 65536;
  at = λ k. if k == 0 then code handshake_credentials_ack else if k == 1 then 0 else 65;
}

abbrev flooded : Block
flooded = record { size = 65536; at = copy zeros 0 flood.at 65536 }

unended_login_faults_example :
    read_handshake_shown platform 2 flood message_size room_of_two ≡ fault out_of_bounds
unfolding from_raw read_header copy get_le
unended_login_faults_example =
    unended_login_faults platform 2 flood flooded room_of_two (ground arith) (ground arith)
      (λ k hk hl e. ground (arith, e))

start_shown_branches_example :
    (length demo.server_name < kb
      → (r' : Room) × (lines : List Item) × (start platform demo 1000 2 room_of_two ≡ ok r')
        × (start_shown platform demo 1000 2 room_of_two ≡ ok (r', lines)))
    × (kb ≤ length demo.server_name
        → start_shown platform demo 1000 2 room_of_two ≡ fault out_of_bounds)
start_shown_branches_example = start_shown_branches platform demo 1000 2 room_of_two (
  (λ e. omega (arith, e)),
  ((λ e. omega (arith, e)), ((λ e. omega (arith, e)), ((λ e. omega (arith, e)), tt))),
)
