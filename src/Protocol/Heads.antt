-- ===== src/Protocol/Heads.antt =====
-- protocol.hpp: `EN_RAW_MESSAGE_HEAD`, and the number that each head is on the wire.
use xrnetwork.Base.{ℕ}

pub data Head : Type 0 where
  none_head : Head
  handshake_hello handshake_hello_ack : Head
  handshake_credentials handshake_credentials_ack : Head
  handshake_statistics_request handshake_statistics_request_ack : Head
  handshake_participant_update handshake_participant_update_ack : Head
  participant_join participant_join_ack : Head
  message message_ack : Head
  participant_new participant_new_ack : Head
  participant_leave participant_leave_ack : Head
  participant_info_request participant_info_request_ack : Head
  participant_update participant_update_ack : Head
  participant_event participant_event_ack : Head
  avar_message chat_message control : Head

-- `(uint16_t)head`: the enumerators count from 0.
abbrev pub code : Head → ℕ
code none_head = 0
code handshake_hello = 1
code handshake_hello_ack = 2
code handshake_credentials = 3
code handshake_credentials_ack = 4
code handshake_statistics_request = 5
code handshake_statistics_request_ack = 6
code handshake_participant_update = 7
code handshake_participant_update_ack = 8
code participant_join = 9
code participant_join_ack = 10
code message = 11
code message_ack = 12
code participant_new = 13
code participant_new_ack = 14
code participant_leave = 15
code participant_leave_ack = 16
code participant_info_request = 17
code participant_info_request_ack = 18
code participant_update = 19
code participant_update_ack = 20
code participant_event = 21
code participant_event_ack = 22
code avar_message = 23
code chat_message = 24
code control = 25
