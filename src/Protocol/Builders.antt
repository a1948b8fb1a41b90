-- ===== src/Protocol/Builders.antt =====
-- protocol.hpp: the constructors of the structs and the two `build_` functions. What a constructor
-- leaves uninitialised is an argument, by the name `garbage`.
use xrnetwork.Base.{
  ℕ, List, ◌≡◌, ◌↔◌, ◌<◌, Outcome, ok, fault, out_of_bounds, length, ltb, if◌then◌else◌, arith,
}
use xrnetwork.Base.Memory.{Memory, zeros, copy, bytes_of}
use xrnetwork.Protocol.Structs.{
  kb, ParticipantNew, ParticipantJoin, ParticipantInfoRequest, ParticipantUpdateAck, HandshakeHello,
  HandshakeHelloAck, HandshakeCredentials, HandshakeCredentialsAck, ParticipantJoinAck,
  ParticipantInfoRequestAck,
}

-- `ST_PARTICIPANT_NEW()` clears 1024 of the 20480 bytes of its buffer.
unfoldable pub new_participant_new : ℕ → Memory → ParticipantNew
new_participant_new id garbage = record {
  participant_id = id;
  descriptor_buffersize = 0;
  descriptor_buffer = copy garbage 0 zeros 1024;
}

unfoldable pub new_participant_join : ParticipantJoin
new_participant_join = record {
  participant_id = 0;
  max_data_rate = 10;
  allow_asynchronous_messages = 0xFFFF;
  message_buffersize = 0;
  message_buffer = zeros;
}

unfoldable pub new_participant_join_ack : ℕ → ParticipantJoinAck
new_participant_join_ack id = record {
  participant_id = id;
  json_buffersize = 0;
  json_buffer = zeros;
}

unfoldable pub build_participant_info_request : ℕ → ParticipantInfoRequest
build_participant_info_request id = record { participant_id = id }

unfoldable pub new_info_request_ack : ParticipantInfoRequestAck
new_info_request_ack = record { participant_id = 0; namebuffer_size = 0; namebuffer = zeros }

unfoldable pub new_update_ack : ℕ → ParticipantUpdateAck
new_update_ack id = record {
  participant_id = id;
  origin_timestamp = 0;
  buffersize = 0;
  buffer = zeros;
}

-- The name is copied whole, whatever its length, into an array of 1024 bytes.
unfoldable pub build_handshake_hello : ℕ → ℕ → ℕ → List ℕ → Outcome HandshakeHello
build_handshake_hello service_id participant_id server_timestamp servername =
    if ltb kb (length servername)
    then fault out_of_bounds
    else ok (record {
      service_id = service_id;
      participant_id = participant_id;
      server_timestamp = server_timestamp;
      servername_buffersize = length servername;
      servername_buffer = copy zeros 0 (bytes_of servername) (length servername);
    })

unfoldable pub new_hello_ack : HandshakeHelloAck
new_hello_ack = record {
  participant_id = 0;
  client_timestamp = 0;
  configuration_buffersize = 0;
  configuration_buffer = zeros;
}

-- `ST_HANDSHAKE_CREDENTIALS()`, and `build_handshake_credentials`, which returns it.
unfoldable pub build_handshake_credentials : HandshakeCredentials
build_handshake_credentials = record {
  server_certificate_buffersize = 0;
  server_certificate_buffer = zeros;
}

unfoldable pub new_credentials_ack : ℕ → HandshakeCredentialsAck
new_credentials_ack id = record {
  participant_id = id;
  login_buffersize = 0;
  login_buffer = zeros;
  password_buffersize = 0;
  password_buffer = zeros;
  participant_certificate_buffersize = 0;
  participant_certificate_buffer = zeros;
}

-- The greeting is refused by no test: building it overruns the name's array exactly for a name
-- longer than 1024 bytes.
pub build_handshake_hello_fault_iff :
    (service_id participant_id now : ℕ) (name : List ℕ)
    → (build_handshake_hello service_id participant_id now name ≡ fault out_of_bounds)
      ↔ (kb < length name)
unfolding build_handshake_hello
build_handshake_hello_fault_iff service_id participant_id now name =
    (λ h. ground arith, λ h. ground arith)
