-- ===== src/Protocol/Structs.antt =====
-- protocol.hpp: the structs that travel behind a header, each with its members in memory. The
-- records hold a member of the source each; `_object` is the block `(std::byte*)&x, sizeof(x)`.
use xrnetwork.Base.{ℕ, [], ◌∷◌}
use xrnetwork.Base.Memory.{Memory, Block}
use xrnetwork.Base.Layout.{word, array, object}

-- The sizes of the buffers: 1 kB for names, 10 kB and 20 kB for the rest.
abbrev pub kb : ℕ
kb = 1024

abbrev pub kb10 : ℕ
kb10 = 10240

abbrev pub kb20 : ℕ
kb20 = 20480

pub record ParticipantLeave : Type 0 where
  pub participant_id : ℕ

abbrev pub leave_object : ParticipantLeave → Block
leave_object s = object (word 8 s.participant_id ∷ [])

pub record ParticipantLeaveAck : Type 0 where
  pub participant_id : ℕ

abbrev pub leave_ack_object : ParticipantLeaveAck → Block
leave_ack_object s = object (word 8 s.participant_id ∷ [])

pub record ParticipantNewAck : Type 0 where
  pub participant_id : ℕ

abbrev pub new_ack_object : ParticipantNewAck → Block
new_ack_object s = object (word 8 s.participant_id ∷ [])

pub record ParticipantNew : Type 0 where
  pub participant_id : ℕ
  pub descriptor_buffersize : ℕ
  pub descriptor_buffer : Memory

abbrev pub new_object : ParticipantNew → Block
new_object s =
    object (
      word 8 s.participant_id
      ∷ word 4 s.descriptor_buffersize
      ∷ array kb20 s.descriptor_buffer
      ∷ [])

pub record ParticipantJoin : Type 0 where
  pub participant_id : ℕ
  pub max_data_rate : ℕ
  pub allow_asynchronous_messages : ℕ
  pub message_buffersize : ℕ
  pub message_buffer : Memory

abbrev pub join_object : ParticipantJoin → Block
join_object s = object (
    word 8 s.participant_id
    ∷ word 2 s.max_data_rate
    ∷ word 2 s.allow_asynchronous_messages
    ∷ word 4 s.message_buffersize
    ∷ array kb10 s.message_buffer
    ∷ [])

pub record ParticipantJoinAck : Type 0 where
  pub participant_id : ℕ
  pub json_buffersize : ℕ
  pub json_buffer : Memory

abbrev pub join_ack_object : ParticipantJoinAck → Block
join_ack_object s =
    object (word 8 s.participant_id ∷ word 4 s.json_buffersize ∷ array kb20 s.json_buffer ∷ [])

pub record ParticipantInfoRequest : Type 0 where
  pub participant_id : ℕ

abbrev pub info_request_object : ParticipantInfoRequest → Block
info_request_object s = object (word 8 s.participant_id ∷ [])

pub record ParticipantInfoRequestAck : Type 0 where
  pub participant_id : ℕ
  pub namebuffer_size : ℕ
  pub namebuffer : Memory

abbrev pub info_request_ack_object : ParticipantInfoRequestAck → Block
info_request_ack_object s =
    object (word 8 s.participant_id ∷ word 4 s.namebuffer_size ∷ array kb s.namebuffer ∷ [])

-- The one struct that is not packed: its size is rounded up to a multiple of 8 by four bytes.
pub record ParticipantUpdate : Type 0 where
  pub origin_timestamp : ℕ
  pub reception_timestamp : ℕ
  pub deliver_timestamp : ℕ
  pub buffersize : ℕ
  pub buffer : Memory
  pub padding : Memory

abbrev pub update_object : ParticipantUpdate → Block
update_object s = object (
    word 8 s.origin_timestamp
    ∷ word 8 s.reception_timestamp
    ∷ word 8 s.deliver_timestamp
    ∷ word 4 s.buffersize
    ∷ array kb20 s.buffer
    ∷ array 4 s.padding
    ∷ [])

pub record ParticipantUpdateAck : Type 0 where
  pub participant_id : ℕ
  pub origin_timestamp : ℕ
  pub buffersize : ℕ
  pub buffer : Memory

abbrev pub update_ack_object : ParticipantUpdateAck → Block
update_ack_object s = object (
    word 8 s.participant_id
    ∷ word 8 s.origin_timestamp
    ∷ word 4 s.buffersize
    ∷ array kb20 s.buffer
    ∷ [])

pub record HandshakeHello : Type 0 where
  pub service_id : ℕ
  pub participant_id : ℕ
  pub server_timestamp : ℕ
  pub servername_buffersize : ℕ
  pub servername_buffer : Memory

abbrev pub hello_object : HandshakeHello → Block
hello_object s = object (
    word 8 s.service_id
    ∷ word 8 s.participant_id
    ∷ word 8 s.server_timestamp
    ∷ word 4 s.servername_buffersize
    ∷ array kb s.servername_buffer
    ∷ [])

pub record HandshakeHelloAck : Type 0 where
  pub participant_id : ℕ
  pub client_timestamp : ℕ
  pub configuration_buffersize : ℕ
  pub configuration_buffer : Memory

abbrev pub hello_ack_object : HandshakeHelloAck → Block
hello_ack_object s = object (
    word 8 s.participant_id
    ∷ word 8 s.client_timestamp
    ∷ word 4 s.configuration_buffersize
    ∷ array kb20 s.configuration_buffer
    ∷ [])

pub record HandshakeCredentials : Type 0 where
  pub server_certificate_buffersize : ℕ
  pub server_certificate_buffer : Memory

abbrev pub credentials_object : HandshakeCredentials → Block
credentials_object s =
    object (word 4 s.server_certificate_buffersize ∷ array kb20 s.server_certificate_buffer ∷ [])

pub record HandshakeCredentialsAck : Type 0 where
  pub participant_id : ℕ
  pub login_buffersize : ℕ
  pub login_buffer : Memory
  pub password_buffersize : ℕ
  pub password_buffer : Memory
  pub participant_certificate_buffersize : ℕ
  pub participant_certificate_buffer : Memory

abbrev pub credentials_ack_object : HandshakeCredentialsAck → Block
credentials_ack_object s = object (
    word 8 s.participant_id
    ∷ word 2 s.login_buffersize
    ∷ array kb s.login_buffer
    ∷ word 2 s.password_buffersize
    ∷ array kb s.password_buffer
    ∷ word 2 s.participant_certificate_buffersize
    ∷ array kb20 s.participant_certificate_buffer
    ∷ [])
