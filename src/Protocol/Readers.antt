-- ===== src/Protocol/Readers.antt =====
-- The structs as a receiver reads them: a pointer into a message, and the members behind it.
use xrnetwork.Base.{ℕ, ◌+◌}
use xrnetwork.Base.Memory.{Memory, get_le}
use xrnetwork.Protocol.Structs.{
  ParticipantJoin, ParticipantJoinAck, HandshakeHello, HandshakeHelloAck, HandshakeCredentialsAck,
}

-- The array that starts at an offset.
abbrev pub from : Memory → ℕ → Memory
from m off k = m (off + k)

unfoldable pub read_join : Memory → ℕ → ParticipantJoin
read_join m p = record {
  participant_id = get_le 8 m p;
  max_data_rate = get_le 2 m (p + 8);
  allow_asynchronous_messages = get_le 2 m (p + 10);
  message_buffersize = get_le 4 m (p + 12);
  message_buffer = from m (p + 16);
}

unfoldable pub read_join_ack : Memory → ℕ → ParticipantJoinAck
read_join_ack m p = record {
  participant_id = get_le 8 m p;
  json_buffersize = get_le 4 m (p + 8);
  json_buffer = from m (p + 12);
}

unfoldable pub read_hello : Memory → ℕ → HandshakeHello
read_hello m p = record {
  service_id = get_le 8 m p;
  participant_id = get_le 8 m (p + 8);
  server_timestamp = get_le 8 m (p + 16);
  servername_buffersize = get_le 4 m (p + 24);
  servername_buffer = from m (p + 28);
}

unfoldable pub read_hello_ack : Memory → ℕ → HandshakeHelloAck
read_hello_ack m p = record {
  participant_id = get_le 8 m p;
  client_timestamp = get_le 8 m (p + 8);
  configuration_buffersize = get_le 4 m (p + 16);
  configuration_buffer = from m (p + 20);
}

unfoldable pub read_credentials_ack : Memory → ℕ → HandshakeCredentialsAck
read_credentials_ack m p = record {
  participant_id = get_le 8 m p;
  login_buffersize = get_le 2 m (p + 8);
  login_buffer = from m (p + 10);
  password_buffersize = get_le 2 m (p + 1034);
  password_buffer = from m (p + 1036);
  participant_certificate_buffersize = get_le 2 m (p + 2060);
  participant_certificate_buffer = from m (p + 2062);
}
