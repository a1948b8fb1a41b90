-- ===== src/Printing/Structs.antt =====
-- protocol.hpp: the stream operators of the structs. The first take their struct by value, a block of
-- its own, where a text has to end; the last take a reference and read on in the block that holds
-- the struct.
use xrnetwork.Base.{ℕ, ◌+◌, List, [], ◌∷◌, codes, Outcome, ok, ◌>>=◌}
use xrnetwork.Base.Memory.{Block, get_le}
use xrnetwork.Protocol.Structs.{HandshakeHello}
use xrnetwork.Protocol.Readers.{read_hello}
use xrnetwork.Printing.{Item, text, number, hex, dec, endl, c_text}

abbrev word_at : Block → ℕ → ℕ → Item
word_at b off w = number (get_le w b.at off)

unfoldable pub show_leave : Block → List Item
show_leave b = text (codes "participant_id: ") ∷ hex ∷ word_at b 0 8 ∷ []

unfoldable pub show_leave_ack : Block → List Item
show_leave_ack b = text (codes "participant_id: ") ∷ word_at b 0 8 ∷ []

unfoldable pub show_new : Block → Outcome (List Item)
unfolding c_text
show_new b = c_text b 12 >>= λ t. ok (
    text (codes "participant_id: ")
    ∷ hex
    ∷ word_at b 0 8
    ∷ text (codes "descriptor_buffersize: ")
    ∷ hex
    ∷ word_at b 8 4
    ∷ text (codes "descriptor_buffer: ")
    ∷ text t
    ∷ [])

unfoldable pub show_new_ack : Block → List Item
show_new_ack b = text (codes "new_participant_id: ") ∷ hex ∷ word_at b 0 8 ∷ []

-- The base is still 16 where the rate and the size of the text are put.
abbrev pub join_items : Block → List ℕ → List Item
join_items b t =
    text (codes "participant_id: ")
    ∷ hex
    ∷ word_at b 0 8
    ∷ endl
    ∷ text (codes "max_data_rate: ")
    ∷ word_at b 8 2
    ∷ text (codes "[messages/s]\n")
    ∷ text (codes "allow_asynchronous_messages: ")
    ∷ hex
    ∷ word_at b 10 2
    ∷ endl
    ∷ text (codes "message_buffersize: ")
    ∷ word_at b 12 4
    ∷ text (codes " bytes")
    ∷ endl
    ∷ text (codes "message_buffer: ")
    ∷ text t
    ∷ []

unfoldable pub show_join : Block → Outcome (List Item)
unfolding c_text
show_join b = c_text b 16 >>= λ t. ok (join_items b t)

unfoldable pub show_join_ack : Block → Outcome (List Item)
unfolding c_text
show_join_ack b = c_text b 12 >>= λ t. ok (
    text (codes "participant_id: ")
    ∷ hex
    ∷ word_at b 0 8
    ∷ text (codes "\n")
    ∷ text (codes "JSON buffersize: ")
    ∷ word_at b 8 4
    ∷ text (codes "\n")
    ∷ text (codes "JSON: ")
    ∷ text t
    ∷ endl
    ∷ [])

unfoldable pub show_update : Block → Outcome (List Item)
unfolding c_text
show_update b = c_text b 28 >>= λ t. ok (
    text (codes "origin_timestamp: ")
    ∷ hex
    ∷ word_at b 0 8
    ∷ text (codes "\nreception_timestamp: ")
    ∷ hex
    ∷ word_at b 8 8
    ∷ text (codes "\ndeliver_timestamp: ")
    ∷ hex
    ∷ word_at b 16 8
    ∷ text (codes "\nbuffersize: ")
    ∷ hex
    ∷ word_at b 24 4
    ∷ text (codes "\nbuffer: ")
    ∷ text t
    ∷ [])

unfoldable pub show_update_ack : Block → Outcome (List Item)
unfolding c_text
show_update_ack b = c_text b 20 >>= λ t. ok (
    text (codes "participant_id: ")
    ∷ hex
    ∷ word_at b 0 8
    ∷ text (codes "\norigin_timestamp: ")
    ∷ hex
    ∷ word_at b 8 8
    ∷ text (codes "\nbuffersize: 0x")
    ∷ hex
    ∷ word_at b 16 4
    ∷ text (codes "(")
    ∷ dec
    ∷ word_at b 16 4
    ∷ text (codes ") bytes")
    ∷ text (codes "\nbuffer: ")
    ∷ text t
    ∷ [])

-- The rest take a reference: the struct stands at `p` of the block.
abbrev pub hello_items : HandshakeHello → List ℕ → List Item
hello_items st_hello t =
    text (codes "service_id            : ")
    ∷ hex
    ∷ number st_hello.service_id
    ∷ endl
    ∷ text (codes "participant_id        : ")
    ∷ hex
    ∷ number st_hello.participant_id
    ∷ endl
    ∷ text (codes "server_timestamp      : ")
    ∷ hex
    ∷ number st_hello.server_timestamp
    ∷ endl
    ∷ text (codes "servername_buffersize : ")
    ∷ dec
    ∷ number st_hello.servername_buffersize
    ∷ endl
    ∷ text (codes "servername_buffer     : ")
    ∷ hex
    ∷ text t
    ∷ []

unfoldable pub show_hello : Block → ℕ → Outcome (List Item)
unfolding c_text
show_hello b p = c_text b (p + 28) >>= λ t. ok (hello_items (read_hello b.at p) t)

unfoldable pub show_hello_ack : Block → ℕ → Outcome (List Item)
unfolding c_text
show_hello_ack b p = c_text b (p + 20) >>= λ t. ok (
    text (codes "participant_id           : ")
    ∷ hex
    ∷ word_at b p 8
    ∷ endl
    ∷ text (codes "client_timestamp         : ")
    ∷ hex
    ∷ word_at b (p + 8) 8
    ∷ endl
    ∷ text (codes "configuration_buffersize : ")
    ∷ dec
    ∷ word_at b (p + 16) 4
    ∷ endl
    ∷ text (codes "configuration_buffer     : ")
    ∷ text t
    ∷ [])

unfoldable pub show_credentials : Block → ℕ → Outcome (List Item)
unfolding c_text
show_credentials b p = c_text b (p + 4) >>= λ t. ok (
    text (codes "certificate buffersize: ")
    ∷ dec
    ∷ word_at b p 4
    ∷ endl
    ∷ text (codes "certificate:            ")
    ∷ text t
    ∷ endl
    ∷ [])

unfoldable pub show_credentials_ack : Block → ℕ → Outcome (List Item)
unfolding c_text
show_credentials_ack b p = c_text b (p + 10) >>= λ name. c_text b (p + 1036) >>= λ word.
    c_text b (p + 2062) >>= λ cert. ok (
      text (codes "participant_id: ")
      ∷ hex
      ∷ word_at b p 8
      ∷ endl
      ∷ text (codes "login_buffersize: ")
      ∷ dec
      ∷ word_at b (p + 8) 2
      ∷ endl
      ∷ text (codes "login_buffer: ")
      ∷ text name
      ∷ endl
      ∷ text (codes "password_buffersize: ")
      ∷ dec
      ∷ word_at b (p + 1034) 2
      ∷ endl
      ∷ text (codes "password_buffer: ")
      ∷ text word
      ∷ endl
      ∷ text (codes "participant_certificate_buffersize: ")
      ∷ dec
      ∷ word_at b (p + 2060) 2
      ∷ endl
      ∷ text (codes "participant_certificate_buffer: ")
      ∷ text cert
      ∷ [])
