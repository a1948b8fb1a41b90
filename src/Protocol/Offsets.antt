-- ===== src/Protocol/Offsets.antt =====
-- Each struct is read back from a message that carries it.
use xrnetwork.Base.{ℕ, ◌+◌, ◌^◌, ◌≡◌, ◌≤◌, ◌<◌, refl, ap, ◌∙◌, arith, List, [], ◌∷◌, ◌++◌}
use xrnetwork.Base.Memory.{Memory, get_le}
use xrnetwork.Base.Layout.{Member, word, array, layout, size_of, get_le-layout, array-layout}
use xrnetwork.XrMessage.{header_size, message_bytes}
use xrnetwork.XrMessage.RoundTrip.{get_le-message_bytes, payload-message_bytes}
use xrnetwork.Protocol.Structs.{
  kb, kb20, HandshakeHello, hello_object, ParticipantJoinAck, join_ack_object, HandshakeHelloAck,
  hello_ack_object, HandshakeCredentialsAck, credentials_ack_object, ParticipantJoin, join_object,
}
use xrnetwork.Protocol.Readers.{
  read_hello, read_join_ack, read_hello_ack, read_credentials_ack, read_join,
}

-- A message whose payload is the first `n` bytes of a struct: a word of the struct that ends within
-- them is read from the message behind the header.
module _ (hd : ℕ) (n : ℕ) where
  pub sent_word :
      (front : List Member) (w v : ℕ) (fs : List Member) (off : ℕ)
      → off ≡ size_of front
      → off + w ≤ n
      → v < 256 ^ w
      → get_le w (message_bytes hd (layout (front ++ word w v ∷ fs)) n) (header_size + off) ≡ v
  sent_word front w v fs off e room h =
      get_le-message_bytes hd (layout (front ++ word w v ∷ fs)) n w off room
      ∙ get_le-layout front w v fs off e h

  pub sent_byte :
      (front : List Member) (size : ℕ) (m : Memory) (fs : List Member) (off k : ℕ)
      → off ≡ size_of front
      → k < size
      → off + k < n
      → message_bytes hd (layout (front ++ array size m ∷ fs)) n (header_size + off + k) ≡ m k
  sent_byte front size m fs off k e inside room =
      ap (message_bytes hd (layout (front ++ array size m ∷ fs)) n) (omega arith)
      ∙ payload-message_bytes hd (layout (front ++ array size m ∷ fs)) n (off + k) room
      ∙ array-layout front size m fs off k e inside

-- The greeting, member by member, from a message that carries all of it.
pub read_hello-sent :
    (hd : ℕ) (s : HandshakeHello)
    → s.service_id < 2 ^ 64
    → s.participant_id < 2 ^ 64
    → s.server_timestamp < 2 ^ 64
    → s.servername_buffersize < 2 ^ 32
    → let r = read_hello (message_bytes hd (hello_object s).at (hello_object s).size) header_size in
      (r.service_id ≡ s.service_id)
      × (r.participant_id ≡ s.participant_id)
      × (r.server_timestamp ≡ s.server_timestamp)
      × (r.servername_buffersize ≡ s.servername_buffersize)
      × ((k : ℕ) → k < kb → r.servername_buffer k ≡ s.servername_buffer k)
unfolding read_hello
read_hello-sent hd s h1 h2 h3 h4 = (
  sent_word hd 1052 [] 8 s.service_id _ 0 refl (omega arith) h1,
  sent_word hd 1052 (word 8 s.service_id ∷ []) 8 s.participant_id _ 8 refl (omega arith) h2,
  sent_word hd 1052 (word 8 s.service_id ∷ word 8 s.participant_id ∷ []) 8 s.server_timestamp _ 16
      refl (omega arith) h3,
  sent_word hd 1052 (word 8 s.service_id ∷ word 8 s.participant_id ∷ word 8 s.server_timestamp ∷ [])
      4 s.servername_buffersize _ 24 refl (omega arith) h4,
  λ k hk.
      sent_byte hd 1052
        (word 8 s.service_id
          ∷ word 8 s.participant_id
          ∷ word 8 s.server_timestamp
          ∷ word 4 s.servername_buffersize
          ∷ [])
        kb s.servername_buffer [] 28 k refl hk (omega arith),
)

-- The reply to a join, member by member, from a message that carries all of it.
pub read_join_ack-sent :
    (hd : ℕ) (s : ParticipantJoinAck)
    → s.participant_id < 2 ^ 64
    → s.json_buffersize < 2 ^ 32
    → let o = join_ack_object s in
      let r = read_join_ack (message_bytes hd o.at o.size) header_size in
      (r.participant_id ≡ s.participant_id)
      × (r.json_buffersize ≡ s.json_buffersize)
      × ((k : ℕ) → k < kb20 → r.json_buffer k ≡ s.json_buffer k)
unfolding read_join_ack
read_join_ack-sent hd s h1 h2 = (
  sent_word hd 20492 [] 8 s.participant_id _ 0 refl (omega arith) h1,
  sent_word hd 20492 (word 8 s.participant_id ∷ []) 4 s.json_buffersize _ 8 refl (omega arith) h2,
  λ k hk.
      sent_byte hd 20492 (word 8 s.participant_id ∷ word 4 s.json_buffersize ∷ []) kb20
        s.json_buffer [] 12 k refl hk (omega arith),
)

-- The client's reply to the greeting, likewise.
pub read_hello_ack-sent :
    (hd : ℕ) (s : HandshakeHelloAck)
    → s.participant_id < 2 ^ 64
    → s.client_timestamp < 2 ^ 64
    → s.configuration_buffersize < 2 ^ 32
    → let o = hello_ack_object s in
      let r = read_hello_ack (message_bytes hd o.at o.size) header_size in
      (r.participant_id ≡ s.participant_id)
      × (r.client_timestamp ≡ s.client_timestamp)
      × (r.configuration_buffersize ≡ s.configuration_buffersize)
      × ((k : ℕ) → k < kb20 → r.configuration_buffer k ≡ s.configuration_buffer k)
unfolding read_hello_ack
read_hello_ack-sent hd s h1 h2 h3 = (
  sent_word hd 20500 [] 8 s.participant_id _ 0 refl (omega arith) h1,
  sent_word hd 20500 (word 8 s.participant_id ∷ []) 8 s.client_timestamp _ 8 refl (omega arith) h2,
  sent_word hd 20500 (word 8 s.participant_id ∷ word 8 s.client_timestamp ∷ []) 4
      s.configuration_buffersize _ 16 refl (omega arith) h3,
  λ k hk.
      sent_byte hd 20500
        (word 8 s.participant_id
          ∷ word 8 s.client_timestamp
          ∷ word 4 s.configuration_buffersize
          ∷ [])
        kb20 s.configuration_buffer [] 20 k refl hk (omega arith),
)

-- The invitation to join: the identifier that the client takes from it.
pub read_join-sent :
    (hd : ℕ) (s : ParticipantJoin)
    → s.participant_id < 2 ^ 64
    → let o = join_object s in
      (read_join (message_bytes hd o.at o.size) header_size).participant_id ≡ s.participant_id
unfolding read_join
read_join-sent hd s h = sent_word hd 10256 [] 8 s.participant_id _ 0 refl (omega arith) h

-- The client's credentials: login and password survive in any message that carries at least the
-- struct's first 2060 bytes, also one that cuts the certificate off.
pub read_credentials_ack-sent :
    (hd n : ℕ) (s : HandshakeCredentialsAck)
    → 2060 ≤ n
    → let r = read_credentials_ack (message_bytes hd (credentials_ack_object s).at n) header_size in
      ((k : ℕ) → k < kb → r.login_buffer k ≡ s.login_buffer k)
      × ((k : ℕ) → k < kb → r.password_buffer k ≡ s.password_buffer k)
unfolding read_credentials_ack
read_credentials_ack-sent hd n s room = (
  λ k hk.
      sent_byte hd n (word 8 s.participant_id ∷ word 2 s.login_buffersize ∷ []) kb s.login_buffer
        (word 2 s.password_buffersize
          ∷ array kb s.password_buffer
          ∷ word 2 s.participant_certificate_buffersize
          ∷ array kb20 s.participant_certificate_buffer
          ∷ [])
        10 k refl hk (omega arith),
  λ k hk.
      sent_byte hd n
        (word 8 s.participant_id
          ∷ word 2 s.login_buffersize
          ∷ array kb s.login_buffer
          ∷ word 2 s.password_buffersize
          ∷ [])
        kb s.password_buffer
        (word 2 s.participant_certificate_buffersize
          ∷ array kb20 s.participant_certificate_buffer
          ∷ [])
        1036 k refl hk (omega arith),
)
