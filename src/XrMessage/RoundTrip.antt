-- ===== src/XrMessage/RoundTrip.antt =====
-- What is put into a message is read from it, also after it went over the wire.
use xrnetwork.Base.{
  ℕ, ◌+◌, ◌^◌, ◌≤◌, ◌<◌, ◌≡◌, ◌⊎◌, inl, inr, refl, ap, ◌∙◌, none, some, ok, fault, out_of_bounds,
  arith, ltb, le→leb, Bool-cases, ◌↔◌,
}
use xrnetwork.Base.Memory.{
  Memory, Block, zeros, copy, get_le, get_le-copy_inside, get_le-copy_outside, get_le-copy-le_byte,
  copy_inside, copy_outside, copy_whole,
}
use xrnetwork.XrMessage.{
  Header, header_size, message_size, new_header, header_bytes, message_bytes, read_header, from_raw,
  from_head, from_vector, head, payload_size, payload, get_header, set_header,
}

pub record FitsHeader (h : Header) : Type 0 where
  pub head_fits : h.head < 2 ^ 16
  pub buffersize_fits : h.buffersize < 2 ^ 32
  pub flag_fits : h.payload_is_big_endian < 2 ^ 16

module _ (h : Header) (fits : FitsHeader h) where
  head-header_bytes : get_le 2 (header_bytes h) 0 ≡ h.head
  unfolding header_bytes
  head-header_bytes =
      get_le-copy_outside 2 _ 6 _ 2 0 (omega arith)
      ∙ get_le-copy_outside 2 _ 2 _ 4 0 (omega arith)
      ∙ get_le-copy-le_byte 2 h.head zeros 0 (omega (arith, fits.head_fits))

  buffersize-header_bytes : get_le 4 (header_bytes h) 2 ≡ h.buffersize
  unfolding header_bytes
  buffersize-header_bytes =
      get_le-copy_outside 4 _ 6 _ 2 2 (omega arith)
      ∙ get_le-copy-le_byte 4 h.buffersize _ 2 (omega (arith, fits.buffersize_fits))

  flag-header_bytes : get_le 2 (header_bytes h) 6 ≡ h.payload_is_big_endian
  unfolding header_bytes
  flag-header_bytes =
      get_le-copy-le_byte 2 h.payload_is_big_endian _ 6 (omega (arith, fits.flag_fits))

  -- Bytes that are copied to the front of a message are the header that is read there.
  read_header-copy : (dst : Memory) → read_header (copy dst 0 (header_bytes h) header_size) ≡ h
  unfolding read_header
  read_header-copy dst = λ i. record {
    head = (get_le-copy_inside 2 dst 0 _ 8 0 (omega arith) ∙ head-header_bytes) i;
    buffersize = (get_le-copy_inside 4 dst 0 _ 8 2 (omega arith) ∙ buffersize-header_bytes) i;
    payload_is_big_endian = (get_le-copy_inside 2 dst 0 _ 8 6 (omega arith) ∙ flag-header_bytes) i;
  }

module _ (hd : ℕ) (src : Memory) (n : ℕ) where
  -- The payload stands behind the header, byte by byte.
  pub payload-message_bytes : (k : ℕ) → k < n → message_bytes hd src n (header_size + k) ≡ src k
  unfolding message_bytes
  payload-message_bytes k h = copy_inside _ header_size src n k h

  -- A word of the payload is the word of the source.
  pub get_le-message_bytes :
      (w k : ℕ) → k + w ≤ n → get_le w (message_bytes hd src n) (header_size + k) ≡ get_le w src k
  unfolding message_bytes
  get_le-message_bytes w k h = get_le-copy_inside w _ header_size src n k h

  pub zeros-message_bytes : (k : ℕ) → header_size + n ≤ k → message_bytes hd src n k ≡ 0
  unfolding message_bytes
  zeros-message_bytes k h =
      copy_outside _ header_size src n k (inr h)
      ∙ copy_outside zeros 0 _ header_size k (inr (omega arith))

  module _ (head_fits : hd < 2 ^ 16) (size_fits : n < 2 ^ 32) where
    pub read_header-message_bytes : read_header (message_bytes hd src n) ≡ new_header hd n
    unfolding message_bytes read_header
    read_header-message_bytes =
        (λ i. record {
          head = get_le-copy_outside 2 front header_size src n 0 (omega arith) i;
          buffersize = get_le-copy_outside 4 front header_size src n 2 (omega arith) i;
          payload_is_big_endian = get_le-copy_outside 2 front header_size src n 6 (omega arith) i;
        })
        ∙ read_header-copy (new_header hd n) fits zeros
      where
        front : Memory
        front = copy zeros 0 (header_bytes (new_header hd n)) header_size

        fits : FitsHeader (new_header hd n)
        fits =
            unfold new_header in
            record { head_fits = head_fits; buffersize_fits = size_fits; flag_fits = omega arith }

    -- The head of a message is the one that it was built with.
    pub head-message_bytes : get_le 2 (message_bytes hd src n) 0 ≡ hd
    unfolding read_header new_header
    head-message_bytes = ap (λ (h : Header). h.head) read_header-message_bytes

-- The message built from a head and a buffer.
abbrev pub built : ℕ → Block → ℕ → Block
built hd src n = record { size = message_size; at = message_bytes hd src.at n }

pub from_head-built :
    (hd : ℕ) (src : Block) (n : ℕ)
    → n ≤ src.size
    → header_size + n ≤ message_size
    → from_head hd src n ≡ ok (built hd src n)
unfolding from_head
from_head-built hd src n hs hn = ground arith

-- A message with a head of 16 bits, built from a buffer that holds `n` bytes of payload and leaves
-- room for the header, is accepted; it has the full size, and its head, payload size, header and
-- payload are those given, the payload byte by byte and zeros behind it.
pub from_head_reads :
    (hd : ℕ) (src : Block) (n : ℕ)
    → hd < 2 ^ 16
    → n ≤ src.size
    → header_size + n ≤ message_size
    → (m : Block) × (from_head hd src n ≡ ok m)
      × (m.size ≡ message_size)
      × (head m ≡ hd)
      × (payload_size m ≡ n)
      × (get_header m ≡ some (new_header hd n))
      × (payload m ≡ some header_size)
      × ((k : ℕ) → k < n → m.at (header_size + k) ≡ src.at k)
      × ((k : ℕ) → header_size + n ≤ k → m.at k ≡ 0)
unfolding from_head head payload_size get_header payload
from_head_reads hd src n hh hs hn = (
  built hd src n,
  ground arith,
  refl,
  head-message_bytes hd src.at n hh (omega arith),
  ap (λ (h : Header). h.buffersize) whole ∙ unfold new_header in refl,
  ap some whole,
  refl,
  payload-message_bytes hd src.at n,
  zeros-message_bytes hd src.at n,
)
  where
    whole : read_header (message_bytes hd src.at n) ≡ new_header hd n
    whole = read_header-message_bytes hd src.at n hh (omega arith)

-- It is refused exactly where the copy would read past the buffer or write past the message.
pub from_head_fault_iff :
    (hd : ℕ) (src : Block) (n : ℕ)
    → (from_head hd src n ≡ fault out_of_bounds)
      ↔ ((src.size < n) ⊎ (message_size < header_size + n))
unfolding from_head
from_head_fault_iff hd src n = (λ h. ground arith, λ h. ground arith)

-- A message that was sent is received as it was: the receiver's constructor gives it back whole.
pub from_raw-from_head :
    (hd : ℕ) (src m : Block) (n : ℕ) → from_head hd src n ≡ ok m → from_raw m message_size ≡ ok m
unfolding from_head from_raw
from_raw-from_head hd src m n h = ground (arith, whole)
  where
    whole : copy zeros 0 (message_bytes hd src.at n) message_size ≡ message_bytes hd src.at n
    whole = elim (Bool-cases (ltb message_size (header_size + n))) [
      | inl e ↦ absurd (ground arith)
      | inr e ↦
          copy_whole (message_bytes hd src.at n) message_size
            λ k hk. zeros-message_bytes hd src.at n k (ground arith)
    ]

-- What a receiver makes of a message that was built: the same message, with the head it was given.
pub from_raw-built :
    (hd : ℕ) (src : Block) (n : ℕ)
    → n ≤ src.size
    → header_size + n ≤ message_size
    → from_raw (built hd src n) message_size ≡ ok (built hd src n)
from_raw-built hd src n hs hn =
    from_raw-from_head hd src (built hd src n) n (from_head-built hd src n hs hn)

pub head-built :
    (hd : ℕ) (src : Block) (n : ℕ)
    → hd < 2 ^ 16
    → n < 2 ^ 32
    → (read_header (built hd src n).at).head ≡ hd
head-built hd src n hh hn =
    ap (λ (h : Header). h.head) (read_header-message_bytes hd src.at n hh hn)
    ∙ unfold new_header in refl

-- After `set_header` on a message that holds a header, the header is the new one, and no byte of
-- the payload nor the size has changed.
pub get_header-set_header :
    (m : Block) (h : Header)
    → FitsHeader h
    → header_size ≤ m.size
    → (m' : Block) × (set_header m h ≡ ok m')
      × (get_header m' ≡ some h)
      × (m'.size ≡ m.size)
      × ((k : ℕ) → m'.at (header_size + k) ≡ m.at (header_size + k))
unfolding set_header get_header
get_header-set_header m h fits room = (
  record m { at = copy m.at 0 (header_bytes h) header_size },
  ground arith,
  rw (le→leb header_size m.size room) (ap some (read_header-copy h fits m.at)),
  refl,
  λ k. copy_outside m.at 0 (header_bytes h) header_size (header_size + k) (inr (omega arith)),
)

-- The constructor from a vector never keeps anything of it: whenever it returns, the message is
-- empty, its head and payload size read 0 and its payload is the null pointer.
pub from_vector_empty :
    (hd : ℕ) (msg m : Block)
    → from_vector hd msg ≡ ok m
    → (m.size ≡ 0) × (head m ≡ 0) × (payload_size m ≡ 0) × (payload m ≡ none)
unfolding from_vector from_head head payload_size payload
from_vector_empty hd msg m h = ground arith
