-- ===== src/XrMessage.antt =====
-- XRMessage.hpp: the message that goes over the wire, 65536 bytes with a packed header in front.
-- A message is the block of its vector's bytes. The words of the header lie in memory lowest byte
-- first, as on the machines that the Makefile builds for.
pub mod RoundTrip
pub mod Delimiter
pub mod Swapping
use xrnetwork.Base.{
  ℕ, ◌+◌, Option, none, some, Outcome, ok, fault, out_of_bounds, ltb, leb, ◌||◌, if◌then◌else◌,
  ◌>>=◌,
}
use xrnetwork.Base.Memory.{Memory, Block, zeros, copy, le_byte, get_le}

pub record Header : Type 0 where
  pub head : ℕ  -- uint16_t
  pub buffersize : ℕ  -- uint32_t
  pub payload_is_big_endian : ℕ  -- uint16_t

-- `sizeof(xr_message_header)`, a packed struct.
abbrev pub header_size : ℕ
header_size = 8

abbrev pub message_size : ℕ
message_size = 65536

-- Both constructors mark the payload as big endian.
unfoldable pub new_header : ℕ → ℕ → Header
new_header head buffersize = record {
  head = head;
  buffersize = buffersize;
  payload_is_big_endian = 0xFFFF;
}

unfoldable pub header_bytes : Header → Memory
header_bytes h =
    copy (copy (copy zeros 0 (le_byte h.head) 2) 2 (le_byte h.buffersize) 4) 6
      (le_byte h.payload_is_big_endian) 2

unfoldable pub read_header : Memory → Header
read_header m = record {
  head = get_le 2 m 0;
  buffersize = get_le 4 m 2;
  payload_is_big_endian = get_le 2 m 6;
}

-- `XRMessage(buffer, buffersize, check_endianess)`: the bytes of a message that was received.
unfoldable pub from_raw : Block → ℕ → Outcome Block
from_raw buffer buffersize =
    if ltb buffer.size buffersize || ltb message_size buffersize
    then fault out_of_bounds
    else ok (record { size = message_size; at = copy zeros 0 buffer.at buffersize })

-- The bytes of a message: the header, then the payload, then zeros.
unfoldable pub message_bytes : ℕ → Memory → ℕ → Memory
message_bytes head buffer buffersize =
    copy (copy zeros 0 (header_bytes (new_header head buffersize)) header_size) header_size buffer
      buffersize

-- `XRMessage(head, buffer, buffersize)`.
unfoldable pub from_head : ℕ → Block → ℕ → Outcome Block
from_head head buffer buffersize =
    if ltb buffer.size buffersize || ltb message_size (header_size + buffersize)
    then fault out_of_bounds
    else ok (record { size = message_size; at = message_bytes head buffer.at buffersize })

-- `XRMessage(head, msg)` builds a temporary by the constructor above and drops it; the new
-- message itself stays as the default constructor left it.
unfoldable pub from_vector : ℕ → Block → Outcome Block
unfolding from_head
from_vector head msg =
    from_head head msg msg.size >>= λ temporary. ok (record { size = 0; at = zeros })

unfoldable pub head : Block → ℕ
head m = if leb header_size m.size then get_le 2 m.at 0 else 0

unfoldable pub payload_size : Block → ℕ
unfolding read_header
payload_size m = if leb header_size m.size then (read_header m.at).buffersize else 0

-- The offset of the payload, and `none` for the null pointer.
unfoldable pub payload : Block → Option ℕ
payload m = if leb header_size m.size then some header_size else none

unfoldable pub get_header : Block → Option Header
unfolding read_header
get_header m = if leb header_size m.size then some (read_header m.at) else none

unfoldable pub set_header : Block → Header → Outcome Block
set_header m h =
    if ltb m.size header_size
    then fault out_of_bounds
    else ok (record m { at = copy m.at 0 (header_bytes h) header_size })
