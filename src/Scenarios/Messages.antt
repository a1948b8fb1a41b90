-- ===== src/Scenarios/Messages.antt =====
-- Messages, headers, numbers and the client's writes.
use xrnetwork.Base.{ℕ, ◌+◌, ◌≤◌, ◌<◌, ◌≡◌, refl, false, some, [], ◌∷◌, ◌++◌, codes, ok, arith}
use xrnetwork.Base.Memory.{Block, bytes_of}
use xrnetwork.Bytes.{little, to_bytes, swap_endian, swap_byte_vector}
use xrnetwork.Bytes.Swap.{swap_endian_bytes}
use xrnetwork.NrMessage.{NrMessage, decode_header}
use xrnetwork.NrMessage.Bounds.{decode_header_bounds}
use xrnetwork.XrMessage.{
  Header, header_size, message_size, new_header, from_head, head, payload_size, payload, get_header,
  set_header,
}
use xrnetwork.XrMessage.RoundTrip.{FitsHeader, from_head_reads, get_header-set_header}
use xrnetwork.Client.Writes
use xrnetwork.Client.Writes.{Trace, IsSerial, given, ended, write_run-IsSerial, write_run-drains}
use xrnetwork.Scenarios.{blank, console}

abbrev hi : Block
hi = record { size = 2; at = bytes_of (codes "hi") }

from_head_reads_example :
    (m : Block) × (from_head 7 hi 2 ≡ ok m)
    × (m.size ≡ message_size)
    × (head m ≡ 7)
    × (payload_size m ≡ 2)
    × (get_header m ≡ some (new_header 7 2))
    × (payload m ≡ some header_size)
    × ((k : ℕ) → k < 2 → m.at (8 + k) ≡ hi.at k)
    × ((k : ℕ) → 10 ≤ k → m.at k ≡ 0)
from_head_reads_example = from_head_reads 7 hi 2 (omega arith) (omega arith) (omega arith)

abbrev short_header : Header
short_header = record { head = 7; buffersize = 2; payload_is_big_endian = 0xFFFF }

short_header_fits : FitsHeader short_header
short_header_fits = record {
  head_fits = omega arith;
  buffersize_fits = omega arith;
  flag_fits = omega arith;
}

get_header-set_header_example :
    (m' : Block) × (set_header blank short_header ≡ ok m')
    × (get_header m' ≡ some short_header)
    × (m'.size ≡ 65536)
    × ((k : ℕ) → m'.at (8 + k) ≡ blank.at (8 + k))
get_header-set_header_example =
    get_header-set_header blank short_header short_header_fits (omega arith)

abbrev written : NrMessage
written = record { data_ = bytes_of (codes "42"); body_length_ = 0; participant_id = 5 }

decode_header_bounds_example :
    ((decode_header written).0.body_length_ ≤ 99)
    × ((decode_header written).1 ≡ false → (decode_header written).0.body_length_ ≡ 0)
    × ((decode_header written).0.data_ ≡ written.data_)
    × ((decode_header written).0.participant_id ≡ 5)
decode_header_bounds_example = decode_header_bounds written

swap_endian_bytes_example :
    (swap_endian little 2 0x1234 < 65536)
    × (to_bytes 2 (swap_endian little 2 0x1234) ≡ swap_byte_vector (to_bytes 2 0x1234))
swap_endian_bytes_example = swap_endian_bytes little 2 0x1234

abbrev at_rest : Trace
at_rest = record { client = console; sent = [] }

-- Two messages given, and the first write ended.
abbrev after_two : Trace
after_two = Writes.write_run (given hi ∷ given blank ∷ ended ∷ []) at_rest

write_run-IsSerial_example :
    IsSerial after_two.client × (after_two.sent ++ after_two.client.queue ≡ hi ∷ blank ∷ [])
write_run-IsSerial_example = write_run-IsSerial (given hi ∷ given blank ∷ ended ∷ []) at_rest refl

write_run-drains_example :
    ((Writes.write_run (Writes.endings after_two.client.queue) after_two).client.queue ≡ [])
    × ((Writes.write_run (Writes.endings after_two.client.queue) after_two).client.in_flight ≡ [])
    × ((Writes.write_run (Writes.endings after_two.client.queue) after_two).sent ≡ hi ∷ blank ∷ [])
write_run-drains_example = write_run-drains (given hi ∷ given blank ∷ ended ∷ []) at_rest refl
