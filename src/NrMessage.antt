-- ===== src/NrMessage.antt =====
-- message.hpp: the legacy text-header message.
pub mod Text
pub mod Bounds
pub mod Reading
use Text.{atoi, strncat, int_text}
use xrnetwork.Base.{
  ℕ, suc, ◌+◌, Bool, true, false, Outcome, ok, fault, out_of_bounds, length, ltb, if◌then◌else◌,
}
use xrnetwork.Base.Memory.{Memory, zeros, copy, bytes_of}

abbrev pub header_length : ℕ
header_length = 2

abbrev pub max_body_length : ℕ
max_body_length = 65534

-- The size of the array `data_`.
abbrev pub capacity : ℕ
capacity = 65536

pub record NrMessage : Type 0 where
  pub data_ : Memory
  pub body_length_ : ℕ
  pub participant_id : ℕ

-- The participant is left uninitialised by the source: it is an argument here.
pub new : ℕ → NrMessage
new participant = record { data_ = zeros; body_length_ = 65536; participant_id = participant }

pub message_length : NrMessage → ℕ
message_length m = header_length + m.body_length_

pub set_body_length : NrMessage → ℕ → NrMessage
set_body_length m new_length =
    if ltb max_body_length new_length
    then record m { body_length_ = max_body_length }
    else record m { body_length_ = new_length }

-- The result of `atoi` becomes a `size_t`.
pub decode_header : NrMessage → NrMessage × Bool
decode_header m =
    let read = atoi (strncat m.data_ 0 header_length) in
    if ltb max_body_length read
    then (record m { body_length_ = 0 }, false)
    else (record m { body_length_ = read }, true)

-- `sprintf` writes the text and its NUL into `header`, an array of `header_length + 1` bytes.
pub encode_header : NrMessage → Outcome NrMessage
encode_header m =
    let header = int_text m.body_length_ in
    if ltb (header_length + 1) (length header + 1)
    then fault out_of_bounds
    else ok (record m { data_ = copy m.data_ 0 (bytes_of header) header_length })

pub set_participant : NrMessage → ℕ → NrMessage
set_participant m participant = record m { participant_id = participant }
