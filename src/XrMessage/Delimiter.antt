-- ===== src/XrMessage/Delimiter.antt =====
-- XRMessage.hpp: the delimiter and base64 members of a message. The source sets them in no
-- constructor; no other file reads them.
use xrnetwork.Base.{ℕ, ◌-◌, ◌<◌, ◌≤◌, ◌≡◌, ◌≢◌, Bool, arith, ltb, ◌==◌, if◌then◌else◌}
use xrnetwork.Base.Memory.{Block}
use xrnetwork.XrMessage.{header_size}

pub record DelimitedMessage : Type 0 where
  pub message : Block
  pub b_delimiter : Bool
  pub base64 : Bool
  pub delimiter : ℕ

pub set_base64 : DelimitedMessage → Bool → DelimitedMessage
set_base64 m b64 = record m { base64 = b64 }

pub set_delimiter : DelimitedMessage → ℕ → DelimitedMessage
set_delimiter m delimiter = record m { delimiter = delimiter }

-- `at(size() - 1) = m_delimiter`, in bounds by the test.
pub use_delimiter : DelimitedMessage → Bool → DelimitedMessage
use_delimiter m del =
    let last = m.message.size - 1 in
    let marked = record (m.message) {
      at = λ i. if i == last then m.delimiter else m.message.at i;
    } in
    if ltb header_size m.message.size
    then record m { b_delimiter = del; message = marked }
    else record m { b_delimiter = del }

-- In a message with a payload the last byte becomes the delimiter, whether its use is switched on
-- or off; every other byte and the size stay, and a message without a payload keeps all its bytes.
pub use_delimiter_bytes :
    (m : DelimitedMessage) (del : Bool)
    → let m' = use_delimiter m del in
      (m'.b_delimiter ≡ del)
      × (m'.message.size ≡ m.message.size)
      × (header_size < m.message.size → m'.message.at (m.message.size - 1) ≡ m.delimiter)
      × ((i : ℕ) → i ≢ m.message.size - 1 → m'.message.at i ≡ m.message.at i)
      × (m.message.size ≤ header_size → m'.message ≡ m.message)
unfolding use_delimiter
use_delimiter_bytes m del =
    (ground arith, ground arith, λ h. ground arith, λ i h. ground arith, λ h. ground arith)
