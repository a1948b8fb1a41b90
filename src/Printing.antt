-- ===== src/Printing.antt =====
-- nr_base.hpp and XRMessage.hpp: what is printed. A stream keeps its text and its format: the base
-- stays until it is changed, the fill too, and the width serves one output. A text that is read up
-- to its NUL leaves its buffer where there is none.
pub mod Digits
pub mod Terminated
pub mod Structs
pub mod Greetings
pub mod Dumps
pub mod Plain
use Digits.{digits}
use xrnetwork.Base.{
  ℕ, zero, suc, ◌+◌, ◌-◌, Bool, true, false, Option, none, some, List, [], ◌∷◌, ◌++◌, length, codes,
  ◌==◌, Outcome, ok, fault, out_of_bounds, if◌then◌else◌,
}
use xrnetwork.Base.Memory.{Memory, Block, slice}
use xrnetwork.XrMessage.{Header}

-- What is put into a stream: formatted output, and manipulators.
pub data Item : Type 0 where
  text : List ℕ → Item
  number char setw setfill : ℕ → Item
  hex dec endl : Item

pub record Stream : Type 0 where
  pub written : List ℕ
  pub base : ℕ
  pub fill : ℕ
  pub width : ℕ

abbrev pub padding : ℕ → ℕ → List ℕ
padding zero c = []
padding (suc n) c = c ∷ padding n c

-- Formatted output is filled up on the left, and uses the width up.
unfoldable pub put_padded : List ℕ → Stream → Stream
put_padded t s = record s {
  written = s.written ++ (padding (s.width - length t) s.fill ++ t);
  width = 0;
}

-- A `uint64_t` has at most twenty digits.
unfoldable pub put_item : Item → Stream → Stream
unfolding put_padded
put_item (text t) s = put_padded t s
put_item (number n) s = put_padded (digits s.base 20 n) s
put_item (char c) s = put_padded (c ∷ []) s
put_item (setw n) s = record s { width = n }
put_item (setfill c) s = record s { fill = c }
put_item hex s = record s { base = 16 }
put_item dec s = record s { base = 10 }
put_item endl s = record s { written = s.written ++ 10 ∷ [] }

unfoldable pub print : List Item → Stream → Stream
unfolding put_item
print [] s = s
print (i ∷ is) s = print is (put_item i s)

-- The text up to its NUL, which is looked for among `n` bytes.
unfoldable pub c_string : Memory → ℕ → ℕ → Option (List ℕ)
c_string m off zero = none
c_string m off (suc n) =
    let rest : Option (List ℕ) = elim (c_string m (off + 1) n) [
      | none ↦ none
      | some t ↦ some (m off ∷ t)
    ] in
    if m off == 0 then some [] else rest

-- The text at `off` of a buffer.
unfoldable pub c_text : Block → ℕ → Outcome (List ℕ)
c_text b off = elim (c_string b.at off (b.size - off)) [
  | none ↦ fault out_of_bounds
  | some t ↦ ok t
]

-- `operator<<` for a byte.
unfoldable pub show_byte : ℕ → List Item
show_byte b = hex ∷ setw 2 ∷ number b ∷ []

-- `operator<<` for a vector of bytes: each is put as a character.
unfoldable pub show_bytes : List ℕ → List Item
show_bytes [] = []
show_bytes (b ∷ bs) = setfill b'0' ∷ setw 2 ∷ hex ∷ char b ∷ show_bytes bs

-- `print_buffer`: `printf("%02x ")` of each byte.
unfoldable pub print_buffer : List ℕ → List ℕ
print_buffer [] = []
print_buffer (b ∷ bs) =
    padding (2 - length (digits 16 20 b)) b'0' ++ digits 16 20 b ++ b' ' ∷ print_buffer bs

-- `print_buffer(buffer, 60)`.
abbrev pub first_bytes : Block → Item
first_bytes buffer = text (print_buffer (slice buffer.at 0 60))

-- `operator<<` for a header.
unfoldable pub show_header : Header → List Item
show_header h =
    text (codes "head                  : ")
    ∷ hex
    ∷ setw 2
    ∷ number h.head
    ∷ endl
    ∷ text (codes "buffersize            : ")
    ∷ hex
    ∷ setw 4
    ∷ number h.buffersize
    ∷ endl
    ∷ text (codes "payload_is_big_endian : ")
    ∷ hex
    ∷ setw 2
    ∷ number h.payload_is_big_endian
    ∷ []

-- `operator<<` for a pointer to one, which goes to the console whatever stream it is put into.
unfoldable pub show_header_line : Header → List Item
show_header_line h =
    text (codes "head | buffersieze | is_big_endian \n")
    ∷ hex
    ∷ number h.head
    ∷ text (codes " | ")
    ∷ hex
    ∷ number h.buffersize
    ∷ text (codes " | ")
    ∷ hex
    ∷ number h.payload_is_big_endian
    ∷ []
