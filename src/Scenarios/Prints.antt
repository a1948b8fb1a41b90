-- ===== src/Scenarios/Prints.antt =====
-- What is printed of a greeting, of numbers and of bytes.
use xrnetwork.Base.{
  ℕ, zero, ◌+◌, ◌≤◌, suc, get_or, ◌≡◌, ◌≢◌, refl, List, [], ◌∷◌, codes, ok, All, arith,
}
use xrnetwork.Base.Memory.{Block, zeros, copy, bytes_of}
use xrnetwork.Protocol.Structs.{HandshakeHello}
use xrnetwork.Protocol.Builders.{build_handshake_hello}
use xrnetwork.Printing.{Stream, print_buffer}
use xrnetwork.Printing.Structs.{show_join, join_items}
use xrnetwork.Printing.Terminated.{c_text-reads}
use xrnetwork.Printing.Dumps.{read_buffer, read_buffer-print_buffer}

abbrev name : List ℕ
name = codes "demo"

abbrev hello : HandshakeHello
hello = record {
  service_id = 77;
  participant_id = 20;
  server_timestamp = 1000;
  servername_buffersize = 4;
  servername_buffer = copy zeros 0 (bytes_of name) 4;
}

hello_built : build_handshake_hello 77 20 1000 name ≡ ok hello
unfolding build_handshake_hello
hello_built = refl

name_solid : All (λ (c : ℕ). c ≢ 0) name
name_solid = (
  (λ e. omega (arith, e)),
  ((λ e. omega (arith, e)), ((λ e. omega (arith, e)), ((λ e. omega (arith, e)), tt))),
)

abbrev stream : Stream
stream = record { written = codes "0x"; base = 16; fill = b' '; width = 0 }

read_buffer-print_buffer_example : read_buffer (print_buffer (10 ∷ 255 ∷ [])) ≡ 10 ∷ 255 ∷ []
read_buffer-print_buffer_example =
    read_buffer-print_buffer (10 ∷ 255 ∷ []) (omega arith, (omega arith, tt))

-- An invitation with a short text, byte by byte.
abbrev joined : Block
joined = record {
  size = 10256;
  at =
      bytes_of
        (20 ∷ 0 ∷ 0 ∷ 0 ∷ 0 ∷ 0 ∷ 0 ∷ 0 ∷ 10 ∷ 0 ∷ 255 ∷ 255 ∷ 2 ∷ 0 ∷ 0 ∷ 0 ∷ 104 ∷ 105 ∷ []);
}

stands_there : (k : ℕ) → k ≤ 2 → joined.at (16 + k) ≡ get_or (codes "hi") k 0
stands_there zero h = refl
stands_there (suc zero) h = refl
stands_there (suc (suc zero)) h = refl
stands_there (suc (suc (suc k))) h = absurd (omega arith)

joined_shown : show_join joined ≡ ok (join_items joined (codes "hi"))
unfolding show_join
joined_shown =
    rw
      (c_text-reads joined 16 (codes "hi") ((λ e. omega (arith, e)), ((λ e. omega (arith, e)), tt))
        stands_there (omega arith))
      refl
