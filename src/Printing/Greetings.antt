-- ===== src/Printing/Greetings.antt =====
-- The greeting as the server prints it (handshake.hpp:43), and numbers and bytes as they are printed.
use xrnetwork.Base.{
  ℕ, ◌+◌, ◌≤◌, ◌<◌, ◌≡◌, ◌≢◌, refl, sym, ap, ◌∙◌, List, [], ◌∷◌, length, All, get_or, ok, fault,
  out_of_bounds, if◌then◌else◌, ltb, arith, Bool-cases, ◌⊎◌, inl, inr,
}
use xrnetwork.Base.Memory.{Memory, zeros, copy, copy_inside, copy_outside, bytes_of}
use xrnetwork.Base.Layout.{word, array-layout}
use xrnetwork.Protocol.Structs.{kb, HandshakeHello, hello_object}
use xrnetwork.Protocol.Builders.{build_handshake_hello}
use xrnetwork.Protocol.Readers.{read_hello}
use xrnetwork.Printing.Structs.{show_hello, hello_items}
use xrnetwork.Printing.Terminated.{c_text-reads, get_or-solid, c_text_runs}

name_byte :
    (hello : HandshakeHello) (k : ℕ)
    → k < kb
    → (hello_object hello).at (28 + k) ≡ hello.servername_buffer k
name_byte hello k h =
    array-layout
      (word 8 hello.service_id
        ∷ word 8 hello.participant_id
        ∷ word 8 hello.server_timestamp
        ∷ word 4 hello.servername_buffersize
        ∷ [])
      kb hello.servername_buffer [] 28 k refl h

get_or_behind : (name : List ℕ) → get_or name (length name) 0 ≡ 0
get_or_behind [] = refl
get_or_behind (c ∷ name) = get_or_behind name

-- The name's array holds the name, zero behind it.
pub buffer_byte :
    (name : List ℕ) (k : ℕ)
    → k ≤ length name
    → copy zeros 0 (bytes_of name) (length name) k ≡ get_or name k 0
buffer_byte name k h =
    let at_end : (k < length name) ⊎ (k ≡ length name) = omega arith in
    elim at_end [
      | inl inside ↦
          let e : 0 + k ≡ k = omega arith in
          rw e at (copy_inside zeros 0 (bytes_of name) (length name) k inside)
      | inr end ↦
          copy_outside zeros 0 (bytes_of name) (length name) k (inr (omega arith))
          ∙ sym (ap (λ (i : ℕ). get_or name i 0) end ∙ get_or_behind name)
    ]

build_handshake_hello_name :
    (service_id participant_id now : ℕ) (name : List ℕ) (hello : HandshakeHello)
    → build_handshake_hello service_id participant_id now name ≡ ok hello
    → (length name ≤ kb) × (hello.servername_buffer ≡ copy zeros 0 (bytes_of name) (length name))
unfolding build_handshake_hello
build_handshake_hello_name service_id participant_id now name hello h = (ground arith, ground arith)

-- A greeting that is built from a name without a NUL prints that name behind its numbers; a name
-- of exactly 1024 bytes leaves no room for the NUL, and printing it reads past the greeting.
pub show_hello-built :
    (service_id participant_id now : ℕ) (name : List ℕ) (hello : HandshakeHello)
    → All (λ (c : ℕ). c ≢ 0) name
    → build_handshake_hello service_id participant_id now name ≡ ok hello
    → show_hello (hello_object hello) 0 ≡ (
        if ltb (length name) kb
        then ok (hello_items (read_hello (hello_object hello).at 0) name)
        else fault out_of_bounds)
unfolding show_hello
show_hello-built service_id participant_id now name hello solid h =
    let built = build_handshake_hello_name service_id participant_id now name hello h in
    let same : (k : ℕ)
        → k ≤ length name
        → k < kb
        → (hello_object hello).at (28 + k) ≡ get_or name k 0 =
      λ k hk hb. name_byte hello k hb ∙ ap (λ (m : Memory). m k) built.1 ∙ buffer_byte name k hk in
    elim (Bool-cases (ltb (length name) kb)) [
      | inl fits ↦
          rw
            (
              fits,
              c_text-reads (hello_object hello) 28 name solid (λ k hk. same k hk (ground arith))
                  (ground arith),
            )
            refl
      | inr full ↦
          rw
            (
              full,
              c_text_runs (hello_object hello) 28 (λ k hk e.
                  get_or-solid name k solid (ground (arith, built.0))
                    (sym (same k (ground (arith, built.0)) (omega arith)) ∙ e)),
            )
            refl
    ]
