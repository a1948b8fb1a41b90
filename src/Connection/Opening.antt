-- ===== src/Connection/Opening.antt =====
-- When the greeting is printed whole.
use xrnetwork.Base.{
  Ends, Ends-bind, returned, [], ◌∷◌, ℕ, ◌≤◌, ◌<◌, ◌≡◌, ◌≢◌, refl, ◌∙◌, List, All, length, Outcome,
  ok, fault, out_of_bounds, ◌>>=◌, if◌then◌else◌, ltb, lt→ltb, le→ltb-false, Bool-cases, inl, inr,
  arith,
}
use xrnetwork.XrMessage.RoundTrip.{from_head-built}
use xrnetwork.Protocol.Heads.{code, handshake_hello}
use xrnetwork.Protocol.Structs.{kb, hello_object}
use xrnetwork.Connection.Greeting.{greeting, greeting_message, start-greets}
use xrnetwork.Protocol.Readers.{read_hello}
use xrnetwork.Protocol.Builders.{build_handshake_hello_fault_iff, build_handshake_hello}
use xrnetwork.Printing.{Item}
use xrnetwork.Printing.Structs.{hello_items, show_hello}
use xrnetwork.Printing.Greetings.{show_hello-built}
use xrnetwork.Base.Layout.{word}
use xrnetwork.Printing.Terminated.{array-Ends}
use xrnetwork.Room.State.{Env, Room, id_of}
use xrnetwork.Connection.Handshake.{Service, start}
use xrnetwork.Connection.Shown.{opening, start_shown}

pub built_greeting :
    (service : Service) (id timestamp : ℕ)
    → length service.server_name ≤ kb
    → build_handshake_hello service.service_id id timestamp service.server_name
      ≡ ok (greeting service id timestamp)
unfolding build_handshake_hello
built_greeting service id timestamp short =
    rw (le→ltb-false kb (length service.server_name) short) refl

pub started_after :
    (env : Env) (service : Service) (timestamp h : ℕ) (r : Room) (shown : Outcome (List Item))
    → length service.server_name ≤ kb
    → show_hello (hello_object (greeting service (id_of r h) timestamp)) 0 ≡ shown
    → start_shown env service timestamp h r ≡ (
        shown >>= λ hello. start env service timestamp h r >>= λ r'.
        ok (r', opening hello (greeting_message (greeting service (id_of r h) timestamp))))
unfolding start_shown
started_after env service timestamp h r shown short e =
    rw
      (
        built_greeting service (id_of r h) timestamp short,
        e,
        from_head-built (code handshake_hello)
            (hello_object (greeting service (id_of r h) timestamp)) 1052 (omega arith)
            (omega arith),
      )
      refl

pub greeting-Ends :
    (service : Service) (id timestamp : ℕ)
    → length service.server_name < kb
    → Ends (show_hello (hello_object (greeting service id timestamp)) 0)
unfolding show_hello
greeting-Ends service id timestamp short =
    let name = service.server_name in
    Ends-bind _ _
      (array-Ends
        (word 8 service.service_id ∷ word 8 id ∷ word 8 timestamp ∷ word 4 (length name) ∷ []) kb
        name [] 28 refl short (hello_object (greeting service id timestamp)) (omega arith) refl)
      (λ t. returned _)

-- A greeting is printed before it is sent: with a name that has no NUL, the session starts exactly
-- where the name has fewer than 1024 bytes, and the print does not change what `start` does; with
-- any longer name the program reads or writes past a buffer.
pub start_shown_branches :
    (env : Env) (service : Service) (timestamp h : ℕ) (r : Room)
    → All (λ (c : ℕ). c ≢ 0) service.server_name
    → (length service.server_name < kb
        → (r' : Room) × (lines : List Item) × (start env service timestamp h r ≡ ok r')
          × (start_shown env service timestamp h r ≡ ok (r', lines)))
      × (kb ≤ length service.server_name
          → start_shown env service timestamp h r ≡ fault out_of_bounds)
unfolding start_shown
start_shown_branches env service timestamp h r solid = (
  λ short.
      let started = start-greets env service timestamp h r (omega (arith, short)) in
      (
        started.0,
        opening lines (greeting_message (greeting service (id_of r h) timestamp)),
        started.1,
        started_after env service timestamp h r (ok lines) (omega (arith, short)) (
              printed (omega (arith, short))
              ∙ rw (lt→ltb (length service.server_name) kb short) refl)
            ∙ rw started.1 refl,
      ),
  λ long. elim (Bool-cases (ltb kb (length service.server_name))) [
    | inl over ↦
        rw
          ((build_handshake_hello_fault_iff service.service_id (id_of r h) timestamp
              service.server_name).1
            (ground arith))
          refl
    | inr full ↦
        started_after env service timestamp h r (fault out_of_bounds) (ground arith)
          (printed (ground arith) ∙ rw (le→ltb-false (length service.server_name) kb long) refl)
  ],
)
  where
    lines : List Item
    lines =
        hello_items (read_hello (hello_object (greeting service (id_of r h) timestamp)).at 0)
          service.server_name

    printed :
        length service.server_name ≤ kb
        → show_hello (hello_object (greeting service (id_of r h) timestamp)) 0 ≡ (
            if ltb (length service.server_name) kb
            then ok (
                hello_items
                  (read_hello (hello_object (greeting service (id_of r h) timestamp)).at 0)
                  service.server_name)
            else fault out_of_bounds)
    printed short =
        show_hello-built service.service_id (id_of r h) timestamp service.server_name
          (greeting service (id_of r h) timestamp) solid
          (built_greeting service (id_of r h) timestamp short)
