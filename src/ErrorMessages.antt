-- ===== src/ErrorMessages.antt =====
-- error_messages.hpp: the names of the system's errors. The codes are the platform's, an argument.
use xrnetwork.Base.{
  ℕ, ◌≡◌, ◌≢◌, refl, List, [], ◌∷◌, codes, ◌==◌, if◌then◌else◌, arith, All, Bool-cases, inl, inr,
  ◌⊎◌,
}

-- The errors that the table lists.
pub data AsioError : Type 0 where
  address_family_not_supported address_in_use already_connected already_started broken_pipe
        connection_aborted connection_refused connection_reset bad_descriptor fault host_unreachable
        in_progress interrupted invalid_argument message_size name_too_long network_down
        network_reset network_unreachable no_descriptors no_buffer_space no_memory no_permission
        no_protocol_option not_connected not_socket operation_aborted operation_not_supported
        shut_down timed_out would_block :
      AsioError

unfoldable pub text : AsioError → List ℕ
text address_family_not_supported = codes "asio::error::address_family_not_supported "
text address_in_use = codes "asio::error::address_in_use "
text already_connected = codes "asio::error::already_connected "
text already_started = codes "asio::error::already_started "
text broken_pipe = codes "asio::error::broken_pipe "
text connection_aborted = codes "asio::error::connection_aborted "
text connection_refused = codes "asio::error::connection_refused "
text connection_reset = codes "asio::error::connection_reset "
text bad_descriptor = codes "asio::error::bad_descriptor "
text fault = codes "asio::error::fault "
text host_unreachable = codes "asio::error::host_unreachable "
text in_progress = codes "asio::error::in_progress "
text interrupted = codes "asio::error::interrupted "
text invalid_argument = codes "asio::error::invalid_argument "
text message_size = codes "asio::error::message_size "
text name_too_long = codes "asio::error::name_too_long "
text network_down = codes "asio::error::network_down "
text network_reset = codes "asio::error::network_reset "
text network_unreachable = codes "asio::error::network_unreachable "
text no_descriptors = codes "asio::error::no_descriptors "
text no_buffer_space = codes "asio::error::no_buffer_space "
text no_memory = codes "asio::error::no_memory "
text no_permission = codes "asio::error::no_permission "
text no_protocol_option = codes "asio::error::no_protocol_option "
text not_connected = codes "asio::error::not_connected "
text not_socket = codes "asio::error::not_socket "
text operation_aborted = codes "asio::error::operation_aborted "
text operation_not_supported = codes "asio::error::operation_not_supported "
text shut_down = codes "asio::error::shut_down "
text timed_out = codes "asio::error::timed_out "
text would_block = codes "asio::error::would_block "

-- The cases of the `switch`, first to last.
abbrev pub cases : List AsioError
cases =
    address_family_not_supported ∷ address_in_use ∷ already_connected ∷ already_started
    ∷ broken_pipe ∷ connection_aborted ∷ connection_refused ∷ connection_reset ∷ bad_descriptor
    ∷ fault ∷ host_unreachable ∷ in_progress ∷ interrupted ∷ invalid_argument ∷ message_size
    ∷ name_too_long ∷ network_down ∷ network_reset ∷ network_unreachable ∷ no_descriptors
    ∷ no_buffer_space ∷ no_memory ∷ no_permission ∷ no_protocol_option ∷ not_connected ∷ not_socket
    ∷ operation_aborted ∷ operation_not_supported ∷ shut_down ∷ timed_out ∷ would_block ∷ []

unfoldable pub switch : (AsioError → ℕ) → ℕ → List AsioError → List ℕ
unfolding text
switch value ec [] = []
switch value ec (e ∷ es) = let rest = switch value ec es in if ec == value e then text e else rest

unfoldable pub check_system_error_code : (AsioError → ℕ) → ℕ → List ℕ
unfolding switch
check_system_error_code value ec = switch value ec cases

switch-finds :
    (value : AsioError → ℕ) (ec : ℕ) (es : List AsioError)
    → ((e : AsioError) × (ec ≡ value e) × (switch value ec es ≡ text e))
      ⊎ ((switch value ec es ≡ []) × All (λ e. ec ≢ value e) es)
unfolding switch
switch-finds value ec [] = inr (refl, tt)
switch-finds value ec (e ∷ es) = elim (Bool-cases (ec == value e)) [
  | inl here ↦ inl (e, ground arith, rw here refl)
  | inr there ↦ elim (switch-finds value ec es) [
    | inl (e', same, found) ↦ inl (e', same, rw there found)
    | inr (nothing, others) ↦ inr (rw there nothing, (ground arith, others))
  ]
]

-- Whatever codes the platform gives the errors, the text of a code is the name of an error that has
-- this code, or it is empty and no error of the table has it.
check_system_error_code_names :
    (value : AsioError → ℕ) (ec : ℕ)
    → ((e : AsioError) × (ec ≡ value e) × (check_system_error_code value ec ≡ text e))
      ⊎ ((check_system_error_code value ec ≡ []) × All (λ e. ec ≢ value e) cases)
unfolding check_system_error_code
check_system_error_code_names value ec = switch-finds value ec cases
