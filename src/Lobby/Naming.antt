-- ===== src/Lobby/Naming.antt =====
-- XRNetworkLobbyService.hpp: the numbers and the name that a service draws for itself.
use xrnetwork.Base.{ℕ, ◌+◌, ◌*◌, ◌^◌, List, ◌++◌, codes}
use xrnetwork.Base.Words.{u16}
use xrnetwork.Printing.Digits.{digits}

-- The first output of an engine with a seed of two random words of 32 bits.
unfoldable pub rand64b : (ℕ → ℕ) → ℕ → ℕ → ℕ
rand64b first_output high low = first_output (high * 2 ^ 32 + low)

-- The name of a service that got none.
unfoldable pub default_name : ℕ → List ℕ
default_name random = codes "service_" ++ digits 10 20 (u16 random)
