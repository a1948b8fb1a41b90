-- ===== src/Hosting/Steps.antt =====
-- A handler that returns is one of the steps that a room may take.
use xrnetwork.Base.{
  ℕ, ◌≡◌, ◌≢◌, refl, sym, subst, ap, Bool, true, false, List, [], ◌∷◌, ◌⊎◌, Outcome, ok,
  ok-injective, bind_ok, All, if◌then◌else◌, arith, inl, inr,
}
use xrnetwork.Base.Memory.{Block}
use xrnetwork.Session.{Reader, handshake_reader, byte_reader}
use xrnetwork.Room.State.{Env, Room}
use xrnetwork.Room.Invariant.{IsOutside}
use xrnetwork.Connection.Handshake.{Service}
use xrnetwork.Connection.Loop.{
  Step, accepts, handshake_ends, handshake_fails, read_ends, read_fails, delivers, write_ends,
  write_fails,
}
use xrnetwork.Server
use xrnetwork.Server.{Server}
use xrnetwork.Hosting.{
  Handler, accepted, read_ended, read_failed, delivered, write_ended, write_failed, is_in, run_read,
  run_failed_read, in_server, run_handler,
}

abbrev pub service_of : Server → Service
service_of server = record { service_id = server.service_id; server_name = server.service_name }

-- The room rests, or takes a step.
abbrev pub Goes : Env → Server → Server → Type 0
Goes env server server' =
    (server'.room ≡ server.room) ⊎ Step env (service_of server) server.room server'.room

is_in-IsOutside : (h : ℕ) (r : Room) → is_in h r.participants ≡ false → IsOutside h r
is_in-IsOutside h r e = walk r.participants e
  where
    walk : (gs : List ℕ) → is_in h gs ≡ false → All (λ g. g ≢ h) gs
    walk [] e = tt
    walk (g ∷ gs) e = (λ there. ground arith, walk gs (ground arith))

in_server-Goes :
    (env : Env) (server server' : Server) (m : Outcome Room)
    → ((r : Room) → m ≡ ok r → (r ≡ server.room) ⊎ Step env (service_of server) server.room r)
    → in_server server m ≡ ok server'
    → Goes env server server'
in_server-Goes env server server' m k e =
    let first = bind_ok m (λ r. ok (record server { room = r })) server' e in
    let same : first.0 ≡ server'.room =
      ap (λ (s : Server). s.room) (ok-injective _ server' first.2) in
    subst (λ r. (r ≡ server.room) ⊎ Step env (service_of server) server.room r) same
      (k first.0 first.1)

read-Goes :
    (env : Env) (service : Service) (h n : ℕ) (buffer : Block) (reads : List Reader) (r r' : Room)
    → (r.sessions h).reads ≡ reads
    → run_read env h buffer n reads r ≡ ok r'
    → (r' ≡ r) ⊎ Step env service r r'
unfolding run_read
read-Goes env service h n buffer [] r r' armed e = inl (sym (ok-injective r r' e))
read-Goes env service h n buffer (handshake_reader ∷ rest) r r' armed e =
    inr (handshake_ends h rest buffer n r r' armed e)
read-Goes env service h n buffer (byte_reader ∷ rest) r r' armed e =
    inr (read_ends h rest buffer n r r' armed e)

failed_read-Goes :
    (env : Env) (service : Service) (h : ℕ) (reads : List Reader) (r r' : Room)
    → (r.sessions h).reads ≡ reads
    → run_failed_read h reads r ≡ ok r'
    → (r' ≡ r) ⊎ Step env service r r'
unfolding run_failed_read
failed_read-Goes env service h [] r r' armed e = inl (sym (ok-injective r r' e))
failed_read-Goes env service h (handshake_reader ∷ rest) r r' armed e =
    inr (subst (Step env service r) (ok-injective _ r' e) (handshake_fails h rest r armed))
failed_read-Goes env service h (byte_reader ∷ rest) r r' armed e =
    inr (read_fails h rest r r' armed e)

tested-Goes :
    (env : Env) (b : Bool) (server server' : Server) (m : Outcome Room)
    → (b ≡ false → (r : Room) → m ≡ ok r → Step env (service_of server) server.room r)
    → (if b then ok server else in_server server m) ≡ ok server'
    → Goes env server server'
tested-Goes env true server server' m k e =
    inl (sym (ap (λ (s : Server). s.room) (ok-injective server server' e)))
tested-Goes env false server server' m k e =
    in_server-Goes env server server' m (λ r went. inr (k refl r went)) e

pub run_handler-Goes :
    (env : Env) (x : Handler) (server server' : Server)
    → run_handler env x server ≡ ok server'
    → Goes env server server'
unfolding run_handler Server.accepted
run_handler-Goes env (accepted h timestamp) server server' e =
    tested-Goes env (is_in h server.room.participants) server server' _
      (λ free r went. accepts h timestamp server.room r (is_in-IsOutside h server.room free) went) e
run_handler-Goes env (read_ended h buffer n) server server' e =
    in_server-Goes env server server' _
      (λ r went. read-Goes env (service_of server) h n buffer _ server.room r refl went) e
run_handler-Goes env (read_failed h) server server' e =
    in_server-Goes env server server' _
      (λ r went. failed_read-Goes env (service_of server) h _ server.room r refl went) e
run_handler-Goes env (delivered h m) server server' e =
    in_server-Goes env server server' _
      (λ r went. inr (
        subst (Step env (service_of server) server.room) (ok-injective _ r went)
          (delivers h m server.room)))
      e
run_handler-Goes env (write_ended h i) server server' e =
    in_server-Goes env server server' _
      (λ r went. inr (
        subst (Step env (service_of server) server.room) (ok-injective _ r went)
          (write_ends h i server.room)))
      e
run_handler-Goes env (write_failed h) server server' e =
    in_server-Goes env server server' _ (λ r went. inr (write_fails h server.room r went)) e
