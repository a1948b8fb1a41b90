-- ===== src/Hosting/Sound.antt =====
-- Every state that the service can reach, with its user's calls among the handlers.
use xrnetwork.Base.{
  ℕ, ◌≡◌, refl, sym, subst, Option, none, some, List, Outcome, ok, fault, threw, ◌>>=◌, arith, inl,
  inr,
}
use xrnetwork.Room.State.{Env}
use xrnetwork.Hosting.Thrown.{thrown-IsSound}
use xrnetwork.Connection.Steps.{Step-IsServing}
use xrnetwork.Connection.Drawn.{Step-IsKept}
use xrnetwork.Server.{Server}
use xrnetwork.Lobby
use xrnetwork.Lobby.{Lobby, new_lobby}
use xrnetwork.Lobby.Running.{Op, thread_begins, apply}
use xrnetwork.Hosting.{
  Handler, Host, run_handler, thrown, caught, handles, accept_failed, former_fails,
  former_read_failed, calls, new_host,
}
use xrnetwork.Hosting.Settings.{IsSound}
use xrnetwork.Hosting.Calls.{ServerSound, LobbySound, OnLobby, KeepsLimit, apply-Sound}
use xrnetwork.Hosting.Steps.{service_of, Goes, run_handler-Goes}

-- What the service can come to, from a new one: its user calls, its thread begins and ends, and
-- handlers run, in any order. No limit is set below the number of those who are in the room.
pub data Reached (env : Env) : Host → Type 0 where
  begins :
      (name : List ℕ) (id handshake_max : ℕ)
      → Reached env (new_host (new_lobby name id handshake_max))
  called :
      (op : Op) (c c' : Host)
      → Reached env c
      → KeepsLimit op c.lobby
      → calls env op c ≡ ok c'
      → Reached env c'
  handled : (x : Handler) (c c' : Host) → Reached env c → handles env x c ≡ ok c' → Reached env c'
  unaccepted : (c : Host) → Reached env c → Reached env (accept_failed c)
  unread : (h : ℕ) (c c' : Host) → Reached env c → former_fails h c ≡ ok c' → Reached env c'

Goes-IsSound :
    (env : Env) (server server' : Server)
    → Goes env server server'
    → IsSound env server.room
    → IsSound env server'.room
Goes-IsSound env server server' (inl same) sound = subst (IsSound env) (sym same) sound
Goes-IsSound env server server' (inr step) sound = record {
  serving = Step-IsServing env (service_of server) server.room server'.room step sound.serving;
  kept = Step-IsKept env (service_of server) server.room server'.room step sound.serving sound.kept;
}

-- What holds of the host that a step returns, if it returns.
abbrev OnHost : Env → Outcome Host → Type 0
OnHost env (ok c) = LobbySound env c.lobby
OnHost env _ = Unit {0}

OnHost-ok :
    (env : Env) (m : Outcome Host) (c : Host) → OnHost env m → m ≡ ok c → LobbySound env c.lobby
OnHost-ok env m c sound e = subst (OnHost env) e sound

caught-Sound :
    (env : Env) (c : Host) (left : Server) (m : Outcome Server)
    → IsSound env left.room
    → ((server' : Server) → m ≡ ok server' → IsSound env server'.room)
    → OnHost env (caught c left m)
unfolding caught Lobby.thread_ends
caught-Sound env c left (ok server') sound k = k server' refl
caught-Sound env c left (fault e) sound k = tt
caught-Sound env c left threw sound k = sound

served-Sound :
    (env : Env) (x : Handler) (c : Host) (o : Option Server)
    → c.lobby.server ≡ o
    → ServerSound env o
    → LobbySound env c.lobby
    → OnHost env (elim o [
      | none ↦ ok c
      | some server ↦ caught c (thrown env x server) (run_handler env x server)
    ])
served-Sound env x c none e served sound = sound
served-Sound env x c (some server) e served sound =
    caught-Sound env c (thrown env x server) (run_handler env x server)
      (thrown-IsSound env x server served)
      (λ server' went.
        Goes-IsSound env server server' (run_handler-Goes env x server server' went) served)

handles-Sound :
    (env : Env) (x : Handler) (c : Host) → LobbySound env c.lobby → OnHost env (handles env x c)
unfolding handles
handles-Sound env x c sound = ground (arith, served-Sound env x c c.lobby.server refl sound sound)

moved-Sound :
    (env : Env) (m : Outcome Lobby) (next : Lobby → Host)
    → ((s : Lobby) → (next s).lobby ≡ s)
    → OnLobby (LobbySound env) m
    → OnHost env (m >>= λ s. ok (next s))
moved-Sound env (ok s) next same sound = subst (LobbySound env) (sym (same s)) sound
moved-Sound env (fault e) next same sound = tt
moved-Sound env threw next same sound = tt

calls-Sound :
    (env : Env) (op : Op) (c : Host)
    → KeepsLimit op c.lobby
    → LobbySound env c.lobby
    → OnHost env (calls env op c)
unfolding calls
calls-Sound env thread_begins c fits sound =
    moved-Sound env (apply env thread_begins c.lobby) _ (λ s. refl)
      (apply-Sound env thread_begins c.lobby fits sound)
calls-Sound env op c fits sound =
    moved-Sound env (apply env op c.lobby) _ (λ s. refl) (apply-Sound env op c.lobby fits sound)

former-Sound :
    (env : Env) (h : ℕ) (c : Host) → LobbySound env c.lobby → OnHost env (former_fails h c)
unfolding former_fails former_read_failed
former-Sound env h c sound = ground arith

-- Where no limit is set below the number of those in the room: whatever the service's user calls and
-- whatever connects, arrives, fails and is written, through exceptions that end its thread and new
-- starts, the room of its server is in order. Its set ascends by identifier, within the limit, and
-- whoever is found has an output that the engine gave before; each session has at most one read
-- armed, and one whose handshake is read is not in the room.
pub Reached-IsSound : (env : Env) (c : Host) → Reached env c → LobbySound env c.lobby
unfolding new_host new_lobby accept_failed
Reached-IsSound env _ (begins name id handshake_max) = tt
Reached-IsSound env c (called op p _ before fits e) =
    OnHost-ok env (calls env op p) c (calls-Sound env op p fits (Reached-IsSound env p before)) e
Reached-IsSound env c (handled x p _ before e) =
    OnHost-ok env (handles env x p) c (handles-Sound env x p (Reached-IsSound env p before)) e
Reached-IsSound env _ (unaccepted p before) = ground (arith, Reached-IsSound env p before)
Reached-IsSound env c (unread h p _ before e) =
    OnHost-ok env (former_fails h p) c (former-Sound env h p (Reached-IsSound env p before)) e
