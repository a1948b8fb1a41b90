-- ===== src/Lobby/Thread.antt =====
-- XRNetworkLobbyService.hpp: the service's thread, one statement after the other, with its user's
-- calls in between. A slot that is called makes its calls in between, too.
pub mod Progress
use xrnetwork.Base.{
  some, Bool-cases, Option-cases, ℕ, ◌≡◌, ◌≢◌, ◌⊎◌, refl, ap, ◌∙◌, Bool, true, false, none, List,
  [], ◌∷◌, ◌++◌, Outcome, ok, fault, terminated, ◌>>=◌, ltb, if◌then◌else◌, arith, inl, inr,
}
use xrnetwork.Room.State.{Env}
use xrnetwork.Lobby
use xrnetwork.Lobby.{Lobby, new_lobby, make_server, mark_running, with_server, configure}
use xrnetwork.Lobby.Running.{
  HasServer, Op, start, thread_begins, thread_unbound, thread_ends, apply, Returns, apply-Returns,
  apply-keeps_server, terminates-start,
}

-- Where the thread stands: before its server is made, behind that, behind the mark, and in
-- `io_context_.run()`.
pub data Stage : Type 0 where
  waits made marked serves : Stage

pub record Threaded : Type 0 where
  pub lobby : Lobby
  pub stage : Stage

-- A user's call; the thread's next statement; or an exception in the thread.
pub data Event : Type 0 where
  calls : Op → Event
  thread_goes thread_throws : Event

abbrev pub is_call : Op → Bool
is_call thread_begins = false
is_call thread_unbound = false
is_call thread_ends = false
is_call _ = true

unfoldable pub goes : Env → Stage → Lobby → Outcome Threaded
unfolding configure
goes env waits s =
    if ltb 0 s.starting
    then ok (record { lobby = make_server env false 0 s; stage = made })
    else ok (record { lobby = s; stage = waits })
goes env made s = ok (record { lobby = mark_running s; stage = marked })
goes env marked s = with_server (configure s) s >>= λ s'. ok (record { lobby = s'; stage = serves })
goes env serves s = ok (record { lobby = Lobby.thread_ends s; stage = waits })

unfoldable pub throws : Stage → Lobby → Threaded
throws waits s =
    if ltb 0 s.starting
    then record { lobby = Lobby.thread_unbound s; stage = waits }
    else record { lobby = s; stage = waits }
throws _ s = record { lobby = Lobby.thread_ends s; stage = waits }

unfoldable pub happens : Env → Event → Threaded → Outcome Threaded
unfolding goes throws
happens env (calls op) t =
    if is_call op then (apply env op t.lobby >>= λ s. ok (record t { lobby = s })) else ok t
happens env thread_goes t = goes env t.stage t.lobby
happens env thread_throws t = ok (throws t.stage t.lobby)

unfoldable pub run : Env → List Event → Threaded → Outcome Threaded
unfolding happens
run env [] t = ok t
run env (x ∷ xs) t = happens env x t >>= run env xs
