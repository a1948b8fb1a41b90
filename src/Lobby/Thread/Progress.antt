-- ===== src/Lobby/Thread/Progress.antt =====
-- That the service's thread and its user's calls always find a server where they need one.
use xrnetwork.Base.{
  some, Bool-cases, Option-cases, ℕ, ◌≡◌, ◌≢◌, ◌⊎◌, refl, ap, ◌∙◌, true, false, none, List, [], ◌∷◌,
  ◌++◌, Outcome, ok, fault, terminated, ◌>>=◌, ltb, arith, inl, inr,
}
use xrnetwork.Room.State.{Env}
use xrnetwork.Lobby
use xrnetwork.Lobby.{Lobby, new_lobby, make_server, mark_running, with_server, configure}
use xrnetwork.Lobby.Running.{
  HasServer, Op, start, apply, Returns, apply-Returns, apply-keeps_server, terminates-start,
}
use xrnetwork.Lobby.Thread.{
  Stage, waits, made, marked, serves, Threaded, Event, calls, thread_goes, thread_throws, is_call,
  goes, throws, happens, run,
}

-- There is a server wherever the thread or a call goes to it.
abbrev IsReady : Threaded → Type 0
IsReady t = HasServer t.lobby × ((t.stage ≡ waits) ⊎ (t.lobby.server ≢ none))

-- What may come of an event: a state with a server where one is needed, or the end of the program at
-- a start.
abbrev Comes : Env → Event → Threaded → Type 0
Comes env x t =
    ((t' : Threaded) × (happens env x t ≡ ok t') × IsReady t')
    ⊎ ((x ≡ calls start)
        × (t.lobby.running ≡ false)
        × (t.lobby.joinable ≡ true)
        × (happens env x t ≡ fault terminated))

returned :
    (P : Lobby → Type 0) (m : Outcome Lobby)
    → Returns P m
    → ((s : Lobby) × (m ≡ ok s) × P s) ⊎ (m ≡ fault terminated)
returned P (ok s) p = inl (s, refl, p)
returned P (fault terminated) p = inr refl
returned P _ p = absurd p

applied :
    (env : Env) (op : Op) (t : Threaded)
    → IsReady t
    → ((s : Lobby) × (apply env op t.lobby ≡ ok s) × IsReady (record t { lobby = s }))
      ⊎ (apply env op t.lobby ≡ fault terminated)
applied env op t ready = elim ready.1 [
  | inl first ↦
      elim (returned HasServer (apply env op t.lobby) (apply-Returns env op t.lobby ready.0)) [
        | inl x ↦ inl (x.0, x.1, (x.2, inl first))
        | inr e ↦ inr e
      ]
  | inr served ↦
      elim (returned (λ (s : Lobby). s.server ≢ none) (apply env op t.lobby)
        (apply-keeps_server env op t.lobby served)) [
          | inl x ↦ inl (x.0, x.1, (inr x.2, inr x.2))
          | inr e ↦ inr e
        ]
]

goes-IsReady :
    (env : Env) (stage : Stage) (s : Lobby)
    → IsReady (record { lobby = s; stage = stage })
    → (t : Threaded) × (goes env stage s ≡ ok t) × IsReady t
unfolding goes Lobby.thread_ends
goes-IsReady env waits s ready = elim (Bool-cases (ltb 0 s.starting)) [
  | inl awaited ↦ (
    record { lobby = make_server env false 0 s; stage = made },
    rw awaited refl,
    (inr (λ e. absurd (ground (arith, e))), inr (λ e. absurd (ground (arith, e)))),
  )
  | inr idle ↦ (record { lobby = s; stage = waits }, rw idle refl, ready)
]
goes-IsReady env made s ready = elim ready.1 [
  | inl e ↦ absurd (ground (arith, e))
  | inr served ↦ (record { lobby = mark_running s; stage = marked }, refl, (inr served, inr served))
]
goes-IsReady env marked s ready = elim ready.1 [
  | inl e ↦ absurd (ground (arith, e))
  | inr served ↦ elim (Option-cases s.server) [
    | inl nobody ↦ absurd (served nobody)
    | inr (server, e) ↦ (
      record { lobby = record s { server = some (configure s server) }; stage = serves },
      rw e refl,
      (inr (λ e. absurd (ground (arith, e))), inr (λ e. absurd (ground (arith, e)))),
    )
  ]
]
goes-IsReady env serves s ready =
    (record { lobby = Lobby.thread_ends s; stage = waits }, refl, (inl refl, inl refl))

throws-IsReady :
    (stage : Stage) (s : Lobby)
    → IsReady (record { lobby = s; stage = stage })
    → IsReady (throws stage s)
unfolding throws Lobby.thread_ends Lobby.thread_unbound
throws-IsReady waits s ready = elim (Bool-cases (ltb 0 s.starting)) [
  | inl awaited ↦ rw awaited (inl refl, inl refl)
  | inr idle ↦ rw idle ready
]
throws-IsReady _ s ready = (inl refl, inl refl)

happens-Comes : (env : Env) (x : Event) (t : Threaded) → IsReady t → Comes env x t
unfolding happens
happens-Comes env (calls op) t ready = elim (Bool-cases (is_call op)) [
  | inl user ↦ elim (applied env op t ready) [
    | inl x ↦ inl (record t { lobby = x.0 }, rw (user, x.1) refl, x.2)
    | inr e ↦
        let ends = terminates-start env op t.lobby ready.0 e in
        inr (ap calls ends.0, ends.1, ends.2, rw (user, e) refl)
  ]
  | inr other ↦ inl (t, rw other refl, ready)
]
happens-Comes env thread_goes t ready = inl (goes-IsReady env t.stage t.lobby ready)
happens-Comes env thread_throws t ready =
    inl (throws t.stage t.lobby, refl, throws-IsReady t.stage t.lobby ready)

-- How a run ends: with a state that has a server where one is needed, or with the program, at a
-- start of a service that is not marked as running while a thread is there.
abbrev pub Ending : Env → List Event → Threaded → Type 0
Ending env xs t =
    ((t' : Threaded) × (run env xs t ≡ ok t') × HasServer t'.lobby)
    ⊎ ((before after : List Event) × (t' : Threaded) × (xs ≡ before ++ calls start ∷ after)
        × (run env before t ≡ ok t')
        × (t'.lobby.running ≡ false)
        × (t'.lobby.joinable ≡ true)
        × (run env xs t ≡ fault terminated))

run-Ending : (env : Env) (xs : List Event) (t : Threaded) → IsReady t → Ending env xs t
unfolding run
run-Ending env [] t ready = inl (t, refl, ready.0)
run-Ending env (x ∷ xs) t ready = elim (happens-Comes env x t ready) [
  | inl next ↦
      let chain : run env (x ∷ xs) t ≡ run env xs next.0 = ap (λ m. m >>= run env xs) next.1 in
      elim (run-Ending env xs next.0 next.2) [
        | inl end ↦ inl (end.0, chain ∙ end.1, end.2)
        | inr end ↦ inr (
          x ∷ end.0,
          end.1,
          end.2,
          ap (λ ys. x ∷ ys) end.3,
          ap (λ m. m >>= run env end.0) next.1 ∙ end.4,
          end.5,
          end.6,
          chain ∙ end.7,
        )
      ]
  | inr over ↦
      inr (
        [],
        xs,
        t,
        ap (λ y. y ∷ xs) over.0,
        refl,
        over.1,
        over.2,
        ap (λ m. m >>= run env xs) over.3,
      )
]

-- Whatever a user of a new service sets, connects, starts or stops, between whichever statements of
-- the service's thread, and wherever an exception ends the thread: all of it returns, and the
-- service has a server whenever it is marked as running; or the program ends, and then at a start
-- of the service while it is not marked as running and a thread of it is there. Nothing reads
-- through the pointer to the server before there is one.
pub thread-Ending :
    (env : Env) (xs : List Event) (name : List ℕ) (id handshake_max : ℕ)
    → Ending env xs (record { lobby = new_lobby name id handshake_max; stage = waits })
thread-Ending env xs name id handshake_max =
    run-Ending env xs (record { lobby = new_lobby name id handshake_max; stage = waits })
      (unfold new_lobby in (inl refl, inl refl))
