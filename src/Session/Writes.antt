-- ===== src/Session/Writes.antt =====
-- The writes of a session, over any order of deliveries and completions.
use xrnetwork.Base.{
  ℕ, zero, suc, ◌+◌, ◌≤◌, ◌≡◌, ap, List, [], ◌∷◌, ◌++◌, length, length-append, arith,
}
use xrnetwork.Base.Memory.{Block}
use xrnetwork.Session.{Session, run_deliver, write_done, remove_at}

-- What happens to a session's writes: a delivery runs, or write `i` ends.
pub data WriteEvent : Type 0 where
  delivered : Block → WriteEvent
  ended : ℕ → WriteEvent

unfoldable pub write_step : WriteEvent → Session → Session
unfolding run_deliver write_done
write_step (delivered m) s = run_deliver m s
write_step (ended i) s = write_done i s

unfoldable pub write_run : List WriteEvent → Session → Session
unfolding write_step
write_run [] s = s
write_run (e ∷ es) s = write_run es (write_step e s)

abbrev deliveries : List WriteEvent → ℕ
deliveries [] = 0
deliveries (delivered m ∷ es) = suc (deliveries es)
deliveries (ended i ∷ es) = deliveries es

abbrev endings : List WriteEvent → ℕ
endings [] = 0
endings (delivered m ∷ es) = endings es
endings (ended i ∷ es) = suc (endings es)

length-remove_at {ℓ} : {A : Type ℓ} (i : ℕ) (xs : List A) → length xs ≤ length (remove_at i xs) + 1
length-remove_at i [] = omega arith
length-remove_at zero (x ∷ xs) = omega arith
length-remove_at (suc i) (x ∷ xs) = omega (arith, length-remove_at i xs)

-- A delivery to an idle queue starts its write at once.
run_deliver_idle : (m : Block) (s : Session) → s.queue ≡ [] → (run_deliver m s).queue ≡ []
unfolding run_deliver
run_deliver_idle m s h = ground arith

run_deliver_starts :
    (m : Block) (s : Session) → s.queue ≡ [] → (run_deliver m s).in_flight ≡ s.in_flight ++ m ∷ []
unfolding run_deliver
run_deliver_starts m s h = ground arith

write_done_idle : (i : ℕ) (s : Session) → s.queue ≡ [] → (write_done i s).queue ≡ []
unfolding write_done
write_done_idle i s h = ground arith

write_done_ends :
    (i : ℕ) (s : Session) → s.queue ≡ [] → (write_done i s).in_flight ≡ remove_at i s.in_flight
unfolding write_done
write_done_ends i s h = ground arith

-- The queue of a session never holds anything back: from an empty queue, whatever deliveries and
-- completions follow, the queue is empty again, and the writes under way are at least those
-- at the start and the deliveries, less the completions.
pub write_run-in_flight :
    (es : List WriteEvent) (s : Session)
    → s.queue ≡ []
    → ((write_run es s).queue ≡ [])
      × (length s.in_flight + deliveries es ≤ length (write_run es s).in_flight + endings es)
unfolding write_run
write_run-in_flight [] s h = (h, omega arith)
write_run-in_flight (delivered m ∷ es) s h =
    let rest = write_run-in_flight es (run_deliver m s) (run_deliver_idle m s h) in
    (
      rest.0,
      omega
          (arith, rest.1, ap length (run_deliver_starts m s h), length-append s.in_flight (m ∷ [])),
    )
write_run-in_flight (ended i ∷ es) s h =
    let rest = write_run-in_flight es (write_done i s) (write_done_idle i s h) in
    (
      rest.0,
      omega (arith, rest.1, ap length (write_done_ends i s h), length-remove_at i s.in_flight),
    )
