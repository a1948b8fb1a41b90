-- ===== src/Client/Writes.antt =====
-- The client writes one message at a time, in the order in which they were given.
use mathlib.Core.List.{append_assoc, append-nil}
use xrnetwork.Base.{◌≡◌, refl, sym, subst, ap, ◌∙◌, List, [], ◌∷◌, ◌++◌, arith}
use xrnetwork.Base.Memory.{Block}
use xrnetwork.Client.{Client, run_write, write_done}

-- A message is given, or the write under way ends.
pub data WriteEvent : Type 0 where
  given : Block → WriteEvent
  ended : WriteEvent

-- The client, and the messages whose writes have ended, first to last.
pub record Trace : Type 0 where
  pub client : Client
  pub sent : List Block

-- An ending without a write under way does not happen: it leaves all as it is.
end_first : List Block → Trace → Trace
end_first [] t = t
end_first (m ∷ rest) t = record { client = write_done t.client; sent = t.sent ++ m ∷ [] }

unfoldable pub write_step : WriteEvent → Trace → Trace
unfolding end_first
write_step (given m) t = record t { client = run_write m t.client }
write_step ended t = end_first t.client.in_flight t

unfoldable pub write_run : List WriteEvent → Trace → Trace
unfolding write_step
write_run [] t = t
write_run (e ∷ es) t = write_run es (write_step e t)

abbrev pub gifts : List WriteEvent → List Block
gifts [] = []
gifts (given m ∷ es) = m ∷ gifts es
gifts (ended ∷ es) = gifts es

-- The write under way is the front of the queue, and there is one exactly if the queue has a front.
abbrev pub front : List Block → List Block
front [] = []
front (m ∷ rest) = m ∷ []

abbrev pub IsSerial : Client → Type 0
IsSerial c = c.in_flight ≡ front c.queue

given-step :
    (m : Block) (c : Client)
    → IsSerial c
    → IsSerial (run_write m c) × ((run_write m c).queue ≡ c.queue ++ m ∷ [])
unfolding run_write
given-step m c h = go c.queue refl h
  where
    go :
        (q : List Block)
        → c.queue ≡ q
        → IsSerial c
        → IsSerial (run_write m c) × ((run_write m c).queue ≡ c.queue ++ m ∷ [])
    go [] e h = ground arith
    go (x ∷ q) e h = ground arith

ended-step :
    (x : Block) (q : List Block) (c : Client)
    → c.queue ≡ x ∷ q
    → IsSerial c
    → IsSerial (write_done c) × ((write_done c).queue ≡ q)
unfolding write_done
ended-step x [] c e h = ground arith
ended-step x (y ∷ q) c e h = ground arith

-- The step keeps the order of what is sent and queued.
abbrev Proceeds : Trace → Trace → Type 0
Proceeds t t' = IsSerial t'.client × (t'.sent ++ t'.client.queue ≡ t.sent ++ t.client.queue)

run_ended :
    (t : Trace) (q : List Block)
    → t.client.queue ≡ q
    → IsSerial t.client
    → Proceeds t (write_step ended t)
unfolding write_step end_first
run_ended t [] e h = subst (Proceeds t) (ap (λ l. end_first l t) (sym (h ∙ ap front e))) (h, refl)
run_ended t (x ∷ q) e h =
    let after = ended-step x q t.client e h in
    subst (Proceeds t) (ap (λ l. end_first l t) (sym (h ∙ ap front e))) (
      after.0,
      ap (◌++◌ (t.sent ++ x ∷ [])) after.1
          ∙ append_assoc t.sent (x ∷ []) q
          ∙ ap (◌++◌ t.sent) (sym e),
    )

-- Over any sequence of messages given and writes ended, from a client whose write under way is the
-- front of its queue: that is so again, hence at most one write is under way, and the
-- messages sent followed by those still queued are the earlier ones followed by those given, in
-- the order given, with none lost, repeated or overtaken.
pub write_run-IsSerial :
    (es : List WriteEvent) (t : Trace)
    → IsSerial t.client
    → let t' = write_run es t in
      IsSerial t'.client × (t'.sent ++ t'.client.queue ≡ t.sent ++ t.client.queue ++ gifts es)
unfolding write_run
write_run-IsSerial [] t h = (
  h,
  ap (◌++◌ t.sent) (sym (append-nil t.client.queue)) ∙ sym (append_assoc t.sent t.client.queue []),
)
write_run-IsSerial (given m ∷ es) t h =
    let step = given-step m t.client h in
    let rest = write_run-IsSerial es (record t { client = run_write m t.client }) step.0 in
    (rest.0, rest.1 ∙ ap (λ q. t.sent ++ q ++ gifts es) step.1 ∙ simp append_assoc)
write_run-IsSerial (ended ∷ es) t h =
    let step = run_ended t t.client.queue refl h in
    let rest = write_run-IsSerial es (write_step ended t) step.0 in
    (rest.0, rest.1 ∙ ap (λ q. q ++ gifts es) step.1)

-- One ending more sends the front.
ending_sends :
    (x : Block) (q : List Block) (t : Trace)
    → t.client.queue ≡ x ∷ q
    → IsSerial t.client
    → let t' = write_step ended t in
      IsSerial t'.client × (t'.client.queue ≡ q) × (t'.sent ≡ t.sent ++ x ∷ [])
unfolding write_step end_first
ending_sends x q t e h =
    let after = ended-step x q t.client e h in
    subst
      (λ (t' : Trace). IsSerial t'.client × (t'.client.queue ≡ q) × (t'.sent ≡ t.sent ++ x ∷ []))
      (ap (λ l. end_first l t) (sym (h ∙ ap front e))) (after.0, after.1, refl)

-- An ending for each message of a list.
abbrev pub endings : List Block → List WriteEvent
endings [] = []
endings (m ∷ ms) = ended ∷ endings ms

drain :
    (q : List Block) (t : Trace)
    → t.client.queue ≡ q
    → IsSerial t.client
    → let t' = write_run (endings q) t in
      (t'.client.queue ≡ []) × (t'.client.in_flight ≡ []) × (t'.sent ≡ t.sent ++ q)
unfolding write_run
drain [] t e h = (e, h ∙ ap front e, sym (append-nil t.sent))
drain (x ∷ q) t e h =
    let step = ending_sends x q t e h in
    let rest = drain q (write_step ended t) step.1 step.0 in
    (rest.0, rest.1, rest.2 ∙ ap (λ s. s ++ q) step.2 ∙ append_assoc t.sent (x ∷ []) q)

-- Whatever was given and ended before, from a client whose write under way is the front of its
-- queue: once as many writes more have ended as messages are queued, the queue is empty, no write
-- is under way, and all that was queued or given has been sent, in order.
pub write_run-drains :
    (es : List WriteEvent) (t : Trace)
    → IsSerial t.client
    → let t1 = write_run es t in
      let t' = write_run (endings t1.client.queue) t1 in
      (t'.client.queue ≡ [])
      × (t'.client.in_flight ≡ [])
      × (t'.sent ≡ t.sent ++ t.client.queue ++ gifts es)
write_run-drains es t h =
    let serial = write_run-IsSerial es t h in
    let drained = drain (write_run es t).client.queue (write_run es t) refl serial.0 in
    (drained.0, drained.1, drained.2 ∙ serial.1)
