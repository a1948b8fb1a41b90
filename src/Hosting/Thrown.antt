-- ===== src/Hosting/Thrown.antt =====
-- An exception leaves the room in order.
use xrnetwork.Base.{
  ℕ, suc, ◌≡◌, refl, sym, subst, ◌++◌, Outcome, Bool-cases, inl, inr, ap, ◌∙◌, List, [], ◌∷◌, ok,
  fault, threw, arith,
}
use xrnetwork.Base.Memory.{Block}
use xrnetwork.XrMessage.{from_raw}
use xrnetwork.Session.{Session, Reader, handshake_reader, byte_reader, do_close, do_read_byte}
use xrnetwork.Room.State.{Env, Room, put, modify, sessions-put_self, get_participant_ptr}
use xrnetwork.Room.Members.{draw_id}
use xrnetwork.Room.Invariant.{IsOutside}
use xrnetwork.Room.Joining.{draw_id-put, drawn_session}
use xrnetwork.Connection.Handshake.{are_accepted, credentials_thrown}
use xrnetwork.Connection.Loop.{take_read}
use xrnetwork.Connection.Frame.{Quiet-do_close}
use xrnetwork.Connection.Serving.{Phase-carry, served, put-IsServing, replaced-IsValid}
use xrnetwork.Connection.Drawing.{replaced-IsKept, taken-IsKept}
use xrnetwork.Connection.Reaching.{greeted-Phase, taken_silent, take_read-IsServing}
use xrnetwork.Server.{Server}
use xrnetwork.Hosting.{Handler, read_ended, read_thrown, thrown}
use xrnetwork.Hosting.Settings.{IsSound, Quiet-IsSound}

-- An output more is drawn.
drawn-IsSound :
    (env : Env) (r : Room) → IsSound env r → IsSound env (record r { drawn = suc r.drawn })
unfolding get_participant_ptr
drawn-IsSound env r sound =
    let later = record r { drawn = suc r.drawn } in
    record {
      serving = record {
        valid = record {
          ordered = sound.serving.valid.ordered;
          bounded = sound.serving.valid.bounded;
        };
        phases = λ g. Phase-carry r later g refl (λ o. o) (sound.serving.phases g);
      };
      kept = record {
        valid = record { ordered = sound.kept.valid.ordered; bounded = sound.kept.valid.bounded };
        drawn_before = λ k h e.
            let before = sound.kept.drawn_before k h e in
            (before.0, omega (arith, before.1), before.2);
      };
    }

-- A session outside the room is replaced by one that reads as a joined session.
replaced-IsSound :
    (env : Env) (r : Room) (h : ℕ) (s : Session)
    → IsOutside h r
    → s.reads ≡ byte_reader ∷ []
    → IsSound env r
    → IsSound env (put r h s)
replaced-IsSound env r h s outside armed sound = record {
  serving =
      put-IsServing r h s (replaced-IsValid r h s outside sound.serving.valid)
        (served (ap (λ (t : Session). t.reads) (sessions-put_self r h s) ∙ armed)) sound.serving;
  kept = replaced-IsKept env r h s outside sound.kept;
}

thrown_after-IsSound :
    (env : Env) (h : ℕ) (r : Room)
    → (r.sessions h).reads ≡ []
    → IsOutside h r
    → IsSound env r
    → IsSound env (draw_id env h (modify h do_read_byte r))
unfolding put do_read_byte
thrown_after-IsSound env h r silent outside sound =
    let s = do_read_byte (r.sessions h) in
    let q = put r h s in
    let armed : s.reads ≡ byte_reader ∷ [] = ap (λ rs. rs ++ byte_reader ∷ []) silent in
    subst (IsSound env) (sym (draw_id-put env h q)) (
      replaced-IsSound env (record q { drawn = suc q.drawn }) h (drawn_session env h q) outside
        (ap (λ (t : Session). t.reads) (sessions-put_self r h s) ∙ armed)
        (drawn-IsSound env q (replaced-IsSound env r h s outside armed sound)))

credentials_thrown-IsSound :
    (env : Env) (h : ℕ) (msg : Block) (r : Room)
    → (r.sessions h).reads ≡ []
    → IsOutside h r
    → IsSound env r
    → IsSound env (credentials_thrown env h msg r)
unfolding credentials_thrown
credentials_thrown-IsSound env h msg r silent outside sound =
    let closed = Quiet-do_close h r in
    elim (Bool-cases (are_accepted msg)) [
      | inl right ↦ rw right (thrown_after-IsSound env h r silent outside sound)
      | inr wrong ↦ rw wrong (
          thrown_after-IsSound env h (modify h do_close r) (closed.reads h ∙ silent)
            (closed.stays h outside) (Quiet-IsSound env r (modify h do_close r) closed sound))
    ]

read_thrown-IsSound :
    (env : Env) (h n : ℕ) (buffer : Block) (reads : List Reader) (r : Room)
    → (r.sessions h).reads ≡ reads
    → IsSound env r
    → IsSound env (read_thrown env h buffer n reads r)
unfolding read_thrown put
read_thrown-IsSound env h n buffer [] r armed sound = sound
read_thrown-IsSound env h n buffer (byte_reader ∷ rest) r armed sound = sound
read_thrown-IsSound env h n buffer (handshake_reader ∷ rest) r armed sound =
    received (from_raw buffer n)
  where
    received :
        (m : Outcome Block)
        → IsSound env (elim m [
          | ok msg ↦ credentials_thrown env h msg (take_read h rest r)
          | fault e ↦ r
          | threw ↦ r
        ])
    received (ok msg) =
        let phase = greeted-Phase r h rest (sound.serving.phases h) armed in
        credentials_thrown-IsSound env h msg (take_read h rest r) (taken_silent r h rest phase.0)
          phase.1
          (record {
            serving = take_read-IsServing r h rest phase.0 sound.serving;
            kept = taken-IsKept env h rest r sound.kept;
          })
    received (fault e) = sound
    received threw = sound

pub thrown-IsSound :
    (env : Env) (x : Handler) (server : Server)
    → IsSound env server.room
    → IsSound env (thrown env x server).room
unfolding thrown
thrown-IsSound env (read_ended h buffer n) server sound =
    read_thrown-IsSound env h n buffer (server.room.sessions h).reads server.room refl sound
thrown-IsSound env _ server sound = sound
