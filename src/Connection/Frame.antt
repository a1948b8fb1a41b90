-- ===== src/Connection/Frame.antt =====
-- What the handlers leave alone: identifiers and armed reads, and nobody comes.
use xrnetwork.Base.{
  ℕ, some, sym, ◌≡◌, ◌≢◌, refl, subst, ap, ◌∙◌, Bool, true, false, List, [], ◌∷◌, ◌==◌,
  if◌then◌else◌, Outcome, ok, fault, threw, ◌>>=◌, arith, Bool-cases, Option-cases, inl, inr,
}
use xrnetwork.Base.Memory.{Block}
use xrnetwork.Protocol.Structs.{ParticipantNew}
use xrnetwork.Session.{Session, do_close, run_deliver, write_done}
use xrnetwork.Room.OrderedSet.{erase-All}
use xrnetwork.Room.State.{
  Room, id_of, put, modify, get_participant_ptr, sessions-put_self, sessions-put_ne,
}
use xrnetwork.Room.Deliver.{deliver_byte, deliver_to_all_except_to_one}
use xrnetwork.Room.Members.{
  new_message, deliver_news, disconnect_participant, leave, signal_participant_leave,
}
use xrnetwork.Room.Broadcast.{posting, deliver_except-others}
use xrnetwork.Room.Invariant.{
  IsValid, IsOutside, put-IsValid, get_participant_ptr-put, id_of-put, m_id-do_close,
}
use xrnetwork.Room.Leaving.{still_found, without, without-IsValid, remove_and_tell-without}

-- The property holds of the room that the call returns, if it returns.
abbrev pub OnReturn : (Room → Type 0) → Outcome Room → Type 0
OnReturn P (ok r) = P r
OnReturn P _ = Unit {0}

module _ (P : Room → Type 0) where
  pub OnReturn->>= {ℓ} :
      {A : Type ℓ} (m : Outcome A) (f : A → Outcome Room)
      → ((a : A) → OnReturn P (f a))
      → OnReturn P (m >>= f)
  OnReturn->>= (ok a) f h = h a
  OnReturn->>= (fault e) f h = tt
  OnReturn->>= threw f h = tt

  pub OnReturn-then :
      (Q : Room → Type 0) (m : Outcome Room) (f : Room → Outcome Room)
      → OnReturn Q m
      → ((r : Room) → Q r → OnReturn P (f r))
      → OnReturn P (m >>= f)
  OnReturn-then Q (ok r) f q h = h r q
  OnReturn-then Q (fault e) f q h = tt
  OnReturn-then Q threw f q h = tt

  pub OnReturn-if :
      (b : Bool) (m n : Outcome Room)
      → OnReturn P m
      → OnReturn P n
      → OnReturn P (if b then m else n)
  OnReturn-if true m n p q = p
  OnReturn-if false m n p q = q

  pub OnReturn-ok : (m : Outcome Room) (r : Room) → OnReturn P m → m ≡ ok r → P r
  OnReturn-ok m r p e = subst (OnReturn P) e p

-- Every session keeps its identifier and its armed reads, nobody comes into the set, no identifier
-- is drawn, and the room's invariant is kept.
pub record Quiet (r r' : Room) : Type 0 where
  pub ids : (g : ℕ) → id_of r' g ≡ id_of r g
  pub reads : (g : ℕ) → (r'.sessions g).reads ≡ (r.sessions g).reads
  pub stays : (g : ℕ) → IsOutside g r → IsOutside g r'
  pub valid : IsValid r → IsValid r'
  pub drawn : r'.drawn ≡ r.drawn
  pub found : (k h : ℕ) → get_participant_ptr r' k ≡ some h → get_participant_ptr r k ≡ some h

pub Quiet-trans : (p q r : Room) → Quiet p q → Quiet q r → Quiet p r
Quiet-trans p q r a b = record {
  ids = λ g. b.ids g ∙ a.ids g;
  reads = λ g. b.reads g ∙ a.reads g;
  stays = λ g o. b.stays g (a.stays g o);
  valid = λ v. b.valid (a.valid v);
  drawn = b.drawn ∙ a.drawn;
  found = λ k h e. a.found k h (b.found k h e);
}

pub Quiet-posting : (ps : List (ℕ × Block)) (r : Room) → Quiet r (posting ps r)
Quiet-posting ps r = record {
  ids = λ g. refl;
  reads = λ g. refl;
  stays = λ g o. o;
  valid = λ v. record { ordered = v.ordered; bounded = v.bounded };
  drawn = refl;
  found = λ k h e. (unfold get_participant_ptr in e);
}

pub Quiet-put :
    (r : Room) (h : ℕ) (s : Session)
    → s.m_id ≡ id_of r h
    → s.reads ≡ (r.sessions h).reads
    → Quiet r (put r h s)
unfolding put
Quiet-put r h s same armed = record {
  ids = λ g. ap (λ (key : ℕ → ℕ). key g) (id_of-put r h s same);
  reads = λ g. elim (Bool-cases (g == h)) [
    | inl here ↦
        let there : g ≡ h = ground arith in
        rw there (ap (λ (t : Session). t.reads) (sessions-put_self r h s) ∙ armed)
    | inr other ↦ ap (λ (t : Session). t.reads) (sessions-put_ne r h g s (λ there. ground arith))
  ];
  stays = λ g o. o;
  valid = put-IsValid r h s same;
  drawn = refl;
  found = λ k g e. sym (get_participant_ptr-put r h s k same) ∙ e;
}

pub Quiet-do_close : (h : ℕ) (r : Room) → Quiet r (modify h do_close r)
unfolding do_close
Quiet-do_close h r =
    Quiet-put r h (do_close (r.sessions h)) (m_id-do_close (r.sessions h)) (ground arith)

pub Quiet-run_deliver : (h : ℕ) (m : Block) (r : Room) → Quiet r (modify h (run_deliver m) r)
unfolding run_deliver
Quiet-run_deliver h m r = Quiet-put r h (run_deliver m (r.sessions h)) (ground arith) (ground arith)

pub Quiet-write_done : (h i : ℕ) (r : Room) → Quiet r (modify h (write_done i) r)
unfolding write_done
Quiet-write_done h i r = Quiet-put r h (write_done i (r.sessions h)) (ground arith) (ground arith)

pub Quiet-deliver_byte : (m : Block) (h : ℕ) (r : Room) → Quiet r (deliver_byte m h r)
unfolding deliver_byte
Quiet-deliver_byte m h r = Quiet-posting ((h, m) ∷ []) r

pub Quiet-deliver_except :
    (m : Block) (id : ℕ) (r : Room) → Quiet r (deliver_to_all_except_to_one m id r)
Quiet-deliver_except m id r = rw (deliver_except-others m id r) (Quiet-posting _ r)

Quiet-without : (id : ℕ) (r : Room) → Quiet r (without id r)
Quiet-without id r = record {
  ids = λ g. refl;
  reads = λ g. refl;
  stays = λ g o. erase-All (id_of r) (λ x. x ≢ g) id r.participants o;
  valid = without-IsValid id r;
  drawn = refl;
  found = still_found id r;
}

pub disconnect_participant-Quiet :
    (id : ℕ) (r : Room) → OnReturn (Quiet r) (disconnect_participant id r)
unfolding disconnect_participant
disconnect_participant-Quiet id r = elim (Option-cases (get_participant_ptr r id)) [
  | inl gone ↦ rw gone tt
  | inr found ↦
      rw (found.1)
        (rw (remove_and_tell-without (id_of r found.0) r) (Quiet-without (id_of r found.0) r))
]

pub leave-Quiet : (h : ℕ) (r : Room) → OnReturn (Quiet r) (leave h r)
unfolding leave signal_participant_leave
leave-Quiet h r =
    let id = id_of r h in
    rw (remove_and_tell-without id (signal_participant_leave id r)) (record {
      ids = λ g. refl;
      reads = λ g. refl;
      stays = λ g o. erase-All (id_of r) (λ x. x ≢ g) id r.participants o;
      valid = λ v.
          without-IsValid id (signal_participant_leave id r)
            (record { ordered = v.ordered; bounded = v.bounded });
      drawn = refl;
      found = λ k g e. still_found id r k g (unfold get_participant_ptr in e);
    })

pub deliver_news-Quiet :
    (h : ℕ) (ns : List ParticipantNew) (r q : Room)
    → Quiet q r
    → OnReturn (Quiet q) (deliver_news h ns r)
unfolding deliver_news
deliver_news-Quiet h [] r q a = a
deliver_news-Quiet h (newp ∷ ns) r q a =
    OnReturn->>= (Quiet q) (new_message newp) (λ msg. deliver_news h ns (deliver_byte msg h r))
      (λ msg.
        deliver_news-Quiet h ns (deliver_byte msg h r) q
          (Quiet-trans q r (deliver_byte msg h r) a (Quiet-deliver_byte msg h r)))
