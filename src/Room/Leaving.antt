-- ===== src/Room/Leaving.antt =====
-- What becomes of the room when a participant goes.
use xrnetwork.Base.{
  Bool-cases, inl, inr, ℕ, ◌^◌, ◌<◌, ◌≡◌, refl, sym, ap, ◌∙◌, none, some, [], ◌∷◌, ◌++◌, map, ok,
  fault, null_pointer, ◌==◌, if◌then◌else◌, arith,
}
use xrnetwork.Base.Memory.{Block, get_le}
use xrnetwork.Base.Layout.{word, layout}
use xrnetwork.XrMessage.{header_size}
use xrnetwork.XrMessage.RoundTrip.{built, from_head-built, head-message_bytes}
use xrnetwork.Protocol.Heads.{code, participant_leave}
use xrnetwork.Protocol.Structs.{leave_object}
use xrnetwork.Protocol.Offsets.{sent_word}
use xrnetwork.Room.OrderedSet.{erase, erase-Ascends, find-erase, length-erase-le}
use xrnetwork.Room.State.{Room, id_of, get_participant_ptr, on_participant_leave}
use xrnetwork.Room.Members.{
  leave, disconnect_participant, remove_and_tell, leave_message, signal_participant_leave,
}
use xrnetwork.Room.Invariant.{IsValid}
use xrnetwork.Room.Broadcast.{posting, copies, deliver_to_all-posting}

-- The notice that an identifier is gone.
abbrev pub notice : ℕ → Block
notice id = built (code participant_leave) (leave_object (record { participant_id = id })) 8

leave_message-notice : (id : ℕ) → leave_message id ≡ ok (notice id)
leave_message-notice id = from_head-built _ _ 8 (omega arith) (omega arith)

-- The room after an identifier is erased and the rest are told.
abbrev pub without : ℕ → Room → Room
without id r =
    let left = erase (id_of r) id r.participants in
    posting (copies (notice id) left) (record r { participants = left })

pub remove_and_tell-without : (id : ℕ) (r : Room) → remove_and_tell id r ≡ ok (without id r)
unfolding remove_and_tell
remove_and_tell-without id r = rw (leave_message-notice id) (
    ap ok (
      deliver_to_all-posting (notice id)
        (record r { participants = erase (id_of r) id r.participants })))

-- Lookups after an erasure.
module _ (id : ℕ) (r : Room) where
  pub lookup-without :
      (k : ℕ)
      → get_participant_ptr (without id r) k ≡ (if id == k then none else get_participant_ptr r k)
  unfolding get_participant_ptr
  lookup-without k = find-erase (id_of r) k id r.participants

  pub still_found :
      (k h : ℕ) → get_participant_ptr (without id r) k ≡ some h → get_participant_ptr r k ≡ some h
  still_found k h found =
      let e = sym (lookup-without k) ∙ found in
      elim (Bool-cases (id == k)) [
        | inl same ↦ absurd (ground (arith, e, same))
        | inr other ↦ rw other at e
      ]

  pub lookup-absent :
      get_participant_ptr r id ≡ none
      → (k : ℕ) → get_participant_ptr (without id r) k ≡ get_participant_ptr r k
  lookup-absent nobody k = lookup-without k ∙ elim (Bool-cases (id == k)) [
    | inl same ↦
        let e : id ≡ k = ground arith in rw same (sym (ap (get_participant_ptr r) (sym e) ∙ nobody))
    | inr other ↦ rw other refl
  ]

-- What holds of a room that an identifier has left.
pub record HasLeft (id : ℕ) (r r' : Room) : Type 0 where
  -- the identifier is found no more, and every other one as before
  pub lookups :
      (k : ℕ) → get_participant_ptr r' k ≡ (if id == k then none else get_participant_ptr r k)
  -- each of those left gets the notice, once and in order
  pub told : r'.posted ≡ r.posted ++ copies (notice id) r'.participants
  -- no session is touched
  pub untouched : r'.sessions ≡ r.sessions

without-HasLeft : (id : ℕ) (r : Room) → HasLeft id r (without id r)
unfolding get_participant_ptr
without-HasLeft id r = record {
  lookups = λ k. find-erase (id_of r) k id r.participants;
  told = refl;
  untouched = refl;
}

-- `leave` always returns; the identifier of the session has then left the room, and each slot of
-- the signal was called with it.
pub leave-HasLeft :
    (h : ℕ) (r : Room)
    → (r' : Room) × (leave h r ≡ ok r')
      × HasLeft (id_of r h) r r'
      × (r'.calls
          ≡ r.calls
            ++ map (λ slot. on_participant_leave slot (id_of r h)) r.slots.participant_leave)
unfolding leave signal_participant_leave get_participant_ptr
leave-HasLeft h r = (
  without (id_of r h) (signal_participant_leave (id_of r h) r),
  remove_and_tell-without (id_of r h) (signal_participant_leave (id_of r h) r),
  record {
    lookups = λ k. find-erase (id_of r) k (id_of r h) r.participants;
    told = refl;
    untouched = refl;
  },
  refl,
)

-- `disconnect_participant` of an identifier that nobody has reads through a null pointer; of a
-- participant's, it returns, and that participant's identifier has left the room.
pub disconnect_participant_branches :
    (id : ℕ) (r : Room)
    → (get_participant_ptr r id ≡ none → disconnect_participant id r ≡ fault null_pointer)
      × ((h : ℕ)
          → get_participant_ptr r id ≡ some h
          → (r' : Room) × (disconnect_participant id r ≡ ok r') × HasLeft (id_of r h) r r')
unfolding disconnect_participant
disconnect_participant_branches id r = (
  λ gone. rw gone,
  λ h found. (
    without (id_of r h) r,
    rw found (remove_and_tell-without (id_of r h) r),
    without-HasLeft (id_of r h) r,
  ),
)

pub without-IsValid : (id : ℕ) (r : Room) → IsValid r → IsValid (without id r)
without-IsValid id r v = record {
  ordered = erase-Ascends (id_of r) id r.participants v.ordered;
  bounded = omega (arith, length-erase-le (id_of r) id r.participants, v.bounded);
}

-- A room in order stays so when a session leaves it.
pub leave-IsValid : (h : ℕ) (r r' : Room) → IsValid r → leave h r ≡ ok r' → IsValid r'
unfolding leave signal_participant_leave
leave-IsValid h r r' v e =
    let form =
      sym (remove_and_tell-without (id_of r h) (signal_participant_leave (id_of r h) r)) ∙ e in
    ground (arith, without-IsValid (id_of r h) (signal_participant_leave (id_of r h) r))

-- The notice says what it means: its head is the one of a leave, and the identifier that a receiver
-- reads behind the header is the one that left.
pub notice_reads :
    (id : ℕ)
    → id < 2 ^ 64
    → (get_le 2 (notice id).at 0 ≡ code participant_leave)
      × (get_le 8 (notice id).at header_size ≡ id)
notice_reads id h = (
  head-message_bytes (code participant_leave) (layout (word 8 id ∷ [])) 8 (omega arith)
      (omega arith),
  sent_word (code participant_leave) 8 [] 8 id [] 0 refl (omega arith) h,
)
