-- ===== src/Room/Announcing.antt =====
-- What happens when a participant is announced.
use mathlib.Core.List.{map-append}
use xrnetwork.Base.{
  ℕ, ◌^◌, ◌≤◌, ◌<◌, ◌≡◌, refl, sym, ap, ap₂, ◌∙◌, none, some, true, false, List, [], ◌∷◌, ◌++◌, map,
  length, ok, fault, null_pointer, out_of_bounds, ◌==◌, lt→ltb, if◌then◌else◌, All, arith,
  Bool-cases, inl, inr,
}
use xrnetwork.Base.Memory.{Block, get_le, copy, bytes_of}
use xrnetwork.Base.Layout.{word, array}
use xrnetwork.XrMessage.{header_size}
use xrnetwork.XrMessage.RoundTrip.{built, from_head-built, head-message_bytes}
use xrnetwork.Protocol.Heads.{code, participant_new}
use xrnetwork.Protocol.Structs.{kb20, ParticipantNew, new_object}
use xrnetwork.Protocol.Builders.{new_participant_new}
use xrnetwork.Protocol.Offsets.{sent_word}
use xrnetwork.Session.{Session}
use xrnetwork.Room.State.{Env, Room, id_of, get_participant_ptr}
use xrnetwork.Room.Deliver.{deliver_byte}
use xrnetwork.Room.Members.{
  announcement, new_message, new_participant_to_all, announcements, deliver_news,
  send_list_of_players, init_new_participant,
}
use xrnetwork.Room.Broadcast.{
  posting, copies, others, posting-posting, posting-nil, deliver_except-others,
}

-- The descriptor of a session fits an announcement.
abbrev pub Announceable : Room → ℕ → Type 0
Announceable r h = length (r.sessions h).m_descriptor ≤ kb20

-- What a posted delivery says: to whom, with which head, of which participant.
abbrev pub Said : Type 0
Said = ℕ × ℕ × ℕ

abbrev pub said : ℕ × Block → Said
said p = (p.0, get_le 2 p.1.at 0, get_le 8 p.1.at header_size)

-- "Participant `id` is new", to `h`.
abbrev pub new_to : ℕ → ℕ → Said
new_to h id = (h, code participant_new, id)

-- The announcement as it is filled in.
abbrev filled : ParticipantNew → ℕ → Session → ParticipantNew
filled newp id s = record {
  participant_id = id;
  descriptor_buffersize = length s.m_descriptor;
  descriptor_buffer =
      copy newp.descriptor_buffer 0 (bytes_of s.m_descriptor) (length s.m_descriptor);
}

announcement-filled :
    (newp : ParticipantNew) (id : ℕ) (s : Session)
    → length s.m_descriptor ≤ kb20
    → announcement newp id s ≡ ok (filled newp id s)
unfolding announcement
announcement-filled newp id s h = ground arith

abbrev news : ParticipantNew → Block
news newp = built (code participant_new) (new_object newp) 20492

new_message-news : (newp : ParticipantNew) → new_message newp ≡ ok (news newp)
new_message-news newp = from_head-built _ _ 20492 (omega arith) (omega arith)

said-news :
    (h : ℕ) (newp : ParticipantNew)
    → newp.participant_id < 2 ^ 64
    → said (h, news newp) ≡ new_to h newp.participant_id
said-news h newp fits =
    ap₂ (λ (a b : ℕ). let t : Said = (h, a, b) in t)
      (head-message_bytes (code participant_new) (new_object newp).at 20492 (omega arith)
        (omega arith))
      (sent_word (code participant_new) 20492 [] 8 newp.participant_id
        (word 4 newp.descriptor_buffersize ∷ array kb20 newp.descriptor_buffer ∷ []) 0 refl
        (omega arith) fits)

said-copies :
    (newp : ParticipantNew) (hs : List ℕ)
    → newp.participant_id < 2 ^ 64
    → map said (copies (news newp) hs) ≡ map (λ h. new_to h newp.participant_id) hs
said-copies newp [] fits = refl
said-copies newp (h ∷ hs) fits = ap₂ ◌∷◌ (said-news h newp fits) (said-copies newp hs fits)

-- The announcement to all others succeeds and says so.
new_to_all :
    (env : Env) (id h : ℕ) (r : Room)
    → get_participant_ptr r id ≡ some h
    → Announceable r h
    → new_participant_to_all env id r
      ≡ ok (
          posting
            (copies
              (news (filled (new_participant_new id env.garbage) id (r.sessions h)))
              (others (id_of r) id r.participants))
            r)
unfolding new_participant_to_all
new_to_all env id h r found fits =
    rw (found, new_participant_to_all)
      (rw (announcement-filled (new_participant_new id env.garbage) id (r.sessions h) fits) (
        rw (new_message-news (filled (new_participant_new id env.garbage) id (r.sessions h)))
          (ap ok (deliver_except-others _ id r))))

deliver_news-posting :
    (h : ℕ) (ns : List ParticipantNew) (r : Room)
    → deliver_news h ns r ≡ ok (posting (map (λ newp. (h, news newp)) ns) r)
unfolding deliver_news deliver_byte
deliver_news-posting h [] r = ap ok (sym (posting-nil r))
deliver_news-posting h (newp ∷ ns) r = rw (new_message-news newp) (
    deliver_news-posting h ns (deliver_byte (news newp) h r)
    ∙ ap ok (posting-posting ((h, news newp) ∷ []) (map (λ n. (h, news n)) ns) r))

-- The announcements of the others, each filled over the one before it.
all_filled : Room → ℕ → List ℕ → ParticipantNew → List ParticipantNew
all_filled r id [] newp = []
all_filled r id (p ∷ ps) newp =
    let skipped = all_filled r id ps newp in
    let f = filled newp (id_of r p) (r.sessions p) in
    let taken = f ∷ all_filled r id ps f in if id == id_of r p then skipped else taken

announcements-filled :
    (r : Room) (id : ℕ) (ps : List ℕ) (newp : ParticipantNew)
    → All (Announceable r) ps
    → announcements r id ps newp ≡ ok (all_filled r id ps newp)
unfolding announcements all_filled
announcements-filled r id [] newp fits = refl
announcements-filled r id (p ∷ ps) newp fits = elim (Bool-cases (id == id_of r p)) [
  | inl same ↦ rw same (announcements-filled r id ps newp fits.1)
  | inr other ↦ rw other (
      rw (announcement-filled newp (id_of r p) (r.sessions p) fits.0)
        (rw (announcements-filled r id ps (filled newp (id_of r p) (r.sessions p)) fits.1)))
]

said-filled :
    (r : Room) (h id : ℕ) (ps : List ℕ) (newp : ParticipantNew)
    → All (λ p. id_of r p < 2 ^ 64) ps
    → map said (map (λ n. (h, news n)) (all_filled r id ps newp))
      ≡ map (λ p. new_to h (id_of r p)) (others (id_of r) id ps)
unfolding all_filled
said-filled r h id [] newp fits = refl
said-filled r h id (p ∷ ps) newp fits = elim (Bool-cases (id == id_of r p)) [
  | inl same ↦
      let same' : (id_of r p == id) ≡ true = ground arith in
      rw (same, same') (said-filled r h id ps newp fits.1)
  | inr other ↦
      let other' : (id_of r p == id) ≡ false = ground arith in
      rw (other, other')
        (ap₂ ◌∷◌ (said-news h (filled newp (id_of r p) (r.sessions p)) fits.0)
          (said-filled r h id ps (filled newp (id_of r p) (r.sessions p)) fits.1))
]

list_sent :
    (env : Env) (h : ℕ) (r : Room)
    → All (Announceable r) r.participants
    → send_list_of_players env h r
      ≡ ok (
          posting
            (map
              (λ n. (h, news n))
              (all_filled r
                (id_of r h)
                r.participants
                (new_participant_new (env.garbage 0) env.garbage)))
            r)
unfolding send_list_of_players
list_sent env h r fits =
    rw
      (announcements-filled r (id_of r h) r.participants
        (new_participant_new (env.garbage 0) env.garbage) fits)
      (deliver_news-posting h _ r)

-- The initialisation of a participant who is in the room, where every participant's descriptor
-- fits an announcement and every identifier is one of 64 bits: it returns, and what it posts tells
-- each other participant, once and in order, that this one is new, and then tells this one of each
-- other participant, once and in order. Nothing else changes.
pub init_new_participant_says :
    (env : Env) (id h : ℕ) (r : Room)
    → get_participant_ptr r id ≡ some h
    → id_of r h ≡ id
    → All (Announceable r) r.participants
    → Announceable r h
    → All (λ p. id_of r p < 2 ^ 64) r.participants
    → id < 2 ^ 64
    → let rest = others (id_of r) id r.participants in
      (ps : List (ℕ × Block)) × (init_new_participant env id r ≡ ok (posting ps r))
      × (map said ps ≡ map (λ g. new_to g id) rest ++ map (λ g. new_to h (id_of r g)) rest)
unfolding init_new_participant all_filled
init_new_participant_says env id h r found here fits mine ids idfits = (
  first ++ second,
  rw (found, init_new_participant)
      (rw (new_to_all env id h r found mine)
        (list_sent env h (posting first r) fits ∙ ap ok (posting-posting first second r))),
  rw (map-append said first second) (
      ap₂ ◌++◌ (said-copies announced (others (id_of r) id r.participants) idfits)
        (rw here (said-filled r h id r.participants _ ids))),
)
  where
    announced : ParticipantNew
    announced = filled (new_participant_new id env.garbage) id (r.sessions h)

    first : List (ℕ × Block)
    first = copies (news announced) (others (id_of r) id r.participants)

    second : List (ℕ × Block)
    second =
        map (λ n. (h, news n))
          (all_filled r (id_of r h) r.participants
            (new_participant_new (env.garbage 0) env.garbage))

new_to_all_nobody :
    (env : Env) (id : ℕ) (r : Room)
    → get_participant_ptr r id ≡ none
    → new_participant_to_all env id r ≡ fault null_pointer
unfolding new_participant_to_all
new_to_all_nobody env id r gone = rw (gone, new_participant_to_all)

new_to_all_long :
    (env : Env) (id h : ℕ) (r : Room)
    → get_participant_ptr r id ≡ some h
    → kb20 < length (r.sessions h).m_descriptor
    → new_participant_to_all env id r ≡ fault out_of_bounds
unfolding new_participant_to_all announcement
new_to_all_long env id h r found long =
    rw (found, new_participant_to_all) (rw (lt→ltb kb20 (length (r.sessions h).m_descriptor) long))
