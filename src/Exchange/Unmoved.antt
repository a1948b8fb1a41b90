-- ===== src/Exchange/Unmoved.antt =====
-- What the messages before the credentials leave as it was.
use xrnetwork.Base.{ℕ, ◌≡◌, refl, ap, ◌∙◌}
use xrnetwork.Base.Memory.{Block}
use xrnetwork.Session.{Session}
use xrnetwork.Room.State.{Room, id_of, put, sessions-put_self, get_participant_ptr}
use xrnetwork.Room.Deliver.{deliver_byte}
use xrnetwork.Room.Invariant.{get_participant_ptr-put}

-- Nobody has come or gone, and the session's identifier and socket are as they were.
pub record Unmoved (h : ℕ) (r r' : Room) : Type 0 where
  pub participants : r'.participants ≡ r.participants
  pub max_participants : r'.max_participants ≡ r.max_participants
  pub drawn : r'.drawn ≡ r.drawn
  pub lookups : (k : ℕ) → get_participant_ptr r' k ≡ get_participant_ptr r k
  pub m_id : id_of r' h ≡ id_of r h
  pub is_open : (r'.sessions h).is_open ≡ (r.sessions h).is_open

pub Unmoved-trans : (h : ℕ) (r r' r'' : Room) → Unmoved h r r' → Unmoved h r' r'' → Unmoved h r r''
Unmoved-trans h r r' r'' u v = record {
  participants = v.participants ∙ u.participants;
  max_participants = v.max_participants ∙ u.max_participants;
  drawn = v.drawn ∙ u.drawn;
  lookups = λ k. v.lookups k ∙ u.lookups k;
  m_id = v.m_id ∙ u.m_id;
  is_open = v.is_open ∙ u.is_open;
}

pub Unmoved-put :
    (h : ℕ) (r : Room) (s : Session)
    → s.m_id ≡ id_of r h
    → s.is_open ≡ (r.sessions h).is_open
    → Unmoved h r (put r h s)
unfolding put
Unmoved-put h r s same_id same_socket = record {
  participants = refl;
  max_participants = refl;
  drawn = refl;
  lookups = λ k. get_participant_ptr-put r h s k same_id;
  m_id = ap (λ (t : Session). t.m_id) (sessions-put_self r h s) ∙ same_id;
  is_open = ap (λ (t : Session). t.is_open) (sessions-put_self r h s) ∙ same_socket;
}

pub Unmoved-deliver_byte : (h : ℕ) (r : Room) (m : Block) (g : ℕ) → Unmoved h r (deliver_byte m g r)
unfolding deliver_byte get_participant_ptr
Unmoved-deliver_byte h r m g = record {
  participants = refl;
  max_participants = refl;
  drawn = refl;
  lookups = λ k. refl;
  m_id = refl;
  is_open = refl;
}
