-- ===== src/Room/Broadcast.antt =====
-- Whom a delivery reaches.
use mathlib.Core.List.{append_assoc, append-nil}
use xrnetwork.Base.{
  ℕ, ◌≡◌, sym, ◌∙◌, List, [], ◌∷◌, ◌++◌, map, ◌==◌, if◌then◌else◌, Bool-cases, inl, inr,
}
use xrnetwork.Base.Memory.{Block}
use xrnetwork.Room.State.{Room, id_of}
use xrnetwork.Room.Deliver.{
  deliver_byte, deliver_each, deliver_to_all, deliver_except, deliver_to_all_except_to_one,
}

-- The same message for each of the handles.
abbrev pub copies : Block → List ℕ → List (ℕ × Block)
copies m hs = map (λ h. (h, m)) hs

-- The room with more deliveries posted, in order.
abbrev pub posting : List (ℕ × Block) → Room → Room
posting ps r = record r { posted = r.posted ++ ps }

-- The handles whose identifier is another.
abbrev pub others : (ℕ → ℕ) → ℕ → List ℕ → List ℕ
others key id [] = []
others key id (h ∷ hs) = let rest = others key id hs in if key h == id then rest else h ∷ rest

pub posting-posting :
    (ps qs : List (ℕ × Block)) (r : Room) → posting qs (posting ps r) ≡ posting (ps ++ qs) r
posting-posting ps qs r = λ i. record r { posted = append_assoc r.posted ps qs i }

pub posting-nil : (r : Room) → posting [] r ≡ r
posting-nil r = λ i. record r { posted = append-nil r.posted i }

deliver_each-posting :
    (hs : List ℕ) (m : Block) (r : Room) → deliver_each hs m r ≡ posting (copies m hs) r
unfolding deliver_each deliver_byte
deliver_each-posting [] m r = sym (posting-nil r)
deliver_each-posting (h ∷ hs) m r =
    deliver_each-posting hs m (deliver_byte m h r) ∙ posting-posting ((h, m) ∷ []) (copies m hs) r

-- A broadcast posts the message once to each participant, in the order of the identifiers, and
-- changes nothing else.
pub deliver_to_all-posting :
    (m : Block) (r : Room) → deliver_to_all m r ≡ posting (copies m r.participants) r
unfolding deliver_to_all
deliver_to_all-posting m r = deliver_each-posting r.participants m r

deliver_except-posting :
    (hs : List ℕ) (m : Block) (id : ℕ) (r : Room)
    → deliver_except hs m id r ≡ posting (copies m (others (id_of r) id hs)) r
unfolding deliver_except deliver_byte
deliver_except-posting [] m id r = sym (posting-nil r)
deliver_except-posting (h ∷ hs) m id r = elim (Bool-cases (id_of r h == id)) [
  | inl skipped ↦ rw skipped (deliver_except-posting hs m id r)
  | inr taken ↦ rw taken (
      deliver_except-posting hs m id (deliver_byte m h r)
      ∙ posting-posting ((h, m) ∷ []) (copies m (others (id_of r) id hs)) r)
]

-- With an exception, the message is posted once to each participant with another identifier, in
-- the order of the identifiers, to nobody else, and nothing else changes.
pub deliver_except-others :
    (m : Block) (id : ℕ) (r : Room)
    → deliver_to_all_except_to_one m id r
      ≡ posting (copies m (others (id_of r) id r.participants)) r
unfolding deliver_to_all_except_to_one
deliver_except-others m id r = deliver_except-posting r.participants m id r
