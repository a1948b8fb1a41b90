-- ===== src/Room/Deliver.antt =====
-- room.hpp: deliveries to the participants.
use xrnetwork.Base.{ℕ, List, [], ◌∷◌, ◌++◌, ◌==◌, if◌then◌else◌}
use xrnetwork.Base.Memory.{Block}
use xrnetwork.Room.State.{Room, id_of}

-- `deliver_byte` of a session: it posts the delivery.
unfoldable pub deliver_byte : Block → ℕ → Room → Room
deliver_byte m h r = record r { posted = r.posted ++ (h, m) ∷ [] }

unfoldable pub deliver_each : List ℕ → Block → Room → Room
unfolding deliver_byte
deliver_each [] m r = r
deliver_each (h ∷ hs) m r = deliver_each hs m (deliver_byte m h r)

unfoldable pub deliver_to_all : Block → Room → Room
unfolding deliver_each
deliver_to_all m r = deliver_each r.participants m r

unfoldable pub deliver_except : List ℕ → Block → ℕ → Room → Room
unfolding deliver_byte
deliver_except [] m exception_id r = r
deliver_except (h ∷ hs) m exception_id r =
    deliver_except hs m exception_id (if id_of r h == exception_id then r else deliver_byte m h r)

unfoldable pub deliver_to_all_except_to_one : Block → ℕ → Room → Room
unfolding deliver_except
deliver_to_all_except_to_one m exception_id r = deliver_except r.participants m exception_id r
