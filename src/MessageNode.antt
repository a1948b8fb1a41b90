-- ===== src/MessageNode.antt =====
-- message_node.hpp: a buffered message, which owns a copy of its bytes.
use xrnetwork.Base.{ℕ, Outcome, ok, fault, out_of_bounds, ltb, if◌then◌else◌}
use xrnetwork.Base.Memory.{Block, zeros, copy}

pub record MessageNode : Type 0 where
  pub timestamp : ℕ
  pub participant_id : ℕ
  pub buffer : Block

-- The default constructor: no buffer.
unfoldable pub empty_node : ℕ → MessageNode
empty_node now = record {
  timestamp = now;
  participant_id = 0;
  buffer = record { size = 0; at = zeros };
}

-- The constructor from a buffer: a block of that size, cleared, then filled.
unfoldable pub new_node : ℕ → ℕ → Block → ℕ → Outcome MessageNode
new_node now part_id buffer buffersize =
    if ltb buffer.size buffersize
    then fault out_of_bounds
    else ok (record {
      timestamp = now;
      participant_id = part_id;
      buffer = record { size = buffersize; at = copy zeros 0 buffer.at buffersize };
    })
