-- ===== src/Room/Directory.antt =====
-- What the room promises: a directory of identifiers with a number of free places. It knows nothing
-- of the order of the set, of the store, or of what is sent.
use xrnetwork.Base.{ℕ, suc, ◌-◌, ◌≡◌, Option, none, some, length, ◌==◌, if◌then◌else◌}
use xrnetwork.Room.State.{Room, get_participant_ptr}

pub record Directory : Type 0 where
  pub lookup : ℕ → Option ℕ
  pub free : ℕ

-- The directory of a room.
abbrev pub directory : Room → Directory
directory r = record {
  lookup = get_participant_ptr r;
  free = r.max_participants - length r.participants;
}

-- What may happen to a directory: a session enters under an identifier that nobody has while there
-- is a free place, one is turned away where there is none, an identifier leaves and its place is
-- free, or nothing happens because nobody has it.
pub data Change : Directory → Directory → Type 0 where
  enters :
      {d d' : Directory} (id h : ℕ)
      → d.lookup id ≡ none
      → ((k : ℕ) → d'.lookup k ≡ (if id == k then some h else d.lookup k))
      → d.free ≡ suc d'.free
      → Change d d'
  turned_away :
      {d d' : Directory}
      → d.free ≡ 0
      → ((k : ℕ) → d'.lookup k ≡ d.lookup k)
      → d'.free ≡ 0
      → Change d d'
  leaves :
      {d d' : Directory} (id h : ℕ)
      → d.lookup id ≡ some h
      → ((k : ℕ) → d'.lookup k ≡ (if id == k then none else d.lookup k))
      → d'.free ≡ suc d.free
      → Change d d'
  unknown :
      {d d' : Directory} (id : ℕ)
      → d.lookup id ≡ none
      → ((k : ℕ) → d'.lookup k ≡ d.lookup k)
      → d'.free ≡ d.free
      → Change d d'

pub data Changes : Directory → Directory → Type 0 where
  none_yet : {d : Directory} → Changes d d
  and_then : {d d' d'' : Directory} → Changes d d' → Change d' d'' → Changes d d''
