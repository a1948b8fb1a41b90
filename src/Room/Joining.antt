-- ===== src/Room/Joining.antt =====
-- What `join` does on each of its branches.
use xrnetwork.Base.{
  ℕ, suc, ◌+◌, ◌≤◌, ◌<◌, ◌≡◌, ◌≢◌, refl, sym, ap, ap₂, ◌∙◌, Bool, true, false, none, some, ◌++◌,
  map, length, ok, fault, out_of_bounds, threw, ◌>>=◌, ltb, lt→leb-false, ◌==◌, if◌then◌else◌, All,
  All-mono, arith, Bool-cases, inl, inr,
}
use xrnetwork.Base.Memory.{zeros, copy, bytes_of}
use xrnetwork.Session.{Session, do_close}
use xrnetwork.Room.OrderedSet.{find, find-insert, find_agree, length-insert}
use xrnetwork.Room.Invariant.{IsOutside}
use xrnetwork.Room.State.{
  Env, Room, on_new_participant, id_of, put, sessions-put_self, sessions-put_ne, put-put,
  get_participant_ptr,
}
use xrnetwork.Room.Members.{
  new_info, set_keep_alive, fill_info, draw_id, enter, join, signal_new_participant,
}

-- A session as `join` leaves it.
abbrev pub joined_session : Env → ℕ → Room → Session
joined_session env h r = record (r.sessions h) {
  m_id = env.rng r.drawn;
  keep_alive = r.keep_alive;
  info = some (record (new_info env) {
    id = env.rng r.drawn;
    ipv4_ip = copy zeros 0 (bytes_of (r.sessions h).ip) (length (r.sessions h).ip);
  });
}

-- The room with the output drawn, just before the insertion.
abbrev pub settled : Env → ℕ → Room → Room
settled env h r = put (record r { drawn = suc r.drawn }) h (joined_session env h r)

-- A session with its identifier drawn, which the socket's option is asked of.
abbrev pub drawn_session : Env → ℕ → Room → Session
drawn_session env h r = record (r.sessions h) { m_id = env.rng r.drawn }

set_keep_alive-put :
    (env : Env) (h : ℕ) (keep_alive : Bool) (r : Room) (s : Session)
    → set_keep_alive env h keep_alive (put r h s) ≡ (
        if env.accepts_option s then ok (put r h (record s { keep_alive = keep_alive })) else threw)
unfolding set_keep_alive
set_keep_alive-put env h keep_alive r s =
    rw (sessions-put_self r h s, put-put r h s (record s { keep_alive = keep_alive }))

fill_info-put :
    (env : Env) (h : ℕ) (r : Room) (s : Session)
    → fill_info env h (put r h s) ≡ (
        if ltb 512 (length s.ip)
        then fault out_of_bounds
        else ok (
            put r h (record s {
              info = some (record (new_info env) {
                id = s.m_id;
                ipv4_ip = copy zeros 0 (bytes_of s.ip) (length s.ip);
              });
            })))
unfolding fill_info
fill_info-put env h r s = rw (sessions-put_self r h s) (rw (put-put r h s _) refl)

-- A full room closes the socket of the newcomer and changes nothing else.
pub join_full :
    (env : Env) (h : ℕ) (r : Room)
    → r.max_participants ≤ length r.participants
    → join env h r ≡ ok (put r h (do_close (r.sessions h)))
unfolding join
join_full env h r full = ground arith

pub draw_id-put :
    (env : Env) (h : ℕ) (r : Room)
    → draw_id env h r ≡ put (record r { drawn = suc r.drawn }) h (drawn_session env h r)
unfolding draw_id put
draw_id-put env h r = refl

join_drawn :
    (env : Env) (h : ℕ) (r : Room)
    → length r.participants < r.max_participants
    → join env h r ≡ (
        set_keep_alive env h r.keep_alive (draw_id env h r) >>= λ r1.
        fill_info env h r1 >>= λ r2. ok (enter h r2))
unfolding join
join_drawn env h r room = rw (lt→leb-false r.max_participants (length r.participants) room)

set_then_fill :
    (env : Env) (h : ℕ) (r0 : Room) (k : Bool) (s : Session)
    → (set_keep_alive env h k (put r0 h s) >>= λ r1. fill_info env h r1 >>= λ r2. ok (enter h r2))
      ≡ (if env.accepts_option s
          then (if ltb 512 (length s.ip)
              then fault out_of_bounds
              else ok (
                  enter h (
                    put r0 h (record s {
                      keep_alive = k;
                      info = some (record (new_info env) {
                        id = s.m_id;
                        ipv4_ip = copy zeros 0 (bytes_of s.ip) (length s.ip);
                      });
                    }))))
          else threw)
set_then_fill env h r0 k s =
    rw (set_keep_alive-put env h k r0 s) (elim (Bool-cases (env.accepts_option s)) [
      | inl taken ↦ rw taken (
          ap (λ m. m >>= λ r2. ok (enter h r2))
            (fill_info-put env h r0 (record s { keep_alive = k }))
          ∙ elim (Bool-cases (ltb 512 (length s.ip))) [ inl long ↦ rw long | inr short ↦ rw short ])
      | inr refused ↦ rw refused
    ])

pub join_form :
    (env : Env) (h : ℕ) (r : Room)
    → length r.participants < r.max_participants
    → join env h r ≡ (
        if env.accepts_option (drawn_session env h r)
        then (if ltb 512 (length (r.sessions h).ip)
            then fault out_of_bounds
            else ok (enter h (settled env h r)))
        else threw)
join_form env h r room =
    join_drawn env h r room
    ∙ rw (draw_id-put env h r) (
        set_then_fill env h (record r { drawn = suc r.drawn }) r.keep_alive (drawn_session env h r))

pub agrees :
    (env : Env) (h : ℕ) (r : Room)
    → IsOutside h r
    → All (λ g. id_of r g ≡ id_of (settled env h r) g) r.participants
agrees env h r =
    All-mono (λ g. g ≢ h) (λ g. id_of r g ≡ id_of (settled env h r) g)
      (λ g ne.
        ap (λ (s : Session). s.m_id)
          (sym
            (sessions-put_ne (record r { drawn = suc r.drawn }) h g (joined_session env h r) ne)))
      r.participants

pub settled_self :
    (env : Env) (h : ℕ) (r : Room) → (settled env h r).sessions h ≡ joined_session env h r
settled_self env h r =
    sessions-put_self (record r { drawn = suc r.drawn }) h (joined_session env h r)

-- What `join` does on each of its branches: a full room closes the newcomer's socket and changes
-- nothing else; where the socket refuses its option the exception leaves `join`; otherwise the
-- newcomer enters with the identifier just drawn.
pub join_branches :
    (env : Env) (h : ℕ) (r : Room)
    → (r.max_participants ≤ length r.participants
        → join env h r ≡ ok (put r h (do_close (r.sessions h))))
      × (length r.participants < r.max_participants
          → env.accepts_option (drawn_session env h r) ≡ false
          → join env h r ≡ threw)
      × (length r.participants < r.max_participants
          → env.accepts_option (drawn_session env h r) ≡ true
          → length (r.sessions h).ip ≤ 512
          → join env h r ≡ ok (enter h (settled env h r)))
join_branches env h r = (
  join_full env h r,
  λ room refused. join_form env h r room ∙ rw refused,
  λ room accepted short. join_form env h r room ∙ rw accepted (ground arith),
)

module _ (env : Env) (h : ℕ) (r : Room) (room : length r.participants < r.max_participants)
    (accepted : env.accepts_option (drawn_session env h r) ≡ true)
    (short : length (r.sessions h).ip ≤ 512) (outside : IsOutside h r)
    (fresh : get_participant_ptr r (env.rng r.drawn) ≡ none) where
  new_id : id_of (settled env h r) h ≡ env.rng r.drawn
  new_id = ap (λ (s : Session). s.m_id) (settled_self env h r)

  lookup_same : (k : ℕ) → find (id_of (settled env h r)) k r.participants ≡ get_participant_ptr r k
  unfolding get_participant_ptr
  lookup_same k =
      sym (find_agree (id_of r) (id_of (settled env h r)) k r.participants (agrees env h r outside))

  pub absent : find (id_of (settled env h r)) (id_of (settled env h r) h) r.participants ≡ none
  absent =
      ap (λ (k : ℕ). find (id_of (settled env h r)) k r.participants) new_id
      ∙ lookup_same (env.rng r.drawn)
      ∙ fresh

  -- A session that is not in the room, with an identifier that no participant has, enters a room
  -- that is not full: it gets the identifier drawn, lookups find it under that identifier and all
  -- others as before, the count goes up by one, each slot of the signal is called with the
  -- identifier, no other session is touched and nothing is sent.
  pub join_enters :
      (r' : Room) × (join env h r ≡ ok r')
      × (r'.sessions h ≡ joined_session env h r)
      × ((g : ℕ) → g ≢ h → r'.sessions g ≡ r.sessions g)
      × ((k : ℕ)
          → get_participant_ptr r' k
            ≡ (if env.rng r.drawn == k then some h else get_participant_ptr r k))
      × (length r'.participants ≡ length r.participants + 1)
      × (r'.calls
          ≡ r.calls
            ++ map (λ slot. on_new_participant slot (env.rng r.drawn)) r.slots.new_participant)
      × (r'.posted ≡ r.posted)
  unfolding enter get_participant_ptr signal_new_participant put
  join_enters = (
    enter h (settled env h r),
    (join_branches env h r).2 room accepted short,
    settled_self env h r,
    λ g ne. sessions-put_ne (record r { drawn = suc r.drawn }) h g (joined_session env h r) ne,
    λ k.
        find-insert (id_of (settled env h r)) k h r.participants absent
        ∙ ap₂ (λ (i : ℕ) o. if i == k then some h else o) new_id (lookup_same k),
    length-insert (id_of (settled env h r)) h r.participants absent,
    ap (λ (i : ℕ). r.calls ++ map (λ slot. on_new_participant slot i) r.slots.new_participant)
        new_id,
    refl,
  )
