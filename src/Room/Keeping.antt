-- ===== src/Room/Keeping.antt =====
-- What joining and leaving do to the room's directory, and what they keep true.
use xrnetwork.Base.{
  ◌⊎◌, ℕ, suc, ◌-◌, ◌≤◌, ◌<◌, ◌≡◌, ◌≢◌, refl, sym, subst, ap, ◌∙◌, Bool, true, false, none, some,
  length, ok, ok-injective, fault, threw, out_of_bounds, ltb, if◌then◌else◌, arith, Bool-cases,
  Option-cases, inl, inr,
}
use xrnetwork.Session.{Session, do_close}
use xrnetwork.Room.OrderedSet.{find_agree, found-insert}
use xrnetwork.Room.State.{Env, Room, id_of, put, get_participant_ptr}
use xrnetwork.Room.Members.{join, enter, signal_new_participant}
use xrnetwork.Room.Invariant.{
  IsValid, IsOutside, get_participant_ptr-put, m_id-do_close, put-IsValid,
}
use xrnetwork.Room.Joining.{
  settled_self, agrees, settled, drawn_session, join_form, join_full, join_enters, join_branches,
}
use xrnetwork.Room.Ordered.{entered-IsValid}
use xrnetwork.Room.Leaving.{lookup-without, still_found, lookup-absent, without, without-IsValid}
use xrnetwork.Room.Counting.{length-erase_absent, length-erase_found}
use xrnetwork.Room.Directory.{directory, Change, enters, turned_away, leaves, unknown}

-- The set is in order, and whoever is found is found under an identifier drawn before.
pub record IsKept (env : Env) (r : Room) : Type 0 where
  pub valid : IsValid r
  pub drawn_before :
      (k h : ℕ) → get_participant_ptr r k ≡ some h → (j : ℕ) × (j < r.drawn) × (k ≡ env.rng j)

-- Output number `n` of the engine is none of those before it.
abbrev pub IsNew : Env → ℕ → Type 0
IsNew env n = (j : ℕ) → j < n → env.rng j ≢ env.rng n

-- The first `n` outputs of the engine differ from each other.
abbrev pub IsDistinct : Env → ℕ → Type 0
IsDistinct env n = (i j : ℕ) → i < j → j < n → env.rng i ≢ env.rng j

taken :
    (b c : Bool) (x r' : Room)
    → (if b then (if c then fault out_of_bounds else ok x) else threw) ≡ ok r'
    → (b ≡ true) × (c ≡ false) × (x ≡ r')
taken true true x r' e = absurd (ground arith)
taken true false x r' e = (refl, refl, ok-injective x r' e)
taken false c x r' e = absurd (ground arith)

pub fresh_draw :
    (env : Env) (r : Room)
    → IsNew env r.drawn
    → IsKept env r
    → get_participant_ptr r (env.rng r.drawn) ≡ none
fresh_draw env r new kept = elim (Option-cases (get_participant_ptr r (env.rng r.drawn))) [
  | inl nobody ↦ nobody
  | inr (h, found) ↦
      let before = kept.drawn_before (env.rng r.drawn) h found in
      absurd (new before.0 before.1 (sym before.2))
]

module _ (env : Env) (id : ℕ) (r : Room) where
  without-IsKept : IsKept env r → IsKept env (without id r)
  without-IsKept kept = record {
    valid = without-IsValid id r kept.valid;
    drawn_before = λ k h found. kept.drawn_before k h (still_found id r k h found);
  }

  -- An erasure, as the directory sees it.
  without-Change : IsKept env r → Change (directory r) (directory (without id r))
  without-Change kept = elim (Option-cases (get_participant_ptr r id)) [
    | inl nobody ↦ unknown id nobody (lookup-absent id r nobody) (
        ap (λ (n : ℕ). r.max_participants - n)
          (length-erase_absent (id_of r) id r.participants (unfold get_participant_ptr in nobody)))
    | inr (h, found) ↦ leaves id h found (lookup-without id r) (
        omega (
          arith,
          kept.valid.bounded,
          length-erase_found (id_of r) id h r.participants kept.valid.ordered
              (unfold get_participant_ptr in found),
        ))
  ]

-- A write to a session that leaves its identifier alone.
pub put-IsKept :
    (env : Env) (r : Room) (h : ℕ) (s : Session)
    → s.m_id ≡ id_of r h
    → IsKept env r
    → IsKept env (put r h s)
unfolding put
put-IsKept env r h s same kept = record {
  valid = put-IsValid r h s same kept.valid;
  drawn_before =
      λ k g found. kept.drawn_before k g (sym (get_participant_ptr-put r h s k same) ∙ found);
}

module _ (env : Env) (h : ℕ) (r : Room) (kept : IsKept env r) (outside : IsOutside h r) where
  turned_away-Change :
      r.max_participants ≤ length r.participants
      → Change (directory r) (directory (put r h (do_close (r.sessions h))))
  unfolding put
  turned_away-Change full =
      turned_away (omega arith)
        (λ k.
          get_participant_ptr-put r h (do_close (r.sessions h)) k (m_id-do_close (r.sessions h)))
        (omega arith)

  -- Whoever is found behind the insertion was found before, or has the output just drawn, be it
  -- new or not.
  found_then :
      (k g : ℕ)
      → get_participant_ptr (enter h (settled env h r)) k ≡ some g
      → (k ≡ env.rng r.drawn) ⊎ (get_participant_ptr r k ≡ some g)
  unfolding enter signal_new_participant get_participant_ptr put
  found_then k g found =
      let key = id_of (settled env h r) in
      let same = find_agree (id_of r) key k r.participants (agrees env h r outside) in
      elim (found-insert key k h g r.participants found) [
        | inl new ↦ inl (new ∙ ap (λ (s : Session). s.m_id) (settled_self env h r))
        | inr old ↦ inr (same ∙ old)
      ]

  entered_drawn : (enter h (settled env h r)).drawn ≡ suc r.drawn
  unfolding enter signal_new_participant put
  entered_drawn = refl

  entered-IsKept :
      length r.participants < r.max_participants → IsKept env (enter h (settled env h r))
  entered-IsKept room = record {
    valid = entered-IsValid env h r room outside kept.valid;
    drawn_before = λ k g found. elim (found_then k g found) [
      | inl new ↦ (r.drawn, omega (arith, entered_drawn), new)
      | inr old ↦
          let before = kept.drawn_before k g old in
          (before.0, omega (arith, before.1, entered_drawn), before.2)
    ];
  }

  -- Where the newcomer enters.
  enters-Change :
      length r.participants < r.max_participants
      → env.accepts_option (drawn_session env h r) ≡ true
      → length (r.sessions h).ip ≤ 512
      → IsNew env r.drawn
      → Change (directory r) (directory (enter h (settled env h r)))
  unfolding enter signal_new_participant put
  enters-Change room accepted short new =
      let fresh = fresh_draw env r new kept in
      let e = join_enters env h r room accepted short outside fresh in
      let same : e.0 ≡ enter h (settled env h r) =
        ok-injective _ _ (sym e.1 ∙ (join_branches env h r).2 room accepted short) in
      enters (env.rng r.drawn) h fresh
        (λ k. ap (λ (x : Room). get_participant_ptr x k) (sym same) ∙ e.4 k)
        (omega (arith, room, e.5, ap (λ (x : Room). length x.participants) same))

  -- What `join` returns, if it returns.
  join_returns :
      (r' : Room)
      → join env h r ≡ ok r'
      → ((length r.participants < r.max_participants)
          × (env.accepts_option (drawn_session env h r) ≡ true)
          × (length (r.sessions h).ip ≤ 512)
          × (enter h (settled env h r) ≡ r'))
        ⊎ ((r.max_participants ≤ length r.participants) × (put r h (do_close (r.sessions h)) ≡ r'))
  join_returns r' e = elim (Bool-cases (ltb (length r.participants) r.max_participants)) [
    | inl room ↦
        let place : length r.participants < r.max_participants = ground arith in
        let ways =
          taken (env.accepts_option (drawn_session env h r)) (ltb 512 (length (r.sessions h).ip))
            (enter h (settled env h r)) r' (sym (join_form env h r place) ∙ e) in
        inl (place, ways.0, ground (arith, ways.1), ways.2)
    | inr full ↦
        let away : r.max_participants ≤ length r.participants = ground arith in
        inr (away, ok-injective _ _ (sym (join_full env h r away) ∙ e))
  ]

  -- Whatever identifier is drawn, the room is kept.
  pub join-IsKept : (r' : Room) → join env h r ≡ ok r' → IsKept env r'
  join-IsKept r' e = elim (join_returns r' e) [
    | inl way ↦ subst (IsKept env) way.3 (entered-IsKept way.0)
    | inr way ↦
        subst (IsKept env) way.1
          (put-IsKept env r h (do_close (r.sessions h)) (m_id-do_close (r.sessions h)) kept)
  ]

  pub join-drawn_le : (r' : Room) → join env h r ≡ ok r' → r.drawn ≤ r'.drawn
  unfolding put
  join-drawn_le r' e = elim (join_returns r' e) [
    | inl way ↦ omega (arith, entered_drawn, ap (λ (x : Room). x.drawn) way.3)
    | inr way ↦ omega (arith, ap (λ (x : Room). x.drawn) way.1)
  ]

  -- A session that joins either enters or is turned away, where `join` returns.
  pub join-Change :
      (r' : Room)
      → IsDistinct env r'.drawn
      → join env h r ≡ ok r'
      → Change (directory r) (directory r')
  join-Change r' distinct e = elim (join_returns r' e) [
    | inl way ↦
        let last : r'.drawn ≡ suc r.drawn =
          ap (λ (x : Room). x.drawn) (sym way.3) ∙ entered_drawn in
        subst (λ x. Change (directory r) (directory x)) way.3
          (enters-Change way.0 way.1 way.2
            (λ j less. distinct j r.drawn less (omega (arith, last))))
    | inr way ↦ subst (λ x. Change (directory r) (directory x)) way.1 (turned_away-Change way.0)
  ]

pub gone-Change :
    (env : Env) (id : ℕ) (r r' : Room)
    → IsKept env r
    → without id r ≡ r'
    → Change (directory r) (directory r') × IsKept env r'
gone-Change env id r r' kept same =
    subst (λ x. Change (directory r) (directory x) × IsKept env x) same
      (without-Change env id r kept, without-IsKept env id r kept)
