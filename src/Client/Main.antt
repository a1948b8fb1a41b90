-- ===== src/Client/Main.antt =====
-- nr_client.cpp: `main`, once the client has been built: what is typed, line by line.
use xrnetwork.Base.{
  ℕ, ◌≡◌, refl, List, [], ◌∷◌, ◌++◌, length, ltb, ◌==◌, if◌then◌else◌, Bool-cases, inl, inr,
}
use xrnetwork.Client.{Client, close}

-- `strlen` sees a line up to its first NUL.
unfoldable pub up_to_nul : List ℕ → List ℕ
up_to_nul [] = []
up_to_nul (c ∷ cs) = let rest = up_to_nul cs in if c == 0 then [] else c ∷ rest

-- `getline(line, 1024)` fails on a line of more than 1023 characters, and at the end of the input.
abbrev pub longest_line : ℕ
longest_line = 1023

-- `std::vector::clear`.
abbrev clear : List ℕ → List ℕ
clear xs = []

-- A line goes to the front of a vector that is cleared at once; then the client is closed.
unfoldable pub main_loop : List (List ℕ) → List ℕ → Client → List ℕ × Client
unfolding up_to_nul close
main_loop [] ptr c = (ptr, close c)
main_loop (line ∷ lines) ptr c =
    let inserted = up_to_nul line ++ ptr in
    let rest = main_loop lines (clear inserted) c in
    if ltb longest_line (length line) then (ptr, close c) else rest

-- Nothing that is typed reaches the client.
main_loop_drops :
    (lines : List (List ℕ)) (ptr : List ℕ) (c : Client) → (main_loop lines ptr c).1 ≡ close c
unfolding main_loop
main_loop_drops [] ptr c = refl
main_loop_drops (line ∷ lines) ptr c = elim (Bool-cases (ltb longest_line (length line))) [
  | inl long ↦ rw (long) refl
  | inr short ↦ rw (short) (main_loop_drops lines _ c)
]
