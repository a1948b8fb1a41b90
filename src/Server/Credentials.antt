-- ===== src/Server/Credentials.antt =====
-- What the server's settings mean.
use xrnetwork.Base.{ℕ, ◌≡◌, ◌↔◌, refl, true, List, [], ◌∷◌, arith}
use xrnetwork.Server.{Login, Server, same_text, verify_credentials, set_credentials}

same_text_refl : (xs : List ℕ) → same_text xs xs ≡ true
unfolding same_text
same_text_refl [] = refl
same_text_refl (x ∷ xs) = ground (arith, same_text_refl xs)

same_text_sound : (xs ys : List ℕ) → same_text xs ys ≡ true → xs ≡ ys
unfolding same_text
same_text_sound [] [] h = refl
same_text_sound [] (y ∷ ys) h = cc
same_text_sound (x ∷ xs) [] h = cc
same_text_sound (x ∷ xs) (y ∷ ys) h = ground (arith, same_text_sound xs ys)

-- Credentials are verified exactly when they are those set last.
pub verify_credentials_iff :
    (c d : Login) (s : Server) → (verify_credentials d (set_credentials c s) ≡ true) ↔ (d ≡ c)
unfolding verify_credentials set_credentials
verify_credentials_iff c d s = (
  λ h. ground (arith, same_text_sound c.login d.login, same_text_sound c.password d.password),
  λ e. rw e (ground (arith, same_text_refl c.login, same_text_refl c.password)),
)
