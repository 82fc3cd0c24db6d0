-- ===== src/Simplify/Side.antt =====
-- What a reducer needs of the end that it works at: how entries join there, and what `fits` and `diff`
-- say of two sequences.
use woorpje.Common.{ℕ, ◌≡◌, Bool, true, false, List}

pub record Side : Type 0 where
  pub fits : List ℕ → List ℕ → Bool
  pub diff : List ℕ → List ℕ → List ℕ
  pub join : List ℕ → List ℕ → List ℕ
  pub join_assoc : (a b c : List ℕ) → join (join a b) c ≡ join a (join b c)
  pub join_cancel : (a b c : List ℕ) → join a b ≡ join a c → b ≡ c
  pub fits_diff : (a b : List ℕ) → fits a b ≡ true → b ≡ join a (diff b a)
  pub mismatch :
      (a b v w : List ℕ) → fits a b ≡ false → fits b a ≡ false → join a v ≡ join b w → a ≡ b
