-- ===== src/Encoding/Represent.antt =====
-- A substitution as a valuation of the variables of libs/solvers/satencoding/regular, and back.
use woorpje.Common.{
  ℕ, zero, suc, ◌≡◌, ◌↔◌, inl, inr, refl, sym, ap, ap₂, ◌∙◌, subst, some, none, List, [], ◌∷◌, ◌++◌,
  arith,
}
use mathlib.Core.List.{map}
use woorpje.Word.Defs.{Word, variable, terminal, sequence, iterate}
use woorpje.Word.Value.{Assignment, value, value-iterate}
use woorpje.Propositional.Literal.{Valuation}
use woorpje.Encoding.Defs.{Encoder, Pattern, slots, fill, filled_pattern}
use woorpje.Encoding.Meaning.{Spells}
use woorpje.Encoding.Rows.{map-append}
use woorpje.Encoding.Promise.{map-back}
use woorpje.Encoding.Substitutions.{Carries, Represents, NoSequence, iterate-NoSequence}
use woorpje.Encoding.Decode.{
  IsExact, found, held, decoded, solution, found_only, found_nothing, other, HasWord-solution,
}

module _ (en : Encoder) (A : Valuation) (exact : IsExact en A)
    (blank : (c : ℕ) → ¬ (en.t_indices c ≡ en.sigma_size)) where
  decoded-Carries :
      (x j n : ℕ) (u : List ℕ) → Carries en A x j n u → decoded en A x j n ≡ map en.t_indices u
  unfolding decoded held
  decoded-Carries x j zero [] h = refl
  decoded-Carries x j zero (c ∷ u) h = absurd h
  decoded-Carries x j (suc n) [] (i, h) =
      let d : found en.sigma_size (λ l. A (en.variable_vars x j l)) ≡ none =
        found_nothing en.sigma_size _
          (λ l u. (let m = exact.only_one x j l en.sigma_size u i in omega arith)) in
      rw d (decoded-Carries x (suc j) n [] h)
  decoded-Carries x j (suc n) (c ∷ u) (t, h) =
      let k = en.t_indices c in
      let d : found en.sigma_size (λ l. A (en.variable_vars x j l)) ≡ some k =
        found_only en.sigma_size _ k t (other k en.sigma_size (blank c) (exact.in_alphabet x j k t))
          (λ l u. exact.only_one x j l k u t) in
      rw d (ap (λ z. k ∷ z) (decoded-Carries x (suc j) n u h))

-- The substitution can be read back.
solution-Represents :
    (en : Encoder) (A : Valuation) (σ : Assignment)
    → IsExact en A
    → ((c : ℕ) → ¬ (en.t_indices c ≡ en.sigma_size))
    → ((c : ℕ) → en.index2t (en.t_indices c) ≡ c)
    → Represents en A σ
    → (x : ℕ) → solution en A x ≡ σ x
solution-Represents en A σ exact blank back h x =
    ap (map en.index2t) (
      decoded-Carries en A exact blank (en.v_indices x) 0 (en.max_padding (en.v_indices x)) (σ x)
        (h x))
    ∙ map-back en back (σ x)

value-cong : (σ τ : Assignment) → ((x : ℕ) → σ x ≡ τ x) → (w : Word) → value σ w ≡ value τ w
unfolding value
value-cong σ τ h [] = refl
value-cong σ τ h (variable x ∷ w) = ap₂ (λ a b. a ++ b) (h x) (value-cong σ τ h w)
value-cong σ τ h (terminal a ∷ w) = ap (λ z. a ∷ z) (value-cong σ τ h w)
value-cong σ τ h (sequence s ∷ w) = ap (λ z. s ++ z) (value-cong σ τ h w)

module _ (en : Encoder) (A : Valuation) where
  slots-Spells :
      (x j n : ℕ) (u : List ℕ) (ps : Pattern) (ks : List ℕ)
      → Carries en A x j n u
      → Spells en A ps ks
      → Spells en A (slots en x j n ++ ps) (map en.t_indices u ++ ks)
  unfolding slots
  slots-Spells x j zero [] ps ks h s = s
  slots-Spells x j zero (c ∷ u) ps ks h s = absurd h
  slots-Spells x j (suc n) [] ps ks (i, h) s = inr (i, slots-Spells x (suc j) n [] ps ks h s)
  slots-Spells x j (suc n) (c ∷ u) ps ks (t, h) s =
      inl (en.t_indices c, _, t, refl, slots-Spells x (suc j) n u ps ks h s)

  fill-Spells :
      (σ : Assignment) (w : Word)
      → Represents en A σ
      → NoSequence w
      → Spells en A (fill en w) (map en.t_indices (value σ w))
  unfolding fill value
  fill-Spells σ [] h q = refl
  fill-Spells σ (terminal a ∷ w) h q = (_, refl, fill-Spells σ w h q)
  fill-Spells σ (variable x ∷ w) h q =
      subst (Spells en A (fill en (variable x ∷ w)))
        (sym (map-append en.t_indices (σ x) (value σ w)))
        (slots-Spells (en.v_indices x) 0 (en.max_padding (en.v_indices x)) (σ x) (fill en w) _ (h x)
          (fill-Spells σ w h q))
  fill-Spells σ (sequence s ∷ w) h q = absurd q

-- Under a valuation that represents a substitution, and in which each slot holds one character of the
-- alphabet or none, the filled pattern spells the word that the pattern stands for, and no other. The
-- indices of characters can be read back and none is that of the empty slot.
pub filled_pattern-Spells :
    (en : Encoder) (A : Valuation) (σ : Assignment) (w : Word) (u : List ℕ)
    → IsExact en A
    → ((c : ℕ) → ¬ (en.t_indices c ≡ en.sigma_size))
    → ((c : ℕ) → en.index2t (en.t_indices c) ≡ c)
    → Represents en A σ
    → Spells en A (filled_pattern en w) (map en.t_indices u) ↔ (value σ w ≡ u)
unfolding filled_pattern
filled_pattern-Spells en A σ w u exact blank back h = (
  λ s.
      sym (value-cong (solution en A) σ (solution-Represents en A σ exact blank back h) w)
      ∙ HasWord-solution en A exact (λ z. z ≡ u) w back blank (u, s, refl),
  λ e.
      subst (λ z. Spells en A (filled_pattern en w) (map en.t_indices z)) (value-iterate σ w ∙ e)
        (fill-Spells en A σ (iterate w) h (iterate-NoSequence w)),
)
