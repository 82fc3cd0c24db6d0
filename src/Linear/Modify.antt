-- ===== src/Linear/Modify.antt =====
-- `modifyLinearConstraints` of libs/solvers/levis/solver.cpp and `unsatisfiable` against the lengths
-- that meet a constraint.
use woorpje.Common.{
  ℕ, ◌+◌, ◌≡◌, ◌↔◌, true, inl, inr, List, [], ◌∷◌, Option, none, some, if◌then◌else◌, Bool-cases, ℤ,
  pos, negsuc, neg, ◌≤ℤ◌, int_laws, times, times-add, times-none, times-one, times-nonnegative,
  ◌=ℤ◌, to_parts, arith,
}
use mathlib.Core.Option
use woorpje.Word.Defs.{Entry, Word, is_variable, iterate}
use woorpje.Simplify.Defs.{Substitution}
use woorpje.Linear.Defs.{
  VarMultiplicity, LinearConstraint, leq, is_negative, lhs_empty, unsatisfiable, Helper, new_helper,
  lhs_entry, rhs_number, add, spread, look_up, replace_one, replace_variables, modify_one,
  Constraint, linear, other, put, modify_each, modify_linear_constraints,
}
use woorpje.Linear.Builder.{
  Lengths, weight, Satisfies, make_constraint_iff, Balance, add-Balance, Balance-trans,
  balanced_iff, start-Balance, lhs_empty_iff,
}

-- The length of a word's entries, where `L` is asked for the variables.
unfoldable pub word_length : Lengths → List Entry → ℕ
word_length L [] = 0
word_length L (e ∷ w) = (if is_variable e then L e else 1) + word_length L w

abbrev pub length_of : Lengths → Entry → Option Word → ℕ
length_of L e none = L e
length_of L e (some w) = word_length L (iterate w)

-- The lengths before the substitution.
abbrev pub before : Substitution → Lengths → Lengths
before subs L e = length_of L e (look_up e subs)

Balance-refl : (L : Lengths) (h : Helper) → Balance L h h (pos 0) (pos 0)
Balance-refl L h = omega int_laws

-- A balance depends on the values of the sides only.
Balance-cong :
    (L : Lengths) (h i : Helper) (l l' r r' : ℤ)
    → l =ℤ l'
    → r =ℤ r'
    → Balance L h i l r
    → Balance L h i l' r'
Balance-cong L h i l l' r r' p q b = omega int_laws

one_entry-Balance :
    (L : Lengths) (n : ℤ) (e : Entry) (h : Helper)
    → Balance L h
        (if is_variable e then add (lhs_entry e n) h else add (rhs_number (neg n)) h)
        (times n (if is_variable e then L e else 1))
        (pos 0)
one_entry-Balance L n e h = elim (Bool-cases (is_variable e)) [
  | inl v ↦ rw v (add-Balance L (lhs_entry e n) h)
  | inr v ↦
      rw v (let b = add-Balance L (rhs_number (neg n)) h in let k = times-one n in omega int_laws)
]

spread-Balance :
    (L : Lengths) (n : ℤ) (w : List Entry) (h : Helper)
    → Balance L h (spread n w h) (times n (word_length L w)) (pos 0)
unfolding spread word_length
spread-Balance L n [] h =
    let k = times-none n in
    Balance-cong L h h _ _ _ _ (omega (arith, k)) (omega arith) (Balance-refl L h)
spread-Balance L n (e ∷ w) h =
    let i = if is_variable e then add (lhs_entry e n) h else add (rhs_number (neg n)) h in
    let b =
      Balance-trans L h i (spread n w i) _ _ _ _ (one_entry-Balance L n e h)
        (spread-Balance L n w i) in
    let k = to_parts _ _ (times-add n (if is_variable e then L e else 1) (word_length L w)) in
    Balance-cong L h (spread n w i) _ _ _ _ (omega (arith, k)) (omega int_laws) b

replace_one-Balance :
    (L : Lengths) (e : Entry) (n : ℤ) (o : Option Word) (h : Helper)
    → Balance L h (replace_one e n o h) (times n (length_of L e o)) (pos 0)
replace_one-Balance L e n none h = add-Balance L (lhs_entry e n) h
replace_one-Balance L e n (some w) h = spread-Balance L n (iterate w) h

replace_variables-Balance :
    (L : Lengths) (subs : Substitution) (ms : List VarMultiplicity) (h : Helper)
    → Balance L h (replace_variables subs ms h) (weight (before subs L) ms) (pos 0)
unfolding replace_variables weight
replace_variables-Balance L subs [] h = Balance-refl L h
replace_variables-Balance L subs ((e, n) ∷ ms) h =
    let i = replace_one e n (look_up e subs) h in
    Balance-cong L h (replace_variables subs ms i) _ _ _ _ (omega arith) (omega int_laws) (
      Balance-trans L h i (replace_variables subs ms i) _ _ _ _
        (replace_one-Balance L e n (look_up e subs) h) (replace_variables-Balance L subs ms i))

modify_one_iff :
    (L : Lengths) (subs : Substitution) (c : LinearConstraint)
    → Satisfies L (modify_one subs c) ↔ Satisfies (before subs L) c
unfolding modify_one
modify_one_iff L subs c =
    let i = add (rhs_number c.rhs) new_helper in
    let h = replace_variables subs c.variables i in
    let b = start-Balance L h _ _ (
      Balance-cong L new_helper h _ (weight (before subs L) c.variables) _ c.rhs (omega int_laws)
        (omega int_laws)
        (Balance-trans L new_helper i h _ _ _ _ (add-Balance L (rhs_number c.rhs) new_helper)
          (replace_variables-Balance L subs c.variables i))) in
    let k = balanced_iff leq _ _ _ _ b in
    let m = make_constraint_iff L leq h in (λ z. k.0 (m.0 z), λ z. m.1 (k.1 z))

abbrev pub SatisfiesAll : Lengths → List Constraint → Type 0
SatisfiesAll L [] = Unit
SatisfiesAll L (linear c ∷ cs) = Satisfies L c × SatisfiesAll L cs
SatisfiesAll L (other e ∷ cs) = SatisfiesAll L cs

-- `false` means that no lengths satisfy the constraints, and a new list holds of the same lengths.
abbrev pub IsKept : Lengths → Lengths → List Constraint → Option (List Constraint) → Type 0
IsKept L M cs none = ¬ SatisfiesAll M cs
IsKept L M cs (some ds) = SatisfiesAll L ds ↔ SatisfiesAll M cs

put-IsKept :
    (L M : Lengths) (c d : LinearConstraint) (cs : List Constraint) (o : Option (List Constraint))
    → Satisfies L d ↔ Satisfies M c
    → IsKept L M cs o
    → IsKept L M (linear c ∷ cs) (put d o)
put-IsKept L M c d cs o f k = elim (Bool-cases (lhs_empty d)) [
  | inl e ↦ elim (Bool-cases (is_negative d.rhs)) [
    | inl n ↦ rw (e, n) (λ z. (let t = (lhs_empty_iff L d e).0 (f.1 z.0) in cc))
    | inr n ↦ rw (e, n) (drop o k (f.0 ((lhs_empty_iff L d e).1 n)))
  ]
  | inr e ↦ rw e (join o k)
]
  where
    drop :
        (p : Option (List Constraint))
        → IsKept L M cs p
        → Satisfies M c
        → IsKept L M (linear c ∷ cs) p
    drop none k s = λ z. k z.1
    drop (some ds) k s = (λ z. (s, k.0 z), λ z. k.1 z.1)

    join :
        (p : Option (List Constraint))
        → IsKept L M cs p
        → IsKept L M (linear c ∷ cs) (Option.map (λ x. linear d ∷ x) p)
    join none k = λ z. k z.1
    join (some ds) k = (λ z. (f.0 z.0, k.0 z.1), λ z. (f.1 z.0, k.1 z.1))

other-IsKept :
    (L M : Lengths) (e : Entry) (cs : List Constraint) (o : Option (List Constraint))
    → IsKept L M cs o
    → IsKept L M (other e ∷ cs) (Option.map (λ x. other e ∷ x) o)
other-IsKept L M e cs none k = k
other-IsKept L M e cs (some ds) k = k

modify_each-IsKept :
    (L : Lengths) (subs : Substitution) (cs : List Constraint)
    → IsKept L (before subs L) cs (modify_each subs cs)
unfolding modify_each
modify_each-IsKept L subs [] = (λ z. z, λ z. z)
modify_each-IsKept L subs (linear c ∷ cs) =
    put-IsKept L (before subs L) c (modify_one subs c) cs (modify_each subs cs)
      (modify_one_iff L subs c) (modify_each-IsKept L subs cs)
modify_each-IsKept L subs (other e ∷ cs) =
    other-IsKept L (before subs L) e cs (modify_each subs cs) (modify_each-IsKept L subs cs)

-- Under a substitution the new constraints hold of some lengths exactly if the old ones hold of the
-- lengths that the substitution gives, and where the call answers false the old ones do not.
pub modify_linear_constraints-IsKept :
    (L : Lengths) (subs : Substitution) (cs : List Constraint)
    → IsKept L (before subs L) cs (modify_linear_constraints subs cs)
unfolding modify_linear_constraints look_up
modify_linear_constraints-IsKept L [] cs = (λ z. z, λ z. z)
modify_linear_constraints-IsKept L (x ∷ subs) cs = modify_each-IsKept L (x ∷ subs) cs

-- A constraint that unsatisfiable rejects holds of no lengths.
pub unsatisfiable_sound :
    (c : LinearConstraint) (L : Lengths) → unsatisfiable c ≡ true → ¬ Satisfies L c
unfolding unsatisfiable weight
unsatisfiable_sound c L h s = refuse c.variables c.rhs h s
  where
    refuse :
        (ms : List VarMultiplicity) (r : ℤ)
        → unsatisfiable (record { variables = ms; rhs = r }) ≡ true
        → weight L ms ≤ℤ r
        → ⊥
    refuse ms (pos n) h s = cc
    refuse [] (negsuc n) h s = omega arith
    refuse ((e, pos m) ∷ []) (negsuc n) h s = let k = times-nonnegative m (L e) in omega int_laws
    refuse ((e, negsuc m) ∷ []) (negsuc n) h s = cc
    refuse (x ∷ y ∷ ms) (negsuc n) h s = ground arith
