-- ===== src/Simplify/Ends.antt =====
-- The two ends that `PrefixReducer` and `SuffixReducer` work at, and the solutions of an equation.
use woorpje.Common.{
  ℕ, suc, ◌+◌, ◌≤◌, ◌≡◌, ◌↔◌, refl, sym, ap, ◌∙◌, Bool, true, false, some, List, [], ◌∷◌, ◌++◌,
  length, length-append, arith, reverse, reverse-append, reverse-reverse, append-nil, append_assoc,
  cons_injective,
}
use mathlib.Core.Option
use native.Mathlib.Decide.{dec_le}
use woorpje.Word.Defs.{Entry, Word}
use woorpje.Word.Value.{Assignment, entry_value, value, value-append}
use woorpje.Word.Sequence.{
  agrees, is_prefix, is_suffix, minus_prefix, chop_tail, is_prefix-minus_prefix,
  is_suffix-chop_tail, append_cancel,
}
use woorpje.Simplify.Side.{Side}
use woorpje.Simplify.Defs.{
  Simplified, reduced_satis, just_reduced, reduced_nsatis, Substitution, Reduction, turn,
  prefix_reduce, suffix_reduce,
}
use woorpje.Simplify.Reduce.{joined, Keeps, reduce_loop-Keeps}

-- Two sequences that begin one word agree as far as the shorter goes.
agrees_common : (a b v w : List ℕ) → (a ++ v ≡ b ++ w) → length a ≤ length b → agrees a b ≡ true
unfolding agrees
agrees_common [] b v w e h = refl
agrees_common (x ∷ a) [] v w e h = absurd (omega arith)
agrees_common (x ∷ a) (y ∷ b) v w e h =
    let ih = agrees_common a b v w (cons_injective e) (omega arith) in
    let k : x ≡ y = cc in ground arith

agrees_same : (a b : List ℕ) → agrees a b ≡ true → length a ≡ length b → a ≡ b
unfolding agrees
agrees_same [] [] h l = refl
agrees_same [] (y ∷ b) h l = absurd (omega arith)
agrees_same (x ∷ a) [] h l = absurd (omega arith)
agrees_same (x ∷ a) (y ∷ b) h l =
    let ih = agrees_same a b (ground arith) (omega arith) in let k : x ≡ y = ground arith in cc

-- Which of two sequences is longer decides between them.
prefix_mismatch :
    (a b v w : List ℕ) → is_prefix a b ≡ false → is_prefix b a ≡ false → (a ++ v ≡ b ++ w) → a ≡ b
unfolding is_prefix
prefix_mismatch a b v w h k e = elim (dec_le (length a) (length b)) [
  | yes l ↦ (let g = agrees_common a b v w e l in agrees_same a b g (ground arith))
  | no n ↦ (let g = agrees_common b a w v (sym e) (omega arith) in absurd (ground arith))
]

length-reverse {ℓ} : {A : Type ℓ} (a : List A) → length (reverse a) ≡ length a
length-reverse [] = refl
length-reverse (x ∷ a) =
    ap length (reverse-append (x ∷ []) a)
    ∙ omega (arith, length-append (reverse a) (x ∷ []), length-reverse a)

is_suffix-reverse : (a b : List ℕ) → is_suffix a b ≡ is_prefix (reverse a) (reverse b)
unfolding is_suffix is_prefix
is_suffix-reverse a b = simp (length-reverse)

suffix_mismatch :
    (a b v w : List ℕ) → is_suffix a b ≡ false → is_suffix b a ≡ false → (v ++ a ≡ w ++ b) → a ≡ b
suffix_mismatch a b v w h k e =
    let m =
      prefix_mismatch (reverse a) (reverse b) (reverse v) (reverse w)
        (sym (is_suffix-reverse a b) ∙ h) (sym (is_suffix-reverse b a) ∙ k)
        (sym (reverse-append v a) ∙ ap reverse e ∙ reverse-append w b) in
    sym (reverse-reverse a) ∙ ap reverse m ∙ reverse-reverse b

append_cancel_right : (a b c : List ℕ) → (b ++ a ≡ c ++ a) → b ≡ c
append_cancel_right a b c e =
    sym (reverse-reverse b)
    ∙ ap reverse (
        append_cancel (reverse a) (reverse b) (reverse c)
          (sym (reverse-append b a) ∙ ap reverse e ∙ reverse-append c a))
    ∙ reverse-reverse c

abbrev prefix_side : Side
prefix_side = record {
  fits = is_prefix;
  diff = minus_prefix;
  join = λ a b. a ++ b;
  join_assoc = append_assoc;
  join_cancel = append_cancel;
  fits_diff = is_prefix-minus_prefix;
  mismatch = prefix_mismatch;
}

abbrev suffix_side : Side
suffix_side = record {
  fits = is_suffix;
  diff = chop_tail;
  join = λ a b. b ++ a;
  join_assoc = λ a b c. sym (append_assoc c b a);
  join_cancel = append_cancel_right;
  fits_diff = is_suffix-chop_tail;
  mismatch = suffix_mismatch;
}

-- An assignment solves an equation.
abbrev pub Solves : Assignment → Word → Word → Type 0
Solves σ l r = value σ l ≡ value σ r

-- A result is right: unsatisfiable equations have no solution, satisfied ones have each assignment,
-- and the others have the solutions that the reduced equation has.
abbrev pub IsRight : Word → Word → Reduction → Type 0
IsRight l r x = elim x.outcome [
  | reduced_nsatis ↦ (σ : Assignment) → ¬ Solves σ l r
  | just_reduced ↦ (σ : Assignment) → Solves σ l r ↔ Solves σ x.lhs x.rhs
  | reduced_satis ↦ (σ : Assignment) → Solves σ l r
]

joined_prefix : (b : Bool) (σ : Assignment) (w : Word) → joined prefix_side b σ w ≡ value σ w
unfolding value
joined_prefix b σ [] = refl
joined_prefix b σ (e ∷ w) = ap (λ z. entry_value σ e ++ z) (joined_prefix b σ w)

joined_suffix :
    (b : Bool) (σ : Assignment) (w : Word) → joined suffix_side b σ w ≡ value σ (reverse w)
unfolding value
joined_suffix b σ [] = refl
joined_suffix b σ (e ∷ w) =
    ap (λ z. z ++ entry_value σ e) (joined_suffix b σ w)
    ∙ ap (λ z. value σ (reverse w) ++ z) (sym (append-nil (entry_value σ e)))
    ∙ sym (value-append σ (reverse w) (e ∷ []))
    ∙ ap (value σ) (sym (reverse-append (e ∷ []) w))

-- Solutions carried along equal values.
along : {a b c d : List ℕ} → a ≡ b → c ≡ d → (a ≡ c) ↔ (b ≡ d)
along p q = (λ h. sym p ∙ h ∙ q, λ h. p ∙ h ∙ sym q)

prefix-IsRight : (l r : Word) (x : Reduction) → Keeps prefix_side true l r x → IsRight l r x
prefix-IsRight l r x k = by_outcome x.outcome k
  where
    to :
        (σ : Assignment) (u v : Word)
        → (joined prefix_side true σ u ≡ joined prefix_side true σ v) ↔ Solves σ u v
    to σ u v = along (joined_prefix true σ u) (joined_prefix true σ v)

    by_outcome :
        (o : Simplified)
        → Keeps prefix_side true l r (record x { outcome = o })
        → IsRight l r (record x { outcome = o })
    by_outcome reduced_nsatis k = λ σ h. k σ ((to σ l r).1 h)
    by_outcome just_reduced k = λ σ. (
      λ h. (to σ x.lhs x.rhs).0 ((k σ).0 ((to σ l r).1 h)),
      λ h. (to σ l r).0 ((k σ).1 ((to σ x.lhs x.rhs).1 h)),
    )
    by_outcome reduced_satis k = λ σ. (to σ l r).0 (k σ)

-- `PrefixReducer` ends on each equation, with a result that is right.
pub prefix_reduce-IsRight :
    (l r : Word) (s : Substitution) (c : List Entry)
    → (x : Reduction) × (prefix_reduce l r s c ≡ some x) × IsRight l r x
unfolding prefix_reduce
prefix_reduce-IsRight l r s c =
    let (x, e, k) =
      reduce_loop-Keeps prefix_side true (suc (length l + length r)) l r s c (omega arith) in
    (x, e, prefix-IsRight l r x k)

suffix-IsRight :
    (l r : Word) (x : Reduction)
    → Keeps suffix_side false (reverse l) (reverse r) x
    → IsRight l r (turn x)
suffix-IsRight l r x k = by_outcome x.outcome k
  where
    whole : (σ : Assignment) (u : Word) → joined suffix_side false σ (reverse u) ≡ value σ u
    whole σ u = joined_suffix false σ (reverse u) ∙ ap (value σ) (reverse-reverse u)

    to :
        (σ : Assignment)
        → (joined suffix_side false σ (reverse l) ≡ joined suffix_side false σ (reverse r))
          ↔ Solves σ l r
    to σ = along (whole σ l) (whole σ r)

    rest :
        (σ : Assignment)
        → (joined suffix_side false σ x.lhs ≡ joined suffix_side false σ x.rhs)
          ↔ Solves σ (reverse x.lhs) (reverse x.rhs)
    rest σ = along (joined_suffix false σ x.lhs) (joined_suffix false σ x.rhs)

    by_outcome :
        (o : Simplified)
        → Keeps suffix_side false (reverse l) (reverse r) (record x { outcome = o })
        → IsRight l r (turn (record x { outcome = o }))
    by_outcome reduced_nsatis k = λ σ h. k σ ((to σ).1 h)
    by_outcome just_reduced k =
        λ σ. (λ h. (rest σ).0 ((k σ).0 ((to σ).1 h)), λ h. (to σ).0 ((k σ).1 ((rest σ).1 h)))
    by_outcome reduced_satis k = λ σ. (to σ).0 (k σ)

-- `SuffixReducer` ends on each equation, with a result that is right.
pub suffix_reduce-IsRight :
    (l r : Word) (s : Substitution) (c : List Entry)
    → (x : Reduction) × (suffix_reduce l r s c ≡ some x) × IsRight l r x
unfolding suffix_reduce
suffix_reduce-IsRight l r s c =
    let (x, e, k) =
      reduce_loop-Keeps suffix_side false (suc (length l + length r)) (reverse l) (reverse r) s c
        (omega (arith, length-reverse l, length-reverse r)) in
    (turn x, ap (Option.map turn) e, suffix-IsRight l r x k)
