-- ===== src/Regex/Strip/Sound.antt =====
-- `stripPrefix` and `stripSuffix` of libs/words/regconstraint.cpp against the assignments that solve a
-- constraint.
use woorpje.Common.{
  ℕ, ◌≡◌, ◌↔◌, refl, true, false, List, [], ◌∷◌, ◌++◌, reverse, sym, ap, ◌∙◌, subst, reverse-append,
  reverse-reverse, append-nil, ap₂,
}
use mathlib.Core.List.{map}
use mathlib.Core.Path.{fun_ext}
use woorpje.Word.Defs.{Entry, Word, variable, terminal, sequence, iterate}
use woorpje.Word.Value.{Assignment, entry_value, value, value-append, value-iterate}
use woorpje.Regex.Defs.{RegNode}
use woorpje.Regex.Lang.{Lang}
use woorpje.Regex.Derive.{derivative}
use woorpje.Regex.Derivative.Sound.{derivative_sound}
use woorpje.Regex.Reverse.{reverse_node_iff}
use woorpje.Regex.Strip.{
  RegConstraint, split_prefix, derive_each, strip_prefix, reversed, strip_suffix,
}

-- The assignment solves the constraint.
abbrev pub Solves : Assignment → RegConstraint → Type 0
Solves σ c = Lang c.expr (value σ c.pattern)

split_prefix-rest : (w : List Entry) → split_prefix false w ≡ ([], w)
unfolding split_prefix
split_prefix-rest [] = refl
split_prefix-rest (e ∷ w) = ap (λ z. (z.0, e ∷ z.1)) (split_prefix-rest w)

value-split_prefix :
    (σ : Assignment) (w : List Entry)
    → value σ w ≡ (split_prefix true w).0 ++ value σ (split_prefix true w).1
unfolding split_prefix value
value-split_prefix σ [] = refl
value-split_prefix σ (terminal a ∷ w) = ap (λ z. a ∷ z) (value-split_prefix σ w)
value-split_prefix σ (variable x ∷ w) =
    sym (ap (λ z. z.0 ++ (σ x ++ value σ z.1)) (split_prefix-rest w))
value-split_prefix σ (sequence s ∷ w) =
    sym (ap (λ z. z.0 ++ (s ++ value σ z.1)) (split_prefix-rest w))

derive_each_sound :
    (d : List ℕ) (r : RegNode) (w : List ℕ) → Lang (derive_each d r) w → Lang r (d ++ w)
unfolding derive_each
derive_each_sound [] r w h = h
derive_each_sound (c ∷ d) r w h =
    derivative_sound c r (d ++ w) (derive_each_sound d (derivative (c ∷ []) r) w h)

-- An assignment that solves the constraint that stripPrefix returns solves the original one.
pub strip_prefix_sound :
    (σ : Assignment) (c : RegConstraint) → Solves σ (strip_prefix c) → Solves σ c
unfolding strip_prefix
strip_prefix_sound σ c h =
    subst (Lang c.expr) (sym (value-split_prefix σ (iterate c.pattern)) ∙ value-iterate σ c.pattern)
      (derive_each_sound (split_prefix true (iterate c.pattern)).0 c.expr _ h)

-- The assignment to the reversed words.
abbrev backwards : Assignment → Assignment
backwards σ x = reverse (σ x)

value-reverse-append :
    (σ : Assignment) (u v : Word)
    → value σ (reverse (u ++ v)) ≡ value σ (reverse v) ++ value σ (reverse u)
value-reverse-append σ u v =
    ap (value σ) (reverse-append u v) ∙ value-append σ (reverse v) (reverse u)

value-reverse-cons :
    (σ : Assignment) (e : Entry) (w : Word)
    → value σ (reverse (e ∷ w)) ≡ value σ (reverse w) ++ entry_value σ e
unfolding value
value-reverse-cons σ e w =
    value-reverse-append σ (e ∷ []) w ∙ ap (λ z. value σ (reverse w) ++ z) (append-nil _)

value-reverse-terminals :
    (σ : Assignment) (s : List ℕ) → value σ (reverse (map terminal s)) ≡ reverse s
unfolding value
value-reverse-terminals σ [] = refl
value-reverse-terminals σ (a ∷ s) =
    value-reverse-cons σ (terminal a) (map terminal s)
    ∙ ap (λ z. z ++ a ∷ []) (value-reverse-terminals σ s)
    ∙ sym (reverse-append (a ∷ []) s)

value-backwards :
    (σ : Assignment) (w : Word) → value (backwards σ) (reverse (iterate w)) ≡ reverse (value σ w)
unfolding value iterate
value-backwards σ [] = refl
value-backwards σ (variable x ∷ w) =
    value-reverse-cons (backwards σ) (variable x) (iterate w)
    ∙ ap (λ z. z ++ reverse (σ x)) (value-backwards σ w)
    ∙ sym (reverse-append (σ x) (value σ w))
value-backwards σ (terminal a ∷ w) =
    value-reverse-cons (backwards σ) (terminal a) (iterate w)
    ∙ ap (λ z. z ++ a ∷ []) (value-backwards σ w)
    ∙ sym (reverse-append (a ∷ []) (value σ w))
value-backwards σ (sequence s ∷ w) =
    value-reverse-append (backwards σ) (map terminal s) (iterate w)
    ∙ ap₂ (λ y z. y ++ z) (value-backwards σ w) (value-reverse-terminals (backwards σ) s)
    ∙ sym (reverse-append s (value σ w))

reversed-Solves :
    (σ : Assignment) (c : RegConstraint) → Solves (backwards σ) (reversed c) ↔ Solves σ c
reversed-Solves σ c =
    let f = reverse_node_iff c.expr (value (backwards σ) (reverse (iterate c.pattern))) in
    let e = ap reverse (value-backwards σ c.pattern) ∙ reverse-reverse (value σ c.pattern) in
    (λ h. subst (Lang c.expr) e (f.0 h), λ h. f.1 (subst (Lang c.expr) (sym e) h))

backwards-backwards : (σ : Assignment) → backwards (backwards σ) ≡ σ
backwards-backwards σ = fun_ext (λ x. reverse-reverse (σ x))

-- An assignment that solves the constraint that stripSuffix returns solves the original one.
pub strip_suffix_sound :
    (σ : Assignment) (c : RegConstraint) → Solves σ (strip_suffix c) → Solves σ c
unfolding strip_suffix
strip_suffix_sound σ c h =
    let d = strip_prefix (reversed c) in
    let back = subst (λ τ. Solves τ (reversed d)) (sym (backwards-backwards σ)) h in
    (reversed-Solves σ c).0
      (strip_prefix_sound (backwards σ) (reversed c) ((reversed-Solves (backwards σ) d).0 back))
