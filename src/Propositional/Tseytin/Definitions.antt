-- ===== src/Propositional/Tseytin/Definitions.antt =====
-- The clauses of `tseytin_cnf` for a definition, and what they say of the variable that it names.
use woorpje.Common.{
  ℕ, suc, ◌≤◌, ◌<◌, ◌≡◌, ◌↔◌, refl, ap, ap₂, sym, ◌∙◌, Bool, true, false, ◌&&◌, ◌||◌, not, List, [],
  ◌∷◌, ◌++◌, arith,
}
use woorpje.Propositional.Literal.{ℤ, pos, negsuc, abs, Valuation, holds, IsNonzero, holds-neg}
use woorpje.Propositional.Formula.{Junctor, conj, disj, combine}
use woorpje.Propositional.Plural.{IsLiteral}
use woorpje.Propositional.Tseytin.Defs.{
  Definition, Clause, clauses_of, def_clauses, all_clauses, cnf_holds,
}

-- The definition holds under a valuation.
abbrev pub IsMet : Valuation → Definition → Type 0
IsMet A d = A d.name ≡ combine d.junctor (holds A d.left) (holds A d.right)

abbrev pub AllMet : Valuation → List Definition → Type 0
AllMet A [] = Unit
AllMet A (d ∷ ds) = IsMet A d × AllMet A ds

-- The definition is about literals in range.
abbrev pub IsBelow : ℕ → Definition → Type 0
IsBelow b d = IsLiteral b (pos d.name) × IsLiteral b d.left × IsLiteral b d.right

abbrev pub AllBelow : ℕ → List Definition → Type 0
AllBelow b [] = Unit
AllBelow b (d ∷ ds) = IsBelow b d × AllBelow b ds

pub AllMet-append :
    (A : Valuation) (ds es : List Definition) → AllMet A (ds ++ es) ↔ (AllMet A ds × AllMet A es)
AllMet-append A [] es = (λ h. (tt, h), λ h. h.1)
AllMet-append A (d ∷ ds) es =
    let ih = AllMet-append A ds es in
    (λ h. ((h.0, (ih.0 h.1).0), (ih.0 h.1).1), λ h. (h.0.0, ih.1 (h.0.1, h.1)))

pub AllBelow-append :
    (b : ℕ) (ds es : List Definition) → AllBelow b ds → AllBelow b es → AllBelow b (ds ++ es)
AllBelow-append b [] es h k = k
AllBelow-append b (d ∷ ds) es h k = (h.0, AllBelow-append b ds es h.1 k)

pub AllBelow-mono : (b c : ℕ) (ds : List Definition) → b ≤ c → AllBelow b ds → AllBelow c ds
AllBelow-mono b c [] m h = tt
AllBelow-mono b c (d ∷ ds) m h =
    ((omega arith, omega arith, omega arith), AllBelow-mono b c ds m h.1)

cnf_holds-append :
    (A : Valuation) (cs ds : List Clause)
    → cnf_holds A (cs ++ ds) ≡ (cnf_holds A cs && cnf_holds A ds)
unfolding cnf_holds
cnf_holds-append A [] ds = refl
cnf_holds-append A (c ∷ cs) ds = let ih = cnf_holds-append A cs ds in ground arith

conj_table :
    (a b c : Bool)
    → (((not a || (b || false))
          && ((not a || (c || false)) && ((a || (not b || (not c || false))) && true)))
        ≡ true)
      ↔ (a ≡ (b && c))
conj_table true true true = (λ h. refl, λ h. refl)
conj_table true true false = (λ h. cc, λ h. cc)
conj_table true false c = (λ h. cc, λ h. cc)
conj_table false true true = (λ h. cc, λ h. cc)
conj_table false true false = (λ h. refl, λ h. refl)
conj_table false false c = (λ h. refl, λ h. refl)

disj_table :
    (a b c : Bool)
    → (((a || (not b || false))
          && ((a || (not c || false)) && ((not a || (b || (c || false))) && true)))
        ≡ true)
      ↔ (a ≡ (b || c))
disj_table true true c = (λ h. refl, λ h. refl)
disj_table true false true = (λ h. refl, λ h. refl)
disj_table true false false = (λ h. cc, λ h. cc)
disj_table false true c = (λ h. cc, λ h. cc)
disj_table false false true = (λ h. cc, λ h. cc)
disj_table false false false = (λ h. refl, λ h. refl)

clauses_of_iff :
    (A : Valuation) (j : Junctor) (l f1 f2 : ℤ)
    → IsNonzero l
    → IsNonzero f1
    → IsNonzero f2
    → (cnf_holds A (clauses_of j l f1 f2) ≡ true)
      ↔ (holds A l ≡ combine j (holds A f1) (holds A f2))
unfolding cnf_holds clauses_of
clauses_of_iff A conj l f1 f2 p q r =
    rw (holds-neg A l p, holds-neg A f1 q, holds-neg A f2 r)
      (conj_table (holds A l) (holds A f1) (holds A f2))
clauses_of_iff A disj l f1 f2 p q r =
    rw (holds-neg A l p, holds-neg A f1 q, holds-neg A f2 r)
      (disj_table (holds A l) (holds A f1) (holds A f2))

def_clauses_iff :
    (A : Valuation) (b : ℕ) (d : Definition)
    → IsBelow b d
    → (cnf_holds A (def_clauses d) ≡ true) ↔ IsMet A d
unfolding def_clauses
def_clauses_iff A b d h = clauses_of_iff A d.junctor (pos d.name) d.left d.right h.0.0 h.1.0 h.2.0

and_iff : (a b : Bool) → ((a && b) ≡ true) ↔ ((a ≡ true) × (b ≡ true))
and_iff a b = (λ h. ground arith, λ h. ground arith)

-- All clauses hold exactly if all definitions are met.
pub all_clauses_iff :
    (A : Valuation) (b : ℕ) (ds : List Definition)
    → AllBelow b ds
    → (cnf_holds A (all_clauses ds) ≡ true) ↔ AllMet A ds
unfolding all_clauses
all_clauses_iff A b [] h = (λ e. tt, λ e. unfold cnf_holds in refl)
all_clauses_iff A b (d ∷ ds) h =
    let p = def_clauses_iff A b d h.0 in
    let q = all_clauses_iff A b ds h.1 in
    let s = and_iff (cnf_holds A (def_clauses d)) (cnf_holds A (all_clauses ds)) in
    let e = cnf_holds-append A (def_clauses d) (all_clauses ds) in
    (λ k. (let t = s.0 (sym e ∙ k) in (p.0 t.0, q.0 t.1)), λ k. e ∙ s.1 (p.1 k.0, q.1 k.1))

-- Two valuations that agree below a bound.
abbrev pub Agree : ℕ → Valuation → Valuation → Type 0
Agree b A B = (n : ℕ) → n < b → A n ≡ B n

pub holds-Agree :
    (b : ℕ) (A B : Valuation) (l : ℤ) → Agree b A B → abs l < b → holds A l ≡ holds B l
holds-Agree b A B (pos n) g h = g n h
holds-Agree b A B (negsuc n) g h = ap not (g (suc n) h)

-- Definitions in range are met under each valuation that agrees there.
pub AllMet-Agree :
    (b : ℕ) (A B : Valuation) (ds : List Definition)
    → Agree b A B
    → AllBelow b ds
    → AllMet A ds
    → AllMet B ds
AllMet-Agree b A B [] g h m = tt
AllMet-Agree b A B (d ∷ ds) g h m = (
  sym (g d.name h.0.0.1)
      ∙ m.0
      ∙ ap₂ (combine d.junctor) (holds-Agree b A B d.left g h.0.1.1)
          (holds-Agree b A B d.right g h.0.2.1),
  AllMet-Agree b A B ds g h.1 m.1,
)
