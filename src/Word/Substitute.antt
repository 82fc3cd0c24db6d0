-- ===== src/Word/Substitute.antt =====
-- `substitudeVariable`: the loop with its positions, and what it does to a word's meaning.
use woorpje.Common.{
  ℕ, ◌≡◌, refl, ap, ◌∙◌, sym, List, [], ◌∷◌, ◌++◌, append_assoc, append-nil, arith, true, false,
  Bool, ◌||◌, if◌then◌else◌, ◌==◌, Bool-cases, inl, inr,
}
use woorpje.Word.Defs.{Entry, Word, variable, terminal, sequence, same}
use woorpje.Word.Value.{Assignment, value, value-append}

-- The loop's state: `newWord`, the entries in `[last_pos, it)`, `ranOnce` and `replaced`. Before the
-- first hit `last_pos` is `word.begin()`.
pub record Scan : Type 0 where
  pub new_word : Word
  pub pending : Word
  pub ran_once : Bool
  pub replaced : Bool

unfoldable pub scan_step : Entry → Word → Entry → Scan → Scan
scan_step v to e s =
    if same e v
    then record {
      new_word = (if s.ran_once then s.new_word ++ s.pending else s.new_word) ++ to;
      pending = [];
      ran_once = true;
      replaced = true;
    }
    else record s { pending = s.pending ++ e ∷ []; ran_once = true }

unfoldable pub scan : Entry → Word → Word → Scan → Scan
unfolding scan_step
scan v to [] s = s
scan v to (e ∷ w) s = scan v to w (scan_step v to e s)

abbrev pub scan_start : Scan
scan_start = record { new_word = []; pending = []; ran_once = false; replaced = false }

-- The new word, and whether anything was replaced. After a hit `last_pos` is past `word.begin()`, so
-- the tail is inserted unless it is empty.
unfoldable pub substitude_variable : Entry → Word → Word → Word × Bool
unfolding scan
substitude_variable v to w =
    let s = scan v to w scan_start in
    if s.replaced then (s.new_word ++ s.pending, true) else (w, false)

-- Each occurrence replaced, and all else kept.
unfoldable pub replace_all : Entry → Word → Word → Word
replace_all v to [] = []
replace_all v to (e ∷ w) = (if same e v then to else e ∷ []) ++ replace_all v to w

unfoldable pub occurs : Entry → Word → Bool
occurs v [] = false
occurs v (e ∷ w) = same e v || occurs v w

-- While `ran_once` is false nothing is pending.
abbrev Fresh : Scan → Type 0
Fresh s = (if s.ran_once then [] else s.pending) ≡ []

scan_step_lem :
    (v : Entry) (to : Word) (e : Entry) (s : Scan)
    → Fresh s
    → Fresh (scan_step v to e s)
      × ((scan_step v to e s).new_word ++ (scan_step v to e s).pending
          ≡ (s.new_word ++ s.pending) ++ (if same e v then to else e ∷ []))
      × ((scan_step v to e s).replaced ≡ (same e v || s.replaced))
unfolding scan_step
scan_step_lem v to e s f = elim (Bool-cases (same e v)) [
  | inl h ↦ rw h (refl, hit s.ran_once s.pending f, refl)
  | inr h ↦ rw h (refl, sym (append_assoc s.new_word s.pending (e ∷ [])), refl)
]
  where
    hit :
        (b : Bool) (p : Word)
        → (if b then [] else p) ≡ []
        → ((if b then s.new_word ++ p else s.new_word) ++ to) ++ [] ≡ (s.new_word ++ p) ++ to
    hit true p f = append-nil _
    hit false p f =
        append-nil _
        ∙ ap (λ z. z ++ to) (sym (append-nil s.new_word) ∙ ap (λ z. s.new_word ++ z) (sym f))

scan_lem :
    (v : Entry) (to w : Word) (s : Scan)
    → Fresh s
    → ((scan v to w s).new_word ++ (scan v to w s).pending
        ≡ (s.new_word ++ s.pending) ++ replace_all v to w)
      × ((scan v to w s).replaced ≡ (occurs v w || s.replaced))
unfolding scan replace_all occurs
scan_lem v to [] s f = (sym (append-nil _), refl)
scan_lem v to (e ∷ w) s f =
    let (f', a, r) = scan_step_lem v to e s f in
    let (b, r') = scan_lem v to w (scan_step v to e s) f' in
    (
      b ∙ ap (λ z. z ++ replace_all v to w) a ∙ append_assoc (s.new_word ++ s.pending) _ _,
      ground arith,
    )

replace_all-absent : (v : Entry) (to w : Word) → occurs v w ≡ false → replace_all v to w ≡ w
unfolding replace_all occurs
replace_all-absent v to [] h = refl
replace_all-absent v to (e ∷ w) h =
    let a : same e v ≡ false = ground arith in
    rw a (ap (λ z. e ∷ z) (replace_all-absent v to w (ground arith)))

-- `substitudeVariable` replaces each occurrence and keeps all else, and it answers whether there was
-- an occurrence.
pub substitude_variable_lem :
    (v : Entry) (to w : Word) → substitude_variable v to w ≡ (replace_all v to w, occurs v w)
unfolding substitude_variable
substitude_variable_lem v to w =
    let (a, r) = scan_lem v to w scan_start refl in
    elim (Bool-cases (occurs v w)) [
      | inl h ↦ (let t : (scan v to w scan_start).replaced ≡ true = ground arith in rw (t, h, a))
      | inr h ↦
          (let t : (scan v to w scan_start).replaced ≡ false = ground arith in
            rw (t, h, replace_all-absent v to w h))
    ]

-- Under the changed assignment the word means what the substituted word means.
abbrev pub update : Assignment → ℕ → List ℕ → Assignment
update σ x u y = if y == x then u else σ y

pub value-replace_all :
    (σ : Assignment) (x : ℕ) (to w : Word)
    → value σ (replace_all (variable x) to w) ≡ value (update σ x (value σ to)) w
unfolding value replace_all same
value-replace_all σ x to [] = refl
value-replace_all σ x to (variable y ∷ w) = elim (Bool-cases (y == x)) [
  | inl h ↦ rw h (value-append σ to _ ∙ ap (λ z. value σ to ++ z) (value-replace_all σ x to w))
  | inr h ↦ rw h (ap (λ z. σ y ++ z) (value-replace_all σ x to w))
]
value-replace_all σ x to (terminal a ∷ w) = ap (λ z. a ∷ z) (value-replace_all σ x to w)
value-replace_all σ x to (sequence s ∷ w) = ap (λ z. s ++ z) (value-replace_all σ x to w)

-- Substituting a word for a variable means what the word before means where the variable stands for
-- the value of that word.
pub value-substitude_variable :
    (σ : Assignment) (x : ℕ) (to w : Word)
    → value σ (substitude_variable (variable x) to w).0 ≡ value (update σ x (value σ to)) w
value-substitude_variable σ x to w =
    ap (λ z. value σ z.0) (substitude_variable_lem (variable x) to w) ∙ value-replace_all σ x to w
