-- ===== src/Repocfg/Pattern/Laws.antt =====
-- internal/repocfg/pattern.go: what a pattern matches, against the language of its pieces.
use mathlib.Core.List.{append_assoc, append-nil}
use frit.Base.{
  ℕ, ◌≡◌, refl, sym, ◌∙◌, ap, subst, ◌≢◌, ◌⊎◌, inl, inr, Bool, true, false, Bool-cases,
  Option-cases, Option, none, some, List, [], ◌∷◌, ◌++◌, Text, is_empty, all, arith,
}
use frit.Base.Strings.Decimal.{is_digit, parse_int}
use frit.Repocfg.Pattern.{
  Piece, literal, run, any_run, Pattern, not_slash, not_line_feed, spread, expect, through, at_end,
  digits, submatch, match_branch,
}

-- The texts that a sequence of pieces stands for.
abbrev pub Fits : List Piece → Text → Type 0
Fits [] u = u ≡ []
Fits (literal c ∷ ps) u = (x : Text) × (u ≡ c ∷ x) × Fits ps x
Fits (run ∷ ps) u = (w : Text) × (x : Text) × (u ≡ w ++ x) × (all not_slash w ≡ true) × Fits ps x
Fits (any_run ∷ ps) u =
    (w : Text) × (x : Text) × (u ≡ w ++ x) × (all not_line_feed w ≡ true) × Fits ps x

module _ {A : Type 0} (ok : ℕ → Bool) (k : Text → Option A) (c : ℕ) (cs : Text) where
  spread_stop : ok c ≡ false → spread ok k (c ∷ cs) ≡ k (c ∷ cs)
  unfolding spread
  spread_stop f = ground arith

  spread_take : (a : A) → ok c ≡ true → spread ok k cs ≡ some a → spread ok k (c ∷ cs) ≡ some a
  unfolding spread
  spread_take a t e = ground arith

  spread_back : ok c ≡ true → spread ok k cs ≡ none → spread ok k (c ∷ cs) ≡ k (c ∷ cs)
  unfolding spread
  spread_back t e = ground arith

module _ {A : Type 0} where
  -- A run that matches took a stretch of accepted characters, behind which `k` matched.
  spread-some :
      (ok : ℕ → Bool) (k : Text → Option A) (s : Text) (a : A)
      → spread ok k s ≡ some a
      → (w : Text) × (x : Text) × (s ≡ w ++ x) × (all ok w ≡ true) × (k x ≡ some a)
  spread-some ok k [] a e = ([], [], refl, refl, (unfold spread in e))
  spread-some ok k (c ∷ cs) a e = elim (Bool-cases (ok c)) [
    | inr f ↦ ([], c ∷ cs, refl, refl, sym (spread_stop ok k c cs f) ∙ e)
    | inl t ↦ elim (Option-cases (spread ok k cs)) [
      | inl n ↦ ([], c ∷ cs, refl, refl, sym (spread_back ok k c cs t n) ∙ e)
      | inr (a', g) ↦
          let (w, x, p, q, r) = spread-some ok k cs a' g in
          (c ∷ w, x, ap (λ l. c ∷ l) p, rw t q, r ∙ sym (spread_take ok k c cs a' t g) ∙ e)
    ]
  ]

  -- A run that fails has no such stretch.
  spread-none :
      (ok : ℕ → Bool) (k : Text → Option A) (s w x : Text)
      → spread ok k s ≡ none
      → s ≡ w ++ x
      → all ok w ≡ true
      → k x ≡ none
  spread-none ok k [] [] x e p q = subst (λ y. k y ≡ none) p (unfold spread in e)
  spread-none ok k [] (d ∷ w) x e p q = absurd (cc)
  spread-none ok k (c ∷ cs) w x e p q = elim (Bool-cases (ok c)) [
    | inr f ↦ stopped w p q (sym (spread_stop ok k c cs f) ∙ e) f
    | inl t ↦ elim (Option-cases (spread ok k cs)) [
      | inl n ↦ behind w p q (sym (spread_back ok k c cs t n) ∙ e) (spread-none ok k cs) n
      | inr (a', g) ↦ absurd (cc (spread_take ok k c cs a' t g, e))
    ]
  ]
    where
      stopped :
          (w' : Text)
          → c ∷ cs ≡ w' ++ x
          → all ok w' ≡ true
          → k (c ∷ cs) ≡ none
          → ok c ≡ false
          → k x ≡ none
      stopped [] p' q' h f = subst (λ y. k y ≡ none) p' h
      stopped (d ∷ w') p' q' h f = ground arith

      behind :
          (w' : Text)
          → c ∷ cs ≡ w' ++ x
          → all ok w' ≡ true
          → k (c ∷ cs) ≡ none
          → ((v y : Text) → spread ok k cs ≡ none → cs ≡ v ++ y → all ok v ≡ true → k y ≡ none)
          → spread ok k cs ≡ none
          → k x ≡ none
      behind [] p' q' h ih n = subst (λ y. k y ≡ none) p' h
      behind (d ∷ w') p' q' h ih n = ih w' x n (cc) (ground arith)

  expect-some :
      (c : ℕ) (k : Text → Option A) (s : Text) (a : A)
      → expect c k s ≡ some a
      → (x : Text) × (s ≡ c ∷ x) × (k x ≡ some a)
  unfolding expect
  expect-some c k [] a e = absurd (cc)
  expect-some c k (d ∷ s) a e = (s, ground arith, ground arith)

  expect-none :
      (c : ℕ) (k : Text → Option A) (s x : Text) → expect c k s ≡ none → s ≡ c ∷ x → k x ≡ none
  unfolding expect
  expect-none c k [] x e p = absurd (cc)
  expect-none c k (d ∷ s) x e p = ground arith

  -- Pieces that match took a text of their language, behind which `k` matched.
  through-some :
      (ps : List Piece) (k : Text → Option A) (s : Text) (a : A)
      → through ps k s ≡ some a
      → (u : Text) × (v : Text) × (s ≡ u ++ v) × Fits ps u × (k v ≡ some a)
  unfolding through
  through-some [] k s a e = ([], s, refl, refl, e)
  through-some (literal c ∷ ps) k s a e =
      let (x, p, e') = expect-some c (through ps k) s a e in
      let (u, v, q, f, r) = through-some ps k x a e' in
      (c ∷ u, v, p ∙ ap (λ l. c ∷ l) q, (u, refl, f), r)
  through-some (run ∷ ps) k s a e =
      let (w, x, p, t, e') = spread-some not_slash (through ps k) s a e in
      let (u, v, q, f, r) = through-some ps k x a e' in
      (w ++ u, v, p ∙ ap (λ l. w ++ l) q ∙ sym (append_assoc w u v), (w, u, refl, t, f), r)
  through-some (any_run ∷ ps) k s a e =
      let (w, x, p, t, e') = spread-some not_line_feed (through ps k) s a e in
      let (u, v, q, f, r) = through-some ps k x a e' in
      (w ++ u, v, p ∙ ap (λ l. w ++ l) q ∙ sym (append_assoc w u v), (w, u, refl, t, f), r)

  -- Pieces that fail have no such text in front.
  through-none :
      (ps : List Piece) (k : Text → Option A) (s u v : Text)
      → through ps k s ≡ none
      → s ≡ u ++ v
      → Fits ps u
      → k v ≡ none
  unfolding through
  through-none [] k s u v e p f = subst (λ y. k y ≡ none) (p ∙ ap (λ l. l ++ v) f) e
  through-none (literal c ∷ ps) k s u v e p (x, q, f) =
      through-none ps k (x ++ v) x v
        (expect-none c (through ps k) s (x ++ v) e (p ∙ ap (λ l. l ++ v) q)) refl f
  through-none (run ∷ ps) k s u v e p (w, x, q, t, f) =
      through-none ps k (x ++ v) x v
        (spread-none not_slash (through ps k) s w (x ++ v) e
          (p ∙ ap (λ l. l ++ v) q ∙ append_assoc w x v) t)
        refl f
  through-none (any_run ∷ ps) k s u v e p (w, x, q, t, f) =
      through-none ps k (x ++ v) x v
        (spread-none not_line_feed (through ps k) s w (x ++ v) e
          (p ∙ ap (λ l. l ++ v) q ∙ append_assoc w x v) t)
        refl f

-- One digit or more, and nothing else.
abbrev pub IsDigits : Text → Type 0
IsDigits ds = (is_empty ds ≡ false) × (all is_digit ds ≡ true)

module _ (k : Text → Option (Unit {0})) where
  digits-some :
      (s ds : Text)
      → digits k s ≡ some ds
      → (v : Text) × (s ≡ ds ++ v) × IsDigits ds × (k v ≡ some tt)
  unfolding digits
  digits-some [] ds e = absurd (cc)
  digits-some (c ∷ cs) ds e = elim (Bool-cases (is_digit c)) [
    | inr f ↦ absurd (ground arith)
    | inl t ↦ elim (Option-cases (digits k cs)) [
      | inr (ds', g) ↦
          let same : c ∷ ds' ≡ ds = ground arith in
          let (v, p, d, r) = digits-some cs ds' g in
          subst (λ l. (v : Text) × (c ∷ cs ≡ l ++ v) × IsDigits l × (k v ≡ some tt)) same
            (v, ap (λ l. c ∷ l) p, (refl, rw t d.1), r)
      | inl n ↦ elim (Option-cases (k cs)) [
        | inl m ↦ absurd (ground arith)
        | inr (tt, m) ↦
            let same : c ∷ [] ≡ ds = ground arith in
            subst (λ l. (v : Text) × (c ∷ cs ≡ l ++ v) × IsDigits l × (k v ≡ some tt)) same
              (cs, refl, (refl, rw t refl), m)
      ]
    ]
  ]

  digits-none_step :
      (c : ℕ) (cs : Text)
      → digits k (c ∷ cs) ≡ none
      → is_digit c ≡ true
      → (digits k cs ≡ none) × (k cs ≡ none)
  unfolding digits
  digits-none_step c cs e t = elim (Option-cases (digits k cs)) [
    | inr (ds, g) ↦ absurd (ground arith)
    | inl n ↦ elim (Option-cases (k cs)) [ inl m ↦ (n, m) | inr (tt, m) ↦ absurd (ground arith) ]
  ]

  digits-none : (s ds v : Text) → digits k s ≡ none → s ≡ ds ++ v → IsDigits ds → k v ≡ none
  digits-none s [] v e p d = absurd (cc)
  digits-none [] (c ∷ ds) v e p d = absurd (cc)
  digits-none (c ∷ cs) (x ∷ []) v e p d =
      subst (λ l. k l ≡ none) (cc) (digits-none_step c cs e (ground arith)).1
  digits-none (c ∷ cs) (x ∷ y ∷ ds) v e p d =
      digits-none cs (y ∷ ds) v (digits-none_step c cs e (ground arith)).0 (cc) (refl, ground arith)

at_end-some : (s : Text) → at_end s ≡ some tt → s ≡ []
at_end-some [] e = refl
at_end-some (c ∷ cs) e = absurd (cc)

-- A branch of the pattern's language, and the digits that stand at its id.
abbrev pub Reads : Pattern → Text → Text → Type 0
Reads p branch ds =
    (u : Text) × (v : Text) × (branch ≡ u ++ (ds ++ v))
    × Fits p.before u
    × IsDigits ds
    × Fits p.after v

submatch-some : (p : Pattern) (branch ds : Text) → submatch p branch ≡ some ds → Reads p branch ds
unfolding submatch
submatch-some p branch ds e =
    let (u, s, q, f, g) = through-some p.before (digits (through p.after at_end)) branch ds e in
    let (s', q', d, h) = digits-some (through p.after at_end) s ds g in
    let (v, w, q'', f', i) = through-some p.after at_end s' tt h in
    let ends : s' ≡ v = q'' ∙ ap (λ l. v ++ l) (at_end-some w i) ∙ append-nil v in
    (u, v, q ∙ ap (λ l. u ++ l) (q' ∙ ap (λ l. ds ++ l) ends), f, d, f')

some_not_none : {A : Type 0} (a : A) → some a ≢ none
some_not_none a e = cc

submatch-none : (p : Pattern) (branch ds : Text) → submatch p branch ≡ none → ¬ Reads p branch ds
unfolding submatch
submatch-none p branch ds e (u, v, q, f, d, f') =
    let g = through-none p.before (digits (through p.after at_end)) branch u (ds ++ v) e q f in
    let h = digits-none (through p.after at_end) (ds ++ v) ds v g refl d in
    let i = through-none p.after at_end v v [] h (sym (append-nil v)) f' in some_not_none tt i

-- The regular expression of a pattern and the search in it answer for the language of its pieces: a
-- plan id that is reported is spelled by the digits that stand in the branch between a text of the
-- pieces before the id and one of those behind it. No id is reported only where the branch is not of
-- that form, or where the digits that the search settles on spell no 64-bit number.
pub match_branch_total :
    (p : Pattern) (branch : Text)
    → ((id : ℕ) × (ds : Text) × (match_branch p branch ≡ some id)
        × (parse_int ds ≡ some id)
        × Reads p branch ds)
      ⊎ ((ds : Text) × (match_branch p branch ≡ none) × (parse_int ds ≡ none) × Reads p branch ds)
      ⊎ ((match_branch p branch ≡ none) × ((ds : Text) → ¬ Reads p branch ds))
unfolding match_branch
match_branch_total p branch = elim (Option-cases (submatch p branch)) [
  | inl n ↦ rw n (inr (inr (refl, λ ds. submatch-none p branch ds n)))
  | inr (ds, e) ↦ elim (Option-cases (parse_int ds)) [
    | inl m ↦ rw (e, m) (inr (inl (ds, refl, m, submatch-some p branch ds e)))
    | inr (id, m) ↦ rw (e, m) (inl (id, ds, refl, m, submatch-some p branch ds e))
  ]
]
