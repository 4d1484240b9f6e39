-- ===== src/Discovery/Window/Laws.antt =====
-- What a matured window shows about the looks that were folded into it.
use frit.Base.{
  ℕ, zero, suc, ◌+◌, ◌*◌, ◌≤◌, ◌<◌, ◌≡◌, refl, ap, inl, inr, ◌≢◌, true, false, not, ◌||◌, List, [],
  ◌∷◌, ◌++◌, Text, text_eq, is_empty, Bool-cases, Option, none, arith, length, ◌⊎◌, ltb,
}
use frit.Base.Int.{ℤ, pos, sub_ℕ, ltb_ℤ}
use frit.Base.Strings.Laws.{text_eq_iff}
use frit.Discovery.{Gap}
use frit.Discovery.Window.{Window, fresh, observe, stale_hold}

-- One look: the tip seen and the time.
pub record Look : Type 0 where
  pub tip : Text
  pub at : ℕ

-- The zero `Window`: no state.
abbrev pub empty : Window
empty = record { tip = []; first = 0; last = 0; samples = 0; voided = none }

-- The looks folded in, the newest first.
unfoldable pub observed : ℤ → List Look → Window
observed s_max [] = empty
observed s_max (l ∷ ls) = observe (observed s_max ls) l.tip l.at s_max

-- `recent` is an unbroken run of looks at one tip, the newest first: from `first` to `last`, each
-- at most `s_max` behind the next older one.
pub data Run (s_max : ℤ) (tip : Text) : ℕ → ℕ → List Look → Type 0 where
  start : {t : ℕ} {l : Look} → l.tip ≡ tip → l.at ≡ t → Run s_max tip t t (l ∷ [])
  later :
      {first last t : ℕ} {l : Look} {ls : List Look}
      → l.tip ≡ tip
      → l.at ≡ t
      → ltb_ℤ s_max (sub_ℕ t last) ≡ false
      → Run s_max tip first last ls
      → Run s_max tip first t (l ∷ ls)

-- The looks end in a run that the window describes.
pub record Explains (s_max : ℤ) (ls : List Look) (w : Window) : Type 0 where
  pub recent : List Look
  pub older : List Look
  pub split : ls ≡ recent ++ older
  pub run : Run s_max w.tip w.first w.last recent
  pub counted : length recent ≡ w.samples

restart-Explains :
    (s_max : ℤ) (l : Look) (ls : List Look) (v : Option Gap)
    → Explains s_max (l ∷ ls) (fresh l.tip l.at v)
restart-Explains s_max l ls v = record {
  recent = l ∷ [];
  older = ls;
  split = refl;
  run = Run.start refl refl;
  counted = refl;
}

observe-Explains :
    (s_max : ℤ) (l : Look) (ls : List Look) (w : Window)
    → (w.tip ≢ [] → Explains s_max ls w)
    → Explains s_max (l ∷ ls) (observe w l.tip l.at s_max)
unfolding observe
observe-Explains s_max l ls w h = elim (Bool-cases (is_empty w.tip || not (text_eq w.tip l.tip))) [
  | inl new ↦ rw new (restart-Explains s_max l ls none)
  | inr same ↦ elim (Bool-cases (ltb_ℤ s_max (sub_ℕ l.at w.last))) [
    | inl gap ↦ rw (same, gap) (restart-Explains s_max l ls _)
    | inr near ↦
        let e = h (λ nil. ground (arith, nil)) in
        rw (same, near)
          (record {
            recent = l ∷ e.recent;
            older = e.older;
            split = ap (λ r. l ∷ r) e.split;
            run = Run.later (ground (arith, text_eq_iff w.tip l.tip)) refl near e.run;
            counted = omega (arith, e.counted);
          })
  ]
]

observed-Explains :
    (s_max : ℤ) (ls : List Look)
    → (observed s_max ls).tip ≢ []
    → Explains s_max ls (observed s_max ls)
unfolding observed
observed-Explains s_max [] ne = absurd (ne refl)
observed-Explains s_max (l ∷ ls) ne =
    observe-Explains s_max l ls (observed s_max ls) (observed-Explains s_max ls)

-- A run of `k` looks spans at most `k - 1` gaps.
Run_bound :
    (n : ℕ) {tip : Text} {first last : ℕ} {ls : List Look}
    → Run (pos n) tip first last ls
    → last + n ≤ first + length ls * n
Run_bound n (Run.start e a) = omega arith
Run_bound n (Run.later {last = last} {t = t} e a near r) =
    let near' : t ≤ last + n = ground arith in omega (arith, Run_bound n r)

long_run : (k n a b : ℕ) → b + n ≤ a + k * n → a + n * 4 < b → 6 ≤ k
long_run zero n a b h g = absurd (omega arith)
long_run (suc zero) n a b h g = absurd (omega arith)
long_run (suc (suc zero)) n a b h g = absurd (omega arith)
long_run (suc (suc (suc zero))) n a b h g = absurd (omega arith)
long_run (suc (suc (suc (suc zero)))) n a b h g = absurd (omega arith)
long_run (suc (suc (suc (suc (suc zero))))) n a b h g = absurd (omega arith)
long_run (suc (suc (suc (suc (suc (suc k)))))) n a b h g = omega arith

stale_hold_facts :
    (w : Window) (now t n : ℕ)
    → stale_hold w now (pos t) (pos n) ≡ true
    → (w.tip ≢ []) × (w.first + t < w.last) × (now ≤ w.last + n)
unfolding stale_hold
stale_hold_facts w now t n h = (λ nil. ground (arith, nil), ground arith, ground arith)

ltb-cases : (a b : ℕ) → (a < b) ⊎ (b ≤ a)
ltb-cases a b = elim (Bool-cases (ltb a b)) [
  | inl h ↦ inl (ground arith)
  | inr h ↦ inr (ground arith)
]

-- A hold reads as stale only when the last looks form an unbroken run at one tip, each at most the
-- bound behind the next older one, that spans more than the window, the latest of them within the
-- bound of now. As many bounds as the run has looks add up to more than the window and one bound;
-- and the bound is more than a quarter of the window or the run has six looks or more.
pub stale_hold_sound :
    (n t now : ℕ) (ls : List Look)
    → stale_hold (observed (pos n) ls) now (pos t) (pos n) ≡ true
    → (recent : List Look) × (older : List Look) × (tip : Text) × (first : ℕ) × (last : ℕ) × (ls
        ≡ recent ++ older)
      × Run (pos n) tip first last recent
      × (first + t < last)
      × (now ≤ last + n)
      × (t + n < length recent * n)
      × ((t < n * 4) ⊎ (6 ≤ length recent))
stale_hold_sound n t now ls h =
    let w = observed (pos n) ls in
    let (ne, spans, near) = stale_hold_facts w now t n h in
    let e = observed-Explains (pos n) ls ne in
    let bound : w.last + n ≤ w.first + length e.recent * n = Run_bound n e.run in
    (
      e.recent,
      e.older,
      w.tip,
      w.first,
      w.last,
      e.split,
      e.run,
      spans,
      near,
      omega (arith, bound, spans),
      elim (ltb-cases t (n * 4)) [
        | inl wide ↦ inl wide
        | inr narrow ↦ inr (long_run (length e.recent) n w.first w.last bound (omega arith))
      ],
    )

abbrev Describes : Text → ℕ → ℕ → Window → Type 0
Describes tip first last w = (w.tip ≡ tip) × (w.first ≡ first) × (w.last ≡ last)

observe-extends :
    (n : ℕ) (tip : Text) (first last t : ℕ) (l : Look) (w : Window)
    → tip ≢ []
    → Describes tip first last w
    → l.tip ≡ tip
    → l.at ≡ t
    → ltb_ℤ (pos n) (sub_ℕ t last) ≡ false
    → Describes tip first t (observe w l.tip l.at (pos n))
unfolding observe
observe-extends n [] first last t l w ne d e a near = absurd (ne refl)
observe-extends n (c ∷ cs) first last t l w ne d e a near = ground (arith, text_eq_iff w.tip l.tip)

observed_run :
    (n : ℕ) {tip : Text} {first last : ℕ} {ls : List Look}
    → tip ≢ []
    → Run (pos n) tip first last ls
    → Describes tip first last (observed (pos n) ls)
unfolding observed observe
observed_run n ne (Run.start e a) = ground arith
observed_run n {tip} ne (Run.later {first} {last} {t} {l} {ls} e a near r) =
    observe-extends n tip first last t l (observed (pos n) ls) ne (observed_run n ne r) e a near

stale_of_facts :
    (w : Window) (n t now : ℕ) {tip : Text} {first last : ℕ}
    → tip ≢ []
    → 0 < first
    → Describes tip first last w
    → first + t < last
    → now ≤ last + n
    → stale_hold w now (pos t) (pos n) ≡ true
unfolding stale_hold
stale_of_facts w n t now {tip = []} ne p d spans near = absurd (ne refl)
stale_of_facts w n t now {tip = c ∷ cs} ne p d spans near = ground arith

-- A tip that is looked at from a cold start, each look within the bound of the one before, reads as
-- stale once the looks span more than the window, as long as the latest is within the bound of now.
pub stale_hold_complete :
    (n t now : ℕ) {tip : Text} {first last : ℕ} {ls : List Look}
    → tip ≢ []
    → 0 < first
    → Run (pos n) tip first last ls
    → first + t < last
    → now ≤ last + n
    → stale_hold (observed (pos n) ls) now (pos t) (pos n) ≡ true
stale_hold_complete n t now ne p r spans near =
    stale_of_facts _ n t now ne p (observed_run n ne r) spans near
