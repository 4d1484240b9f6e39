-- ===== src/Dispatch/Laws.antt =====
-- internal/dispatch/dispatch.go: which phase is dispatched.
use mathlib.Core.List.Memᴰ
use frit.Base.{
  ◌≡◌, refl, ap, ◌⊎◌, inl, inr, Bool, true, false, ◌||◌, Bool-cases, none, some, List, [], ◌∷◌,
  ◌++◌, Memᴰ, Text, is_empty,
}
use frit.Planmeta.{Phase, is_done, is_superseded, first_open_phase}
use frit.Dispatch.{phase_of}

-- The phase is done or superseded.
abbrev pub closed : Phase → Bool
closed p = is_done p.status || is_superseded p.status

abbrev pub AllClosed : List Phase → Type 0
AllClosed ps = (q : Phase) → Memᴰ q ps → closed q ≡ true

-- The ledger up to its first open phase, that phase, and what comes behind it.
pub record FirstOpen (ps : List Phase) (p : Phase) : Type 0 where
  pub before : List Phase
  pub after : List Phase
  pub split : ps ≡ before ++ p ∷ after
  pub before_closed : AllClosed before
  pub open_there : closed p ≡ false

closed_cons : (p : Phase) (ps : List Phase) → closed p ≡ true → AllClosed ps → AllClosed (p ∷ ps)
closed_cons p ps c h q (Memᴰ.head e) = rw e c
closed_cons p ps c h q (Memᴰ.tail m) = h q m

first_open_phase-FirstOpen :
    (ps : List Phase)
    → ((p : Phase) × (first_open_phase ps ≡ some p) × FirstOpen ps p)
      ⊎ (first_open_phase ps ≡ none) × AllClosed ps
unfolding first_open_phase
first_open_phase-FirstOpen [] = inr (refl, λ q m. absurd (Memᴰ.not-nil m))
first_open_phase-FirstOpen (p ∷ ps) = elim (Bool-cases (closed p)) [
  | inr o ↦ rw o (
      inl (
        p,
        refl,
        record {
          before = [];
          after = ps;
          split = refl;
          before_closed = λ q m. absurd (Memᴰ.not-nil m);
          open_there = o;
        },
      ))
  | inl c ↦ rw c (elim (first_open_phase-FirstOpen ps) [
    | inr (e, all) ↦ inr (e, closed_cons p ps c all)
    | inl (q, e, f) ↦ inl (
      q,
      e,
      record {
        before = p ∷ f.before;
        after = f.after;
        split = ap (λ t. p ∷ t) f.split;
        before_closed = closed_cons p f.before c f.before_closed;
        open_there = f.open_there;
      },
    )
  ])
]

-- An override is dispatched as it is. Without one, a plan with no phases is dispatched whole; a plan
-- with phases by the number of its first open one, or not at all, and then all its phases are closed.
pub phase_of_total :
    (ps : List Phase) (override : Text)
    → ((is_empty override ≡ false) × (phase_of ps override ≡ some override))
      ⊎ ((is_empty override ≡ true) × (ps ≡ []) × (phase_of ps override ≡ some []))
      ⊎ ((is_empty override ≡ true)
          × (p : Phase) × (phase_of ps override ≡ some p.n)
          × FirstOpen ps p)
      ⊎ ((is_empty override ≡ true) × (phase_of ps override ≡ none) × AllClosed ps)
unfolding phase_of
phase_of_total [] override = elim (Bool-cases (is_empty override)) [
  | inl bare ↦ rw bare (inr (inl (refl, refl, refl)))
  | inr given ↦ rw given (inl (refl, refl))
]
phase_of_total (p ∷ ps) override = elim (Bool-cases (is_empty override)) [
  | inr given ↦ rw given (inl (refl, refl))
  | inl bare ↦ rw bare (elim (first_open_phase-FirstOpen (p ∷ ps)) [
    | inl (q, e, f) ↦ rw e (inr (inr (inl (refl, q, refl, f))))
    | inr (e, all) ↦ rw e (inr (inr (inr (refl, refl, all))))
  ])
]
