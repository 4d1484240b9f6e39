-- ===== src/Doctor/Laws.antt =====
-- What a clean report says of the tiers of a plan's phases.
use frit.Base.{
  ◌≡◌, ◌≢◌, refl, sym, ap, ◌∙◌, ◌⊎◌, ◌↔◌, inl, inr, Bool, true, false, not, Option, none, some,
  List, [], ◌∷◌, Memᴰ, Text, is_empty, filter_map, if◌then◌else◌, Bool-cases, Option-cases,
}
use mathlib.Core.Option.{some-ne-none}
use frit.Planmeta.{Phase, Plan}
use frit.Planmeta.Tiers.{vocab_rank, retiered}
use frit.Planmeta.Tiers.Laws.{
  IsDemanding, vocab_rank-IsWidened, most_demanding_tier_ranked_by-IsDemanding,
}
use frit.Doctor.{
  Check, Finding, is_known, bad_tier, phase_gap, check_plan, execution_row, tier, finding,
}

-- A row whose two tiers are known, or whose first unknown one is empty: an empty one hides the other.
abbrev pub IsClean : List Text → Phase → Type 0
IsClean vocab ph =
    (ph.has_execution_row ≡ true)
    × ((is_known vocab ph.design ≡ false) × (ph.design ≡ [])
        ⊎ (is_known vocab ph.design ≡ true)
          × ((is_known vocab ph.implement ≡ true) ⊎ (ph.implement ≡ [])))

is_empty_iff : (t : Text) → is_empty t ≡ true → t ≡ []
is_empty_iff [] h = refl
is_empty_iff (x ∷ xs) h = absurd (cc)

nothing_bad :
    (known_design known_implement : Bool) (design implement : Text)
    → ((if not known_design then design else if not known_implement then implement else []) ≡ [])
      ↔ ((known_design ≡ false) × (design ≡ [])
          ⊎ (known_design ≡ true) × ((known_implement ≡ true) ⊎ (implement ≡ [])))
nothing_bad true true d i = (λ h. inr (refl, inl refl), λ c. refl)
nothing_bad true false d i = (
  λ h. inr (refl, inr h),
  λ c. elim c [ inl (e, h) ↦ absurd (cc) | inr (e, inl h) ↦ absurd (cc) | inr (e, inr h) ↦ h ],
)
nothing_bad false k d i =
    (λ h. inl (refl, h), λ c. elim c [ inl (e, h) ↦ h | inr (e, h) ↦ absurd (cc) ])

phase_gap-IsClean :
    (vocab : List Text) (ph : Phase) → (phase_gap ph vocab ≡ none) ↔ IsClean vocab ph
unfolding bad_tier
phase_gap-IsClean vocab ph = (there, back)
  where
    bad : Text
    bad = bad_tier ph.design ph.implement vocab

    iff : (bad ≡ []) ↔ (
        (is_known vocab ph.design ≡ false) × (ph.design ≡ [])
        ⊎ (is_known vocab ph.design ≡ true)
          × ((is_known vocab ph.implement ≡ true) ⊎ (ph.implement ≡ [])))
    iff =
        nothing_bad (is_known vocab ph.design) (is_known vocab ph.implement) ph.design ph.implement

    there : phase_gap ph vocab ≡ none → IsClean vocab ph
    there h = elim (Bool-cases ph.has_execution_row) [
      | inr n ↦ absurd (some-ne-none (execution_row ph.n) (rw n at h))
      | inl y ↦ elim (Bool-cases (is_empty bad)) [
        | inr n ↦ absurd (some-ne-none (tier ph.n bad) (rw (y, n) at h))
        | inl e ↦ (y, iff.0 (is_empty_iff bad e))
      ]
    ]

    back : IsClean vocab ph → phase_gap ph vocab ≡ none
    back (y, c) = let e : bad ≡ [] = iff.1 c in rw (y, e) refl

filter_map-none :
    {A B : Type 0} (f : A → Option B) (xs : List A)
    → (filter_map f xs ≡ []) ↔ ((x : A) → Memᴰ x xs → f x ≡ none)
filter_map-none f [] = (λ h x m. elim m [ ], λ h. refl)
filter_map-none {A} {B} f (x ∷ xs) = elim (Option-cases (f x)) [
  | inr (b, e) ↦ (
    λ h. absurd (cons_not_nil (rw (e, filter_map) at h)),
    λ h. absurd (some-ne-none b (sym e ∙ h x (Memᴰ.head refl))),
  )
  | inl e ↦ (
    λ h y m. at_each (filter_map-none f xs).0 e (rw (e, filter_map) at h) m,
    λ h. rw (e, filter_map) ((filter_map-none f xs).1 (λ y m. h y (Memᴰ.tail m))),
  )
]
  where
    cons_not_nil : {b : B} {bs : List B} → (b ∷ bs ≡ []) → ⊥
    cons_not_nil h = cc

    at_each :
        {y : A}
        → (filter_map f xs ≡ [] → (z : A) → Memᴰ z xs → f z ≡ none)
        → f x ≡ none
        → filter_map f xs ≡ []
        → Memᴰ y (x ∷ xs)
        → f y ≡ none
    at_each ih e h (Memᴰ.head k) = ap f k ∙ e
    at_each {y} ih e h (Memᴰ.tail m) = ih h y m

-- `checkPlan` finds no gap exactly where every phase has an Execution row whose two tiers are known, or
-- whose first unknown one is empty.
pub check_plan-IsClean :
    (p : Plan) (path : Text) (vocab : List Text)
    → (check_plan p path vocab ≡ []) ↔ ((ph : Phase) → Memᴰ ph p.phases → IsClean vocab ph)
unfolding check_plan
check_plan-IsClean p path vocab = (
  λ h ph m.
      (phase_gap-IsClean vocab ph).0 (gap_none ph ((filter_map-none report p.phases).0 h ph m)),
  λ h.
      (filter_map-none report p.phases).1
        (λ ph m. ap (finding p.id path) ((phase_gap-IsClean vocab ph).1 (h ph m))),
)
  where
    report : Phase → Option Finding
    report ph = finding p.id path (phase_gap ph vocab)

    none_of : (c : Option Check) → finding p.id path c ≡ none → c ≡ none
    none_of none h = refl
    none_of (some c) h = absurd (cc)

    gap_none : (ph : Phase) → report ph ≡ none → phase_gap ph vocab ≡ none
    gap_none ph h = none_of (phase_gap ph vocab) h

-- A phase with both tiers named in which the report finds no gap gets, under the same vocabulary, the
-- more demanding of the two: its design or its implementation tier, ranked at least as high as each.
pub clean-IsDemanding :
    (vocab : List Text) (ph : Phase)
    → phase_gap ph vocab ≡ none
    → ph.design ≢ []
    → ph.implement ≢ []
    → IsDemanding (vocab_rank vocab) ph.design ph.implement (retiered (vocab_rank vocab) ph).tier
clean-IsDemanding vocab ph h d i =
    let (row, clean) = (phase_gap-IsClean vocab ph).0 h in
    rw row (elim clean [
      | inl (u, e) ↦ absurd (d e)
      | inr (k, inr e) ↦ absurd (i e)
      | inr (k, inl l) ↦
          most_demanding_tier_ranked_by-IsDemanding (vocab_rank vocab) ph.design ph.implement
            ((vocab_rank-IsWidened vocab).ranks ph.design ∙ k)
            ((vocab_rank-IsWidened vocab).ranks ph.implement ∙ l)
    ])
