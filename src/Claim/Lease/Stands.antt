-- ===== src/Claim/Lease/Stands.antt =====
-- internal/claim/lease.go: the commit that a marker is minted on, by `relayBase`.
use frit.Base.{
  [], ◌∷◌, sym, ◌∙◌, ◌≡◌, refl, ◌⊎◌, inl, inr, true, false, ◌||◌, Bool-cases, Text, text_eq,
  is_empty,
}
use frit.Base.Strings.Laws.{text_eq_iff}
use frit.Claim.{LeaseOptions}
use frit.Claim.Fault.{done, failed, lease_diverges}
use frit.Claim.Host.{Host}
use frit.Claim.Push.{local_tip}
use frit.Claim.Read.{is_ancestor}
use frit.Claim.Refs.{lease_branch}
use frit.Claim.Lease.{Stand, relay_base}

absent_or_equal : (s t : Text) → (is_empty s || text_eq s t) ≡ true → (s ≡ []) ⊎ (s ≡ t)
absent_or_equal [] t h = inl refl
absent_or_equal (c ∷ cs) t h = inr ((text_eq_iff (c ∷ cs) t).0 h)

either : (s t : Text) → (s ≡ []) ⊎ (s ≡ t) → (is_empty s || text_eq s t) ≡ true
either [] t k = refl
either (c ∷ cs) t (inl e) = absurd (cc)
either (c ∷ cs) t (inr e) = (text_eq_iff (c ∷ cs) t).1 e

never : true ≡ false → ⊥
never h = cc

module _ {W : Type 0} (host : Host W) (opts : LeaseOptions) (ref from : Text) (w : W) where
  -- The local copy of the ref, and the two questions that are asked of it.
  abbrev pub local : Text
  local = (local_tip host ref w).0

  abbrev pub looked : W
  looked = (local_tip host ref w).1

  -- The local copy is absent or at the tip that was handed.
  abbrev pub Same : Type 0
  Same = (local ≡ []) ⊎ (local ≡ from)

  abbrev pub stand_on : Text → Stand
  stand_on parent = record { parent = parent; seen = local }

  same_or_apart :
      Same × ((is_empty local || text_eq local from) ≡ true)
      ⊎ ¬ Same × ((is_empty local || text_eq local from) ≡ false)
  same_or_apart = elim (Bool-cases (is_empty local || text_eq local from)) [
    | inl same ↦ inl (absent_or_equal local from same, same)
    | inr apart ↦ inr (λ k. never (sym (either local from k) ∙ apart), apart)
  ]

  -- The holder's own transition stands on the tip it was handed where the local copy is absent or at
  -- that tip. Where it is neither, git is asked: the transition stands on the local copy where the tip
  -- is its ancestor, on the tip where that fails and the local copy is the tip's ancestor, and ends in
  -- the error of diverging histories where both fail. What was seen is the local copy each time.
  pub relay_base_total :
      let (ahead, read) = is_ancestor host from local looked in
      let (behind, after) = is_ancestor host local from read in
      (Same × ((relay_base host opts ref from w).0 ≡ done (stand_on from)))
      ⊎ (¬ Same × (ahead ≡ true) × ((relay_base host opts ref from w).0 ≡ done (stand_on local)))
      ⊎ (¬ Same
          × (ahead ≡ false)
          × (behind ≡ true)
          × ((relay_base host opts ref from w).0 ≡ done (stand_on from)))
      ⊎ (¬ Same
          × (ahead ≡ false)
          × (behind ≡ false)
          × ((relay_base host opts ref from w).0
              ≡ failed (lease_diverges opts.plan_id (lease_branch opts.plan_id) local from)))
  unfolding relay_base
  relay_base_total = elim same_or_apart [
    | inl (same, e) ↦ inl (same, rw e refl)
    | inr (apart, e) ↦ elim (Bool-cases (is_ancestor host from local looked).0) [
      | inl ahead ↦ inr (inl (apart, ahead, rw (e, ahead) refl))
      | inr aside ↦
          elim (Bool-cases (is_ancestor host local from (is_ancestor host from local looked).1).0) [
            | inl behind ↦ inr (inr (inl (apart, aside, behind, rw (e, aside, behind) refl)))
            | inr beside ↦ inr (inr (inr (apart, aside, beside, rw (e, aside, beside) refl)))
          ]
    ]
  ]
