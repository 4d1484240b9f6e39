-- ===== src/Reap/Laws.antt =====
-- internal/reap/reap.go: a delete rides on the landed check alone.
use mathlib.Core.List.Memᴰ
use frit.Base.{
  ℕ, ◌≡◌, refl, ap, Bool, Bool-cases, inl, inr, List, [], ◌∷◌, map, Memᴰ, Text, is_empty,
}
use frit.Gitwt.{Worktree}
use frit.Reap.{Decision, decide}

-- A decision clears its worktree exactly where the check reads its branch as landed.
abbrev pub Clears : ℕ → (Text → Bool) → Decision → Type 0
Clears id landed d =
    (d.plan_id ≡ id)
    × (d.branch ≡ d.worktree.branch)
    × (is_empty d.refused ≡ landed d.worktree.branch)

-- Each decision of `Decide` is under the plan's id and on its worktree's own branch, and clears the
-- worktree exactly where the landed check holds of that branch.
pub decide-Clears :
    (id : ℕ) (ws : List Worktree) (landed : Text → Bool) (d : Decision)
    → Memᴰ d (decide id ws landed)
    → Clears id landed d
unfolding decide
decide-Clears id [] landed d m = absurd (Memᴰ.not-nil m)
decide-Clears id (w ∷ ws) landed d (Memᴰ.head e) = elim (Bool-cases (landed w.branch)) [
  | inl cleared ↦ rw (e, cleared) (refl, refl, refl)
  | inr other ↦ rw (e, other) (refl, refl, refl)
]
decide-Clears id (w ∷ ws) landed d (Memᴰ.tail m) = decide-Clears id ws landed d m

-- `Decide` answers once for every worktree of the lane, in their order.
pub map-decide :
    (id : ℕ) (ws : List Worktree) (landed : Text → Bool)
    → map (λ d. d.worktree) (decide id ws landed) ≡ ws
unfolding decide
map-decide id [] landed = refl
map-decide id (w ∷ ws) landed = ap (λ t. w ∷ t) (map-decide id ws landed)
