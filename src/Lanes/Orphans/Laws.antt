-- ===== src/Lanes/Orphans/Laws.antt =====
-- What `Find` reports of a worktree that git calls prunable: one complaint.
use frit.Base.{
  ◌≡◌, ◌≢◌, refl, sym, ap, subst, ◌∙◌, Bool, true, false, ◌&&◌, not, none, some, List, Memᴰ, keep,
  mem-keep, mem_of_mem-keep, mem_of_mem-filter_map, mem_of_mem-concat_map, if◌then◌else◌, arith,
}
use mathlib.Core.Bool.{true≢false}
use frit.Gitwt.{Worktree}
use frit.Lanes.{Lane, has_any, stranded, standing}
use frit.Lanes.Orphans.{Orphans, ForeignCheckout, is_foreign, foreign_one, foreign_checkouts, find}
use frit.Lanes.Orphans.Lists.{
  stranded_lane, is_empty_checkout, is_prunable_checkout, find-orphans_of,
}

-- A worktree that stands in none of the lists of checkouts that need work.
pub record IsUnreported (w : Worktree) (o : Orphans) : Type 0 where
  pub not_empty : ¬ Memᴰ w o.empty
  pub not_stranded : (l : Lane) → Memᴰ l o.stranded → ¬ Memᴰ w l.worktrees
  pub not_foreign : (f : ForeignCheckout) → Memᴰ f o.foreign → f.worktree ≢ w

pub some_if :
    {A : Type 0} (b : Bool) (x y : A) → (if b then some x else none) ≡ some y → (b ≡ true) × (x ≡ y)
some_if true x y h = (refl, cc)
some_if false x y h = absurd (cc)

stranded_lane-not_prunable :
    (k l : Lane) (w : Worktree) → stranded_lane k ≡ some l → Memᴰ w l.worktrees → w.prunable ≡ false
stranded_lane-not_prunable k l w h m =
    let (t, e) = some_if (stranded k && has_any (standing k).worktrees) (standing k) l h in
    let n : Memᴰ w (keep (λ w. not w.prunable) k.worktrees) =
      subst (λ x. Memᴰ w x.worktrees) (sym e) m in
    let (o, p) = mem_of_mem-keep (λ w. not w.prunable) k.worktrees n in ground arith

is_foreign-not_prunable : (l : Lane) (w : Worktree) → is_foreign l w ≡ true → w.prunable ≡ false
unfolding is_foreign
is_foreign-not_prunable l w h = ground arith

foreign-not_prunable :
    (l : Lane) (f : ForeignCheckout) → Memᴰ f (foreign_checkouts l) → f.worktree.prunable ≡ false
unfolding foreign_checkouts
foreign-not_prunable l f m =
    let (w, n, h) = mem_of_mem-filter_map (foreign_one l) f l.worktrees m in
    let (t, e) = some_if (is_foreign l w) (record { plan_id = l.plan_id; worktree = w }) f h in
    subst (λ x. x.worktree.prunable ≡ false) e (is_foreign-not_prunable l w t)

-- One complaint for a worktree of the repository, not bare, that git calls prunable: `Find` names it
-- under prunable and in none of the other lists that have checkouts.
pub find-IsUnreported :
    (built : List Lane) (worktrees : List Worktree) (w : Worktree)
    → Memᴰ w worktrees
    → w.bare ≡ false
    → w.prunable ≡ true
    → IsUnreported w (find built worktrees) × Memᴰ w (find built worktrees).prunable
find-IsUnreported built worktrees w m b h =
    subst (λ o. IsUnreported w o × Memᴰ w o.prunable) (sym (find-orphans_of built worktrees))
      (
        record {
          not_empty = λ m.
              let (n, t) = mem_of_mem-keep is_empty_checkout worktrees m in absurd (ground arith);
          not_stranded = λ l m n.
              let (k, _, e) = mem_of_mem-filter_map stranded_lane l built m in
              true≢false (sym h ∙ stranded_lane-not_prunable k l w e n);
          not_foreign = λ f m e.
              let (l, _, n) = mem_of_mem-concat_map foreign_checkouts f built m in
              true≢false (sym h ∙ ap (λ x. x.prunable) (sym e) ∙ foreign-not_prunable l f n);
        },
        mem-keep is_prunable_checkout worktrees m (ground arith),
      )
