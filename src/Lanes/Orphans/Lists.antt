-- ===== src/Lanes/Orphans/Lists.antt =====
-- The lists that `Find` reports, each described on its own.
use frit.Base.{
  ◌≡◌, refl, sym, ap, ◌∙◌, Bool, ◌&&◌, not, Option, none, some, List, [], ◌∷◌, ◌++◌, keep,
  filter_map, concat_map, if◌then◌else◌, arith,
}
use mathlib.Core.List.{append-nil, append_assoc}
use frit.Gitwt.{Worktree, has_commit}
use frit.Lanes.{Lane, has_any, unstaffed, stranded, standing}
use frit.Lanes.Orphans.{
  Orphans, migratable, foreign_checkouts, add_lane, add_worktree, find_lanes, find_worktrees,
  no_orphans, find,
}

abbrev pub stranded_lane : Lane → Option Lane
stranded_lane l = if stranded l && has_any (standing l).worktrees then some (standing l) else none

abbrev pub is_empty_checkout : Worktree → Bool
is_empty_checkout w = not w.bare && (not w.prunable && not (has_commit w))

abbrev pub is_prunable_checkout : Worktree → Bool
is_prunable_checkout w = not w.bare && w.prunable

-- The six lists, with no loop that carries them.
abbrev pub orphans_of : List Lane → List Worktree → Orphans
orphans_of built worktrees = record {
  unstaffed = keep unstaffed built;
  stranded = filter_map stranded_lane built;
  empty = keep is_empty_checkout worktrees;
  prunable = keep is_prunable_checkout worktrees;
  migratable = concat_map migratable (keep unstaffed built);
  foreign = concat_map foreign_checkouts built;
}

joined : Orphans → Orphans → Orphans
joined a b = record {
  unstaffed = a.unstaffed ++ b.unstaffed;
  stranded = a.stranded ++ b.stranded;
  empty = a.empty ++ b.empty;
  prunable = a.prunable ++ b.prunable;
  migratable = a.migratable ++ b.migratable;
  foreign = a.foreign ++ b.foreign;
}

joined-none : (a : Orphans) → joined a no_orphans ≡ a
unfolding joined
joined-none a = λ i. record {
  unstaffed = append-nil a.unstaffed i;
  stranded = append-nil a.stranded i;
  empty = append-nil a.empty i;
  prunable = append-nil a.prunable i;
  migratable = append-nil a.migratable i;
  foreign = append-nil a.foreign i;
}

joined_assoc : (a b c : Orphans) → joined (joined a b) c ≡ joined a (joined b c)
unfolding joined
joined_assoc a b c = λ i. record {
  unstaffed = append_assoc a.unstaffed b.unstaffed c.unstaffed i;
  stranded = append_assoc a.stranded b.stranded c.stranded i;
  empty = append_assoc a.empty b.empty c.empty i;
  prunable = append_assoc a.prunable b.prunable c.prunable i;
  migratable = append_assoc a.migratable b.migratable c.migratable i;
  foreign = append_assoc a.foreign b.foreign c.foreign i;
}

-- The body of a loop appends what the six lists have for its one element.
add_lane-joined : (l : Lane) (o : Orphans) → add_lane l o ≡ joined o (orphans_of (l ∷ []) [])
unfolding joined
add_lane-joined l o = λ i. record {
  unstaffed = unstaffed_eq i;
  stranded = stranded_eq i;
  empty = empty_eq i;
  prunable = prunable_eq i;
  migratable = migratable_eq i;
  foreign = foreign_eq i;
}
  where
    unstaffed_eq : (add_lane l o).unstaffed ≡ o.unstaffed ++ (orphans_of (l ∷ []) []).unstaffed
    unstaffed_eq = ground (arith, append-nil o.unstaffed)

    stranded_eq : (add_lane l o).stranded ≡ o.stranded ++ (orphans_of (l ∷ []) []).stranded
    stranded_eq = ground (arith, append-nil o.stranded)

    empty_eq : (add_lane l o).empty ≡ o.empty ++ (orphans_of (l ∷ []) []).empty
    empty_eq = ground (arith, append-nil o.empty)

    prunable_eq : (add_lane l o).prunable ≡ o.prunable ++ (orphans_of (l ∷ []) []).prunable
    prunable_eq = ground (arith, append-nil o.prunable)

    migratable_eq : (add_lane l o).migratable ≡ o.migratable ++ (orphans_of (l ∷ []) []).migratable
    migratable_eq = ground (arith, append-nil o.migratable, append-nil (migratable l))

    foreign_eq : (add_lane l o).foreign ≡ o.foreign ++ (orphans_of (l ∷ []) []).foreign
    foreign_eq = ground (arith, append-nil (foreign_checkouts l))

add_worktree-joined :
    (w : Worktree) (o : Orphans) → add_worktree w o ≡ joined o (orphans_of [] (w ∷ []))
unfolding joined
add_worktree-joined w o = λ i. record {
  unstaffed = unstaffed_eq i;
  stranded = stranded_eq i;
  empty = empty_eq i;
  prunable = prunable_eq i;
  migratable = migratable_eq i;
  foreign = foreign_eq i;
}
  where
    unstaffed_eq : (add_worktree w o).unstaffed ≡ o.unstaffed ++ (orphans_of [] (w ∷ [])).unstaffed
    unstaffed_eq = ground (arith, append-nil o.unstaffed)

    stranded_eq : (add_worktree w o).stranded ≡ o.stranded ++ (orphans_of [] (w ∷ [])).stranded
    stranded_eq = ground (arith, append-nil o.stranded)

    empty_eq : (add_worktree w o).empty ≡ o.empty ++ (orphans_of [] (w ∷ [])).empty
    empty_eq = ground (arith, append-nil o.empty)

    prunable_eq : (add_worktree w o).prunable ≡ o.prunable ++ (orphans_of [] (w ∷ [])).prunable
    prunable_eq = ground (arith, append-nil o.prunable)

    migratable_eq :
        (add_worktree w o).migratable ≡ o.migratable ++ (orphans_of [] (w ∷ [])).migratable
    migratable_eq = ground (arith, append-nil o.migratable)

    foreign_eq : (add_worktree w o).foreign ≡ o.foreign ++ (orphans_of [] (w ∷ [])).foreign
    foreign_eq = ground (arith, append-nil o.foreign)

lanes_cons :
    (l : Lane) (ls : List Lane)
    → joined (orphans_of (l ∷ []) []) (orphans_of ls []) ≡ orphans_of (l ∷ ls) []
unfolding joined
lanes_cons l ls = λ i. record {
  unstaffed = unstaffed_eq i;
  stranded = stranded_eq i;
  empty = empty_eq i;
  prunable = prunable_eq i;
  migratable = migratable_eq i;
  foreign = foreign_eq i;
}
  where
    unstaffed_eq :
        (joined (orphans_of (l ∷ []) []) (orphans_of ls [])).unstaffed
        ≡ (orphans_of (l ∷ ls) []).unstaffed
    unstaffed_eq = ground arith

    stranded_eq :
        (joined (orphans_of (l ∷ []) []) (orphans_of ls [])).stranded
        ≡ (orphans_of (l ∷ ls) []).stranded
    stranded_eq = ground arith

    empty_eq :
        (joined (orphans_of (l ∷ []) []) (orphans_of ls [])).empty ≡ (orphans_of (l ∷ ls) []).empty
    empty_eq = refl

    prunable_eq :
        (joined (orphans_of (l ∷ []) []) (orphans_of ls [])).prunable
        ≡ (orphans_of (l ∷ ls) []).prunable
    prunable_eq = refl

    migratable_eq :
        (joined (orphans_of (l ∷ []) []) (orphans_of ls [])).migratable
        ≡ (orphans_of (l ∷ ls) []).migratable
    migratable_eq = ground (arith, append-nil (migratable l))

    foreign_eq :
        (joined (orphans_of (l ∷ []) []) (orphans_of ls [])).foreign
        ≡ (orphans_of (l ∷ ls) []).foreign
    foreign_eq = ap (λ fs. fs ++ concat_map foreign_checkouts ls) (append-nil (foreign_checkouts l))

worktrees_cons :
    (w : Worktree) (ws : List Worktree)
    → joined (orphans_of [] (w ∷ [])) (orphans_of [] ws) ≡ orphans_of [] (w ∷ ws)
unfolding joined
worktrees_cons w ws = λ i. record {
  unstaffed = unstaffed_eq i;
  stranded = stranded_eq i;
  empty = empty_eq i;
  prunable = prunable_eq i;
  migratable = migratable_eq i;
  foreign = foreign_eq i;
}
  where
    unstaffed_eq :
        (joined (orphans_of [] (w ∷ [])) (orphans_of [] ws)).unstaffed
        ≡ (orphans_of [] (w ∷ ws)).unstaffed
    unstaffed_eq = refl

    stranded_eq :
        (joined (orphans_of [] (w ∷ [])) (orphans_of [] ws)).stranded
        ≡ (orphans_of [] (w ∷ ws)).stranded
    stranded_eq = refl

    empty_eq :
        (joined (orphans_of [] (w ∷ [])) (orphans_of [] ws)).empty ≡ (orphans_of [] (w ∷ ws)).empty
    empty_eq = ground arith

    prunable_eq :
        (joined (orphans_of [] (w ∷ [])) (orphans_of [] ws)).prunable
        ≡ (orphans_of [] (w ∷ ws)).prunable
    prunable_eq = ground arith

    migratable_eq :
        (joined (orphans_of [] (w ∷ [])) (orphans_of [] ws)).migratable
        ≡ (orphans_of [] (w ∷ ws)).migratable
    migratable_eq = refl

    foreign_eq :
        (joined (orphans_of [] (w ∷ [])) (orphans_of [] ws)).foreign
        ≡ (orphans_of [] (w ∷ ws)).foreign
    foreign_eq = refl

find_lanes-joined : (ls : List Lane) (o : Orphans) → find_lanes ls o ≡ joined o (orphans_of ls [])
unfolding find_lanes
find_lanes-joined [] o = sym (joined-none o)
find_lanes-joined (l ∷ ls) o =
    find_lanes-joined ls (add_lane l o)
    ∙ ap (λ p. joined p (orphans_of ls [])) (add_lane-joined l o)
    ∙ joined_assoc o (orphans_of (l ∷ []) []) (orphans_of ls [])
    ∙ ap (joined o) (lanes_cons l ls)

find_worktrees-joined :
    (ws : List Worktree) (o : Orphans) → find_worktrees ws o ≡ joined o (orphans_of [] ws)
unfolding find_worktrees
find_worktrees-joined [] o = sym (joined-none o)
find_worktrees-joined (w ∷ ws) o =
    find_worktrees-joined ws (add_worktree w o)
    ∙ ap (λ p. joined p (orphans_of [] ws)) (add_worktree-joined w o)
    ∙ joined_assoc o (orphans_of [] (w ∷ [])) (orphans_of [] ws)
    ∙ ap (joined o) (worktrees_cons w ws)

-- The two loops of `Find`, with the six lists they append to, report exactly the six lists described
-- one by one.
pub find-orphans_of :
    (built : List Lane) (worktrees : List Worktree)
    → find built worktrees ≡ orphans_of built worktrees
unfolding find joined
find-orphans_of built worktrees =
    find_worktrees-joined worktrees (find_lanes built no_orphans)
    ∙ ap (λ p. joined p (orphans_of [] worktrees)) (find_lanes-joined built no_orphans)
    ∙ split
  where
    split :
        joined (joined no_orphans (orphans_of built [])) (orphans_of [] worktrees)
        ≡ orphans_of built worktrees
    split = λ i. record {
      unstaffed = append-nil (keep unstaffed built) i;
      stranded = append-nil (filter_map stranded_lane built) i;
      empty = keep is_empty_checkout worktrees;
      prunable = keep is_prunable_checkout worktrees;
      migratable = append-nil (concat_map migratable (keep unstaffed built)) i;
      foreign = append-nil (concat_map foreign_checkouts built) i;
    }
