-- ===== src/Lanes/Gather.antt =====
-- The map of lanes that `Build` fills: what it has for a plan, and that it has no lane for nothing.
use frit.Base.{
  ℕ, ◌≡◌, refl, sym, ap, subst, ◌∙◌, inl, inr, Bool, true, false, ◌||◌, Option, none, some, List,
  [], ◌∷◌, ◌++◌, Memᴰ, keep, filter_map, any, sort, if◌then◌else◌, ◌==◌, arith, Bool-cases,
  Option-cases, ◌⊎◌,
}
use mathlib.Core.List.{append-nil, append_assoc}
use frit.Gitobj.{Ref}
use frit.Gitwt.{Worktree}
use frit.Lanes.{
  Hold, Lane, Evidence, has_any, empty_lane, update_lane, with_hold, with_worktree, hold_of,
  plan_of, add_refs, add_worktrees, ref_before, path_before, sorted_lane,
}

-- The live holds of a plan among the refs, and the worktrees on a branch of the plan.
abbrev pub holds_of : Evidence → ℕ → List Ref → List Hold
holds_of ev i refs = keep (λ h. h.plan_id == i) (filter_map (hold_of ev) refs)

abbrev pub on_plan : ℕ → Option ℕ → Bool
on_plan i none = false
on_plan i (some id) = id == i

abbrev pub worktrees_of : Evidence → ℕ → List Worktree → List Worktree
worktrees_of ev i worktrees = keep (λ w. on_plan i (plan_of ev w)) worktrees

-- The lane of a plan, with no map: its live holds by ref and its worktrees by path.
abbrev pub lane_of : Evidence → ℕ → List Worktree → List Ref → Lane
lane_of ev i worktrees refs = record {
  plan_id = i;
  holds = sort ref_before (holds_of ev i refs);
  worktrees = sort path_before (worktrees_of ev i worktrees);
}

abbrev pub is_used : Lane → Bool
is_used l = has_any l.holds || has_any l.worktrees

-- The lane that the map has for a plan.
unfoldable pub lane_at : ℕ → List Lane → Lane
lane_at i [] = empty_lane i
lane_at i (l ∷ ls) = if l.plan_id == i then l else lane_at i ls

abbrev has_id : ℕ → List Lane → Bool
has_id i ls = any (λ l. l.plan_id == i) ls

abbrev pub IsMap : List Lane → Type 0
IsMap [] = Unit
IsMap (l ∷ ls) = (has_id l.plan_id ls ≡ false) × (is_used l ≡ true) × IsMap ls

lane_at-plan_id : (i : ℕ) (ls : List Lane) → (lane_at i ls).plan_id ≡ i
unfolding lane_at
lane_at-plan_id i [] = refl
lane_at-plan_id i (l ∷ ls) = ground (arith, lane_at-plan_id i ls)

pub lane_at-mem : (i : ℕ) (ls : List Lane) → is_used (lane_at i ls) ≡ true → Memᴰ (lane_at i ls) ls
unfolding lane_at
lane_at-mem i [] u = absurd (cc)
lane_at-mem i (l ∷ ls) u = elim (Bool-cases (l.plan_id == i)) [
  | inl h ↦ rw h (Memᴰ.head refl)
  | inr h ↦ rw h (Memᴰ.tail (lane_at-mem i ls (rw h at u)))
]

has_id-mem : (l : Lane) (ls : List Lane) → Memᴰ l ls → has_id l.plan_id ls ≡ true
has_id-mem l [] m = elim m [ ]
has_id-mem l (k ∷ ls) (Memᴰ.head e) = let e' = ap (λ x. x.plan_id) e in ground arith
has_id-mem l (k ∷ ls) (Memᴰ.tail m) = ground (arith, has_id-mem l ls m)

pub mem-lane_at : (l : Lane) (ls : List Lane) → IsMap ls → Memᴰ l ls → lane_at l.plan_id ls ≡ l
unfolding lane_at
mem-lane_at l [] d m = elim m [ ]
mem-lane_at l (k ∷ ls) (f, u, d) (Memᴰ.head e) = let e' = ap (λ x. x.plan_id) e in ground arith
mem-lane_at l (k ∷ ls) (f, u, d) (Memᴰ.tail m) =
    ground (arith, mem-lane_at l ls d m, has_id-mem l ls m)

pub mem-is_used : (l : Lane) (ls : List Lane) → IsMap ls → Memᴰ l ls → is_used l ≡ true
mem-is_used l [] d m = elim m [ ]
mem-is_used l (k ∷ ls) (f, u, d) (Memᴰ.head e) = ap is_used e ∙ u
mem-is_used l (k ∷ ls) (f, u, d) (Memᴰ.tail m) = mem-is_used l ls d m

module _ (id : ℕ) (f : Lane → Lane) (same : (l : Lane) → (f l).plan_id ≡ l.plan_id)
    (used : (l : Lane) → is_used (f l) ≡ true) where
  lane_at-update_lane :
      (i : ℕ) (ls : List Lane)
      → lane_at i (update_lane id f ls) ≡ (if id == i then f (lane_at i ls) else lane_at i ls)
  unfolding lane_at update_lane
  lane_at-update_lane i [] = ground (arith, same (empty_lane id))
  lane_at-update_lane i (l ∷ ls) = ground (arith, same l, lane_at-update_lane i ls)

  has_id-update_lane :
      (i : ℕ) (ls : List Lane) → has_id i (update_lane id f ls) ≡ (has_id i ls || (id == i))
  unfolding update_lane
  has_id-update_lane i [] = ground (arith, same (empty_lane id))
  has_id-update_lane i (l ∷ ls) = ground (arith, same l, has_id-update_lane i ls)

  update_lane-IsMap : (ls : List Lane) → IsMap ls → IsMap (update_lane id f ls)
  unfolding update_lane
  update_lane-IsMap [] d = (refl, used (empty_lane id), tt)
  update_lane-IsMap (l ∷ ls) (n, u, d) = elim (Bool-cases (l.plan_id == id)) [
    | inl h ↦ rw h (subst (λ k. has_id k ls ≡ false) (sym (same l)) n, used l, d)
    | inr h ↦ rw h (ground (arith, has_id-update_lane l.plan_id ls), u, update_lane-IsMap ls d)
  ]

has_any-append : {A : Type 0} (xs : List A) (x : A) → has_any (xs ++ x ∷ []) ≡ true
has_any-append [] x = refl
has_any-append (y ∷ ys) x = refl

used-with_hold : (h : Hold) (l : Lane) → is_used (with_hold h l) ≡ true
used-with_hold h l = rw (has_any-append l.holds h) refl

used-with_worktree : (w : Worktree) (l : Lane) → is_used (with_worktree w l) ≡ true
used-with_worktree w l = ground (arith, has_any-append l.worktrees w)

-- The loop over the refs, over the holds that it appends.
put_holds : List Lane → List Hold → List Lane
put_holds ls [] = ls
put_holds ls (h ∷ hs) = put_holds (update_lane h.plan_id (with_hold h) ls) hs

add_refs-put_holds :
    (ev : Evidence) (ls : List Lane) (rs : List Ref)
    → add_refs ev ls rs ≡ put_holds ls (filter_map (hold_of ev) rs)
unfolding add_refs put_holds
add_refs-put_holds ev ls [] = refl
add_refs-put_holds ev ls (r ∷ rs) = elim (Option-cases (hold_of ev r)) [
  | inl e ↦ rw (e, add_refs, filter_map) (add_refs-put_holds ev ls rs)
  | inr (h, e) ↦
      rw (e, add_refs, filter_map)
        (add_refs-put_holds ev (update_lane h.plan_id (with_hold h) ls) rs)
]

put_holds-IsMap : (ls : List Lane) (hs : List Hold) → IsMap ls → IsMap (put_holds ls hs)
unfolding put_holds
put_holds-IsMap ls [] d = d
put_holds-IsMap ls (h ∷ hs) d =
    put_holds-IsMap (update_lane h.plan_id (with_hold h) ls) hs
      (update_lane-IsMap h.plan_id (with_hold h) (λ l. refl) (used-with_hold h) ls d)

-- The lane of a plan behind the loop: its holds are appended, in order.
lane_at-put_holds :
    (i : ℕ) (ls : List Lane) (hs : List Hold)
    → lane_at i (put_holds ls hs)
      ≡ record (lane_at i ls) { holds = (lane_at i ls).holds ++ keep (λ h. h.plan_id == i) hs }
unfolding put_holds
lane_at-put_holds i ls [] = ap (λ hs. record (lane_at i ls) { holds = hs }) (sym (append-nil _))
lane_at-put_holds i ls (h ∷ hs) =
    lane_at-put_holds i (update_lane h.plan_id (with_hold h) ls) hs
    ∙ elim (Bool-cases (h.plan_id == i)) [
      | inl e ↦
          rw (at, e)
            (ap (λ ks. record (lane_at i ls) { holds = ks })
              (append_assoc (lane_at i ls).holds (h ∷ []) (keep (λ h. h.plan_id == i) hs)))
      | inr e ↦ rw (at, e) refl
    ]
  where
    at :
        lane_at i (update_lane h.plan_id (with_hold h) ls)
        ≡ (if h.plan_id == i then with_hold h (lane_at i ls) else lane_at i ls)
    at = lane_at-update_lane h.plan_id (with_hold h) (λ l. refl) (used-with_hold h) i ls

-- The loop over the worktrees.
add_worktrees-IsMap :
    (ev : Evidence) (ls : List Lane) (ws : List Worktree)
    → IsMap ls
    → IsMap (add_worktrees ev ls ws)
unfolding add_worktrees
add_worktrees-IsMap ev ls [] d = d
add_worktrees-IsMap ev ls (w ∷ ws) d = elim (Option-cases (plan_of ev w)) [
  | inl e ↦ rw (e, add_worktrees) (add_worktrees-IsMap ev ls ws d)
  | inr (id, e) ↦
      rw (e, add_worktrees)
        (add_worktrees-IsMap ev (update_lane id (with_worktree w) ls) ws
          (update_lane-IsMap id (with_worktree w) (λ l. refl) (used-with_worktree w) ls d))
]

lane_at-with_worktree :
    (i id : ℕ) (w : Worktree) (ls : List Lane)
    → lane_at i (update_lane id (with_worktree w) ls)
      ≡ (if id == i then with_worktree w (lane_at i ls) else lane_at i ls)
lane_at-with_worktree i id w ls =
    lane_at-update_lane id (with_worktree w) (λ l. refl) (used-with_worktree w) i ls

lane_at-add_worktrees :
    (ev : Evidence) (i : ℕ) (ls : List Lane) (ws : List Worktree)
    → lane_at i (add_worktrees ev ls ws)
      ≡ record (lane_at i ls) { worktrees = (lane_at i ls).worktrees ++ worktrees_of ev i ws }
unfolding add_worktrees
lane_at-add_worktrees ev i ls [] =
    ap (λ ws. record (lane_at i ls) { worktrees = ws }) (sym (append-nil _))
lane_at-add_worktrees ev i ls (w ∷ ws) = elim (Option-cases (plan_of ev w)) [
  | inl e ↦ rw (e, add_worktrees) (lane_at-add_worktrees ev i ls ws)
  | inr (id, e) ↦
      rw (e, add_worktrees)
        (lane_at-add_worktrees ev i (update_lane id (with_worktree w) ls) ws
          ∙ placed id (Bool-cases (id == i)))
]
  where
    placed :
        (id : ℕ)
        → (id == i ≡ true) ⊎ (id == i ≡ false)
        → record (lane_at i (update_lane id (with_worktree w) ls)) {
          worktrees =
              (lane_at i (update_lane id (with_worktree w) ls)).worktrees ++ worktrees_of ev i ws;
        }
          ≡ record (lane_at i ls) {
            worktrees =
                (lane_at i ls).worktrees
                ++ (if id == i then w ∷ worktrees_of ev i ws else worktrees_of ev i ws);
          }
    placed id (inl e) =
        rw (lane_at-with_worktree i id w ls, e)
          (ap (λ ks. record (lane_at i ls) { worktrees = ks })
            (append_assoc (lane_at i ls).worktrees (w ∷ []) (worktrees_of ev i ws)))
    placed id (inr e) = rw (lane_at-with_worktree i id w ls, e) refl

unfoldable pub gathered : Evidence → List Worktree → List Ref → List Lane
gathered ev worktrees refs = add_worktrees ev (add_refs ev [] refs) worktrees

pub gathered-IsMap :
    (ev : Evidence) (worktrees : List Worktree) (refs : List Ref)
    → IsMap (gathered ev worktrees refs)
unfolding gathered
gathered-IsMap ev worktrees refs = add_worktrees-IsMap ev (add_refs ev [] refs) worktrees (
    subst IsMap (sym (add_refs-put_holds ev [] refs))
      (put_holds-IsMap [] (filter_map (hold_of ev) refs) tt))

pub gathered-lane_of :
    (ev : Evidence) (i : ℕ) (worktrees : List Worktree) (refs : List Ref)
    → sorted_lane (lane_at i (gathered ev worktrees refs)) ≡ lane_of ev i worktrees refs
unfolding gathered lane_at
gathered-lane_of ev i worktrees refs = ap sorted_lane (
    lane_at-add_worktrees ev i (add_refs ev [] refs) worktrees
    ∙ ap {A = Lane} (λ l. record l { worktrees = l.worktrees ++ worktrees_of ev i worktrees })
        (ap (lane_at i) (add_refs-put_holds ev [] refs)
          ∙ lane_at-put_holds i [] (filter_map (hold_of ev) refs)))
