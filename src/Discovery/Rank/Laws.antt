-- ===== src/Discovery/Rank/Laws.antt =====
-- The downstream counts against a description, and what `Pick` and `Candidates` choose.
use frit.Base.{
  length-take_full, IsOrdered, IsSorted-IsOrdered, text_ltb, sym, Bool-cases, true, ℕ, suc, ◌+◌,
  ◌≤◌, ◌<◌, ◌≡◌, refl, ◌∙◌, ◌↔◌, ◌⊎◌, inl, inr, Bool, false, ◌&&◌, ◌||◌, not, List, [], ◌∷◌, ◌++◌,
  Memᴰ, Text, text_eq, ◌==◌, ltb, if◌then◌else◌, mem-keep, mem_of_mem-keep, mem-sort,
  mem_of_mem-sort, sort-IsSorted, IsSorted, IsSorted-append, arith, length, drop, length-take,
  take-append-drop,
}
use mathlib.Core.List.Memᴰ
use mathlib.Core.List.{append-nil}
use frit.Base.Strings.Laws.{text_eq_iff, text_ltb_total}
use frit.Planmeta.{Status}
use frit.Discovery.{Plan, done, superseded, in_progress}
use frit.Discovery.Order.{ranks_before-IsWeakOrder}
use frit.Discovery.Ready.{ready}
use frit.Discovery.Ready.Laws.{ready-iff_IsStartable, IsStartable}
use frit.Discovery.Rank.{
  Counts, bump, count_edges, count_from, downstream_counts, ranks_before, rank_by_unblock, pick,
  resumable, candidates,
}

-- How often a list names an id.
occurrences : ℕ → List ℕ → ℕ
occurrences i [] = 0
occurrences i (d ∷ ds) = let rest = occurrences i ds in if i == d then suc rest else rest

-- A plan that still waits on its dependencies.
abbrev pub waits : Plan → Bool
waits p = not (done p || superseded p)

-- The edges onto the id from the plans of the repository that still wait.
pub waiting_edges : Text → ℕ → List Plan → ℕ
unfolding occurrences
waiting_edges r i [] = 0
waiting_edges r i (p ∷ ps) =
    (if waits p && text_eq r p.repo then occurrences i p.depends_on else 0) + waiting_edges r i ps

count_edges-eq :
    (m : Counts) (repo : Text) (deps : List ℕ) (r : Text) (i : ℕ)
    → count_edges m repo deps r i ≡ m r i + (if text_eq r repo then occurrences i deps else 0)
unfolding count_edges occurrences
count_edges-eq m repo [] r i = ground arith
count_edges-eq m repo (d ∷ ds) r i = count_edges-eq (bump m repo d) repo ds r i ∙ ground arith

count_from-eq :
    (m : Counts) (ps : List Plan) (r : Text) (i : ℕ)
    → count_from m ps r i ≡ m r i + waiting_edges r i ps
unfolding count_from waiting_edges
count_from-eq m [] r i = ground arith
count_from-eq m (p ∷ ps) r i =
    count_from-eq (if done p || superseded p then m else count_edges m p.repo p.depends_on) ps r i
    ∙ ground (arith, count_edges-eq m p.repo p.depends_on r i)

-- The count at a plan is the number of edges onto it from plans of its repository that still wait:
-- an id that one plan lists twice counts twice.
pub downstream_counts-eq :
    (plans : List Plan) (r : Text) (i : ℕ) → downstream_counts plans r i ≡ waiting_edges r i plans
unfolding downstream_counts
downstream_counts-eq plans r i = count_from-eq (λ _ _. 0) plans r i ∙ ground arith

rank_by_unblock-mem :
    (subset plans : List Plan) (p : Plan) → Memᴰ p (rank_by_unblock subset plans) ↔ Memᴰ p subset
unfolding rank_by_unblock
rank_by_unblock-mem subset plans p = (
  mem_of_mem-sort (ranks_before (downstream_counts plans)) subset,
  mem-sort (ranks_before (downstream_counts plans)) subset,
)

rank_by_unblock-IsSorted :
    (subset plans : List Plan)
    → IsSorted (ranks_before (downstream_counts plans)) (rank_by_unblock subset plans)
unfolding rank_by_unblock
rank_by_unblock-IsSorted subset plans =
    sort-IsSorted _ (ranks_before-IsWeakOrder (downstream_counts plans)) subset

-- What `Pick` leaves out of the ranked list.
pick_rest : List Plan → ℕ → List Plan
pick_rest plans n =
    let ranked = rank_by_unblock (ready plans) plans in
    if ltb 0 n && ltb n (length ranked) then drop n ranked else []

pick-append-rest :
    (plans : List Plan) (n : ℕ)
    → pick plans n ++ pick_rest plans n ≡ rank_by_unblock (ready plans) plans
unfolding pick pick_rest
pick-append-rest plans n = ground (
  arith,
  take-append-drop n (rank_by_unblock (ready plans) plans),
  append-nil (rank_by_unblock (ready plans) plans),
)

pick_zero : (plans : List Plan) → pick plans 0 ≡ rank_by_unblock (ready plans) plans
unfolding pick
pick_zero plans = refl

-- More edges of waiting plans, or as many and the repository and id not behind the other's.
abbrev pub Outranks : List Plan → Plan → Plan → Type 0
Outranks plans p q =
    let here = waiting_edges p.repo p.id plans in
    let there = waiting_edges q.repo q.id plans in
    (there < here)
    ⊎ (here ≡ there) × ((text_ltb p.repo q.repo ≡ true) ⊎ (p.repo ≡ q.repo) × (p.id ≤ q.id))

ranks_before-Outranks :
    (plans : List Plan) (p q : Plan)
    → ranks_before (downstream_counts plans) q p ≡ false
    → Outranks plans p q
unfolding ranks_before
ranks_before-Outranks plans p q h =
    let ep = downstream_counts-eq plans p.repo p.id in
    let eq = downstream_counts-eq plans q.repo q.id in
    elim (Bool-cases (downstream_counts plans q.repo q.id == downstream_counts plans p.repo p.id)) [
      | inr other ↦ inl (ground (arith, h, other, ep, eq))
      | inl same ↦ inr (
        ground (arith, same, ep, eq),
        elim (Bool-cases (text_eq q.repo p.repo)) [
          | inl here ↦ inr (sym ((text_eq_iff q.repo p.repo).0 here), ground (arith, h, same, here))
          | inr there ↦ inl (
              ground
                (arith, h, same, there, text_ltb_total q.repo p.repo, text_eq_iff q.repo p.repo))
        ],
      )
    ]

rank_by_unblock-IsOrdered :
    (subset plans : List Plan) → IsOrdered (Outranks plans) (rank_by_unblock subset plans)
rank_by_unblock-IsOrdered subset plans =
    IsSorted-IsOrdered (ranks_before (downstream_counts plans)) (Outranks plans)
      (ranks_before-Outranks plans) (rank_by_unblock subset plans)
      (rank_by_unblock-IsSorted subset plans)

-- Where something is left out the bound is positive and used up.
pick_rest-full :
    (plans : List Plan) (n : ℕ) (q : Plan)
    → Memᴰ q (pick_rest plans n)
    → (0 < n) × (length (pick plans n) ≡ n)
unfolding pick pick_rest
pick_rest-full plans n q m =
    elim (Bool-cases (ltb 0 n && ltb n (length (rank_by_unblock (ready plans) plans)))) [
      | inl cut ↦ ground (arith, cut, length-take_full n (rank_by_unblock (ready plans) plans))
      | inr all ↦ absurd (Memᴰ.not-nil (rw all at m))
    ]

-- Every startable plan is picked, or the bound is positive, as many plans as the bound are picked, and
-- each of them outranks it: it has more edges onto it from waiting plans of its repository, or as many
-- and a repository and id that are not behind.
pub pick_best :
    (plans : List Plan) (n : ℕ) (q : Plan)
    → Memᴰ q plans
    → IsStartable plans q
    → Memᴰ q (pick plans n)
      ⊎ (0 < n)
        × (length (pick plans n) ≡ n)
        × ((p : Plan) → Memᴰ p (pick plans n) → Outranks plans p q)
pick_best plans n q m s =
    elim (Memᴰ.append_cases (pick plans n) (rw (pick-append-rest plans n) ranked)) [
      | inl now ↦ inl now
      | inr left ↦
          let (bounded, full) = pick_rest-full plans n q left in
          inr (
            bounded,
            full,
            λ p mp. ranks_before-Outranks plans p q (
                IsSorted-append (ranks_before (downstream_counts plans)) (pick plans n)
                  (pick_rest plans n) p q sorted mp left),
          )
    ]
  where
    ranked : Memᴰ q (rank_by_unblock (ready plans) plans)
    ranked =
        (rank_by_unblock-mem (ready plans) plans q).1 ((ready-iff_IsStartable plans q).1 (m, s))

    sorted : IsSorted (ranks_before (downstream_counts plans)) (pick plans n ++ pick_rest plans n)
    sorted = rw (pick-append-rest plans n) (rank_by_unblock-IsSorted (ready plans) plans)

length-pick : (plans : List Plan) (n : ℕ) → 0 < n → length (pick plans n) ≤ n
unfolding pick
length-pick plans n h = ground (arith, length-take n (rank_by_unblock (ready plans) plans))

picked-IsStartable :
    (plans : List Plan) (n : ℕ) (p : Plan)
    → Memᴰ p (pick plans n)
    → Memᴰ p plans × IsStartable plans p
picked-IsStartable plans n p m = (ready-iff_IsStartable plans p).0 (
    (rank_by_unblock-mem (ready plans) plans p).0
      (rw (pick-append-rest plans n) at (Memᴰ.append_left (pick_rest plans n) m)))

-- Every plan that is picked under a positive bound is a startable plan of the list, and no more plans
-- are picked than the bound.
pub pick_sound :
    (plans : List Plan) (n : ℕ) (p : Plan)
    → 0 < n
    → Memᴰ p (pick plans n)
    → Memᴰ p plans × IsStartable plans p × (length (pick plans n) ≤ n)
pick_sound plans n p h m =
    let (there, startable) = picked-IsStartable plans n p m in
    (there, startable, length-pick plans n h)

-- A plan in the resume tail: in progress and held by nobody.
resumable-mem :
    (plans : List Plan) (p : Plan)
    → Memᴰ p (resumable plans) ↔ Memᴰ p plans × (p.held ≡ false) × (p.status ≡ Status.in_progress)
unfolding resumable
resumable-mem plans p = (
  λ m. let (m', t) = mem_of_mem-keep test plans m in (m', ground arith, ground arith),
  λ h. mem-keep test plans h.0 (ground arith),
)
  where
    test : Plan → Bool
    test q = not q.held && in_progress q

-- The plans of the list with a property, in the order of their ranks.
pub record IsRanked (plans : List Plan) (P : Plan → Type 0) (out : List Plan) : Type 0 where
  pub exact : (p : Plan) → Memᴰ p out ↔ Memᴰ p plans × P p
  pub ranked : IsOrdered (Outranks plans) out

abbrev pub IsResumable : Plan → Type 0
IsResumable p = (p.held ≡ false) × (p.status ≡ Status.in_progress)

-- `Candidates` offers the startable plans first and, behind all of them, the plans in progress that
-- nobody holds; each of the two parts is in the order of the ranks.
pub candidates_total :
    (plans : List Plan)
    → (fresh : List Plan) × (tail : List Plan) × (candidates plans ≡ fresh ++ tail)
      × IsRanked plans (IsStartable plans) fresh
      × IsRanked plans IsResumable tail
unfolding candidates
candidates_total plans = (
  pick plans 0,
  rank_by_unblock (resumable plans) plans,
  refl,
  record {
    exact = λ p. (
      picked-IsStartable plans 0 p,
      λ s.
          rw (pick_zero plans)
            ((rank_by_unblock-mem (ready plans) plans p).1 ((ready-iff_IsStartable plans p).1 s)),
    );
    ranked = rw (pick_zero plans) (rank_by_unblock-IsOrdered (ready plans) plans);
  },
  record {
    exact = λ p. (
      λ m.
          let (listed, free, going) =
            (resumable-mem plans p).0 ((rank_by_unblock-mem (resumable plans) plans p).0 m) in
          (listed, (free, going)),
      λ (listed, r).
          (rank_by_unblock-mem (resumable plans) plans p).1
            ((resumable-mem plans p).1 (listed, r.0, r.1)),
    );
    ranked = rank_by_unblock-IsOrdered (resumable plans) plans;
  },
)

-- No plan is offered both as a fresh pick and as a resume.
pub ready-resumable_disjoint :
    (plans : List Plan) (p : Plan) → Memᴰ p (ready plans) → ¬ Memᴰ p (resumable plans)
ready-resumable_disjoint plans p m n =
    let (listed, (opened, deps)) = (ready-iff_IsStartable plans p).0 m in
    ground (arith, (resumable-mem plans p).0 n)
