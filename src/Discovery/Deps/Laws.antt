-- ===== src/Discovery/Deps/Laws.antt =====
-- The tree that the upstream walk ends in.
use mathlib.Core.List.Memᴰ
use frit.Base.{
  ℕ, zero, suc, ◌≤◌, ◌<◌, ◌≡◌, refl, sym, ◌∙◌, ap, subst, ◌⊎◌, inl, inr, true, false, ◌&&◌, List,
  [], ◌∷◌, Memᴰ, Text, text_eq, ◌==◌, if◌then◌else◌, Bool-cases, Option-cases, none, some, arith,
  length,
}
use frit.Base.Strings.Laws.{text_eq_iff}
use frit.Discovery.{Plan}
use frit.Discovery.Deps.{
  DepNode, DepNodes, node, nil, cons, PlanIndex, index_from, index_by_repo_id, expanded_in,
  unresolved, walk_deps, walk, dependencies,
}
use frit.Discovery.Deps.Once.{IsExpandedOnce, walk-IsExpandedOnce}

-- The plans of the list whose ids are not expanded yet.
remaining : List Plan → List ℕ → ℕ
remaining [] ex = 0
remaining (p ∷ ps) ex = let rest = remaining ps ex in if expanded_in ex p.id then rest else suc rest

remaining-le : (ps : List Plan) (ex : List ℕ) → remaining ps ex ≤ length ps
unfolding remaining
remaining-le [] ex = omega arith
remaining-le (p ∷ ps) ex = ground (arith, remaining-le ps ex)

abbrev Grows : List ℕ → List ℕ → Type 0
Grows ex ex' = (i : ℕ) → expanded_in ex i ≡ true → expanded_in ex' i ≡ true

remaining-Grows :
    (ps : List Plan) (ex ex' : List ℕ) → Grows ex ex' → remaining ps ex' ≤ remaining ps ex
unfolding remaining
remaining-Grows [] ex ex' g = omega arith
remaining-Grows (p ∷ ps) ex ex' g = ground (arith, remaining-Grows ps ex ex' g, g p.id)

remaining-lt :
    (ps : List Plan) (ex : List ℕ) (p : Plan)
    → Memᴰ p ps
    → expanded_in ex p.id ≡ false
    → remaining ps (p.id ∷ ex) < remaining ps ex
unfolding remaining
remaining-lt [] ex p m h = elim m [ ]
remaining-lt (q ∷ qs) ex p (Memᴰ.head e) h =
    let same : p.id ≡ q.id = ap (λ r. r.id) e in
    ground (arith, remaining-Grows qs ex (p.id ∷ ex) (λ i t. ground arith), same)
remaining-lt (q ∷ qs) ex p (Memᴰ.tail m) h = ground (arith, remaining-lt qs ex p m h)

index_from-mem :
    (m : PlanIndex) (ps : List Plan) (r : Text) (i : ℕ) (c : Plan)
    → index_from m ps r i ≡ some c
    → Memᴰ c ps ⊎ (m r i ≡ some c)
unfolding index_from
index_from-mem m [] r i c e = inr e
index_from-mem m (p ∷ ps) r i c e =
    elim (index_from-mem (λ r i. if text_eq r p.repo && (i == p.id) then some p else m r i) ps r i c
      e) [
        | inl later ↦ inl (Memᴰ.tail later)
        | inr now ↦ elim (Bool-cases (text_eq r p.repo && (i == p.id))) [
          | inl hit ↦ inl (Memᴰ.head (ground (arith, hit, now)))
          | inr miss ↦ inr (rw miss at now)
        ]
      ]

index_by_repo_id-mem :
    (ps : List Plan) (r : Text) (i : ℕ) (c : Plan) → index_by_repo_id ps r i ≡ some c → Memᴰ c ps
unfolding index_by_repo_id
index_by_repo_id-mem ps r i c e = elim (index_from-mem (λ _ _. none) ps r i c e) [
  | inl m ↦ m
  | inr h ↦ absurd (cc)
]

-- The nodes are those of the edges, in order. At each the plan has the edge's id and the repository
-- walked; the edge resolved exactly where the list has such a plan; and the node is shown without
-- its own edges, or with all of them in turn.
pub data Edges (plans : List Plan) (repo : Text) : List ℕ → DepNodes → Type 0 where
  done : Edges plans repo [] nil
  met :
      {d : ℕ} {ds : List ℕ} {p : Plan} {ts : DepNodes}
      → Memᴰ p plans
      → p.repo ≡ repo
      → p.id ≡ d
      → Edges plans repo ds ts
      → Edges plans repo (d ∷ ds) (cons (node p true nil) ts)
  expanded :
      {d : ℕ} {ds : List ℕ} {p : Plan} {us ts : DepNodes}
      → Memᴰ p plans
      → p.repo ≡ repo
      → p.id ≡ d
      → Edges plans repo p.depends_on us
      → Edges plans repo ds ts
      → Edges plans repo (d ∷ ds) (cons (node p true us) ts)
  unknown :
      {d : ℕ} {ds : List ℕ} {ts : DepNodes}
      → ((q : Plan) → Memᴰ q plans → ¬ ((q.repo ≡ repo) × (q.id ≡ d)))
      → Edges plans repo ds ts
      → Edges plans repo (d ∷ ds) (cons (node (unresolved repo d) false nil) ts)

index_from-keys :
    (m : PlanIndex) (ps : List Plan) (r : Text) (i : ℕ) (c : Plan)
    → index_from m ps r i ≡ some c
    → (c.repo ≡ r) × (c.id ≡ i) ⊎ (m r i ≡ some c)
unfolding index_from
index_from-keys m [] r i c e = inr e
index_from-keys m (p ∷ ps) r i c e =
    elim (index_from-keys (λ r i. if text_eq r p.repo && (i == p.id) then some p else m r i) ps r i
      c e) [
        | inl later ↦ inl later
        | inr now ↦ elim (Bool-cases (text_eq r p.repo && (i == p.id))) [
          | inl hit ↦ inl (ground (arith, hit, now, text_eq_iff r p.repo))
          | inr miss ↦ inr (rw miss at now)
        ]
      ]

index_from-none :
    (m : PlanIndex) (ps : List Plan) (r : Text) (i : ℕ)
    → index_from m ps r i ≡ none
    → (m r i ≡ none) × ((q : Plan) → Memᴰ q ps → ¬ ((q.repo ≡ r) × (q.id ≡ i)))
unfolding index_from
index_from-none m [] r i e = (e, λ q mq k. Memᴰ.not-nil mq)
index_from-none m (p ∷ ps) r i e =
    let (now, absent) =
      index_from-none (λ r i. if text_eq r p.repo && (i == p.id) then some p else m r i) ps r i e in
    (
      ground (arith, now),
      λ q mq k. elim (Memᴰ.cases_cons mq) [
        | inl same ↦
            let er : p.repo ≡ r = ap (λ s. s.repo) (sym same) ∙ k.0 in
            let ei : p.id ≡ i = ap (λ s. s.id) (sym same) ∙ k.1 in
            ground (arith, now, er, ei, text_eq_iff r p.repo)
        | inr later ↦ absent q later k
      ],
    )

index_by_repo_id-keys :
    (ps : List Plan) (r : Text) (i : ℕ) (c : Plan)
    → index_by_repo_id ps r i ≡ some c
    → (c.repo ≡ r) × (c.id ≡ i)
unfolding index_by_repo_id
index_by_repo_id-keys ps r i c e = elim (index_from-keys (λ _ _. none) ps r i c e) [
  | inl k ↦ k
  | inr h ↦ absurd (cc)
]

index_by_repo_id-none :
    (ps : List Plan) (r : Text) (i : ℕ)
    → index_by_repo_id ps r i ≡ none
    → (q : Plan) → Memᴰ q ps
    → ¬ ((q.repo ≡ r) × (q.id ≡ i))
unfolding index_by_repo_id
index_by_repo_id-none ps r i e = (index_from-none (λ _ _. none) ps r i e).1

-- The node of a plan: without its edges, or with all of them.
data Shows (plans : List Plan) (repo : Text) (p : Plan) : DepNode → Type 0 where
  again : Shows plans repo p (node p true nil)
  full : {us : DepNodes} → Edges plans repo p.depends_on us → Shows plans repo p (node p true us)

Edges-cons :
    (plans : List Plan) (repo : Text) (d : ℕ) (ds : List ℕ) (p : Plan) (t : DepNode) (ts : DepNodes)
    → Memᴰ p plans
    → (p.repo ≡ repo) × (p.id ≡ d)
    → Shows plans repo p t
    → Edges plans repo ds ts
    → Edges plans repo (d ∷ ds) (cons t ts)
Edges-cons plans repo d ds p t ts m k again es = met m k.0 k.1 es
Edges-cons plans repo d ds p t ts m k (full us) es = expanded m k.0 k.1 us es

module _ (plans : List Plan) (repo : Text) where
  abbrev index : PlanIndex
  index = index_by_repo_id plans

  -- The walk from a plan of the list ends on this fuel, and only adds to the expanded ids.
  abbrev Ends : ℕ → Type 0
  Ends fuel =
      (p : Plan) (ex : List ℕ)
      → Memᴰ p plans
      → remaining plans ex < fuel
      → (t : DepNode) × (ex' : List ℕ) × (walk fuel repo index p ex ≡ some (t, ex'))
        × Grows ex ex'
        × Shows plans repo p t

  walk_deps-Ends :
      (fuel : ℕ) (ex : List ℕ) (deps : List ℕ)
      → Ends fuel
      → remaining plans ex < fuel
      → (ts : DepNodes) × (ex' : List ℕ) × (walk_deps (walk fuel repo index) repo index ex deps
          ≡ some (ts, ex'))
        × Grows ex ex'
        × Edges plans repo deps ts
  unfolding walk_deps
  walk_deps-Ends fuel ex [] ends h = (nil, ex, refl, λ i t. t, done)
  walk_deps-Ends fuel ex (d ∷ ds) ends h = elim (Option-cases (index repo d)) [
    | inl absent ↦
        let (ts, ex', e, g, es) = walk_deps-Ends fuel ex ds ends h in
        (
          cons (node (unresolved repo d) false nil) ts,
          ex',
          rw (absent, e, walk_deps),
          g,
          unknown (index_by_repo_id-none plans repo d absent) es,
        )
    | inr (c, hit) ↦
        let (t, ex₁, e, g, sh) = ends c ex (index_by_repo_id-mem plans repo d c hit) h in
        let (ts, ex₂, e', g', es) =
          walk_deps-Ends fuel ex₁ ds ends (omega (arith, remaining-Grows plans ex ex₁ g)) in
        (
          cons t ts,
          ex₂,
          rw (hit, e, e', walk_deps),
          λ i m. g' i (g i m),
          Edges-cons plans repo d ds c t ts (index_by_repo_id-mem plans repo d c hit)
              (index_by_repo_id-keys plans repo d c hit) sh es,
        )
  ]

  -- The step from a plan that is not expanded yet.
  walk-expands :
      (fuel : ℕ) (p : Plan) (ex : List ℕ)
      → Ends fuel
      → expanded_in ex p.id ≡ false
      → remaining plans (p.id ∷ ex) < fuel
      → (t : DepNode) × (ex' : List ℕ) × (walk (suc fuel) repo index p ex ≡ some (t, ex'))
        × Grows ex ex'
        × (us : DepNodes) × (t ≡ node p true us)
        × Edges plans repo p.depends_on us
  unfolding walk
  walk-expands fuel p ex ends new h =
      let (ts, ex', e, g, es) = walk_deps-Ends fuel (p.id ∷ ex) p.depends_on ends h in
      (node p true ts, ex', rw (new, e, walk), λ i m. g i (ground arith), ts, refl, es)

  walk-Ends : (fuel : ℕ) → Ends fuel
  unfolding walk
  walk-Ends zero p ex m h = elim h [ ]
  walk-Ends (suc fuel) p ex m h = elim (Bool-cases (expanded_in ex p.id)) [
    | inl old ↦ (node p true nil, ex, rw old, λ i t. t, again)
    | inr new ↦
        let (t, ex', e, g, us, same, es) =
          walk-expands fuel p ex (walk-Ends fuel) new
            (omega (arith, remaining-lt plans ex p m new)) in
        (t, ex', e, g, subst (Shows plans repo p) (sym same) (full es))
  ]

-- The walk from any plan over any plans ends, cycles and unknown edges included, in a tree whose
-- root is the plan with all of its edges in order: each resolved exactly where the list has a plan
-- of that repository and id, and each node below shown without its own edges or with all of them in
-- turn. No id is expanded at two nodes of the tree, and where a node of a known plan shows none of
-- its edges, some other node of its id shows all of its own or has none.
pub dependencies-total :
    (root : Plan) (plans : List Plan)
    → (us : DepNodes) × (dependencies root plans ≡ some (node root true us))
      × Edges plans root.repo root.depends_on us
      × IsExpandedOnce (node root true us)
unfolding dependencies
dependencies-total root plans =
    let (t, ex, e, g, us, same, es) =
      walk-expands plans root.repo (suc (length plans)) root [] (walk-Ends plans root.repo _) refl
        (omega (arith, remaining-le plans (root.id ∷ []))) in
    (
      us,
      rw (e, same, dependencies),
      es,
      subst IsExpandedOnce same (
          walk-IsExpandedOnce root.repo (index_by_repo_id plans) (suc (suc (length plans))) root t
            ex e),
    )
