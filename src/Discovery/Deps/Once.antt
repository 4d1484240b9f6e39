-- ===== src/Discovery/Deps/Once.antt =====
-- internal/discovery/deps.go: how often the upstream walk expands an id, counted on its tree.
use frit.Base.{
  ℕ, zero, suc, ◌+◌, ◌≤◌, ◌<◌, ◌≡◌, refl, inl, inr, Bool, true, false, ◌&&◌, ◌||◌, not, Option,
  none, some, List, [], ◌∷◌, Text, ◌==◌, if◌then◌else◌, Bool-cases, Option-cases, arith,
}
use frit.Discovery.{Plan}
use frit.Discovery.Deps.{
  DepNode, DepNodes, node, nil, cons, PlanIndex, expanded_in, unresolved, walk_deps, walk,
}

-- The nodes of a tree that pass a test, the root included.
mutual
  pub count_nodes : (DepNode → Bool) → DepNode → ℕ
  count_nodes test (node p found deps) =
      (if test (node p found deps) then 1 else 0) + count_all test deps

  pub count_all : (DepNode → Bool) → DepNodes → ℕ
  count_all test nil = 0
  count_all test (cons t ts) = count_nodes test t + count_all test ts

abbrev pub has_nodes : DepNodes → Bool
has_nodes nil = false
has_nodes (cons t ts) = true

abbrev pub has_edges : List ℕ → Bool
has_edges [] = false
has_edges (d ∷ ds) = true

-- A node of the id that shows edges below it.
abbrev pub expands : ℕ → DepNode → Bool
expands i (node p found deps) = (p.id == i) && has_nodes deps

-- A node of a known plan of the id that shows all its edges, or whose plan has none.
abbrev pub shows_all : ℕ → DepNode → Bool
shows_all i (node p found deps) =
    found && (p.id == i) && (has_nodes deps || not (has_edges p.depends_on))

-- A node of a known plan of the id that has edges and shows none.
abbrev pub is_bare : ℕ → DepNode → Bool
is_bare i (node p found deps) =
    found && (p.id == i) && has_edges p.depends_on && not (has_nodes deps)

-- A tree in which no id is expanded at two nodes, and in which a node that is shown without its
-- edges stands beside one of its id that shows them.
pub record IsExpandedOnce (tree : DepNode) : Type 0 where
  pub once : (i : ℕ) → count_nodes (expands i) tree ≤ 1
  pub elsewhere : (i : ℕ) → 0 < count_nodes (is_bare i) tree → 0 < count_nodes (shows_all i) tree

abbrev seen : List ℕ → ℕ → ℕ
seen ex i = if expanded_in ex i then 1 else 0

-- What a part of the walk adds to the expanded ids, beside the counts on what it returns.
record IsCounted (ex ex' : List ℕ) (count : (DepNode → Bool) → ℕ) : Type 0 where
  fresh : (i : ℕ) → count (expands i) + seen ex i ≤ seen ex' i
  shown : (i : ℕ) → seen ex' i ≤ seen ex i + count (shows_all i)
  bare : (i : ℕ) → 0 < count (is_bare i) → 0 < seen ex' i

again-IsCounted :
    (p : Plan) (ex : List ℕ)
    → expanded_in ex p.id ≡ true
    → IsCounted ex ex (λ test. count_nodes test (node p true nil))
unfolding count_nodes
again-IsCounted p ex h = record {
  fresh = λ i. ground arith;
  shown = λ i. omega arith;
  bare = λ i b. ground (arith, h, b);
}

unknown-IsCounted :
    (repo : Text) (d : ℕ) (ex : List ℕ)
    → IsCounted ex ex (λ test. count_nodes test (node (unresolved repo d) false nil))
unfolding count_nodes
unknown-IsCounted repo d ex = record {
  fresh = λ i. ground arith;
  shown = λ i. omega arith;
  bare = λ i b. ground (arith, b);
}

bare_either :
    (m n : ℕ) {seen₁ seen₂ : ℕ} (added : ℕ)
    → 0 < m + n
    → (0 < m → 0 < seen₁)
    → (0 < n → 0 < seen₂)
    → added + seen₁ ≤ seen₂
    → 0 < seen₂
bare_either zero n added h a b f = b (omega arith)
bare_either (suc m) n added h a b f = omega (arith, a (omega arith))

cons-IsCounted :
    (t : DepNode) (ts : DepNodes) (ex ex₁ ex₂ : List ℕ)
    → IsCounted ex ex₁ (λ test. count_nodes test t)
    → IsCounted ex₁ ex₂ (λ test. count_all test ts)
    → IsCounted ex ex₂ (λ test. count_all test (cons t ts))
unfolding count_nodes
cons-IsCounted t ts ex ex₁ ex₂ a b = record {
  fresh = λ i. omega (arith, a.fresh i, b.fresh i);
  shown = λ i. omega (arith, a.shown i, b.shown i);
  bare = λ i h.
      bare_either (count_nodes (is_bare i) t) (count_all (is_bare i) ts) _ h (a.bare i) (b.bare i)
        (b.fresh i);
}

node-IsCounted :
    (p : Plan) (ts : DepNodes) (ex ex' : List ℕ)
    → expanded_in ex p.id ≡ false
    → has_nodes ts ≡ has_edges p.depends_on
    → IsCounted (p.id ∷ ex) ex' (λ test. count_all test ts)
    → IsCounted ex ex' (λ test. count_nodes test (node p true ts))
unfolding count_nodes
node-IsCounted p ts ex ex' new same c = record {
  fresh = λ i. ground (arith, c.fresh i, new);
  shown = λ i. ground (arith, c.shown i, same);
  bare = λ i h. ground (arith, c.bare i, same, h);
}

-- What a visit from a plan, and the loop over a node's edges, add: nothing is said where they ran out
-- of fuel.
abbrev OnNode : List ℕ → Option (DepNode × List ℕ) → Type 0
OnNode ex none = Unit
OnNode ex (some (t, ex')) = IsCounted ex ex' (λ test. count_nodes test t)

abbrev OnNodes : List ℕ → List ℕ → Option (DepNodes × List ℕ) → Type 0
OnNodes ex deps none = Unit
OnNodes ex deps (some (ts, ex')) =
    IsCounted ex ex' (λ test. count_all test ts) × (has_nodes ts ≡ has_edges deps)

none-IsCounted : (ex : List ℕ) → IsCounted ex ex (λ test. count_all test nil)
unfolding count_nodes
none-IsCounted ex = record {
  fresh = λ i. omega arith;
  shown = λ i. omega arith;
  bare = λ i b. omega (arith, b);
}

module _ (repo : Text) (index : PlanIndex) where
  walk_deps-OnNodes :
      (visit : Plan → List ℕ → Option (DepNode × List ℕ))
      → ((p : Plan) (ex : List ℕ) → OnNode ex (visit p ex))
      → (ex deps : List ℕ) → OnNodes ex deps (walk_deps visit repo index ex deps)
  unfolding walk_deps
  walk_deps-OnNodes visit on ex [] = (none-IsCounted ex, refl)
  walk_deps-OnNodes visit on ex (d ∷ ds) = elim (Option-cases (index repo d)) [
    | inl absent ↦
        let ih = walk_deps-OnNodes visit on ex ds in
        elim (Option-cases (walk_deps visit repo index ex ds)) [
          | inl e ↦ rw (absent, e, walk_deps) tt
          | inr ((ts, ex'), e) ↦
              rw (absent, e, walk_deps)
                (
                  cons-IsCounted (node (unresolved repo d) false nil) ts ex ex ex'
                      (unknown-IsCounted repo d ex) (rw e at ih).0,
                  refl,
                )
        ]
    | inr (c, hit) ↦ elim (Option-cases (visit c ex)) [
      | inl e ↦ rw (hit, e, walk_deps) tt
      | inr ((t, ex₁), e) ↦
          let first : OnNode ex (some (t, ex₁)) = rw e at (on c ex) in
          let ih = walk_deps-OnNodes visit on ex₁ ds in
          elim (Option-cases (walk_deps visit repo index ex₁ ds)) [
            | inl k ↦ rw (hit, e, k, walk_deps) tt
            | inr ((ts, ex₂), k) ↦
                rw (hit, e, k, walk_deps)
                  (cons-IsCounted t ts ex ex₁ ex₂ first (rw k at ih).0, refl)
          ]
    ]
  ]

  walk-OnNode : (fuel : ℕ) (p : Plan) (ex : List ℕ) → OnNode ex (walk fuel repo index p ex)
  unfolding walk
  walk-OnNode zero p ex = tt
  walk-OnNode (suc fuel) p ex = elim (Bool-cases (expanded_in ex p.id)) [
    | inl old ↦ rw (old, walk) (again-IsCounted p ex old)
    | inr new ↦
        let ih =
          walk_deps-OnNodes (walk fuel repo index) (walk-OnNode fuel) (p.id ∷ ex) p.depends_on in
        elim (Option-cases (walk_deps (walk fuel repo index) repo index (p.id ∷ ex) p.depends_on)) [
          | inl e ↦ rw (new, e, walk) tt
          | inr ((ts, ex'), e) ↦
              let (counted, same) : OnNodes (p.id ∷ ex) p.depends_on (some (ts, ex')) =
                rw e at ih in
              rw (new, e, walk) (node-IsCounted p ts ex ex' new same counted)
        ]
  ]

  -- A walk that starts with nothing expanded.
  pub walk-IsExpandedOnce :
      (fuel : ℕ) (p : Plan) (t : DepNode) (ex : List ℕ)
      → walk fuel repo index p [] ≡ some (t, ex)
      → IsExpandedOnce t
  walk-IsExpandedOnce fuel p t ex e =
      let c : OnNode [] (some (t, ex)) = rw e at (walk-OnNode fuel p []) in
      record {
        once = λ i. ground (arith, c.fresh i);
        elsewhere = λ i h. omega (arith, c.shown i, c.bare i h);
      }
