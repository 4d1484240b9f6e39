-- ===== src/Discovery/Deps.antt =====
-- internal/discovery/deps.go: the upstream walk, with its shared set of expanded ids.
pub mod Laws
pub mod Once
use frit.Base.{
  ℕ, zero, suc, Bool, true, false, ◌&&◌, Option, none, some, List, [], ◌∷◌, Text, text_eq, ◌==◌,
  if◌then◌else◌, any, length,
}
use frit.Planmeta.{Status}
use frit.Base.Int.{pos}
use frit.Discovery.{Plan}

mutual
  pub data DepNode : Type 0 where
    node : (plan : Plan) (found : Bool) (deps : DepNodes) → DepNode

  pub data DepNodes : Type 0 where
    nil : DepNodes
    cons : DepNode → DepNodes → DepNodes

-- `byRepoID`: a later plan with the same repository and id replaces an earlier one.
abbrev pub PlanIndex : Type 0
PlanIndex = Text → ℕ → Option Plan

index_from : PlanIndex → List Plan → PlanIndex
index_from m [] = m
index_from m (p ∷ ps) =
    index_from (λ r i. if text_eq r p.repo && (i == p.id) then some p else m r i) ps

unfoldable pub index_by_repo_id : List Plan → PlanIndex
unfolding index_from
index_by_repo_id plans = index_from (λ r i. none) plans

-- The plan of an edge that names no known plan: only its id and repository are set.
abbrev pub unresolved : Text → ℕ → Plan
unresolved repo id = record {
  key = [];
  repo = repo;
  id = id;
  status = Status.other [];
  title = [];
  summary = [];
  model = [];
  goal = [];
  depends_on = [];
  phases = [];
  path = [];
  branches = [];
  held = false;
  holds = [];
  hold_tip = [];
  decorated_tips = [];
  stale = false;
  stale_for = pos 0;
  voided = none;
  dead = false;
}

abbrev pub expanded_in : List ℕ → ℕ → Bool
expanded_in expanded id = any (λ e. e == id) expanded

-- The loop over a node's edges: the nodes and the ids expanded by then. `visit` is the walk from a
-- plan; `none` means that it ran out of fuel.
unfoldable pub walk_deps :
    (Plan → List ℕ → Option (DepNode × List ℕ))
    → Text
    → PlanIndex
    → List ℕ
    → List ℕ
    → Option (DepNodes × List ℕ)
walk_deps visit repo index expanded [] = some (nil, expanded)
walk_deps visit repo index expanded (dep ∷ deps) = elim (index repo dep) [
  | none ↦ elim (walk_deps visit repo index expanded deps) [
    | none ↦ none
    | some (rest, expanded') ↦ some (cons (node (unresolved repo dep) false nil) rest, expanded')
  ]
  | some child ↦ elim (visit child expanded) [
    | none ↦ none
    | some (first, expanded₁) ↦ elim (walk_deps visit repo index expanded₁ deps) [
      | none ↦ none
      | some (rest, expanded₂) ↦ some (cons first rest, expanded₂)
    ]
  ]
]

-- The walk from a plan, on fuel.
unfoldable pub walk : ℕ → Text → PlanIndex → Plan → List ℕ → Option (DepNode × List ℕ)
unfolding walk_deps
walk zero repo index p expanded = none
walk (suc fuel) repo index p expanded =
    if expanded_in expanded p.id
    then some (node p true nil, expanded)
    else elim (walk_deps (walk fuel repo index) repo index (p.id ∷ expanded) p.depends_on) [
      | none ↦ none
      | some (deps, expanded') ↦ some (node p true deps, expanded')
    ]

-- One step of fuel for each plan, one for the root and one for the last visit.
unfoldable pub dependencies : Plan → List Plan → Option DepNode
unfolding walk
dependencies root plans =
    elim (walk (suc (suc (length plans))) root.repo (index_by_repo_id plans) root []) [
      | none ↦ none
      | some (tree, expanded) ↦ some tree
    ]
