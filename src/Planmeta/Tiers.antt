-- ===== src/Planmeta/Tiers.antt =====
-- internal/planmeta/plan.go: the order of the model tiers, and how a repository widens it.
use frit.Base.{
  ℕ, suc, Bool, true, false, not, Option, none, some, List, [], ◌∷◌, map, Text, codes, text_eq, ltb,
  any, if◌then◌else◌,
}
use frit.Planmeta.{Phase, Plan, Parsed, parsed, unparsed}
pub mod Laws

abbrev pub Rank : Type 0
Rank = Text → Option ℕ

unfoldable pub tier_rank : Rank
tier_rank t =
    if text_eq t (codes "haiku")
    then some 0
    else if text_eq t (codes "sonnet")
    then some 1
    else if text_eq t (codes "opus")
    then some 2
    else if text_eq t (codes "fable")
    then some 3
    else none

abbrev pub is_ranked : Option ℕ → Bool
is_ranked none = false
is_ranked (some n) = true

unfoldable pub known_tier : Text → Bool
known_tier t = is_ranked (tier_rank t)

unfoldable pub widens_tier_rank : List Text → Bool
widens_tier_rank vocab = any (λ t. not (is_ranked (tier_rank t))) vocab

abbrev pub with_rank : Rank → Text → ℕ → Rank
with_rank rank t n s = if text_eq s t then some n else rank s

-- The loop over the vocabulary with its counter.
unfoldable pub rank_from : Rank → ℕ → List Text → Rank
rank_from rank next [] = rank
rank_from rank next (t ∷ ts) = elim (rank t) [
  | some n ↦ rank_from rank next ts
  | none ↦ rank_from (with_rank rank t next) (suc next) ts
]

unfoldable pub vocab_rank : List Text → Rank
vocab_rank vocab = rank_from tier_rank 4 vocab

abbrev pub higher : Text → Text → Option ℕ → Option ℕ → Text
higher a b (some ra) (some rb) = if ltb ra rb then b else a
higher a b none (some rb) = b
higher a b ra none = a

unfoldable pub most_demanding_tier_ranked_by : Text → Text → Rank → Text
most_demanding_tier_ranked_by a b rank = higher a b (rank a) (rank b)

unfoldable pub most_demanding_tier : Text → Text → Text
most_demanding_tier a b = most_demanding_tier_ranked_by a b tier_rank

abbrev pub retiered : Rank → Phase → Phase
retiered rank p =
    if p.has_execution_row
    then record p { tier = most_demanding_tier_ranked_by p.design p.implement rank }
    else p

unfoldable pub apply_tier_vocabulary : List Phase → List Text → List Phase
apply_tier_vocabulary phases vocab =
    if not (widens_tier_rank vocab) then phases else map (retiered (vocab_rank vocab)) phases

unfoldable pub ranked_tier : Text → Text → Text → List Text → Text
ranked_tier design implement fallback vocab =
    if not (widens_tier_rank vocab)
    then fallback
    else most_demanding_tier_ranked_by design implement (vocab_rank vocab)

abbrev pub widened : List Text → Parsed → Parsed
widened vocab (parsed p) = parsed (record p { phases = apply_tier_vocabulary p.phases vocab })
widened vocab (unparsed e) = unparsed e

-- `ParseWithVocabulary`; `parse` is `Parse`.
unfoldable pub parse_with_vocabulary : (Text → Parsed) → Text → List Text → Parsed
parse_with_vocabulary parse source vocab = widened vocab (parse source)
