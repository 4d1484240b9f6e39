-- ===== src/Repocfg/Laws.antt =====
-- internal/repocfg and internal/claim: the branch of a lease is a hold by the default patterns.
use frit.Base.{
  ℕ, ◌≤◌, ◌≡◌, ◌==◌, refl, false, not, Option, none, some, List, [], ◌∷◌, ◌++◌, Text, codes,
  is_empty, any, has_prefix, cut_prefix, arith,
}
use frit.Base.Strings.Decimal.{
  decimal, is_digit, parse_int-decimal, decimal-digits, decimal_there, max_int64,
}
use frit.Claim.Refs.{lease_branch}
use frit.Repocfg.{default_config}
use frit.Repocfg.Pattern.{
  Pattern, Piece, literal, run, compiled, compile, compile_all, count_id, cut_id, pieces, expect,
  through, spread, at_end, digits, submatch, match_branch, match_holds, not_slash,
}

abbrev plan_pieces : List Piece
plan_pieces = literal b'p' ∷ literal b'l' ∷ literal b'a' ∷ literal b'n' ∷ literal b'/' ∷ []

abbrev lease_pattern : Pattern
lease_pattern = record { source = codes "plan/{id}"; before = plan_pieces; after = [] }

abbrev slug_pattern : Pattern
slug_pattern = record {
  source = codes "plan/{id}-*";
  before = plan_pieces;
  after = literal b'-' ∷ run ∷ [];
}

compile_all-default :
    compile_all default_config.holds ≡ compiled (lease_pattern ∷ slug_pattern ∷ [])
unfolding default_config compile_all compile count_id cut_id pieces has_prefix cut_prefix
compile_all-default = refl

-- A text of digits is taken whole where nothing may stand behind it.
digits-at_end :
    (s : Text)
    → is_empty s ≡ false
    → any (λ c. not (is_digit c)) s ≡ false
    → digits at_end s ≡ some s
unfolding digits
digits-at_end [] h k = absurd (cc)
digits-at_end (c ∷ []) h k = ground arith
digits-at_end (c ∷ d ∷ s) h k = ground (arith, digits-at_end (d ∷ s))

-- Digits that a dash follows are not at the end, and are taken up to the dash where the rest matches.
digits-dash_none :
    (s t : Text) → any (λ c. not (is_digit c)) s ≡ false → digits at_end (s ++ b'-' ∷ t) ≡ none
unfolding digits is_digit
digits-dash_none [] t k = refl
digits-dash_none (c ∷ []) t k = ground (arith, digits-dash_none [] t)
digits-dash_none (c ∷ d ∷ s) t k = ground (arith, digits-dash_none (d ∷ s) t)

digits-dash :
    (k : Text → Option (Unit {0})) (s t : Text)
    → k (b'-' ∷ t) ≡ some tt
    → is_empty s ≡ false
    → any (λ c. not (is_digit c)) s ≡ false
    → digits k (s ++ b'-' ∷ t) ≡ some s
unfolding digits is_digit
digits-dash k [] t e h n = absurd (cc)
digits-dash k (c ∷ []) t e h n = ground arith
digits-dash k (c ∷ d ∷ s) t e h n = ground (arith, digits-dash k (d ∷ s) t e refl)

spread-at_end : (t : Text) → any (λ c. c == b'/') t ≡ false → spread not_slash at_end t ≡ some tt
unfolding spread
spread-at_end [] h = refl
spread-at_end (c ∷ t) h = ground (arith, spread-at_end t)

abbrev plan_slash : Text
plan_slash = codes "plan/"

lease_match : (id : ℕ) → id ≤ max_int64 → match_branch lease_pattern (lease_branch id) ≡ some id
unfolding match_branch submatch through expect lease_branch
lease_match id h =
    rw (digits-at_end (decimal id) (decimal_there id) (decimal-digits id), match_branch)
      (parse_int-decimal id h)

slug_lease :
    (id : ℕ) (slug : Text) → match_branch lease_pattern (lease_branch id ++ b'-' ∷ slug) ≡ none
unfolding match_branch submatch through expect lease_branch
slug_lease id slug = rw (digits-dash_none (decimal id) slug (decimal-digits id), match_branch) refl

slug_match :
    (id : ℕ) (slug : Text)
    → id ≤ max_int64
    → any (λ c. c == b'/') slug ≡ false
    → match_branch slug_pattern (lease_branch id ++ b'-' ∷ slug) ≡ some id
unfolding match_branch submatch through expect lease_branch
slug_match id slug h l =
    rw
      (
        digits-dash (through (literal b'-' ∷ run ∷ []) at_end) (decimal id) slug
            (spread-at_end slug l) (decimal_there id) (decimal-digits id),
        match_branch,
      )
      (parse_int-decimal id h)

-- The default hold patterns compile, and read the plan's id back from the branch that a lease is
-- minted on and, as the older claims have it, from that branch with a dash and a slug without a slash.
pub default_holds-lease_branch :
    (id : ℕ) (slug : Text)
    → id ≤ max_int64
    → any (λ c. c == b'/') slug ≡ false
    → (holds : List Pattern) × (compile_all default_config.holds ≡ compiled holds)
      × (match_holds holds (lease_branch id) ≡ some id)
      × (match_holds holds (lease_branch id ++ b'-' ∷ slug) ≡ some id)
unfolding match_holds
default_holds-lease_branch id slug h l = (
  lease_pattern ∷ slug_pattern ∷ [],
  compile_all-default,
  rw (lease_match id h, match_holds) refl,
  rw (slug_lease id slug, slug_match id slug h l, match_holds) refl,
)
