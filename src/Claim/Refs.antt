-- ===== src/Claim/Refs.antt =====
-- internal/claim/lease.go and claim.go: the names of the work ref and of the rescue refs, and what
-- is read from `ls-remote`.
pub mod Laws
use frit.Base.{
  ℕ, Bool, true, false, Option, none, some, List, [], ◌∷◌, ◌++◌, Text, codes, text_ltb, cut,
  cut_prefix, trim_prefix, split, fields, sort, if◌then◌else◌, ◌==◌,
}
use frit.Base.Strings.Decimal.{decimal, parse_int}

unfoldable pub lease_branch : ℕ → Text
lease_branch id = codes "plan/" ++ decimal id

-- `"refs/heads/" + branch`
abbrev pub head_ref : Text → Text
head_ref branch = codes "refs/heads/" ++ branch

unfoldable pub rescue_ref : ℕ → Text → Text → Text
rescue_ref id holder tip =
    codes "refs/frit/rescue/" ++ (decimal id ++ (codes "/" ++ (holder ++ (codes "-" ++ tip))))

unfoldable pub rescue_plan_id : Text → Option ℕ
rescue_plan_id ref = elim (cut_prefix ref (codes "refs/frit/rescue/")) [
  | none ↦ none
  | some rest ↦ elim (cut 47 rest) [ none ↦ none | some (id, name) ↦ parse_int id ]
]

-- The second field of each line that has two.
ref_names : List Text → List Text
ref_names [] = []
ref_names (l ∷ ls) =
    let rest = ref_names ls in
    elim (fields l) [ [] ↦ rest | sha ∷ more ↦ elim more [ [] ↦ rest | ref ∷ _ ↦ ref ∷ rest ] ]

unfoldable pub ls_remote_ref_names : Text → List Text
unfolding ref_names
ls_remote_ref_names out = ref_names (split 10 out)

abbrev pub Buckets : Type 0
Buckets = ℕ → List Text

-- The loop of `AllRescueRefs` over the names, from the map so far.
bucket_from : Buckets → List Text → Buckets
unfolding rescue_plan_id
bucket_from m [] = m
bucket_from m (ref ∷ refs) = elim (rescue_plan_id ref) [
  | none ↦ bucket_from m refs
  | some id ↦ bucket_from (λ i. if i == id then m i ++ ref ∷ [] else m i) refs
]

-- Each bucket is sorted in the end; an id with no ref has the empty bucket.
unfoldable pub rescue_buckets : Text → Buckets
unfolding bucket_from
rescue_buckets out id = sort text_ltb (bucket_from (λ i. []) (ls_remote_ref_names out) id)

-- `baseBranch`: a base ref without its remote's prefix.
unfoldable pub base_branch : Text → Text → Text
base_branch base remote =
    trim_prefix (trim_prefix (trim_prefix base (codes "refs/remotes/")) (codes "refs/heads/"))
      (remote ++ codes "/")
