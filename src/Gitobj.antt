-- ===== src/Gitobj.antt =====
-- internal/gitobj: refs, trees and blobs read through git. This file has the listings of refs, trees and
-- object checks (parse.go) and the reads that use them (git.go); Batch has the answers of `git cat-file --batch`.
-- A runner is a function from git's arguments, and its standard input where it has one, to the
-- output; `none` is an error.
use frit.Base.{
  ℕ, Bool, true, false, ◌&&◌, ◌||◌, not, Option, none, some, List, [], ◌∷◌, ◌++◌, Text, codes,
  text_eq, is_empty, cut, cut_prefix, split, fields, trim_space, trim_right_of, any, filter_map,
  if◌then◌else◌, ◌==◌,
}
use frit.Base.Strings.Decimal.{parse_int}
pub mod Batch

pub record Ref : Type 0 where
  pub name : Text
  pub oid : Text

abbrev pub heads : Text
heads = codes "refs/heads/"

abbrev pub remotes : Text
remotes = codes "refs/remotes/"

unfoldable pub short : Ref → Text
short r = elim (cut_prefix r.name heads) [
  | some rest ↦ rest
  | none ↦ elim (cut_prefix r.name remotes) [
    | some rest ↦ rest
    | none ↦ elim (cut_prefix r.name (codes "refs/tags/")) [ some rest ↦ rest | none ↦ r.name ]
  ]
]

-- What stands behind the remote's name; its HEAD is no branch.
abbrev remote_branch : Option (Text × Text) → Option Text
remote_branch none = none
remote_branch (some (remote, branch)) =
    if is_empty branch || text_eq branch (codes "HEAD") then none else some branch

unfoldable pub branch_of : Ref → Option Text
branch_of r = elim (cut_prefix r.name heads) [
  | some name ↦ some name
  | none ↦ elim (cut_prefix r.name remotes) [
    | some rest ↦ remote_branch (cut b'/' rest)
    | none ↦ none
  ]
]

abbrev ref_from : Option (Text × Text) → Option Ref
ref_from none = none
ref_from (some (oid, name)) =
    if is_empty oid || is_empty name then none else some (record { name = name; oid = oid })

unfoldable pub parse_refs : Text → List Ref
parse_refs text = filter_map (λ line. ref_from (cut b' ' (trim_space line))) (split 10 text)

pub record TreeEntry : Type 0 where
  pub mode : Text
  pub kind : Text
  pub oid : Text
  pub path : Text

abbrev entry_of : Text → List Text → Option TreeEntry
entry_of path (mode ∷ kind ∷ oid ∷ []) =
    some (record { mode = mode; kind = kind; oid = oid; path = path })
entry_of path _ = none

abbrev entry_from : Option (Text × Text) → Option TreeEntry
entry_from none = none
entry_from (some (meta, path)) = entry_of path (fields meta)

unfoldable pub parse_ls_tree : Text → List TreeEntry
parse_ls_tree text = filter_map (λ line. entry_from (cut 9 line)) (split 10 text)

-- A missing object has no id, type or size.
pub data Check : Type 0 where
  missing : Check
  present : (oid kind : Text) (size : ℕ) → Check

-- `len(fields) >= 2` and the last field is git's marker.
abbrev pub is_missing : List Text → Bool
is_missing [] = false
is_missing (f ∷ []) = false
is_missing (f ∷ g ∷ []) = text_eq g (codes "missing")
is_missing (f ∷ g ∷ h ∷ fs) = is_missing (g ∷ h ∷ fs)

abbrev sized : Text → Text → Option ℕ → Option Check
sized oid kind none = none
sized oid kind (some size) = some (present oid kind size)

abbrev check_of : List Text → Option Check
check_of (oid ∷ kind ∷ size ∷ []) = sized oid kind (parse_int size)
check_of _ = none

unfoldable pub check_from : Text → Option Check
check_from line =
    let fs = fields line in
    if is_empty line then none else if is_missing fs then some missing else check_of fs

-- One trailing line feed is taken off before the split.
abbrev trim_newline : Text → Text
trim_newline [] = []
trim_newline (c ∷ []) = elim (c == 10) [ true ↦ [] | false ↦ c ∷ [] ]
trim_newline (c ∷ d ∷ cs) = c ∷ trim_newline (d ∷ cs)

unfoldable pub parse_batch_check : Text → List Check
parse_batch_check text = filter_map check_from (split 10 (trim_newline text))

abbrev pub Runner : Type 0
Runner = List Text → Option Text

abbrev pub PipeRunner : Type 0
PipeRunner = Text → List Text → Option Text

unfoldable pub refs : Runner → Option (List Ref)
refs run = elim (run (codes "for-each-ref" ∷ codes "--format=%(objectname) %(refname)" ∷ [])) [
  | none ↦ none
  | some out ↦ some (parse_refs out)
]

-- The loop over the conventional names, then HEAD.
unfoldable pub first_verified : Runner → List Text → Text
first_verified run (candidate ∷ candidates) =
    let rest = first_verified run candidates in
    elim (run (codes "rev-parse" ∷ codes "--verify" ∷ codes "--quiet" ∷ candidate ∷ [])) [
      | some out ↦ candidate
      | none ↦ rest
    ]
first_verified run [] = elim (run (codes "symbolic-ref" ∷ codes "--quiet" ∷ codes "HEAD" ∷ [])) [
  | some out ↦ trim_space out
  | none ↦ []
]

abbrev candidates : List Text
candidates =
    codes "refs/remotes/origin/main"
    ∷ codes "refs/remotes/origin/master"
    ∷ codes "refs/heads/main"
    ∷ codes "refs/heads/master"
    ∷ []

unfoldable pub default_ref : Runner → Text
default_ref run =
    let rest = first_verified run candidates in
    elim (run (codes "symbolic-ref" ∷ codes "--quiet" ∷ codes "refs/remotes/origin/HEAD" ∷ [])) [
      | some out ↦ let name = trim_space out in if is_empty name then rest else name
      | none ↦ rest
    ]

-- A set of ref names, by its test.
abbrev pub NameSet : Type 0
NameSet = Text → Bool

abbrev line_name : Text → Option Text
line_name line = let name = trim_space line in if is_empty name then none else some name

unfoldable pub merged_refs : Runner → Text → Option NameSet
merged_refs run into =
    if is_empty into
    then some (λ name. false)
    else elim (run
        (codes "for-each-ref" ∷ codes "--merged" ∷ into ∷ codes "--format=%(refname)" ∷ [])) [
          | none ↦ none
          | some out ↦
              some (λ name. any (λ m. text_eq m name) (filter_map line_name (split 10 out)))
        ]

-- A later line of the same name replaces an earlier one.
abbrev pub Times : Type 0
Times = Text → Option ℕ

abbrev timed : Text → Option ℕ → Option (Text × ℕ)
timed name none = none
timed name (some secs) = some (name, secs)

abbrev time_from : Option (Text × Text) → Option (Text × ℕ)
time_from none = none
time_from (some (name, stamp)) =
    if is_empty name then none else timed name (parse_int (trim_space stamp))

unfoldable pub times_from : Times → List (Text × ℕ) → Times
times_from m [] = m
times_from m ((name, secs) ∷ rest) =
    times_from (λ n. if text_eq n name then some secs else m n) rest

unfoldable pub ref_times : Runner → Option Times
ref_times run =
    elim (run (codes "for-each-ref" ∷ codes "--format=%(refname) %(committerdate:unix)" ∷ [])) [
      | none ↦ none
      | some out ↦ some (
          times_from (λ n. none)
            (filter_map (λ line. time_from (cut b' ' (trim_space line))) (split 10 out)))
    ]

unfoldable pub tree_requests : Text → List Ref → Text
tree_requests subdir [] = []
tree_requests subdir (r ∷ rs) = r.name ++ (b':' ∷ (subdir ++ (10 ∷ tree_requests subdir rs)))

-- The tree of each ref, by position; a later answer of the same ref replaces an earlier one.
abbrev pub Trees : Type 0
Trees = Text → Option Text

abbrev answered : Trees → Text → Check → Trees
answered m name missing n = m n
answered m name (present oid kind size) n =
    if text_eq kind (codes "tree") && text_eq n name then some oid else m n

unfoldable pub trees_from : Trees → List Ref → List Check → Trees
trees_from m rs [] = m
trees_from m [] (c ∷ cs) = m
trees_from m (r ∷ rs) (c ∷ cs) = trees_from (answered m r.name c) rs cs

unfoldable pub tree_oids : PipeRunner → Text → List Ref → Option Trees
tree_oids pipe subdir [] = some (λ n. none)
tree_oids pipe subdir (r ∷ rs) =
    elim (pipe (tree_requests subdir (r ∷ rs)) (codes "cat-file" ∷ codes "--batch-check" ∷ [])) [
      | none ↦ none
      | some out ↦ some (trees_from (λ n. none) (r ∷ rs) (parse_batch_check out))
    ]

unfoldable pub tree_entries : Runner → Text → Option (List TreeEntry)
tree_entries run tree = elim (run (codes "ls-tree" ∷ codes "-r" ∷ tree ∷ [])) [
  | none ↦ none
  | some out ↦ some (parse_ls_tree out)
]
