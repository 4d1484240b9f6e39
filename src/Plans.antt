-- ===== src/Plans.antt =====
-- internal/plans/collect.go: the plan files of every ref, read out of git without a checkout.
use frit.Base.{
  ℕ, Bool, true, false, ◌&&◌, ◌||◌, not, Option, none, some, List, [], ◌∷◌, ◌++◌, map, Text, codes,
  text_eq, text_ltb, split, any, all, filter_map, concat_map, sort, if◌then◌else◌, ◌==◌,
}
use frit.Base.Strings.Decimal.{is_digit}
use frit.Base.Strings.Path.{path_base, path_dir, path_join, cut_suffix}
use frit.Gitobj.{Ref, TreeEntry, Runner, PipeRunner, Trees, refs, tree_oids, tree_entries}
use frit.Gitobj.Batch.{Contents, blobs}
pub mod Laws

-- A plan file as it is on one ref.
pub record File : Type 0 where
  pub ref : Text
  pub path : Text
  pub oid : Text
  pub content : Text

abbrev pub fixed_name : Text
fixed_name = codes "plan.md"

unfoldable pub is_folder_plan_file : Text → Bool
is_folder_plan_file p = text_eq (path_base p) fixed_name

abbrev ends_in : Text → Text → Bool
ends_in s suffix = elim (cut_suffix s suffix) [ none ↦ false | some rest ↦ true ]

-- What stands for `.*_.*` in a regular expression: an underscore, and no line feed.
abbrev has_underscore : Text → Bool
has_underscore s = any (λ c. c == b'_') s && all (λ c. not (c == 10)) s

-- The match of `mislaidPlan`: `^[0-9].*_.*\.md$`.
unfoldable pub mislaid_plan : Text → Bool
mislaid_plan [] = false
mislaid_plan (c ∷ cs) =
    is_digit c
    && elim (cut_suffix cs (codes ".md")) [ none ↦ false | some middle ↦ has_underscore middle ]

-- The match of `mislaidFolderPlan`: `^[0-9].*_.*$`.
unfoldable pub mislaid_folder_plan : Text → Bool
mislaid_folder_plan [] = false
mislaid_folder_plan (c ∷ cs) = is_digit c && has_underscore cs

-- One segment, or a folder's fixed file.
unfoldable pub is_plan_path : Text → Bool
is_plan_path p = elim (split b'/' p) [
  | [] ↦ false
  | a ∷ [] ↦ true
  | a ∷ b ∷ [] ↦ is_folder_plan_file b
  | a ∷ b ∷ c ∷ rest ↦ false
]

abbrev is_markdown : TreeEntry → Bool
is_markdown e = text_eq e.kind (codes "blob") && ends_in e.path (codes ".md")

abbrev is_lost : Text → Bool
is_lost p =
    mislaid_plan (path_base p)
    || is_folder_plan_file (path_base p) && mislaid_folder_plan (path_base (path_dir p))

abbrev pub kept_entry : Text → TreeEntry → Option TreeEntry
kept_entry subdir e =
    if is_markdown e && is_plan_path e.path
    then some (record e { path = path_join subdir e.path })
    else none

abbrev pub lost_entry : Text → TreeEntry → Option Text
lost_entry subdir e =
    if is_markdown e && (not (is_plan_path e.path) && is_lost e.path)
    then some (path_join subdir e.path)
    else none

-- `markdownOnly`: the entries kept, and the mislaid paths.
unfoldable pub markdown_only : Text → List TreeEntry → List TreeEntry × List Text
markdown_only subdir entries =
    (filter_map (kept_entry subdir) entries, filter_map (lost_entry subdir) entries)

-- The map from trees to their entries, in the order in which the trees came.
pub record Listed : Type 0 where
  pub tree : Text
  pub entries : List TreeEntry

abbrev pub Listing : Type 0
Listing = List Listed × List Text

abbrev add_lost : List Text → List Text → List Text
add_lost seen [] = seen
add_lost seen (p ∷ ps) = add_lost (if any (λ q. text_eq q p) seen then seen else seen ++ p ∷ []) ps

abbrev with_tree : Text → List TreeEntry × List Text → Listing → Listing
with_tree tree (kept, lost) (listed, seen) =
    (listed ++ record { tree = tree; entries = kept } ∷ [], add_lost seen lost)

-- The loop over the trees, each of which is listed once; `none` is an error of git.
unfoldable pub entries_from : Runner → Text → List Text → Listing → Option Listing
entries_from run subdir [] l = some l
entries_from run subdir (t ∷ ts) l = elim (any (λ x. text_eq x.tree t) l.0) [
  | true ↦ entries_from run subdir ts l
  | false ↦ elim (tree_entries run t) [
    | none ↦ none
    | some entries ↦ entries_from run subdir ts (with_tree t (markdown_only subdir entries) l)
  ]
]

abbrev tree_of : Trees → Ref → Option Text
tree_of trees r = trees r.name

unfoldable pub entries_by_tree : Runner → Text → List Ref → Trees → Option Listing
entries_by_tree run subdir rs trees =
    entries_from run subdir (filter_map (tree_of trees) rs) ([], [])

abbrev add_oid : List Text → Text → List Text
add_oid seen o = if any (λ q. text_eq q o) seen then seen else seen ++ o ∷ []

abbrev distinct : List Text → List Text → List Text
distinct seen [] = seen
distinct seen (o ∷ os) = distinct (add_oid seen o) os

abbrev entry_oids : Listed → List Text
entry_oids l = map (λ e. e.oid) l.entries

unfoldable pub blob_oids : List Listed → List Text
blob_oids listed = sort text_ltb (distinct [] (concat_map entry_oids listed))

abbrev pub entries_of : List Listed → Text → List TreeEntry
entries_of [] t = []
entries_of (l ∷ ls) t = let rest = entries_of ls t in if text_eq l.tree t then l.entries else rest

abbrev file_with : Ref → TreeEntry → Option Text → Option File
file_with r e none = none
file_with r e (some content) =
    some (record { ref = r.name; path = e.path; oid = e.oid; content = content })

abbrev pub file_at : Contents → Ref → TreeEntry → Option File
file_at contents r e = file_with r e (contents e.oid)

abbrev files_at : List Listed → Contents → Ref → Option Text → List File
files_at listed contents r none = []
files_at listed contents r (some t) = filter_map (file_at contents r) (entries_of listed t)

abbrev pub files_of : Trees → List Listed → Contents → Ref → List File
files_of trees listed contents r = files_at listed contents r (trees r.name)

abbrev pub file_before : File → File → Bool
file_before a b = if not (text_eq a.ref b.ref) then text_ltb a.ref b.ref else text_ltb a.path b.path

unfoldable pub assemble : List Ref → Trees → List Listed → Contents → List File
assemble rs trees listed contents =
    sort file_before (concat_map (files_of trees listed contents) rs)

module _ (run : Runner) (pipe : PipeRunner) (subdir : Text) where
  abbrev with_blobs : List Ref → Trees → Listing → Option Contents → Option (List File × List Text)
  with_blobs rs trees l none = none
  with_blobs rs trees l (some contents) = some (assemble rs trees l.0 contents, sort text_ltb l.1)

  abbrev with_listing : List Ref → Trees → Option Listing → Option (List File × List Text)
  with_listing rs trees none = none
  with_listing rs trees (some l) = with_blobs rs trees l (blobs pipe (blob_oids l.0))

  abbrev with_trees : List Ref → Option Trees → Option (List File × List Text)
  with_trees rs none = none
  with_trees rs (some trees) = with_listing rs trees (entries_by_tree run subdir rs trees)

  abbrev with_refs : Option (List Ref) → Option (List File × List Text)
  with_refs none = none
  with_refs (some rs) = with_trees rs (tree_oids pipe subdir rs)

  -- `Collect`; `none` is an error of git.
  unfoldable pub collect : Option (List File × List Text)
  collect = with_refs (refs run)
