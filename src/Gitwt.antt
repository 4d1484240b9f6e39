-- ===== src/Gitwt.antt =====
-- internal/gitwt/worktree.go: the porcelain output of `git worktree list`.
use frit.Base.{
  Bool, true, false, ◌&&◌, not, Option, none, some, List, [], ◌∷◌, ◌++◌, Text, codes, text_eq,
  is_empty, cut, split, trim_prefix, trim_right_of, if◌then◌else◌,
}

pub record Worktree : Type 0 where
  pub path : Text
  pub head : Text
  pub branch : Text
  pub detached : Bool
  pub bare : Bool
  pub locked : Bool
  pub lock_reason : Text
  pub prunable : Bool
  pub prune_reason : Text

abbrev zero_sha : Text
zero_sha = codes "0000000000000000000000000000000000000000"

unfoldable pub has_commit : Worktree → Bool
has_commit w = not (is_empty w.head) && not (text_eq w.head zero_sha)

abbrev at_path : Text → Worktree
at_path p = record {
  path = p;
  head = [];
  branch = [];
  detached = false;
  bare = false;
  locked = false;
  lock_reason = [];
  prunable = false;
  prune_reason = [];
}

unfoldable pub apply : Text → Text → Worktree → Worktree
apply key val w =
    if text_eq key (codes "HEAD")
    then record w { head = val }
    else if text_eq key (codes "branch")
    then record w { branch = trim_prefix val (codes "refs/heads/") }
    else if text_eq key (codes "bare")
    then record w { bare = true }
    else if text_eq key (codes "detached")
    then record w { detached = true }
    else if text_eq key (codes "locked")
    then record w { locked = true; lock_reason = val }
    else if text_eq key (codes "prunable")
    then record w { prunable = true; prune_reason = val }
    else w

-- `strings.Cut(line, " ")` with the whole line and no value where there is no space.
abbrev key_and_value : Text → Text × Text
key_and_value line = elim (cut 32 line) [ none ↦ (line, []) | some kv ↦ kv ]

-- What the closure `flush` appends for the record under construction.
abbrev flushed : Option Worktree → List Worktree
flushed none = []
flushed (some w) = w ∷ []

-- The record under construction behind an attribute line; before any record it is dropped.
abbrev applied : Text → Text → Option Worktree → Option Worktree
applied key val none = none
applied key val (some w) = some (apply key val w)

-- One line of the loop: the records that it flushes, and the record under construction after it.
unfoldable pub read_line : Option Worktree → Text → List Worktree × Option Worktree
unfolding apply cut
read_line cur raw =
    let line = trim_right_of 13 raw in
    let (key, val) = key_and_value line in
    if is_empty line
    then (flushed cur, none)
    else if text_eq key (codes "worktree")
    then (flushed cur, some (at_path val))
    else ([], applied key val cur)

unfoldable pub read_lines : Option Worktree → List Text → List Worktree
unfolding read_line
read_lines cur [] = flushed cur
read_lines cur (l ∷ ls) = let (ws, cur') = read_line cur l in ws ++ read_lines cur' ls

unfoldable pub parse_worktree_list : Text → List Worktree
unfolding read_lines
parse_worktree_list out = read_lines none (split 10 out)
