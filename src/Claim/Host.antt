-- ===== src/Claim/Host.antt =====
-- What a lease asks of its machine: git through the runner that the source passes around
-- (internal/gitwt's `Runner`), the random nonce and the token file. None of these is the
-- repository's code, so they are parameters: a state `W`, which other machines may change in
-- any of these calls, and a function for each.
use frit.Base.{Bool, List, Text}

-- A git call of internal/claim, by its arguments.
pub data Command : Type 0 where
  -- ls-remote <remote> <pattern>
  ls_remote : (remote pattern : Text) → Command
  -- fetch --quiet <remote> <ref>
  fetch : (remote ref : Text) → Command
  -- push --force-with-lease=<ref>:<expected> <remote> <src>:<ref>
  push : (remote ref expected src : Text) → Command
  -- rev-parse <rev>
  rev_parse : (rev : Text) → Command
  -- rev-parse --verify --quiet <ref>
  verify : (ref : Text) → Command
  -- rev-parse --path-format=absolute --git-dir, in the worktree
  git_dir : (worktree : Text) → Command
  -- merge-base --is-ancestor <commit> <of>
  is_ancestor : (commit of : Text) → Command
  -- merge-tree --write-tree <base> <tip>
  merge_tree : (base tip : Text) → Command
  -- commit-tree <tree> -p <parent> [-S] -m <message>
  commit_tree : (tree parent : Text) (sign : Bool) (message : Text) → Command
  -- config --type=bool --default=false --get <key>
  config_bool : (key : Text) → Command
  -- log --no-show-signature --format=%s <tip> ^<base>
  log_subjects : (tip base : Text) → Command
  -- log --no-show-signature -1 --format=%B <sha>
  log_body : (sha : Text) → Command
  -- log --no-show-signature -1 --format=%s <tip>
  log_subject : (tip : Text) → Command
  -- log --no-show-signature --grep=<pattern>… --format=%H <tip>
  log_hashes : (patterns : List Text) (tip : Text) → Command
  -- update-ref --create-reflog -m <reason> <ref> <tip> <seen>
  update_ref : (reason ref tip seen : Text) → Command
  -- update-ref -d <ref>
  delete_ref : (ref : Text) → Command
  -- update-ref -d <ref> <old>
  delete_ref_at : (ref old : Text) → Command
  -- worktree list --porcelain
  worktree_list : Command

-- A call's standard output, or its error.
pub data Outcome : Type 0 where
  ok : (out : Text) → Outcome
  fail : (err : Text) → Outcome

pub record Host (W : Type 0) : Type 0 where
  pub run : Command → W → Outcome × W
  -- Sixteen hex digits of eight random bytes.
  pub nonce : W → Outcome × W
  -- Creates the file's directory and the file; an error is an error of either.
  pub write_file : (path content : Text) → W → Outcome × W
  pub read_file : (path : Text) → W → Outcome × W
