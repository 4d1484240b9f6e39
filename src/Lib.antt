-- ===== src/Lib.antt =====
-- frit finds what can be worked on across repositories of plans, and leases a plan to one holder at a
-- time through a git ref on a shared remote. This library models its core: the decisions over gathered
-- plans, and the lease.
--
-- The parts, by their paths in the repository, and the files that model them:
-- - internal/planmeta: Planmeta (the status of a plan, its phases, the first open phase), Planmeta/Tiers
--   (the order of the model tiers, plan.go), Planmeta/Files (the phase files of a folder plan, plan.go
--   and resume.go) and Planmeta/Resume (resume.go).
-- - internal/discovery: Discovery (discovery.go), Discovery/Ready (ready.go), Discovery/Rank (pick.go),
--   Discovery/Board (board.go, sort.go), Discovery/Resolve (resolve.go, find.go), Discovery/Window
--   (stale.go), Discovery/Deps (deps.go). Discovery/Order has the orders of all of them.
-- - internal/gitwt/worktree.go: Gitwt (the porcelain output of `git worktree list`).
-- - internal/repocfg: Repocfg (config.go) and Repocfg/Pattern (pattern.go).
-- - internal/gitobj: Gitobj (git.go, and parse.go but for batches) and Gitobj/Batch (ParseBatch).
-- - internal/lanes/lanes.go: Lanes (Build) and Lanes/Orphans (Find, Stale).
-- - internal/plans/collect.go: Plans.
-- - internal/index/index.go: Index, with Build's loop in Index/Scan.
-- - internal/doctor/doctor.go: Doctor (the checks) and Doctor/Scan (the scan of files).
-- - internal/dispatch/dispatch.go: Dispatch, and internal/reap/reap.go: Reap.
-- - internal/claim: Claim (options and markers), Claim/Message (marker texts), Claim/Refs (ref names),
--   Claim/Fault (the errors), Claim/Push (the pushes and the read that confirms one), Claim/Read (what
--   is read through git), Claim/Token (token.go), Claim/Lease (the transitions) and Claim/Rescue (park,
--   scavenge and yield), from lease.go and claim.go, and Claim/Decorated (decorated.go).
-- Lanes joins what Gitobj and Gitwt read by the patterns of Repocfg; Doctor checks with the tiers by
-- which Planmeta ranks; Plans reads files through Gitobj, and
-- Index groups them and parses through Planmeta; Claim/Decorated parks with Claim/Rescue.
-- Claim reads discovery's facts nowhere; the commands pass a plan's id and base between the two.
-- `decide` of Reap takes the landed check as its argument, as the source does.
-- A function has the name of the source's in this library's spelling: `Ready` is `ready`, `casPush` is
-- `cas_push`, `Takeover` is `take_over`, `Release` is `release_lease`, `Yield` is `yield_lane`. The
-- theorems on a file X stand in X/Laws; a lease's are in Claim/Lease/Advance, Claim/Lease/Take,
-- Claim/Lease/Bind, Claim/Lease/Stands and Claim/Lease/Mint; the laws of Index also in Index/Memo and
-- Index/Primary, of Lanes/Orphans in Lanes/Orphans/Landed, of Doctor in Doctor/Order, of Discovery/Deps
-- in Discovery/Deps/Once, of Gitobj/Batch in Gitobj/Batch/Fuel.
-- Base has lists, sorting, texts and numbers. Examples runs the theorems at concrete inputs.
--
-- How the source is read:
-- - A text is the list of its code points. `strings.ToLower` is an argument, for its table of letters.
-- - Plan ids are natural numbers up to 2^63 - 1; a text that spells a negative number is read as the
--   parse error, so the source's negative ids are not modelled. An epoch is the 64-bit word of an int in
--   two's complement, which wraps around and is printed and read with its sign.
-- - A time is its nanoseconds and a duration an integer; a window keeps the two durations of its
--   voided message. A difference of two times is exact: `Time.Sub` stops at about 292 years.
-- - The four status glyphs are constructors, any other status text is `other`.
-- - `sort.Slice` and `sort.SliceStable` are a stable insertion sort. A map is a function, or a list of
--   entries in the order of arrival where it is walked; the source sorts behind every such walk.
-- - Git, the random nonce and the token file are not the repository's code. They are `Host`, a function
--   from each call to an answer and a next state, in which other machines may write as well. What is
--   relied on of git and the remote is the record `Remote`: the history of ref changes only grows; a
--   push that git accepts had its ref at the pushed value at some moment of the call; and what
--   ls-remote prints is what the ref pointed at at some moment of it. Examples/Machine is one such host.
-- - An error is a value of `Fault`; the state outlives it. The sentences of the errors are left out but
--   for the prefixes of wrapped ones.
-- - `filepath.Join` in the token's path takes an absolute directory without a trailing slash.
-- - The dependency walk is on fuel: the number of plans and two, one step for each id that can be
--   expanded, one for the root and one for the last visit.
-- - A hold pattern's regular expression is its pieces, searched greedily with backtracking; `.` takes no
--   line feed.
-- - Git's reads in Gitobj are functions of their arguments, at one moment. A negative size or stamp is
--   read as the parse error.
-- - A batch of git's objects is read on the fuel of its length; each object takes at least one character.
-- - A folder of phase files is what listing it and reading each name answer; markdown, YAML and mdsmith
--   are the arguments of the functions that use them. Paths are clean and use `/`.
-- - The age of a worktree is an integer of nanoseconds, which does not saturate.
--
-- Not modelled: the command line, rendering, prompts, the herdr client, process probes, the reading of
-- markdown and YAML (mdsmith's), and the gathering of the fleet.
mod Base
pub mod Planmeta
pub mod Discovery
pub mod Gitwt
pub mod Claim
pub mod Dispatch
pub mod Reap
pub mod Repocfg
pub mod Gitobj
pub mod Lanes
pub mod Plans
pub mod Index
pub mod Doctor
mod Examples
