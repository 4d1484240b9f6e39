-- ===== src/Claim/Read.antt =====
-- internal/claim/lease.go and claim.go: what a lease reads through git before it decides.
use frit.Base.{
  ℕ, suc, Bool, true, false, ◌&&◌, ◌||◌, not, Option, none, some, List, [], ◌∷◌, ◌++◌, Text, codes,
  text_eq, is_empty, fields, split, any, if◌then◌else◌, ◌==◌,
}
use frit.Base.Strings.Decimal.{decimal}
use frit.Gitwt.{parse_worktree_list}
use frit.Claim.{Kind, beat, release, takeover, kind_text, LeaseOptions, Marker}
use frit.Claim.Message.{subject_prefix, marker_subject, parse_marker}
use frit.Claim.Refs.{lease_branch, head_ref, base_branch}
use frit.Claim.Effects.{M, output, trimmed, ◌>>=◌, pure, lift, wrap}
use frit.Claim.Fault.{Fault, held, fenced, Result, done, failed}
use frit.Claim.Host.{Command, Outcome, Host}

-- `git log --grep` patterns of a plan's markers.
abbrev claim_pattern : ℕ → Text
claim_pattern id = codes "^plan " ++ (decimal id ++ codes ": claim")

abbrev pattern_of : Kind → ℕ → Text
pattern_of kind id = codes "^plan " ++ (decimal id ++ (codes ": " ++ (kind_text kind ++ codes "$")))

abbrev pub is_ok : Outcome → Bool
is_ok (Outcome.ok out) = true
is_ok (Outcome.fail err) = false

abbrev parse_outcome : ℕ → Result Text → Option Marker
parse_outcome id (done body) = parse_marker id body
parse_outcome id (failed e) = none

-- A subject that is not empty and not a marker's is work.
unfoldable pub is_work : ℕ → Text → Bool
is_work id subject = not (is_empty subject) && not (marker_subject subject id)

-- `Acquire`'s own work ref.
abbrev pub work_ref : ℕ → Text
work_ref id = head_ref (lease_branch id)

abbrev this_holder : Option Marker → LeaseOptions → Bool
this_holder none opts = false
this_holder (some m) opts = not (is_empty m.holder) && text_eq m.holder opts.holder

abbrev is_release : Kind → Bool
is_release release = true
is_release _ = false

-- The lines that spell a takeover of the plan.
abbrev count_takeovers : Text → List Text → ℕ
count_takeovers want [] = 0
count_takeovers want (l ∷ ls) =
    let rest = count_takeovers want ls in if text_eq l want then suc rest else rest

abbrev takeovers_in : ℕ → Result Text → ℕ
takeovers_in id (done out) =
    count_takeovers (subject_prefix id ++ kind_text takeover) (split 10 out)
takeovers_in id (failed e) = 0

abbrev pub patterns : ℕ → List Text
patterns id =
    claim_pattern id ∷ pattern_of beat id ∷ pattern_of release id ∷ pattern_of takeover id ∷ []

module _ {W : Type 0} (host : Host W) where
  -- A call's output as it stands, and without its trailing newlines.
  abbrev pub ask : Command → M W Text
  ask c w = let (o, w') = host.run c w in (output o, w')

  abbrev pub ask_trimmed : Command → M W Text
  ask_trimmed c w = let (o, w') = host.run c w in (trimmed o, w')

  unfoldable pub is_ancestor : Text → Text → W → Bool × W
  is_ancestor sha base w = let (o, w') = host.run (Command.is_ancestor sha base) w in (is_ok o, w')

  -- The base refreshed from the remote when it can be, else the local view.
  unfoldable pub fresh_base : Text → Text → W → Text × W
  fresh_base base_ref remote w =
      let branch = base_branch base_ref remote in
      let (o, w') = host.run (Command.fetch remote branch) w in
      if is_empty branch
      then (base_ref, w)
      else if is_ok o
      then (codes "FETCH_HEAD", w')
      else (base_ref, w')

  -- Whether the chain from the base to a tip holds a commit that is no marker of the plan's.
  unfoldable pub has_work : ℕ → Text → Text → M W Bool
  has_work id base tip = do
    out ←
        wrap (codes "read the chain for plan " ++ decimal id) (ask (Command.log_subjects tip base))
    pure (any (is_work id) (split 10 out))

  abbrev same_tree : Result Text → Result Text → Bool
  same_tree (done tree) (done base_tree) = text_eq tree base_tree
  same_tree _ _ = false

  -- Whether merging the tip into the base changes nothing. The second read is made only behind a
  -- merge that succeeded.
  unfoldable pub landed_by_content : Text → Text → W → Bool × W
  landed_by_content base tip w =
      let (tree, w₁) = ask_trimmed (Command.merge_tree base tip) w in
      let (base_tree, w₂) = ask_trimmed (Command.rev_parse (base ++ codes "^{tree}")) w₁ in
      elim tree [ done t ↦ (same_tree (done t) base_tree, w₂) | failed e ↦ (false, w₁) ]

  unfoldable pub has_unlanded : LeaseOptions → Text → M W Bool
  has_unlanded opts tip = do
    base ← lift (fresh_base opts.base opts.remote)
    work ← has_work opts.plan_id base tip
    landed ← if work then lift (landed_by_content base tip) else pure true
    pure (not landed)

  abbrev landed_if_work : Text → Text → Result Bool × W → Bool × W
  landed_if_work base tip (done true, w) = landed_by_content base tip w
  landed_if_work base tip (done false, w) = (false, w)
  landed_if_work base tip (failed e, w) = (false, w)

  unfoldable pub landed_tip : ℕ → Text → Text → Text → W → Bool × W
  landed_tip id base_ref remote tip w =
      let (base, w₁) = fresh_base base_ref remote w in
      let (merged, w₂) = is_ancestor tip base w₁ in
      if merged then (true, w₂) else landed_if_work base tip (has_work id base tip w₂)

  -- The whole body of a commit, read as a marker of the plan.
  unfoldable pub commit_marker : ℕ → Text → W → Option Marker × W
  commit_marker id sha w =
      let (r, w') = ask_trimmed (Command.log_body sha) w in (parse_outcome id r, w')

  -- The loop over the candidates: the first that parses.
  unfoldable pub first_marker : ℕ → List Text → W → Option Marker × W
  first_marker id [] w = (none, w)
  first_marker id (sha ∷ shas) w =
      let (m, w') = commit_marker id sha w in
      elim m [ none ↦ first_marker id shas w' | some found ↦ (some found, w') ]

  unfoldable pub latest_marker : ℕ → Text → W → Option Marker × W
  latest_marker id tip w =
      let (o, w') = ask (Command.log_hashes (patterns id) tip) w in
      elim o [ done out ↦ first_marker id (fields out) w' | failed e ↦ (none, w') ]

  -- The latest marker from a tip, fetched first where its objects are not at hand.
  unfoldable pub fetched_marker : LeaseOptions → Text → W → Option Marker × W
  fetched_marker opts tip w =
      let (m, w₁) = latest_marker opts.plan_id tip w in
      elim m [
        | some found ↦ (some found, w₁)
        | none ↦
            let (o, w₂) = host.run (Command.fetch opts.remote (work_ref opts.plan_id)) w₁ in
            elim o [
              | Outcome.ok out ↦ latest_marker opts.plan_id tip w₂
              | Outcome.fail err ↦ (none, w₂)
            ]
      ]

  unfoldable pub held_error : LeaseOptions → Text → W → Fault × W
  held_error opts tip w =
      let (fetched, w₁) = host.run (Command.fetch opts.remote (work_ref opts.plan_id)) w in
      let (landed, w₂) = landed_tip opts.plan_id opts.base opts.remote tip w₁ in
      let (m, w₃) = fetched_marker opts tip w₂ in
      (
        held (record {
          plan_id = opts.plan_id;
          tip = tip;
          marker = m;
          this_holder = this_holder m opts;
          landed = landed;
        }),
        w₃,
      )

  unfoldable pub fence_error : LeaseOptions → Text → W → Fault × W
  fence_error opts tip w =
      let (m, w') = fetched_marker opts tip w in
      (fenced (record { plan_id = opts.plan_id; tip = tip; marker = m }), w')

  abbrev on_branch : Text → Result Text → Bool
  on_branch branch (done out) = any (λ t. text_eq t.branch branch) (parse_worktree_list out)
  on_branch branch (failed e) = true

  -- Whether a worktree stands on the branch; a list that cannot be read counts as one that does.
  unfoldable pub checked_out : Text → W → Bool × W
  checked_out branch w = let (r, w') = ask Command.worktree_list w in (on_branch branch r, w')

  abbrev is_release_subject : ℕ → Result Text → Bool
  is_release_subject id (done subject) = text_eq subject (subject_prefix id ++ kind_text release)
  is_release_subject id (failed e) = false

  unfoldable pub released : Text → ℕ → W → Bool × W
  released tip id w =
      let (r, w') = ask_trimmed (Command.log_subject tip) w in (is_release_subject id r, w')

  abbrev same_hold : Option Marker → Option Marker → Bool
  same_hold (some owned) (some governing) =
      not (is_release governing.kind)
      && (governing.epoch == owned.epoch && text_eq governing.holder owned.holder)
  same_hold _ _ = false

  -- Whether the tip was reached by the lane's own lease: the reads stop at the first that says no.
  unfoldable pub own_advance : ℕ → Text → Text → W → Bool × W
  own_advance id token tip w =
      let (reached, w₁) = is_ancestor token tip w in
      let (owned, w₂) = commit_marker id token w₁ in
      let (governing, w₃) = latest_marker id tip w₂ in
      if is_empty token || is_empty tip
      then (false, w)
      else if not reached
      then (false, w₁)
      else elim owned [ none ↦ (false, w₂) | some m ↦ (same_hold (some m) governing, w₃) ]

  unfoldable pub takeover_count : ℕ → Text → Text → W → ℕ × W
  takeover_count id base tip w =
      let (r, w') = ask (Command.log_subjects tip base) w in (takeovers_in id r, w')
