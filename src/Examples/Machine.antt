-- ===== src/Examples/Machine.antt =====
-- A machine whose state is the history of its remote. A push is accepted where the ref is still at the
-- expected value; every other call leaves the remote alone.
use frit.Base.{
  ◌≡◌, refl, sym, ◌∙◌, ap, inl, inr, Bool, true, false, Bool-cases, List, [], ◌∷◌, ◌++◌, Text,
  codes, fields, text_eq, if◌then◌else◌,
}
use frit.Base.Strings.Laws.{text_eq_iff, text_eq_refl}
use frit.Claim.{claim, LeaseOptions}
use frit.Claim.Message.{lease_message}
use frit.Claim.Host.{Command, Outcome, Host}
use frit.Claim.Push.{first_field}
use frit.Claim.Remote.{Change, value_of, Remote}

abbrev pub opts : LeaseOptions
opts = record {
  plan_id = 7;
  remote = codes "origin";
  base = codes "origin/main";
  holder = codes "ada";
  lane = codes "lane7";
  session = codes "s1";
}

abbrev pub marker_text : Text
marker_text = lease_message claim opts 3 (codes "0011223344556677") (codes "b0")

-- A ref whose value is no single field has no readable answer.
abbrev answer : Text → Outcome
answer v = if text_eq (first_field (fields v)) v then Outcome.ok v else Outcome.fail []

abbrev pushed : Bool → Change → List Change → Outcome × List Change
pushed true c h = (Outcome.ok [], c ∷ h)
pushed false c h = (Outcome.fail (codes "stale info"), h)

abbrev change : Text → Text → Text → Change
change ref old new = record { ref = ref; old = old; new = new }

unfoldable pub run : Command → List Change → Outcome × List Change
run (Command.ls_remote r ref) h = (answer (value_of h ref), h)
run (Command.fetch r ref) h = (Outcome.ok [], h)
run (Command.push r ref old new) h = pushed (text_eq (value_of h ref) old) (change ref old new) h
run (Command.rev_parse rev) h = (Outcome.ok (codes "t0\n"), h)
run (Command.verify ref) h = (Outcome.fail [], h)
run (Command.git_dir d) h = (Outcome.ok (codes "/git\n"), h)
run (Command.is_ancestor c b) h = (Outcome.ok [], h)
run (Command.merge_tree b t) h = (Outcome.ok (codes "t1\n"), h)
run (Command.commit_tree t p s m) h = (Outcome.ok (codes "m2\n"), h)
run (Command.config_bool k) h = (Outcome.ok (codes "false\n"), h)
run (Command.log_subjects t b) h = (Outcome.ok (codes "feat: work\n"), h)
run (Command.log_body s) h = (Outcome.ok marker_text, h)
run (Command.log_subject s) h = (Outcome.ok (codes "plan 7: claim\n"), h)
run (Command.log_hashes ps t) h = (Outcome.ok (codes "m1\n"), h)
run (Command.update_ref a b c d) h = (Outcome.ok [], h)
run (Command.delete_ref r) h = (Outcome.ok [], h)
run (Command.delete_ref_at r o) h = (Outcome.ok [], h)
run Command.worktree_list h = (Outcome.ok [], h)

abbrev pub machine : Host (List Change)
machine = record {
  run = run;
  nonce = λ h. (Outcome.ok (codes "8899aabbccddeeff"), h);
  write_file = λ path content h. (Outcome.ok [], h);
  read_file = λ path h. (Outcome.ok [], h);
}

pushed_grows :
    (b : Bool) (c : Change) (h : List Change) → (ext : List Change) × ((pushed b c h).1 ≡ ext ++ h)
pushed_grows true c h = (c ∷ [], refl)
pushed_grows false c h = ([], refl)

pub run_grows : (c : Command) (h : List Change) → (ext : List Change) × ((run c h).1 ≡ ext ++ h)
unfolding run
run_grows (Command.ls_remote r ref) h = ([], refl)
run_grows (Command.fetch r ref) h = ([], refl)
run_grows (Command.push r ref old new) h =
    pushed_grows (text_eq (value_of h ref) old) (change ref old new) h
run_grows (Command.rev_parse rev) h = ([], refl)
run_grows (Command.verify ref) h = ([], refl)
run_grows (Command.git_dir d) h = ([], refl)
run_grows (Command.is_ancestor c b) h = ([], refl)
run_grows (Command.merge_tree b t) h = ([], refl)
run_grows (Command.commit_tree t p s m) h = ([], refl)
run_grows (Command.config_bool k) h = ([], refl)
run_grows (Command.log_subjects t b) h = ([], refl)
run_grows (Command.log_body s) h = ([], refl)
run_grows (Command.log_subject s) h = ([], refl)
run_grows (Command.log_hashes ps t) h = ([], refl)
run_grows (Command.update_ref a b c d) h = ([], refl)
run_grows (Command.delete_ref r) h = ([], refl)
run_grows (Command.delete_ref_at r o) h = ([], refl)
run_grows Command.worktree_list h = ([], refl)

pub push_shows :
    (r ref expected src : Text) (h : List Change) (out : Text)
    → (run (Command.push r ref expected src) h).0 ≡ Outcome.ok out
    → (newer : List Change) × (older : List Change) × ((run (Command.push r ref expected src) h).1
        ≡ newer ++ (older ++ h))
      × (value_of (older ++ h) ref ≡ src)
unfolding run value_of
push_shows r ref expected src h out = elim (Bool-cases (text_eq (value_of h ref) expected)) [
  | inl fits ↦ rw fits λ e. ([], change ref expected src ∷ [], refl, rw (text_eq_refl ref) refl)
  | inr stale ↦ rw stale λ e. absurd (cc)
]

pub read_shows :
    (r ref : Text) (h : List Change) (out : Text)
    → (run (Command.ls_remote r ref) h).0 ≡ Outcome.ok out
    → (newer : List Change) × (older : List Change) × ((run (Command.ls_remote r ref) h).1
        ≡ newer ++ (older ++ h))
      × (value_of (older ++ h) ref ≡ first_field (fields out))
unfolding run
read_shows r ref h out =
    elim (Bool-cases (text_eq (first_field (fields (value_of h ref))) (value_of h ref))) [
      | inl one ↦ rw one λ e. (
        [],
        [],
        refl,
        sym ((text_eq_iff (first_field (fields (value_of h ref))) (value_of h ref)).0 one)
            ∙ ap (λ v. first_field (fields v)) (cc),
      )
      | inr more ↦ rw more λ e. absurd (cc)
    ]

abbrev pub shared : Remote machine
shared = record {
  history = λ h. h;
  run_grows = run_grows;
  nonce_grows = λ h. ([], refl);
  write_grows = λ path content h. ([], refl);
  push_shows = push_shows;
  read_shows = read_shows;
}

-- The remote with the plan's work ref at a tip.
abbrev pub held_at : Text → List Change
held_at tip = change (codes "refs/heads/plan/7") [] tip ∷ []
