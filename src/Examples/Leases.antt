-- ===== src/Examples/Leases.antt =====
-- The theorems of a lease, on the machine of the examples.
use frit.Base.{
  ◌%◌, ◌^◌, trim_prefix, cut_prefix, has_prefix, cut, split, fields, trim_space, trim_left,
  trim_right, trim_right_of, is_space, text_eq, ℕ, ◌+◌, ◌≡◌, refl, ◌⊎◌, ◌≢◌, false, none, some,
  List, [], Text, codes, is_empty,
}
use frit.Base.Strings.Decimal.{decimal, is_digit, read_from, parse_word}
use frit.Claim.{beat, release, takeover, claim, Marker}
use frit.Claim.Message.{
  subject_prefix, marker_kind, marker_subject, lease_message, apply_field, apply_line, apply_lines,
  parse_marker,
}
use frit.Claim.Effects.{trimmed}
use frit.Claim.Token.{token_path, write_token, persist_token}
use frit.Claim.Fault.{done}
use frit.Claim.Remote.{Change, Seen, value_of}
use frit.Gitwt.{apply, read_line, read_lines, parse_worktree_list}
use frit.Claim.Refs.{base_branch, lease_branch, rescue_ref}
use frit.Claim.Push.{
  remote_holder_err, remote_holder, local_tip, sync_local_ref, push_then_confirm, cas_push,
  cas_delete, park,
}
use frit.Claim.Push.Laws.{RaceShows, cas_push_sound}
use frit.Claim.Read.{
  work_ref, is_work, is_ancestor, fresh_base, has_work, landed_by_content, has_unlanded,
  commit_marker, first_marker, latest_marker, fetched_marker, checked_out,
}
use frit.Claim.Lease.{
  Lease, sign_args, mint_marker, advance_from, takeover_from, refuse_diverging_local_branch,
  push_claim_marker, acquire_at, advance, relay_base, renew, take_over, acquire,
}
use frit.Claim.Lease.Grows.{relay_base-Grows}
use frit.Claim.Lease.Advance.{Carries, advance_sound}
use frit.Claim.Lease.Bind.{Started, Advanced, renew_to_bind_sound, own_advance_sound}
use frit.Claim.Lease.{renew_to_bind}
use frit.Base.{true}
use frit.Claim.Read.{is_ancestor, commit_marker, own_advance}
use frit.Claim.Lease.Stands.{local, looked, Same, stand_on, relay_base_total}
use frit.Claim.Fault.{failed, lease_diverges}
use frit.Base.{false}
use frit.Claim.Lease.Mint.{IsMinted}
use frit.Claim.Lease.Take.{Claimable, take_over_sound, acquire_sound, renew_sound}
use frit.Claim.Rescue.{park_unlanded, drop_local, scavenge_at, scavenge, yield_at, yield_lane}
use frit.Claim.Rescue.Laws.{Parked, Swept, scavenge_sound, yield_sound}
use frit.Base.{Memᴰ, ◌∷◌, sort, insert}
use frit.Claim.Decorated.{
  Tip, Retired, survey, decorated_tip, seize, retire_decorated, drop_copy, take_over_decorated,
}
use frit.Claim.Decorated.Laws.{IsAccounted, take_over_decorated_sound}
use frit.Examples.Machine.{opts, machine, run, shared, held_at}

abbrev world : List Change
world = held_at (codes "m1")

cas_push_sound_example :
    RaceShows shared
      (work_ref 7)
      (codes "m2")
      world
      (cas_push machine opts (work_ref 7) beat (codes "m2") (codes "m1") [] world).1
      (cas_push machine opts (work_ref 7) beat (codes "m2") (codes "m1") [] world).0
cas_push_sound_example =
    cas_push_sound shared opts (work_ref 7) beat (codes "m2") (codes "m1") [] world

abbrev lease : ℕ → Text → Lease
lease epoch base = record {
  branch = codes "plan/7";
  tip = codes "m2";
  epoch = epoch;
  base_sha = base;
}

releases :
    (advance machine opts release (codes "m1") (relay_base machine) world).0 ≡ done (lease 3 [])
unfolding advance advance_from relay_base sign_args mint_marker local_tip is_ancestor latest_marker
    first_marker commit_marker trimmed parse_marker apply_lines apply_line apply_field marker_kind
    subject_prefix lease_message decimal parse_word read_from is_digit cut_prefix has_prefix cut
    split fields trim_space trim_left trim_right trim_right_of is_space text_eq lease_branch
    cas_push push_then_confirm sync_local_ref remote_holder_err value_of run
releases = refl

advance_sound_example :
    (m : Marker) × ((latest_marker machine 7 (codes "m1") world).0 ≡ some m)
    × Carries shared opts release m.epoch (lease 3 [])
    × Seen shared
        (work_ref 7)
        (codes "m2")
        world
        (advance machine opts release (codes "m1") (relay_base machine) world).1
advance_sound_example =
    advance_sound shared opts release (codes "m1") (relay_base machine)
      (relay_base-Grows shared opts (work_ref 7) (codes "m1")) world (lease 3 []) releases

renews : (renew machine opts (codes "m1") world).0 ≡ done (lease 3 [])
unfolding renew advance advance_from relay_base sign_args mint_marker local_tip is_ancestor
    latest_marker first_marker commit_marker trimmed parse_marker apply_lines apply_line apply_field
    marker_kind subject_prefix lease_message decimal parse_word read_from is_digit cut_prefix
    has_prefix cut split fields trim_space trim_left trim_right trim_right_of is_space text_eq
    lease_branch cas_push push_then_confirm sync_local_ref remote_holder_err value_of run
    persist_token write_token token_path
renews = refl

renew_sound_example :
    (m : Marker) × ((latest_marker machine 7 (codes "m1") world).0 ≡ some m)
    × Carries shared opts beat m.epoch (lease 3 [])
    × Seen shared (work_ref 7) (codes "m2") world (renew machine opts (codes "m1") world).1
renew_sound_example = renew_sound shared opts (codes "m1") world (lease 3 []) renews

takes_over : (take_over machine opts (codes "m1") world).0 ≡ done (lease 4 [])
unfolding take_over takeover_from fetched_marker sign_args mint_marker local_tip is_ancestor
    latest_marker first_marker commit_marker trimmed parse_marker apply_lines apply_line apply_field
    marker_kind subject_prefix lease_message decimal parse_word read_from is_digit cut_prefix
    has_prefix cut split fields trim_space trim_left trim_right trim_right_of is_space text_eq
    lease_branch cas_push push_then_confirm sync_local_ref remote_holder_err value_of run
    persist_token write_token token_path
takes_over = refl

take_over_sound_example :
    (m : Marker) × ((fetched_marker machine opts (codes "m1") world).0 ≡ some m)
    × Carries shared opts takeover ((m.epoch + 1) % 2 ^ 64) (lease 4 [])
    × Seen shared (work_ref 7) (codes "m2") world (take_over machine opts (codes "m1") world).1
take_over_sound_example = take_over_sound shared opts (codes "m1") world (lease 4 []) takes_over

acquires : (acquire machine opts []).0 ≡ done (lease 1 (codes "t0"))
unfolding acquire acquire_at push_claim_marker refuse_diverging_local_branch remote_holder sign_args
    mint_marker local_tip is_ancestor latest_marker first_marker commit_marker trimmed parse_marker
    apply_lines apply_line apply_field marker_kind subject_prefix lease_message decimal parse_word
    read_from is_digit cut_prefix has_prefix cut split fields trim_space trim_left trim_right
    trim_right_of is_space text_eq lease_branch cas_push push_then_confirm sync_local_ref
    remote_holder_err value_of run persist_token write_token token_path
acquires = refl

acquire_sound_example :
    (codes "plan/7" ≡ lease_branch 7)
    × Claimable shared opts [] 1
    × IsMinted machine opts claim 1 (codes "m2")
    × Seen shared (work_ref 7) (codes "m2") [] (acquire machine opts []).1
acquire_sound_example = acquire_sound shared opts [] (lease 1 (codes "t0")) acquires

scavenges : (scavenge machine opts (codes "m1") world).0.err ≡ none
unfolding local_tip is_ancestor trimmed subject_prefix lease_message decimal parse_word read_from
    is_digit cut_prefix has_prefix cut split fields trim_space trim_left trim_right trim_right_of
    is_space text_eq lease_branch cas_push push_then_confirm sync_local_ref remote_holder_err
    value_of run scavenge scavenge_at park_unlanded drop_local checked_out has_unlanded fresh_base
    has_work is_work marker_subject landed_by_content cas_delete park rescue_ref base_branch
    trim_prefix parse_worktree_list read_lines read_line apply
scavenges = refl

scavenge_sound_example :
    let (now, read) = remote_holder_err machine opts.remote (work_ref 7) world in
    ((now ≡ done []) × ((scavenge machine opts (codes "m1") world).0.rescue ≡ []))
    ⊎ ((now ≡ done (codes "m1"))
        × Swept shared opts
            (codes "m1")
            read
            (scavenge machine opts (codes "m1") world).1
            (scavenge machine opts (codes "m1") world).0.rescue)
scavenge_sound_example = scavenge_sound shared opts (codes "m1") world scavenges

yields :
    (yield_lane machine opts (codes "m0") world).0 ≡ done (rescue_ref 7 (codes "ada") (codes "m0"))
unfolding local_tip is_ancestor trimmed subject_prefix lease_message decimal parse_word read_from
    is_digit cut_prefix has_prefix cut split fields trim_space trim_left trim_right trim_right_of
    is_space text_eq lease_branch cas_push push_then_confirm sync_local_ref remote_holder_err
    value_of run yield_lane yield_at park rescue_ref
yields = refl

yield_sound_example :
    (is_empty (codes "m0") ≡ false)
    × (holder : Text) × ((remote_holder_err machine opts.remote (work_ref 7) world).0 ≡ done holder)
    × (holder ≢ codes "m0")
    × Parked shared opts
        (codes "m0")
        world
        (yield_lane machine opts (codes "m0") world).1
        (rescue_ref 7 (codes "ada") (codes "m0"))
yield_sound_example =
    yield_sound shared opts (codes "m0") world (rescue_ref 7 (codes "ada") (codes "m0")) yields

binds : (renew_to_bind machine opts (codes "m1") world).0 ≡ done (lease 3 [])
unfolding renew_to_bind advance advance_from relay_base sign_args mint_marker local_tip is_ancestor
    latest_marker first_marker commit_marker trimmed parse_marker apply_lines apply_line apply_field
    marker_kind subject_prefix lease_message decimal parse_word read_from is_digit cut_prefix
    has_prefix cut split fields trim_space trim_left trim_right trim_right_of is_space text_eq
    lease_branch cas_push push_then_confirm sync_local_ref remote_holder_err value_of run
    persist_token write_token token_path
binds = refl

renew_to_bind_sound_example :
    (tip : Text) × (start : List Change) × Started shared opts (codes "m1") world tip start
    × Advanced shared opts tip start (renew_to_bind machine opts (codes "m1") world).1 (lease 3 [])
renew_to_bind_sound_example = renew_to_bind_sound shared opts (codes "m1") world (lease 3 []) binds

owns : (own_advance machine 7 (codes "m1") (codes "m2") world).0 ≡ true
unfolding own_advance advance advance_from relay_base sign_args mint_marker local_tip is_ancestor
    latest_marker first_marker commit_marker trimmed parse_marker apply_lines apply_line apply_field
    marker_kind subject_prefix lease_message decimal parse_word read_from is_digit cut_prefix
    has_prefix cut split fields trim_space trim_left trim_right trim_right_of is_space text_eq
    lease_branch cas_push push_then_confirm sync_local_ref remote_holder_err value_of run
    persist_token write_token token_path
owns = refl

own_advance_sound_example :
    let (reached, w₁) = is_ancestor machine (codes "m1") (codes "m2") world in
    let (owned, w₂) = commit_marker machine 7 (codes "m1") w₁ in
    (is_empty (codes "m1") ≡ false)
    × (reached ≡ true)
    × (m : Marker) × (g : Marker) × (owned ≡ some m)
    × ((latest_marker machine 7 (codes "m2") w₂).0 ≡ some g)
    × (g.kind ≢ release)
    × (g.epoch ≡ m.epoch)
    × (g.holder ≡ m.holder)
own_advance_sound_example = own_advance_sound machine 7 (codes "m1") (codes "m2") world owns

relay_base_total_example :
    let tip = local machine opts (work_ref 7) (codes "m1") world in
    let w = looked machine opts (work_ref 7) (codes "m1") world in
    let (ahead, read) = is_ancestor machine (codes "m1") tip w in
    let (behind, after) = is_ancestor machine tip (codes "m1") read in
    let stand = (relay_base machine opts (work_ref 7) (codes "m1") world).0 in
    let same = Same machine opts (work_ref 7) (codes "m1") world in
    let on = stand_on machine opts (work_ref 7) (codes "m1") world in
    (same × (stand ≡ done (on (codes "m1"))))
    ⊎ (¬ same × (ahead ≡ true) × (stand ≡ done (on tip)))
    ⊎ (¬ same × (ahead ≡ false) × (behind ≡ true) × (stand ≡ done (on (codes "m1"))))
    ⊎ (¬ same
        × (ahead ≡ false)
        × (behind ≡ false)
        × (stand ≡ failed (lease_diverges 7 (lease_branch 7) tip (codes "m1"))))
relay_base_total_example = relay_base_total machine opts (work_ref 7) (codes "m1") world

abbrev tips : List Tip
tips = record { branch = codes "plan/7-x"; tip = codes "m1" } ∷ []

abbrev decorated_world : List Change
decorated_world = record { ref = codes "refs/heads/plan/7-x"; old = []; new = codes "m1" } ∷ []

abbrev retired : Retired
retired = record {
  branch = codes "plan/7-x";
  rescue = rescue_ref 7 (codes "ada") (codes "m1");
  deleted_on_origin = true;
  local_kept = false;
}

retired_listed : Memᴰ retired (take_over_decorated machine opts tips decorated_world).0.retired
unfolding local_tip is_ancestor trimmed subject_prefix lease_message decimal parse_word read_from
    is_digit cut_prefix has_prefix cut split fields trim_space trim_left trim_right trim_right_of
    is_space text_eq lease_branch cas_push push_then_confirm sync_local_ref remote_holder_err
    value_of run park_unlanded checked_out has_unlanded fresh_base has_work is_work marker_subject
    landed_by_content cas_delete park rescue_ref base_branch trim_prefix parse_worktree_list
    read_lines read_line apply take_over_decorated survey sort insert decorated_tip seize
    retire_decorated drop_copy
retired_listed = Memᴰ.head refl

take_over_decorated_sound_example : IsAccounted shared opts tips decorated_world retired
take_over_decorated_sound_example =
    take_over_decorated_sound shared opts tips decorated_world retired retired_listed
