-- ===== src/Examples/Plans.antt =====
-- The theorems on the index of plans, on one plan that two refs carry with one content.
use frit.Base.{
  ◌≡◌, refl, sym, ◌∙◌, ap, true, some, List, [], ◌∷◌, Memᴰ, Text, codes, text_eq, text_ltb, insert,
  sort, trim_right_of,
}
use frit.Base.Strings.Path.{path_base, last_segment}
use frit.Planmeta.{Status, Plan, Parsed, parsed, is_proto}
use frit.Planmeta.Tiers.{widens_tier_rank, apply_tier_vocabulary, parse_with_vocabulary}
use frit.Base.{
  none, split, cut, fields, fields_from, trim_space, trim_left, trim_right, is_space, if◌then◌else◌,
}
use frit.Base.Strings.Decimal.{parse_int, read_from, is_digit}
use frit.Base.Strings.Path.{cut_suffix}
use frit.Gitobj.{
  Runner, PipeRunner, refs, parse_refs, tree_oids, tree_requests, trees_from, parse_batch_check,
  check_from, tree_entries, parse_ls_tree,
}
use frit.Gitobj.Batch.{
  blobs, blob_requests, contents_from, parse_batch, batch_from, answer_of, payload_of,
}
use frit.Plans
use frit.Plans.{
  entries_by_tree, entries_from, markdown_only, is_plan_path, is_folder_plan_file, blob_oids,
  assemble,
}
use frit.Plans.Laws.{collect-landed_ids, collect-IsContentAddressed}
use frit.Index.{
  File, Version, Entry, on_ref, primary, landed_ids, add_ref, add_version, rank, collect,
}
use frit.Index.Scan.{scan_file, scan_from, build}
use frit.Index.Memo.{IsContentAddressed, put_all, problems_of, build-put_all}
use frit.Index.Laws.{IsFinishedOn, landed_ids-IsFinishedOn}
use frit.Index.Primary.{build-primary}

abbrev plan : Plan
plan = record {
  id = 7;
  title = codes "Index";
  status = Status.done;
  summary = [];
  model = [];
  depends_on = [];
  phases = [];
  goal = [];
}

abbrev parse : Text → Parsed
parse source = parsed plan

abbrev main : Text
main = codes "m"

abbrev lane : Text
lane = codes "l"

abbrev file : Text → File
file ref = record { ref = ref; path = codes "p/7.md"; oid = codes "b1"; content = codes "x" }

abbrev files : List File
files = file main ∷ file lane ∷ []

file_content : (f : File) → Memᴰ f files → f.content ≡ codes "x"
file_content f (Memᴰ.head e) = ap (λ g. g.content) e
file_content f (Memᴰ.tail (Memᴰ.head e)) = ap (λ g. g.content) e
file_content f (Memᴰ.tail (Memᴰ.tail m)) = elim m [ ]

files-IsContentAddressed : IsContentAddressed files
files-IsContentAddressed f g m n o = file_content f m ∙ sym (file_content g n)

build-put_all_example : build parse [] (codes "h") (codes "r") main files ≡ (
  collect (codes "h") (codes "r") main (put_all parse [] [] files),
  problems_of parse [] [] files,
)
build-put_all_example =
    build-put_all parse [] (codes "h") (codes "r") main files files-IsContentAddressed

landed : landed_ids (build parse [] (codes "h") (codes "r") main files).0 main 7 ≡ true
unfolding landed_ids primary on_ref build scan_from scan_file is_proto path_base last_segment
    trim_right_of text_eq text_ltb add_version add_ref collect rank sort insert
    parse_with_vocabulary apply_tier_vocabulary widens_tier_rank
landed = refl

landed_ids-IsFinishedOn_example : IsFinishedOn parse [] files files-IsContentAddressed main 7
landed_ids-IsFinishedOn_example =
    landed_ids-IsFinishedOn parse [] files files-IsContentAddressed (codes "h") (codes "r") main 7
      landed

abbrev version : Version
version = record { oid = codes "b1"; plan = plan; path = codes "p/7.md"; refs = lane ∷ main ∷ [] }

abbrev entry : Entry
entry = record {
  key = record { host = codes "h"; repo = codes "r"; id = 7 };
  versions = version ∷ [];
}

entry-mem : Memᴰ entry (build parse [] (codes "h") (codes "r") main files).0
unfolding on_ref build scan_from scan_file is_proto path_base last_segment trim_right_of text_eq
    text_ltb add_version add_ref collect rank sort insert parse_with_vocabulary
    apply_tier_vocabulary widens_tier_rank
entry-mem = Memᴰ.head refl

version_on_main : on_ref version main ≡ true
unfolding on_ref text_eq
version_on_main = refl

build-primary_example : (w : Version) × (primary entry ≡ some w) × (on_ref w main ≡ true)
build-primary_example =
    build-primary parse [] (codes "h") (codes "r") main files entry version entry-mem
      (Memᴰ.head refl) version_on_main

-- Git's answers: two refs with one tree, which has one plan file.
abbrev run_git : Runner
run_git [] = none
run_git (a ∷ args) =
    if text_eq a (codes "for-each-ref")
    then some (codes "c1 m\nc2 l\n")
    else some (codes "100644 blob b1\t7.md\n")

abbrev pipe_git : PipeRunner
pipe_git request [] = none
pipe_git request (a ∷ []) = none
pipe_git request (a ∷ b ∷ args) =
    if text_eq b (codes "--batch-check")
    then some (codes "t1 tree 9\nt1 tree 9\n")
    else some (codes "b1 blob 1\nx\n")

abbrev read_files : List File
read_files = file lane ∷ file main ∷ []

collected : Plans.collect run_git pipe_git (codes "p") ≡ some (read_files, [])
unfolding Plans.collect refs parse_refs tree_oids tree_requests trees_from parse_batch_check
    check_from tree_entries parse_ls_tree entries_by_tree entries_from markdown_only is_plan_path
    is_folder_plan_file blob_oids assemble blobs blob_requests contents_from parse_batch batch_from
    answer_of payload_of split cut fields fields_from trim_space trim_left trim_right trim_right_of
    is_space text_eq text_ltb sort insert parse_int read_from is_digit cut_suffix path_base
    last_segment
collected = refl

read_landed : landed_ids (build parse [] (codes "h") (codes "r") main read_files).0 main 7 ≡ true
unfolding landed_ids primary on_ref build scan_from scan_file is_proto path_base last_segment
    trim_right_of text_eq text_ltb add_version add_ref collect rank sort insert
    parse_with_vocabulary apply_tier_vocabulary widens_tier_rank
read_landed = refl

collect-landed_ids_example :
    IsFinishedOn parse [] read_files
      (collect-IsContentAddressed run_git pipe_git (codes "p") read_files [] collected)
      main
      7
collect-landed_ids_example =
    collect-landed_ids run_git pipe_git (codes "p") read_files [] collected parse [] (codes "h")
      (codes "r") main 7 read_landed
