-- ===== src/Plans/Laws.antt =====
-- The files that `Collect` reads are what the index of plans is built from.
use frit.Base.{
  ℕ, ◌≡◌, sym, ap, subst, ◌∙◌, true, Option, none, some, List, Memᴰ, Text, concat_map,
  mem_of_mem-concat_map, mem_of_mem-filter_map, mem_of_mem-sort,
}
use mathlib.Core.Option.{some_inj}
use frit.Planmeta.{Parsed}
use frit.Index.{landed_ids}
use frit.Index.Scan.{build}
use frit.Index.Memo.{IsContentAddressed}
use frit.Index.Laws.{IsFinishedOn, landed_ids-IsFinishedOn}
use frit.Gitobj.{Ref, TreeEntry, Runner, PipeRunner, Trees, refs, tree_oids}
use frit.Gitobj.Batch.{Contents, blobs}
use frit.Plans.{
  File, Listed, Listing, entries_of, entries_by_tree, blob_oids, file_at, files_of, file_before,
  assemble, collect, with_blobs, with_listing, with_trees, with_refs, file_with, files_at,
}

file_with-oid :
    (r : Ref) (e : TreeEntry) (c : Option Text) (f : File)
    → file_with r e c ≡ some f
    → f.oid ≡ e.oid
file_with-oid r e none f h = absurd (cc)
file_with-oid r e (some c) f h = ap (λ x. x.oid) (sym (some_inj.0 h))

file_with-content :
    (r : Ref) (e : TreeEntry) (c : Option Text) (f : File)
    → file_with r e c ≡ some f
    → c ≡ some f.content
file_with-content r e none f h = absurd (cc)
file_with-content r e (some c) f h = ap (λ x. some x.content) (some_inj.0 h)

module _ (trees : Trees) (listed : List Listed) (contents : Contents) where
  files_at-content :
      (r : Ref) (t : Option Text) (f : File)
      → Memᴰ f (files_at listed contents r t)
      → contents f.oid ≡ some f.content
  files_at-content r none f m = elim m [ ]
  files_at-content r (some t) f m =
      let (e, n, h) = mem_of_mem-filter_map (file_at contents r) f (entries_of listed t) m in
      ap contents (file_with-oid r e (contents e.oid) f h)
      ∙ file_with-content r e (contents e.oid) f h

  assemble-content :
      (rs : List Ref) (f : File)
      → Memᴰ f (assemble rs trees listed contents)
      → contents f.oid ≡ some f.content
  unfolding assemble
  assemble-content rs f m =
      let (r, n, k) =
        mem_of_mem-concat_map (files_of trees listed contents) f rs
          (mem_of_mem-sort file_before (concat_map (files_of trees listed contents) rs) m) in
      files_at-content r (trees r.name) f k

  assemble-IsContentAddressed :
      (rs : List Ref) → IsContentAddressed (assemble rs trees listed contents)
  assemble-IsContentAddressed rs f g m n e =
      some_inj.0 (sym (assemble-content rs f m) ∙ ap contents e ∙ assemble-content rs g n)

module _ (run : Runner) (pipe : PipeRunner) (subdir : Text) (files : List File)
    (ignored : List Text) where
  abbrev Collected : Option (List File × List Text) → Type 0
  Collected o = o ≡ some (files, ignored)

  of_blobs :
      (rs : List Ref) (trees : Trees) (l : Listing) (c : Option Contents)
      → Collected (with_blobs run pipe subdir rs trees l c)
      → IsContentAddressed files
  of_blobs rs trees l none h = absurd (cc)
  of_blobs rs trees l (some contents) h =
      subst IsContentAddressed (ap (λ x. x.0) (some_inj.0 h))
        (assemble-IsContentAddressed trees l.0 contents rs)

  of_listing :
      (rs : List Ref) (trees : Trees) (l : Option Listing)
      → Collected (with_listing run pipe subdir rs trees l)
      → IsContentAddressed files
  of_listing rs trees none h = absurd (cc)
  of_listing rs trees (some l) h = of_blobs rs trees l (blobs pipe (blob_oids l.0)) h

  of_trees :
      (rs : List Ref) (t : Option Trees)
      → Collected (with_trees run pipe subdir rs t)
      → IsContentAddressed files
  of_trees rs none h = absurd (cc)
  of_trees rs (some trees) h = of_listing rs trees (entries_by_tree run subdir rs trees) h

  of_refs :
      (rs : Option (List Ref)) → Collected (with_refs run pipe subdir rs) → IsContentAddressed files
  of_refs none h = absurd (cc)
  of_refs (some rs) h = of_trees rs (tree_oids pipe subdir rs) h

  pub collect-IsContentAddressed :
      collect run pipe subdir ≡ some (files, ignored) → IsContentAddressed files
  unfolding collect
  collect-IsContentAddressed h = of_refs (refs run) h

  -- The whole read: whatever git answers, an id that `LandedIDs` has of the entries `Build` makes of the
  -- files that `Collect` read has a file on the preferred ref itself, no schema template, that reads as
  -- a plan of that id whose status is done or superseded.
  pub collect-landed_ids :
      (got : collect run pipe subdir ≡ some (files, ignored)) (parse : Text → Parsed)
      (vocab : List Text) (host repo preferred : Text) (i : ℕ)
      → landed_ids (build parse vocab host repo preferred files).0 preferred i ≡ true
      → IsFinishedOn parse vocab files (collect-IsContentAddressed got) preferred i
  collect-landed_ids got parse vocab host repo preferred i h =
      landed_ids-IsFinishedOn parse vocab files (collect-IsContentAddressed got) host repo preferred
        i h
