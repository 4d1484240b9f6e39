-- ===== src/Index/Memo.antt =====
-- `Build`'s loop, which remembers what it read by object id, against a reading of every file on its own.
use frit.Base.{
  arith, ◌++◌, any, false, ◌≡◌, refl, sym, ap, ◌∙◌, ◌⊎◌, inl, inr, true, ◌||◌, Option, none, some,
  List, [], ◌∷◌, Memᴰ, Text, text_eq, if◌then◌else◌, Bool-cases, Option-cases,
}
use frit.Base.Strings.Laws.{eq_of_text_eq}
use mathlib.Core.Option.{some_inj, some-ne-none}
use mathlib.Core.List.{append-nil, append_assoc}
use frit.Planmeta.{Plan, Parsed, ParseError, parsed, unparsed, is_proto}
use frit.Planmeta.Tiers.{parse_with_vocabulary}
use frit.Index.{Problem, File, Group, add_version, collect}
use frit.Index.Scan.{Scan, first_read, scan_file, scan_from, no_scan, build}

abbrev pub plan_in : Parsed → Option Plan
plan_in (parsed p) = some p
plan_in (unparsed e) = none

abbrev pub put_one : File → Option Plan → List Group → List Group
put_one f none gs = gs
put_one f (some p) gs = add_version p f gs

Parsed-cases : (r : Parsed) → ((p : Plan) × (r ≡ parsed p)) ⊎ ((e : ParseError) × (r ≡ unparsed e))
Parsed-cases (parsed p) = inl (p, refl)
Parsed-cases (unparsed e) = inr (e, refl)

pub plan_in-some : (r : Parsed) (p : Plan) → plan_in r ≡ some p → r ≡ parsed p
plan_in-some (parsed q) p h = cc
plan_in-some (unparsed e) p h = absurd (cc)

-- Equal object ids are equal contents, as git's are.
abbrev pub IsContentAddressed : List File → Type 0
IsContentAddressed files =
    (f g : File) → Memᴰ f files → Memᴰ g files → f.oid ≡ g.oid → f.content ≡ g.content

module _ (parse : Text → Parsed) (vocab : List Text) where
  reading : File → Parsed
  reading f = parse_with_vocabulary parse f.content vocab

  -- A file on its own: its plan, where it is no schema template and reads as a plan.
  abbrev pub plan_of_file : File → Option Plan
  plan_of_file f =
      if is_proto f.path then none else plan_in (parse_with_vocabulary parse f.content vocab)

  -- The groups when every file is read on its own.
  unfoldable pub put_all : List Group → List File → List Group
  put_all gs [] = gs
  put_all gs (f ∷ fs) = put_all (put_one f (plan_of_file f) gs) fs

  -- The two maps say of an object what reading the file says.
  record IsMemo (s : Scan) (f : File) : Type 0 where
    pub plans_right : (p : Plan) → s.plans f.oid ≡ some p → reading f ≡ parsed p
    pub failed_right : s.failed f.oid ≡ true → plan_in (reading f) ≡ none

  scan_file-groups :
      (f : File) (s : Scan)
      → IsMemo s f
      → (scan_file parse vocab f s).groups ≡ put_one f (plan_of_file f) s.groups
  unfolding scan_file reading
  scan_file-groups f s memo = elim (Bool-cases (is_proto f.path)) [
    | inl h ↦ rw h refl
    | inr h ↦ elim (Bool-cases (s.failed f.oid)) [
      | inl k ↦ rw (h, k, memo.failed_right k) refl
      | inr k ↦ elim (Option-cases (s.plans f.oid)) [
        | inr (p, e) ↦ rw (h, k, e, memo.plans_right p e) refl
        | inl e ↦ elim (Parsed-cases (parse_with_vocabulary parse f.content vocab)) [
          | inl (p, r) ↦ rw (h, k, e, r) refl
          | inr (x, r) ↦ rw (h, k, e, r) refl
        ]
      ]
    ]
  ]

  first_read-IsMemo :
      (f g : File) (s : Scan) (r : Parsed)
      → (f.oid ≡ g.oid → reading g ≡ r)
      → IsMemo s g
      → IsMemo (first_read f s r) g
  first_read-IsMemo f g s (parsed p) same memo = record {
    plans_right = λ q h. elim (Bool-cases (text_eq g.oid f.oid)) [
      | inl t ↦ same (sym (eq_of_text_eq g.oid f.oid t)) ∙ ap parsed (some_inj.0 (rw t at h))
      | inr t ↦ memo.plans_right q (rw t at h)
    ];
    failed_right = memo.failed_right;
  }
  first_read-IsMemo f g s (unparsed e) same memo = record {
    plans_right = memo.plans_right;
    failed_right = λ h. elim (Bool-cases (text_eq g.oid f.oid)) [
      | inl t ↦ ap plan_in (same (sym (eq_of_text_eq g.oid f.oid t)))
      | inr t ↦ memo.failed_right (rw t at h)
    ];
  }

  scan_file-IsMemo :
      (f g : File) (s : Scan)
      → (f.oid ≡ g.oid → f.content ≡ g.content)
      → IsMemo s g
      → IsMemo (scan_file parse vocab f s) g
  unfolding scan_file reading
  scan_file-IsMemo f g s same memo = elim (Bool-cases (is_proto f.path || s.failed f.oid)) [
    | inl h ↦ rw h memo
    | inr h ↦ elim (Option-cases (s.plans f.oid)) [
      | inr (p, e) ↦
          rw (h, e) (record { plans_right = memo.plans_right; failed_right = memo.failed_right })
      | inl e ↦
          rw (h, e)
            (first_read-IsMemo f g s (parse_with_vocabulary parse f.content vocab)
              (λ o. ap (λ c. parse_with_vocabulary parse c vocab) (sym (same o))) memo)
    ]
  ]

  scan_from-groups :
      (fs : List File) (s : Scan)
      → IsContentAddressed fs
      → ((g : File) → Memᴰ g fs → IsMemo s g)
      → (scan_from parse vocab fs s).groups ≡ put_all s.groups fs
  unfolding scan_from put_all
  scan_from-groups [] s same memo = refl
  scan_from-groups (f ∷ fs) s same memo =
      scan_from-groups fs (scan_file parse vocab f s)
        (λ x y m n. same x y (Memᴰ.tail m) (Memᴰ.tail n))
        (λ g m.
          scan_file-IsMemo f g s (same f g (Memᴰ.head refl) (Memᴰ.tail m)) (memo g (Memᴰ.tail m)))
      ∙ ap (λ gs. put_all gs fs) (scan_file-groups f s (memo f (Memᴰ.head refl)))

  abbrev error_in : Parsed → Option ParseError
  error_in (parsed p) = none
  error_in (unparsed e) = some e

  -- What reading a file on its own adds to the problems, where those of some objects are reported.
  abbrev new_problem : List Text → File → Option ParseError
  new_problem seen f =
      if is_proto f.path
      then none
      else if any (λ o. text_eq f.oid o) seen
      then none
      else error_in (parse_with_vocabulary parse f.content vocab)

  -- The problems when every file is read on its own: one for each object that is no plan, at the first
  -- of its files that is no schema template.
  unfoldable pub problems_of : List Text → List File → List Problem
  problems_of seen [] = []
  problems_of seen (f ∷ fs) = elim (new_problem seen f) [
    | none ↦ problems_of seen fs
    | some e ↦ record { path = f.path; err = e } ∷ problems_of (f.oid ∷ seen) fs
  ]

  -- The objects that the scan holds for failed are those reported.
  abbrev Agrees : Scan → List Text → Type 0
  Agrees s seen = (o : Text) → s.failed o ≡ any (λ x. text_eq o x) seen

  -- A file that adds no problem leaves the problems and the failed objects as they are.
  scan_file-none :
      (f : File) (s : Scan) (seen : List Text)
      → IsMemo s f
      → Agrees s seen
      → new_problem seen f ≡ none
      → ((scan_file parse vocab f s).problems ≡ s.problems)
        × Agrees (scan_file parse vocab f s) seen
  unfolding scan_file reading
  scan_file-none f s seen memo agrees h = elim (Bool-cases (is_proto f.path)) [
    | inl p ↦ rw p (refl, agrees)
    | inr p ↦ elim (Bool-cases (s.failed f.oid)) [
      | inl k ↦ rw (p, k) (refl, agrees)
      | inr k ↦ elim (Option-cases (s.plans f.oid)) [
        | inr (q, e) ↦ rw (p, k, e) (refl, agrees)
        | inl e ↦ elim (Parsed-cases (parse_with_vocabulary parse f.content vocab)) [
          | inl (q, r) ↦ rw (p, k, e, r) (refl, agrees)
          | inr (x, r) ↦
              let fresh : any (λ o. text_eq f.oid o) seen ≡ false = sym (agrees f.oid) ∙ k in
              absurd (some-ne-none x (rw (p, fresh, r) at h))
        ]
      ]
    ]
  ]

  scan_file-some :
      (f : File) (s : Scan) (seen : List Text) (e : ParseError)
      → IsMemo s f
      → Agrees s seen
      → new_problem seen f ≡ some e
      → ((scan_file parse vocab f s).problems
          ≡ s.problems ++ record { path = f.path; err = e } ∷ [])
        × Agrees (scan_file parse vocab f s) (f.oid ∷ seen)
  unfolding scan_file reading
  scan_file-some f s seen e memo agrees h = elim (Bool-cases (is_proto f.path)) [
    | inl p ↦ absurd (some-ne-none e (sym (rw p at h)))
    | inr p ↦ elim (Bool-cases (s.failed f.oid)) [
      | inl k ↦
          let old : any (λ o. text_eq f.oid o) seen ≡ true = sym (agrees f.oid) ∙ k in
          absurd (some-ne-none e (sym (rw (p, old) at h)))
      | inr k ↦
          let fresh : any (λ o. text_eq f.oid o) seen ≡ false = sym (agrees f.oid) ∙ k in
          elim (Option-cases (s.plans f.oid)) [
            | inr (q, known) ↦
                absurd (some-ne-none e (sym (rw (p, fresh, memo.plans_right q known) at h)))
            | inl unknown ↦ elim (Parsed-cases (parse_with_vocabulary parse f.content vocab)) [
              | inl (q, r) ↦ absurd (some-ne-none e (sym (rw (p, fresh, r) at h)))
              | inr (x, r) ↦
                  let same : x ≡ e = some_inj.0 (rw (p, fresh, r) at h) in
                  rw (p, k, unknown, r)
                    (
                      ap (λ (y : ParseError). s.problems ++ record { path = f.path; err = y } ∷ [])
                          same,
                      λ o. ground (arith, agrees o),
                    )
            ]
          ]
    ]
  ]

  scan_from-problems :
      (fs : List File) (s : Scan) (seen : List Text)
      → IsContentAddressed fs
      → ((g : File) → Memᴰ g fs → IsMemo s g)
      → Agrees s seen
      → (scan_from parse vocab fs s).problems ≡ s.problems ++ problems_of seen fs
  unfolding scan_from problems_of
  scan_from-problems [] s seen same memo agrees = sym (append-nil s.problems)
  scan_from-problems (f ∷ fs) s seen same memo agrees =
      let ih = λ (seen' : List Text) (agrees' : Agrees (scan_file parse vocab f s) seen').
        scan_from-problems fs (scan_file parse vocab f s) seen'
          (λ x y m n. same x y (Memᴰ.tail m) (Memᴰ.tail n))
          (λ g m.
            scan_file-IsMemo f g s (same f g (Memᴰ.head refl) (Memᴰ.tail m)) (memo g (Memᴰ.tail m)))
          agrees' in
      elim (Option-cases (new_problem seen f)) [
        | inl h ↦
            let (kept, agrees') = scan_file-none f s seen (memo f (Memᴰ.head refl)) agrees h in
            rw (h, problems_of) (ih seen agrees' ∙ ap (λ ps. ps ++ problems_of seen fs) kept)
        | inr (e, h) ↦
            let (added, agrees') = scan_file-some f s seen e (memo f (Memᴰ.head refl)) agrees h in
            rw (h, problems_of)
              (ih (f.oid ∷ seen) agrees'
                ∙ ap (λ ps. ps ++ problems_of (f.oid ∷ seen) fs) added
                ∙ append_assoc s.problems _ _)
      ]

  abbrev nothing_read : (g : File) → IsMemo (no_scan parse vocab) g
  nothing_read g = record { plans_right = λ p h. absurd (cc); failed_right = λ h. absurd (cc) }

  -- Where the object id tells the content, `Build` answers what a loop does that remembers no plan and
  -- parses every file anew: the same entries, and the same problems, one for each object that is no
  -- plan, at the first of its files that is no schema template.
  pub build-put_all :
      (host repo preferred : Text) (files : List File)
      → IsContentAddressed files
      → build parse vocab host repo preferred files
        ≡ (collect host repo preferred (put_all [] files), problems_of [] files)
  unfolding build
  build-put_all host repo preferred files same = λ i. (
    collect host repo preferred
        (scan_from-groups files (no_scan parse vocab) same (λ g m. nothing_read g) i),
    scan_from-problems files (no_scan parse vocab) [] same (λ g m. nothing_read g) (λ o. refl) i,
  )
