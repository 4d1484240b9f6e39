-- ===== src/Doctor/Order.antt =====
-- What a scan of a repository's files answers, and in what order.
use frit.Base.{
  ◌≡◌, refl, sym, ap, subst, ◌∙◌, ◌⊎◌, ◌↔◌, inl, inr, none, some, List, [], ◌∷◌, ◌++◌, Memᴰ,
  Option-cases, IsWeakOrder, sort, sort-IsSorted, mem-sort, mem_of_mem-sort, IsOrdered,
  IsSorted-IsOrdered, ◌<◌, ◌==◌, if◌then◌else◌, Bool-cases, Option, arith, true, false, Bool,
  text_ltb,
}
use frit.Base.Order.{nat_order, text_order, by_key-IsWeakOrder, lex-IsWeakOrder}
use mathlib.Core.List.Memᴰ
use mathlib.Core.Option.{some_inj, some-ne-none}
use frit.Base.Strings.{Text}
use frit.Doctor.{Finding}
use frit.Doctor.Scan.{
  PlanFile, Tools, check_name, finding_before, scan_file, scan_all, scan_paths, both, in_order,
}

finding_before-IsWeakOrder : IsWeakOrder finding_before
finding_before-IsWeakOrder =
    lex-IsWeakOrder (λ (f : Finding). f.id) nat_order
      (by_key-IsWeakOrder (λ (f : Finding). check_name f.check) text_order)

-- A finding of a lower plan id, or of the same id and a check name that the other's is not before.
abbrev pub IsAhead : Finding → Finding → Type 0
IsAhead x y =
    (x.id < y.id) ⊎ (x.id ≡ y.id) × (text_ltb (check_name y.check) (check_name x.check) ≡ false)

finding_before-IsAhead : (x y : Finding) → finding_before y x ≡ false → IsAhead x y
finding_before-IsAhead x y h = elim (Bool-cases (y.id == x.id)) [
  | inl same ↦ inr (ground (arith, same), rw same at h)
  | inr other ↦ inl (ground (arith, other, h))
]

if_true : {A : Type 0} (b : Bool) (x y : A) → b ≡ true → (if b then x else y) ≡ x
if_true true x y h = refl
if_true false x y h = absurd (cc)

module _ (tools : Tools) (vocab : List Text) where
  -- A finding of the scan of one of the files.
  abbrev pub IsFound : List PlanFile → Finding → Type 0
  IsFound files x =
      (f : PlanFile) × (fs : List Finding) × Memᴰ f files
      × (scan_file tools vocab f ≡ some fs)
      × Memᴰ x fs

  -- A report: in order, with exactly the findings of the files.
  pub record IsReport (files : List PlanFile) (out : List Finding) : Type 0 where
    pub sorted : IsOrdered IsAhead out
    pub exact : (x : Finding) → Memᴰ x out ↔ IsFound files x

  -- Some file's scan ends in an error.
  abbrev pub HasError : List PlanFile → Type 0
  HasError files = (f : PlanFile) × Memᴰ f files × (scan_file tools vocab f ≡ none)

  abbrev IsAll : List PlanFile → List Finding → Type 0
  IsAll files out = (x : Finding) → Memᴰ x out ↔ IsFound files x

  IsAll-cons :
      (f : PlanFile) (files : List PlanFile) (fs out : List Finding)
      → scan_file tools vocab f ≡ some fs
      → IsAll files out
      → IsAll (f ∷ files) (fs ++ out)
  IsAll-cons f files fs out e all x = (there, back)
    where
      there : Memᴰ x (fs ++ out) → IsFound (f ∷ files) x
      there m = elim (Memᴰ.append_cases fs m) [
        | inl n ↦ (f, fs, Memᴰ.head refl, e, n)
        | inr n ↦ let (g, gs, k, h, l) = (all x).0 n in (g, gs, Memᴰ.tail k, h, l)
      ]

      back : IsFound (f ∷ files) x → Memᴰ x (fs ++ out)
      back (g, gs, Memᴰ.head k, h, l) =
          Memᴰ.append_left out
            (subst (Memᴰ x) (some_inj.0 (sym h ∙ ap (scan_file tools vocab) k ∙ e)) l)
      back (g, gs, Memᴰ.tail k, h, l) = Memᴰ.append_right fs ((all x).1 (g, gs, k, h, l))

  scan_all_total :
      (files : List PlanFile)
      → HasError files × (scan_all tools vocab files ≡ none)
        ⊎ (out : List Finding) × (scan_all tools vocab files ≡ some out) × IsAll files out
  unfolding scan_all
  scan_all_total [] = inr ([], refl, λ x. (λ m. elim m [ ], λ (f, fs, m, e, n). elim m [ ]))
  scan_all_total (f ∷ files) = elim (Option-cases (scan_file tools vocab f)) [
    | inl e ↦ inl ((f, Memᴰ.head refl, e), rw (e, scan_all) refl)
    | inr (fs, e) ↦ elim (scan_all_total files) [
      | inl ((g, m, h), k) ↦ inl ((g, Memᴰ.tail m, h), rw (e, k, scan_all) refl)
      | inr (out, k, all) ↦
          inr (fs ++ out, rw (e, k, scan_all) refl, IsAll-cons f files fs out e all)
    ]
  ]

  both_failed : (xs : Option (List Finding)) → both xs none ≡ none
  both_failed none = refl
  both_failed (some xs) = refl

  scan_all-HasError : (files : List PlanFile) → HasError files → scan_all tools vocab files ≡ none
  unfolding scan_all
  scan_all-HasError [] (f, m, e) = absurd (Memᴰ.not-nil m)
  scan_all-HasError (f ∷ files) (g, Memᴰ.head k, e) =
      let h : scan_file tools vocab f ≡ none = ap (scan_file tools vocab) (sym k) ∙ e in
      rw (h, scan_all) refl
  scan_all-HasError (f ∷ files) (g, Memᴰ.tail m, e) =
      let h = scan_all-HasError files (g, m, e) in rw h (both_failed (scan_file tools vocab f))

  -- A scan ends in an error exactly where mdsmith's session does not open or the scan of one of its
  -- files ends in one, whatever the others found. Otherwise its report has exactly the findings of its
  -- files, by ascending plan id and, for one id, by check name.
  pub scan_paths_total :
      (files : List PlanFile)
      → ((tools.session_opens ≡ false) ⊎ HasError files) × (scan_paths tools vocab files ≡ none)
        ⊎ (tools.session_opens ≡ true)
          × ¬ HasError files
          × (out : List Finding) × (scan_paths tools vocab files ≡ some out)
          × IsReport files out
  unfolding scan_paths
  scan_paths_total files = elim (Bool-cases tools.session_opens) [
    | inr shut ↦ inl (inl shut, rw shut refl)
    | inl opens ↦ elim (scan_all_total files) [
      | inl (h, e) ↦ inl (inr h, opened opens ∙ ap (in_order tools vocab) e)
      | inr (out, e, all) ↦ inr (
        opens,
        λ h. some-ne-none out (sym e ∙ scan_all-HasError files h),
        sort finding_before out,
        opened opens ∙ ap (in_order tools vocab) e,
        record {
          sorted =
              IsSorted-IsOrdered finding_before IsAhead finding_before-IsAhead
                (sort finding_before out)
                (sort-IsSorted finding_before finding_before-IsWeakOrder out);
          exact = λ x. (
            λ m. (all x).0 (mem_of_mem-sort finding_before out m),
            λ f. mem-sort finding_before out ((all x).1 f),
          );
        },
      )
    ]
  ]
    where
      opened :
          tools.session_opens ≡ true
          → scan_paths tools vocab files ≡ in_order tools vocab (scan_all tools vocab files)
      opened = if_true tools.session_opens (in_order tools vocab (scan_all tools vocab files)) none
