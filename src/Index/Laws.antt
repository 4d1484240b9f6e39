-- ===== src/Index/Laws.antt =====
-- What the entries that `Build` makes say of the files they were made from.
use frit.Base.{
  ℕ, ◌≡◌, refl, sym, ap, subst, ◌∙◌, ◌⊎◌, inl, inr, true, false, ◌||◌, some, List, [], ◌∷◌, map,
  Memᴰ, Text, text_eq, if◌then◌else◌, arith, ◌==◌, Bool-cases, Option-cases, any-true, sort,
  text_ltb, mem_of_mem-map, mem_of_mem-sort,
}
use frit.Base.Strings.Laws.{eq_of_text_eq}
use mathlib.Core.Bool.{true≢false}
use mathlib.Core.Option.{some_inj, some-ne-none}
use mathlib.Core.List.Memᴰ
use frit.Planmeta.{Plan, Parsed, is_proto, is_done, is_superseded}
use frit.Planmeta.Tiers.{parse_with_vocabulary}
use frit.Index.{
  File, Version, Group, add_version, add_ref, carried, new_version, collect, entry_of, id_before,
  rank, ranks_before, sorted_refs, on_ref, first_version, primary, is_landed, landed_ids,
}
use frit.Index.Scan.{build}
use frit.Index.Memo.{plan_of_file, put_one, put_all, IsContentAddressed, build-put_all, plan_in}
use frit.Index.Added.{add_ref-mem, add_version-mem}

module _ (parse : Text → Parsed) (vocab : List Text) (all_files : List File)
    (same : IsContentAddressed all_files) where
  -- A file of the list that carries the version's object and reads as its plan.
  abbrev IsSource : Version → File → Type 0
  IsSource v f = Memᴰ f all_files × (f.oid ≡ v.oid) × (plan_of_file parse vocab f ≡ some v.plan)

  record IsCarried (i : ℕ) (v : Version) : Type 0 where
    pub origin : (f : File) × IsSource v f
    pub plan_id : v.plan.id ≡ i
    pub carrier : (r : Text) → Memᴰ r v.refs → (f : File) × IsSource v f × (f.ref ≡ r)

  AllCarried : List Group → Type 0
  AllCarried gs = (g : Group) → Memᴰ g gs → (v : Version) → Memᴰ v g.versions → IsCarried g.id v

  -- Two files of one object that read as plans read as the same plan.
  same_plan :
      (f g : File) (p q : Plan)
      → Memᴰ f all_files
      → Memᴰ g all_files
      → f.oid ≡ g.oid
      → plan_of_file parse vocab f ≡ some p
      → plan_of_file parse vocab g ≡ some q
      → p ≡ q
  same_plan f g p q m n o h k = some_inj.0 (
      sym (read f p h)
      ∙ ap (λ c. plan_in (parse_with_vocabulary parse c vocab)) (same f g m n o)
      ∙ read g q k)
    where
      read :
          (f : File) (p : Plan)
          → plan_of_file parse vocab f ≡ some p
          → plan_in (parse_with_vocabulary parse f.content vocab) ≡ some p
      read f p h = elim (Bool-cases (is_proto f.path)) [
        | inl t ↦ absurd (some-ne-none p (sym (rw t at h)))
        | inr t ↦ rw t at h
      ]

  carried-IsCarried :
      (f : File) (p : Plan) (i : ℕ) (v : Version)
      → Memᴰ f all_files
      → plan_of_file parse vocab f ≡ some p
      → v.oid ≡ f.oid
      → IsCarried i v
      → IsCarried i (carried f v)
  carried-IsCarried f p i v m h o c =
      let (g, (n, k, l)) = c.origin in
      let e = same_plan f g p v.plan m n (sym o ∙ sym k) h l in
      record {
        origin = (g, (n, k, l));
        plan_id = c.plan_id;
        carrier = λ r a. elim (Memᴰ.append_cases v.refs a) [
          | inl b ↦ c.carrier r b
          | inr (Memᴰ.head b) ↦ (f, (m, sym o, h ∙ ap some e), sym b)
          | inr (Memᴰ.tail b) ↦ elim b [ ]
        ];
      }

  new-IsCarried :
      (f : File) (p : Plan)
      → Memᴰ f all_files
      → plan_of_file parse vocab f ≡ some p
      → IsCarried p.id (new_version p f)
  new-IsCarried f p m h = record {
    origin = (f, (m, refl, h));
    plan_id = refl;
    carrier = λ r a. elim a [ ];
  }

  add_ref-IsCarried :
      (f : File) (p : Plan) (vs : List Version)
      → Memᴰ f all_files
      → plan_of_file parse vocab f ≡ some p
      → ((v : Version) → Memᴰ v vs → IsCarried p.id v)
      → (w : Version) → Memᴰ w (add_ref p f vs)
      → IsCarried p.id w
  add_ref-IsCarried f p vs m h ih w a = elim (add_ref-mem p f w vs a) [
    | inl b ↦ ih w b
    | inr (v, e, o, b) ↦ subst (IsCarried p.id) (sym e) (
        carried-IsCarried f p p.id v m h o (elim b [
          | inl b' ↦ ih v b'
          | inr b' ↦ subst (IsCarried p.id) (sym b') (new-IsCarried f p m h)
        ]))
  ]

  with_file-IsCarried :
      (f : File) (p : Plan) (gs : List Group) (g : Group)
      → Memᴰ f all_files
      → plan_of_file parse vocab f ≡ some p
      → AllCarried gs
      → g.id ≡ p.id
      → Memᴰ g gs ⊎ (g ≡ record { id = p.id; versions = [] })
      → (v : Version) → Memᴰ v g.versions
      → IsCarried p.id v
  unfolding AllCarried
  with_file-IsCarried f p gs g m h ih o (inl n) v a = subst (λ i. IsCarried i v) o (ih g n v a)
  with_file-IsCarried f p gs g m h ih o (inr e) v a = elim (subst (λ x. Memᴰ v x.versions) e a) [ ]

  add_version-AllCarried :
      (f : File) (p : Plan) (gs : List Group)
      → Memᴰ f all_files
      → plan_of_file parse vocab f ≡ some p
      → AllCarried gs
      → AllCarried (add_version p f gs)
  unfolding AllCarried
  add_version-AllCarried f p gs m h ih g a v b = elim (add_version-mem p f g gs a) [
    | inl n ↦ ih g n v b
    | inr (k, e, o, n) ↦
        subst (λ i. IsCarried i v) (sym (ap (λ x. x.id) e ∙ o))
          (add_ref-IsCarried f p k.versions m h (with_file-IsCarried f p gs k m h ih o n) v
            (subst (λ x. Memᴰ v x.versions) e b))
  ]

  put_all-AllCarried :
      (gs : List Group) (fs : List File)
      → ((f : File) → Memᴰ f fs → Memᴰ f all_files)
      → AllCarried gs
      → AllCarried (put_all parse vocab gs fs)
  unfolding put_all
  put_all-AllCarried gs [] within c = c
  put_all-AllCarried gs (f ∷ fs) within c =
      put_all-AllCarried (put_one f (plan_of_file parse vocab f) gs) fs
        (λ g m. within g (Memᴰ.tail m))
        (elim (Option-cases (plan_of_file parse vocab f)) [
          | inl e ↦ subst (λ o. AllCarried (put_one f o gs)) (sym e) c
          | inr (p, e) ↦
              subst (λ o. AllCarried (put_one f o gs)) (sym e)
                (add_version-AllCarried f p gs (within f (Memᴰ.head refl)) e c)
        ])

  -- A file of a ref that reads as a finished plan of an id.
  abbrev pub IsFinishedOn : Text → ℕ → Type 0
  IsFinishedOn preferred i =
      (f : File) × (p : Plan) × Memᴰ f all_files
      × (f.ref ≡ preferred)
      × (plan_of_file parse vocab f ≡ some p)
      × (p.id ≡ i)
      × ((is_done p.status || is_superseded p.status) ≡ true)

  first_version-mem : (vs : List Version) (v : Version) → first_version vs ≡ some v → Memᴰ v vs
  first_version-mem [] v h = absurd (some-ne-none v (sym h))
  first_version-mem (w ∷ vs) v h = Memᴰ.head (sym (some_inj.0 h))

  landed_version :
      (preferred : Text) (i : ℕ) (v : Version)
      → IsCarried i v
      → is_landed preferred (some (sorted_refs v)) ≡ true
      → IsFinishedOn preferred i
  unfolding on_ref
  landed_version preferred i v c h =
      let (r, m, t) = any-true (λ r. text_eq r preferred) (sort text_ltb v.refs) (ground arith) in
      let (f, (n, k, l), e) = c.carrier r (mem_of_mem-sort text_ltb v.refs m) in
      (f, v.plan, n, e ∙ eq_of_text_eq r preferred t, l, c.plan_id, ground arith)

  landed_group :
      (host repo preferred : Text) (g : Group)
      → ((v : Version) → Memᴰ v g.versions → IsCarried g.id v)
      → is_landed preferred (primary (entry_of host repo preferred g)) ≡ true
      → IsFinishedOn preferred g.id
  unfolding primary rank
  landed_group host repo preferred g c h =
      elim (Option-cases (primary (entry_of host repo preferred g))) [
        | inl e ↦ absurd (true≢false (sym h ∙ ap (is_landed preferred) e))
        | inr (w, e) ↦
            let m = first_version-mem (entry_of host repo preferred g).versions w e in
            let (v, n, k) =
              mem_of_mem-map sorted_refs w g.versions
                (mem_of_mem-sort (ranks_before preferred) (map sorted_refs g.versions) m) in
            landed_version preferred g.id v (c v n)
              (ap (is_landed preferred) (ap some (sym k) ∙ sym e) ∙ h)
      ]

  -- No claim is taken for landed without a witness: an id that `LandedIDs` has of the entries `Build`
  -- makes, where object ids tell contents, has a file on the preferred ref itself, no schema template,
  -- that reads as a plan of that id whose status is done or superseded.
  pub landed_ids-IsFinishedOn :
      (host repo preferred : Text) (i : ℕ)
      → landed_ids (build parse vocab host repo preferred all_files).0 preferred i ≡ true
      → IsFinishedOn preferred i
  unfolding landed_ids collect AllCarried
  landed_ids-IsFinishedOn host repo preferred i h =
      let (e, m, t) =
        any-true (λ e. if is_landed preferred (primary e) then e.key.id == i else false)
          (collect host repo preferred groups)
          (ap (λ es. landed_ids es preferred i)
              (ap (λ r. r.0) (sym (build-put_all parse vocab host repo preferred all_files same)))
            ∙ h) in
      let (g, n, k) =
        mem_of_mem-map (entry_of host repo preferred) e groups
          (mem_of_mem-sort id_before (map (entry_of host repo preferred) groups) m) in
      let at : e.key.id ≡ g.id = ap (λ x. x.key.id) k in
      let id : e.key.id ≡ i = ground arith in
      subst (IsFinishedOn preferred) (sym at ∙ id) (
        landed_group host repo preferred g
          (put_all-AllCarried [] all_files (λ f a. a) (λ g a. elim a [ ]) g n)
          (ap (λ x. is_landed preferred (primary x)) (sym k) ∙ ground arith))
    where
      groups : List Group
      groups = put_all parse vocab [] all_files
