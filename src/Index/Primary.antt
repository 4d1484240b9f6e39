-- ===== src/Index/Primary.antt =====
-- The order of an entry's versions: the authoritative one is on the preferred ref where one is.
use frit.Base.{
  ◌≡◌, refl, sym, ap, subst, ◌∙◌, inl, inr, Bool, true, false, not, ltb, length, some, List, [],
  ◌∷◌, map, Memᴰ, Text, text_ltb, if◌then◌else◌, ◌==◌, arith, Bool-cases, sort-IsSorted,
  mem_of_mem-map, mem_of_mem-sort, IsSorted, IsWeakOrder, AllNotLess-mem,
}
use frit.Base.Order.{nat_order_descending, text_order, by_key-IsWeakOrder, lex-IsWeakOrder}
use frit.Planmeta.{Parsed}
use frit.Index.Scan.{build, scan_from, no_scan}
use frit.Index.{
  File, entry_of, id_before, sorted_refs, Version, Entry, on_ref, rank, ranks_before, first_version,
  primary, collect,
}

abbrev ties : Version → Version → Bool
ties a b =
    if not (length a.refs == length b.refs)
    then ltb (length b.refs) (length a.refs)
    else text_ltb a.oid b.oid

ties-IsWeakOrder : IsWeakOrder ties
ties-IsWeakOrder =
    lex-IsWeakOrder (λ (v : Version). length v.refs) nat_order_descending
      (by_key-IsWeakOrder (λ (v : Version). v.oid) text_order)

ranks_before_lem :
    (preferred : Text) (a b : Version)
    → ranks_before preferred a b ≡ (
        if on_ref a preferred
        then (if on_ref b preferred then ties a b else true)
        else if on_ref b preferred
        then false
        else ties a b)
ranks_before_lem preferred a b = elim (Bool-cases (on_ref a preferred)) [
  | inl h ↦ elim (Bool-cases (on_ref b preferred)) [
    | inl k ↦ rw (h, k) refl
    | inr k ↦ rw (h, k) refl
  ]
  | inr h ↦ elim (Bool-cases (on_ref b preferred)) [
    | inl k ↦ rw (h, k) refl
    | inr k ↦ rw (h, k) refl
  ]
]

ranks_before-IsWeakOrder : (preferred : Text) → IsWeakOrder (ranks_before preferred)
ranks_before-IsWeakOrder preferred = record { asym = asym; trans = trans }
  where
    asym : (a b : Version) → ranks_before preferred a b ≡ true → ranks_before preferred b a ≡ false
    asym a b h =
        ranks_before_lem preferred b a
        ∙ ground (arith, ranks_before_lem preferred a b, ties-IsWeakOrder.asym a b)

    trans :
        (a b c : Version)
        → ranks_before preferred b a ≡ false
        → ranks_before preferred c b ≡ false
        → ranks_before preferred c a ≡ false
    trans a b c h k =
        ranks_before_lem preferred c a
        ∙ ground (
          arith,
          ranks_before_lem preferred b a,
          ranks_before_lem preferred c b,
          ties-IsWeakOrder.trans a b c,
        )

first_best :
    (preferred : Text) (vs : List Version) (v : Version)
    → IsSorted (ranks_before preferred) vs
    → Memᴰ v vs
    → on_ref v preferred ≡ true
    → (w : Version) × (first_version vs ≡ some w) × (on_ref w preferred ≡ true)
first_best preferred [] v s m h = elim m [ ]
first_best preferred (w ∷ vs) v s (Memᴰ.head e) h =
    (w, refl, ap (λ x. on_ref x preferred) (sym e) ∙ h)
first_best preferred (w ∷ vs) v (a, s) (Memᴰ.tail m) h =
    (w, refl, ground (arith, AllNotLess-mem (ranks_before preferred) w v vs a m))

-- `Primary` answers the copy on the preferred ref: in each entry that `Build` makes, where any version
-- is on that ref, the first version is on it too.
pub build-primary :
    (parse : Text → Parsed) (vocab : List Text) (host repo preferred : Text) (files : List File)
    (e : Entry) (v : Version)
    → Memᴰ e (build parse vocab host repo preferred files).0
    → Memᴰ v e.versions
    → on_ref v preferred ≡ true
    → (w : Version) × (primary e ≡ some w) × (on_ref w preferred ≡ true)
unfolding build collect rank primary
build-primary parse vocab host repo preferred files e v m n h =
    let groups = (scan_from parse vocab files (no_scan parse vocab)).groups in
    let (g, _, k) =
      mem_of_mem-map (entry_of host repo preferred) e groups
        (mem_of_mem-sort id_before (map (entry_of host repo preferred) groups) m) in
    first_best preferred e.versions v
      (subst (λ x. IsSorted (ranks_before preferred) x.versions) (sym k)
        (sort-IsSorted (ranks_before preferred) (ranks_before-IsWeakOrder preferred)
          (map sorted_refs g.versions)))
      n h
