-- ===== src/Discovery/Resolve/Laws.antt =====
-- What a selector resolves to.
use mathlib.Core.List.Memᴰ
use frit.Base.{
  ℕ, ◌≤◌, ◌≡◌, ◌↔◌, ◌⊎◌, inl, inr, Bool, true, false, ◌&&◌, List, [], ◌∷◌, Memᴰ, Text, text_eq,
  ◌==◌, Bool-cases, Option-cases, Option, none, some, arith, length, IsSorted,
}
use frit.Base.Strings.Laws.{text_eq_iff}
use frit.Base.Strings.Decimal.{decimal, parse_int, parse_int-decimal, max_int64}
use frit.Discovery.{Plan, by_repo_id, matches_slug}
use frit.Discovery.Resolve.{
  Resolved, found, not_found, ambiguous, with_id, one, by_repo_and_id, resolve,
}

-- What `one` answers for a list of matches: the sole match, no match, or all the matches in order.
abbrev Answers : List Plan → Resolved → Type 0
Answers matches (found p) = matches ≡ p ∷ []
Answers matches (not_found s) = matches ≡ []
Answers matches (ambiguous s ps) =
    (2 ≤ length ps) × IsSorted by_repo_id ps × ((p : Plan) → Memᴰ p ps ↔ Memᴰ p matches)

by_repo_and_id-found :
    (repo : Text) (id : ℕ) (plans : List Plan) (p : Plan)
    → by_repo_and_id repo id plans ≡ some p
    → Memᴰ p plans × (p.repo ≡ repo) × (p.id ≡ id)
unfolding by_repo_and_id
by_repo_and_id-found repo id [] p e = absurd (cc)
by_repo_and_id-found repo id (q ∷ qs) p e =
    elim (Bool-cases (text_eq q.repo repo && (q.id == id))) [
      | inl hit ↦
          let same : p ≡ q = ground (arith, hit, e) in
          (
            Memᴰ.head same,
            rw same (ground (arith, text_eq_iff q.repo repo)),
            rw same (ground arith),
          )
      | inr miss ↦
          let (m, r, i) = by_repo_and_id-found repo id qs p (rw miss at e) in (Memᴰ.tail m, r, i)
    ]

by_repo_and_id-none :
    (repo : Text) (id : ℕ) (plans : List Plan) (p : Plan)
    → by_repo_and_id repo id plans ≡ none
    → Memᴰ p plans
    → ¬ ((p.repo ≡ repo) × (p.id ≡ id))
unfolding by_repo_and_id
by_repo_and_id-none repo id [] p e m k = elim m [ ]
by_repo_and_id-none repo id (q ∷ qs) p e (Memᴰ.head same) k =
    ground (arith, text_eq_iff q.repo repo, same, k)
by_repo_and_id-none repo id (q ∷ qs) p e (Memᴰ.tail m) k =
    by_repo_and_id-none repo id qs p (ground arith) m k

-- `ByRepoID` answers with a plan of the list that has that repository and id, or answers that none
-- matches and the list has no such plan.
pub by_repo_and_id_total :
    (repo : Text) (id : ℕ) (plans : List Plan)
    → ((p : Plan) × (by_repo_and_id repo id plans ≡ some p)
        × Memᴰ p plans
        × (p.repo ≡ repo)
        × (p.id ≡ id))
      ⊎ (by_repo_and_id repo id plans ≡ none)
        × ((p : Plan) → Memᴰ p plans → ¬ ((p.repo ≡ repo) × (p.id ≡ id)))
by_repo_and_id_total repo id plans = elim (Option-cases (by_repo_and_id repo id plans)) [
  | inl e ↦ inr (e, λ p m. by_repo_and_id-none repo id plans p e m)
  | inr (p, e) ↦ let (m, r, i) = by_repo_and_id-found repo id plans p e in inl (p, e, m, r, i)
]

-- The selector is the plan's id.
abbrev pub Names : Text → Plan → Type 0
Names selector p = parse_int selector ≡ some p.id

module _ (to_lower : Text → Text) (selector : Text) (plans : List Plan) where
  abbrev slug : Plan → Bool
  slug p = matches_slug to_lower p (to_lower selector)

  -- The only plan that the selector names, or, where it names none, the only one with the slug.
  abbrev pub IsSole : Plan → Type 0
  IsSole p =
      Names selector p × ((q : Plan) → Memᴰ q plans → Names selector q → q ≡ p)
      ⊎ ((q : Plan) → Memᴰ q plans → ¬ Names selector q)
        × (slug p ≡ true)
        × ((q : Plan) → Memᴰ q plans → slug q ≡ true → q ≡ p)

  abbrev pub HasSole : Resolved → Type 0
  HasSole (found p) = Memᴰ p plans × IsSole p
  HasSole (not_found s) = (q : Plan) → Memᴰ q plans → (¬ Names selector q) × (slug q ≡ false)
  HasSole (ambiguous s ps) =
      (2 ≤ length ps)
      × IsSorted by_repo_id ps
      × ((q : Plan) → Memᴰ q ps → Memᴰ q plans × (Names selector q ⊎ (slug q ≡ true)))

  numbered : Option ℕ → Plan → Bool
  numbered none q = false
  numbered (some id) q = q.id == id

  abbrev test : Plan → Bool
  test = numbered (parse_int selector)

-- A plan's printed id resolves to it, whatever the titles, paths and branches hold, when it is the
-- only plan of the fleet with that id.
pub resolve-decimal :
    (to_lower : Text → Text) (plans : List Plan) (p : Plan)
    → p.id ≤ max_int64
    → with_id p.id plans ≡ p ∷ []
    → resolve to_lower (decimal p.id) plans ≡ found p
unfolding resolve one
resolve-decimal to_lower plans p h e = rw (parse_int-decimal p.id h, e)
