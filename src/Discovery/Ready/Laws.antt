-- ===== src/Discovery/Ready/Laws.antt =====
-- What `Ready` returns, against a description of a startable plan.
use frit.Base.{
  ℕ, ◌≡◌, sym, ◌∙◌, ◌↔◌, ◌⊎◌, Bool, true, false, ◌&&◌, ◌||◌, List, [], ◌∷◌, Memᴰ, Text, text_eq,
  ◌==◌, if◌then◌else◌, any, all-mem, all_of, any-true, any_of_mem, and-true, mem-keep,
  mem_of_mem-keep, mem-sort, mem_of_mem-sort, sort-IsSorted, IsSorted, sort, arith, keep,
}
use frit.Base.Strings.Laws.{text_eq_iff, eq_of_text_eq}
use frit.Planmeta.{Status}
use frit.Discovery.{Plan, done, by_repo_id}
use frit.Discovery.Order.{by_repo_id-IsWeakOrder}
use frit.Discovery.Ready.{
  candidate, DoneMap, mark_done, done_from, done_by_repo, all_done, sort_by_repo_id, ready,
}

-- A done plan of the repository with the id.
abbrev pub IsDoneIn : List Plan → Text → ℕ → Type 0
IsDoneIn plans repo id =
    (q : Plan) × Memᴰ q plans × (q.repo ≡ repo) × (q.id ≡ id) × (q.status ≡ Status.done)

-- Fresh: not begun and held by nobody. Taken over: held, with a matured window or a dead session,
-- and its work outstanding.
abbrev pub IsOpen : Plan → Type 0
IsOpen p =
    (p.held ≡ false) × (p.status ≡ Status.not_started)
    ⊎ (p.held ≡ true)
      × ((p.stale ≡ true) ⊎ (p.dead ≡ true))
      × ((p.status ≡ Status.not_started) ⊎ (p.status ≡ Status.in_progress))

abbrev pub IsStartable : List Plan → Plan → Type 0
IsStartable plans p = IsOpen p × ((dep : ℕ) → Memᴰ dep p.depends_on → IsDoneIn plans p.repo dep)

done_from-eq :
    (m : DoneMap) (ps : List Plan) (r : Text) (i : ℕ)
    → done_from m ps r i ≡ (m r i || any (λ q. done q && (text_eq r q.repo && (i == q.id))) ps)
unfolding done_from
done_from-eq m [] r i = ground arith
done_from-eq m (p ∷ ps) r i =
    done_from-eq (if done p then mark_done m p.repo p.id else m) ps r i ∙ ground arith

-- The map holds exactly the done plans.
done_by_repo-IsDoneIn :
    (plans : List Plan) (r : Text) (i : ℕ) → (done_by_repo plans r i ≡ true) ↔ IsDoneIn plans r i
unfolding done_by_repo
done_by_repo-IsDoneIn plans r i = (there, back)
  where
    test : Plan → Bool
    test q = done q && (text_eq r q.repo && (i == q.id))

    there : done_from (λ _ _. false) plans r i ≡ true → IsDoneIn plans r i
    there h =
        let (q, m, t) = any-true test plans (sym (done_from-eq (λ _ _. false) plans r i) ∙ h) in
        (q, m, sym (eq_of_text_eq r q.repo (ground arith)), ground arith, ground arith)

    back : IsDoneIn plans r i → done_from (λ _ _. false) plans r i ≡ true
    back (q, m, er, ei, ed) =
        done_from-eq (λ _ _. false) plans r i
        ∙ any_of_mem test plans m (ground (arith, text_eq_iff r q.repo))

candidate-IsOpen : (p : Plan) → (candidate p ≡ true) ↔ IsOpen p
unfolding candidate
candidate-IsOpen p = (λ h. ground arith, λ h. ground arith)

all_done_iff :
    (plans : List Plan) (p : Plan)
    → (all_done p (done_by_repo plans) ≡ true)
      ↔ ((dep : ℕ) → Memᴰ dep p.depends_on → IsDoneIn plans p.repo dep)
unfolding all_done
all_done_iff plans p = (
  λ h dep m.
      (done_by_repo-IsDoneIn plans p.repo dep).0
        (all-mem (done_by_repo plans p.repo) p.depends_on h m),
  λ h.
      all_of (done_by_repo plans p.repo) p.depends_on
        (λ dep m. (done_by_repo-IsDoneIn plans p.repo dep).1 (h dep m)),
)

-- `Ready` returns exactly the startable plans of the fleet: those that nobody has begun or holds, or
-- whose holder's window matured or session died with the work outstanding, and all of whose
-- dependencies are done plans of their own repository.
pub ready-iff_IsStartable :
    (plans : List Plan) (p : Plan) → Memᴰ p (ready plans) ↔ Memᴰ p plans × IsStartable plans p
unfolding ready sort_by_repo_id
ready-iff_IsStartable plans p = (there, back)
  where
    test : Plan → Bool
    test q = candidate q && all_done q (done_by_repo plans)

    there : Memᴰ p (sort by_repo_id (keep test plans)) → Memᴰ p plans × IsStartable plans p
    there m =
        let (m', t) = mem_of_mem-keep test plans (mem_of_mem-sort by_repo_id (keep test plans) m) in
        let (c, d) = and-true (candidate p) (all_done p (done_by_repo plans)) t in
        (m', ((candidate-IsOpen p).0 c, (all_done_iff plans p).0 d))

    back : Memᴰ p plans × IsStartable plans p → Memᴰ p (sort by_repo_id (keep test plans))
    back (m, (o, d)) =
        let c = (candidate-IsOpen p).1 o in
        let a = (all_done_iff plans p).1 d in
        mem-sort by_repo_id (keep test plans) (mem-keep test plans m (rw (c, a)))

-- `Ready` returns its plans in the order of repository and id.
pub ready-IsSorted : (plans : List Plan) → IsSorted by_repo_id (ready plans)
unfolding ready sort_by_repo_id
ready-IsSorted plans = sort-IsSorted by_repo_id by_repo_id-IsWeakOrder _
