-- ===== src/Registry/Batch/Collect.antt =====
-- The first loop of get_project_agg_ids_batch (pipelines/utils/metric_registry.py): what the cache
-- has, and what it lacks.
use process_metrics_platform.Common.{
  ℕ, String, ◌≡◌, subst, ◌⊎◌, inl, inr, true, false, ◌||◌, Option, none, some, List, [], ◌∷◌, ◌++◌,
  arith, str_eq, eq_iff, Dict, lookup, lookup-insert, Bool-cases, Option-cases,
}
use process_metrics_platform.Registry.Database.{Database, contains, select_project}
use process_metrics_platform.Registry.Action.{Value, Registry, Result, ok, value_error}
use process_metrics_platform.Registry.Cache.{fresh_value, reads_after, get_from_cache}
use process_metrics_platform.Registry.Ids.{proj_key}
use process_metrics_platform.Registry.Batch.{keep_cached, add_missing, in_result, lacks, collect}
use process_metrics_platform.Registry.Coherence.{
  as_text, Agrees, fresh_value-Agrees, IsCoherent, IsCoherent-counts,
}
use process_metrics_platform.Registry.Sync.{after_sync}
use process_metrics_platform.Registry.Projects.{Agrees-after_sync}

contains-concat :
    (xs : List String) (y p : String) → contains (xs ++ y ∷ []) p ≡ (contains xs p || str_eq y p)
unfolding contains
contains-concat [] y p = ground arith
contains-concat (x ∷ xs) y p = ground (arith, contains-concat xs y p)

-- A list that lacks something has a member that is not in the result.
pub lacks_witness :
    (result : Dict Value) (pids : List String)
    → lacks result pids ≡ true
    → (p : String) × (contains pids p ≡ true) × (lookup p result ≡ none)
unfolding lacks contains in_result
lacks_witness result [] h = absurd (ground arith)
lacks_witness result (q ∷ pids) h = elim (Option-cases (lookup q result)) [
  | inl e ↦ (q, ground (arith, eq_iff q q), e)
  | inr (v, e) ↦
      let more : lacks result pids ≡ true = ground arith in
      let (p, m, n) = lacks_witness result pids more in (p, ground arith, n)
]

pub in_result_of_lacks :
    (result : Dict Value) (pids : List String) (p : String)
    → lacks result pids ≡ false
    → contains pids p ≡ true
    → in_result result p ≡ true
unfolding lacks contains
in_result_of_lacks result [] p h m = absurd (ground arith)
in_result_of_lacks result (q ∷ pids) p h m =
    ground (arith, eq_iff q p, in_result_of_lacks result pids p)

-- The id that a project has once the table of the database `base` is backfilled.
abbrev pub known : (String → String) → Database → String → Option String
known new_id base p = after_sync (new_id p) (select_project base p) (lookup p base.projects)

module _ (new_id : String → String) (clock : ℕ → ℕ) (base : Database) where
  -- The loop over the projects, from the database `base`.
  pub record Collected (pids : List String) (result : Dict Value) (missing : List String)
      (r : Dict Value) (m : List String) (t : Registry) : Type 0 where
    pub agrees : (p : String) → Agrees (lookup p r) (as_text (known new_id base p))
    pub covers :
        (p : String)
        → (contains pids p ≡ true) ⊎ (in_result result p ≡ true) ⊎ (contains missing p ≡ true)
        → (in_result r p ≡ true) ⊎ (contains m p ≡ true)
    pub within :
        (p : String) → contains m p ≡ true → (contains pids p ≡ true) ⊎ (contains missing p ≡ true)
    pub same : t.db ≡ base
    pub coherent : IsCoherent t

  abbrev pub CollectedBy :
      List String → Dict Value → List String → Result (Dict Value × List String) × Registry → Type 0
  CollectedBy pids result missing (ok (r, m), t) = Collected pids result missing r m t
  CollectedBy pids result missing (value_error, t) = ⊥

  Collected-cons :
      (pid : String) (found : Option Value) (pids : List String) (result : Dict Value)
      (missing : List String) (x : Result (Dict Value × List String) × Registry)
      → CollectedBy pids (keep_cached pid found result) (add_missing pid found missing) x
      → CollectedBy (pid ∷ pids) result missing x
  unfolding contains keep_cached add_missing in_result
  Collected-cons pid none pids result missing (ok (r, m), t) h = record {
    agrees = h.agrees;
    covers = λ p q. h.covers p (ground (arith, contains-concat missing pid p));
    within = λ p q. ground (arith, h.within p q, contains-concat missing pid p);
    same = h.same;
    coherent = h.coherent;
  }
  Collected-cons pid (some v) pids result missing (ok (r, m), t) h = record {
    agrees = h.agrees;
    covers = λ p q. h.covers p (ground (arith, lookup-insert pid p v result));
    within = λ p q. ground (arith, h.within p q);
    same = h.same;
    coherent = h.coherent;
  }
  Collected-cons pid _ pids result missing (value_error, t) h = h

  keep_cached-Agrees :
      (pid : String) (found : Option Value) (result : Dict Value)
      → Agrees found (as_text (known new_id base pid))
      → ((p : String) → Agrees (lookup p result) (as_text (known new_id base p)))
      → (p : String)
      → Agrees (lookup p (keep_cached pid found result)) (as_text (known new_id base p))
  unfolding keep_cached
  keep_cached-Agrees pid none result f a p = a p
  keep_cached-Agrees pid (some v) result f a p = elim (Bool-cases (str_eq pid p)) [
    | inl e ↦
        rw (lookup-insert pid p v result) (
          rw e
            (subst (λ q. Agrees (some v) (as_text (known new_id base q))) ((eq_iff pid p).0 e) f))
    | inr e ↦ rw (lookup-insert pid p v result) (rw e (a p))
  ]

  pub collect_lem :
      (pids : List String) (result : Dict Value) (missing : List String) (s : Registry)
      → IsCoherent s
      → s.db ≡ base
      → ((p : String) → Agrees (lookup p result) (as_text (known new_id base p)))
      → CollectedBy pids result missing (collect clock pids result missing s)
  unfolding collect get_from_cache
  collect_lem [] result missing s c e a = record {
    agrees = a;
    covers = λ p. elim [ inl h ↦ absurd (no_member p h) | inr h ↦ h ];
    within = λ p h. inr h;
    same = e;
    coherent = c;
  }
    where
      no_member : (p : String) → contains [] p ≡ true → ⊥
      no_member p h = unfold contains in cc
  collect_lem (pid ∷ pids) result missing s c e a =
      let o = lookup (proj_key pid) s.cache in
      let n = reads_after o s.reads in
      let found = fresh_value (clock s.reads) o in
      let cached = fresh_value-Agrees (clock s.reads) o _ (c.projects pid) in
      Collected-cons pid found pids result missing _ (
        collect_lem pids (keep_cached pid found result) (add_missing pid found missing)
          (record s { reads = n }) (IsCoherent-counts s n s.queries c) e
          (keep_cached-Agrees pid found result
            (Agrees-after_sync new_id found (new_id pid) (select_project base pid)
              (lookup pid base.projects)
              (subst (λ d. Agrees found (as_text (select_project d pid))) e cached))
            a))
