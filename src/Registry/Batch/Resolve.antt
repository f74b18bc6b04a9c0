-- ===== src/Registry/Batch/Resolve.antt =====
-- The rest of get_project_agg_ids_batch (pipelines/utils/metric_registry.py): the query, the retry
-- after a backfill, and the last check.
use process_metrics_platform.Common.{
  ℕ, ◌+◌, String, ◌≡◌, refl, sym, ap, subst, ◌∙◌, ◌⊎◌, inl, inr, true, false, Option, none, some,
  List, [], ◌∷◌, arith, Dict, lookup, Bool-cases,
}
use process_metrics_platform.Registry.Database.{
  Database, contains, select_project, select_projects, sync_dim_projects,
}
use process_metrics_platform.Registry.Action.{
  Value, text, Registry, Result, ok, value_error, continue, ◌>>=◌,
}
use process_metrics_platform.Registry.Batch.{
  in_result, lacks, collect, store_rows, retry, check_all, resolve_missing,
  get_project_agg_ids_batch,
}
use process_metrics_platform.Registry.Coherence.{as_text, Agrees, IsCoherent, IsCoherent-counts}
use process_metrics_platform.Registry.Sync.{select-sync_dim_projects}
use process_metrics_platform.Registry.Projects.{Agrees-after_sync, sync-IsCoherent}
use process_metrics_platform.Registry.Rows.{
  IsKeyed, sync-IsKeyed, rows_in-RowOf, with_rows, lookup-with_rows, store_rows_lem,
}
use process_metrics_platform.Registry.Batch.Collect.{
  lacks_witness, in_result_of_lacks, known, CollectedBy, collect_lem,
}

-- A project that was asked for, and that the rows did not give, has no row.
unlisted :
    (db : Database) (missing : List String) (r : Dict Value) (p : String)
    → IsKeyed db.dim_projects
    → contains missing p ≡ true
    → lookup p (with_rows (select_projects db missing) r) ≡ none
    → select_project db p ≡ none
unfolding select_projects select_project
unlisted db missing r p k m n = ground (arith, lookup-with_rows missing db.dim_projects r p k)

module _ (new_id : String → String) (clock : ℕ → ℕ) (base : Database) where
  -- The project has an id, and the result holds it.
  abbrev pub IsResolved : Dict Value → String → Type 0
  IsResolved r p = (id : String) × (known new_id base p ≡ some id) × (lookup p r ≡ some (text id))

  -- What the batch returns for `pids`: every project resolved, or an error and a project that has
  -- no id.
  abbrev pub Answers : List String → Result (Dict Value) × Registry → Type 0
  Answers pids (ok r, t) = ((p : String) → contains pids p ≡ true → IsResolved r p) × IsCoherent t
  Answers pids (value_error, t) =
      ((p : String) × (contains pids p ≡ true) × (known new_id base p ≡ none)) × IsCoherent t

  IsResolved-of :
      (r : Dict Value) (p : String) (id : Option String)
      → known new_id base p ≡ id
      → Agrees (lookup p r) (as_text id)
      → in_result r p ≡ true
      → IsResolved r p
  unfolding in_result
  IsResolved-of r p none e a h = absurd (ground arith)
  IsResolved-of r p (some id) e a h = (id, e, ground arith)

  -- The facts that the steps after the loop keep.
  record Holds (pids missing : List String) (r : Dict Value) (t : Registry) : Type 0 where
    agrees : (p : String) → Agrees (lookup p r) (as_text (known new_id base p))
    covers :
        (p : String) → contains pids p ≡ true → (in_result r p ≡ true) ⊎ (contains missing p ≡ true)
    within : (p : String) → contains missing p ≡ true → contains pids p ≡ true
    coherent : IsCoherent t

  check_all_lem :
      (pids missing : List String) (r : Dict Value) (t : Registry)
      → Holds pids missing r t
      → ((p : String) → contains missing p ≡ true → lookup p r ≡ none → known new_id base p ≡ none)
      → Answers pids (check_all clock new_id missing r t)
  unfolding check_all
  check_all_lem pids missing r t h complete = elim (Bool-cases (lacks r missing)) [
    | inl e ↦
        let (p, m, n) = lacks_witness r missing e in
        rw e ((p, h.within p m, complete p m n), h.coherent)
    | inr e ↦ rw e (
      λ p q.
          IsResolved-of r p (known new_id base p) refl (h.agrees p)
            (elim (h.covers p q) [ inl i ↦ i | inr m ↦ in_result_of_lacks r missing p e m ]),
      h.coherent,
    )
  ]

  -- One more round of rows keeps the facts.
  Holds-with_rows :
      (pids missing : List String) (r : Dict Value) (t u : Registry) (db : Database)
      → Holds pids missing r t
      → IsKeyed db.dim_projects
      → ((p : String) → Agrees (as_text (select_project db p)) (as_text (known new_id base p)))
      → IsCoherent u
      → Holds pids missing (with_rows (select_projects db missing) r) u
  unfolding select_projects select_project in_result
  Holds-with_rows pids missing r t u db h k a c = record {
    agrees = λ p. ground (arith, lookup-with_rows missing db.dim_projects r p k, h.agrees p, a p);
    covers = λ p q. ground (arith, lookup-with_rows missing db.dim_projects r p k, h.covers p q);
    within = h.within;
    coherent = c;
  }

  -- A query and the loop over its rows, before a step that the facts are enough for.
  store_then :
      (pids missing : List String) (r : Dict Value) (t u : Registry)
      (next : Dict Value → Registry → Result (Dict Value) × Registry)
      → Holds pids missing r t
      → IsKeyed u.db.dim_projects
      → ((p : String) → Agrees (as_text (select_project u.db p)) (as_text (known new_id base p)))
      → IsCoherent u
      → ((v : Registry)
          → v.db ≡ u.db
          → Holds pids missing (with_rows (select_projects u.db missing) r) v
          → Answers pids (next (with_rows (select_projects u.db missing) r) v))
      → Answers pids ((store_rows clock (select_projects u.db missing) r >>= next) u)
  store_then pids missing r t u next h k a c then_ =
      let (result, same, coherent) =
        store_rows_lem clock (select_projects u.db missing) r u c
          (unfold select_projects in rows_in-RowOf missing u.db.dim_projects k) in
      rw result (then_ _ same (Holds-with_rows pids missing r t _ u.db h k a coherent))

  retry-Answers :
      (pids missing : List String) (r : Dict Value) (t : Registry)
      → Holds pids missing r t
      → t.db ≡ base
      → IsKeyed base.dim_projects
      → Answers pids ((retry clock new_id missing r >>= check_all clock new_id missing) t)
  unfolding retry
  retry-Answers pids missing r t h e k = elim (Bool-cases (lacks r missing)) [
    | inr enough ↦
        rw enough (check_all_lem pids missing r t h (λ p m n. absurd (absent p m n enough)))
    | inl some_lack ↦
        let db = sync_dim_projects new_id t.db in
        let u : Registry = record t { db = db; queries = t.queries + 1 + 1 } in
        rw some_lack (
          store_then pids missing r t u (check_all clock new_id missing) h
            (sync-IsKeyed new_id t.db (subst (λ (d : Database). IsKeyed d.dim_projects) (sym e) k))
            (λ p. inr (ap as_text (synced p)))
            (IsCoherent-counts (record t { db = db }) t.reads u.queries
              (sync-IsCoherent new_id t h.coherent))
            (λ v same held. check_all_lem pids missing _ v held (λ p m n.
              sym (synced p)
              ∙ unlisted u.db missing r p
                  (sync-IsKeyed new_id t.db
                    (subst (λ (d : Database). IsKeyed d.dim_projects) (sym e) k))
                  m n)))
  ]
    where
      absent :
          (p : String) → contains missing p ≡ true → lookup p r ≡ none → lacks r missing ≡ false → ⊥
      absent p m n enough =
          let i = in_result_of_lacks r missing p enough m in unfold in_result in ground arith

      synced : (p : String) → select_project (sync_dim_projects new_id t.db) p ≡ known new_id base p
      synced p =
          subst (λ d. select_project (sync_dim_projects new_id d) p ≡ known new_id base p) (sym e)
            (select-sync_dim_projects new_id base p)

  resolve_missing-Answers :
      (pids missing : List String) (r : Dict Value) (t : Registry)
      → Holds pids missing r t
      → t.db ≡ base
      → IsKeyed base.dim_projects
      → Answers pids (resolve_missing clock new_id missing r t)
  unfolding resolve_missing
  resolve_missing-Answers pids [] r t h e k = (
    λ p q.
        IsResolved-of r p (known new_id base p) refl (h.agrees p)
          (unfold contains in ground (arith, h.covers p q)),
    h.coherent,
  )
  resolve_missing-Answers pids (q ∷ qs) r t h e k =
      let u : Registry = record t { queries = t.queries + 1 } in
      store_then pids (q ∷ qs) r t u
        (λ found. retry clock new_id (q ∷ qs) found >>= check_all clock new_id (q ∷ qs)) h
        (subst (λ (d : Database). IsKeyed d.dim_projects) (sym e) k)
        (λ p.
          subst (λ d. Agrees (as_text (select_project d p)) (as_text (known new_id base p))) (sym e)
            (Agrees-after_sync new_id _ (new_id p) (select_project base p) _ (inr refl)))
        (IsCoherent-counts t t.reads u.queries h.coherent)
        (λ v same held. retry-Answers pids (q ∷ qs) _ v held (same ∙ e) k)

  Collected-Answers :
      (pids : List String) (x : Result (Dict Value × List String) × Registry)
      → IsKeyed base.dim_projects
      → CollectedBy new_id clock base pids [] [] x
      → Answers pids (continue x.0 (λ (r, m). resolve_missing clock new_id m r) x.1)
  Collected-Answers pids (ok (r, m), t) k h =
      resolve_missing-Answers pids m r t
        (record {
          agrees = h.agrees;
          covers = λ p q. h.covers p (inl q);
          within = λ p q. unfold contains in ground (arith, h.within p q);
          coherent = h.coherent;
        })
        h.same k
  Collected-Answers pids (value_error, t) k h = absurd h

module _ (new_id : String → String) (clock : ℕ → ℕ) (s : Registry) where
  -- From a cache that agrees with the database, and a table of projects in which no project
  -- stands twice, the batch either returns a result that holds, for each project asked for, the
  -- id that its row has once the table is backfilled, or raises ValueError, and then some project
  -- asked for has no id even so. The cache goes on to agree with the database either way.
  pub get_project_agg_ids_batch-Answers :
      (pids : List String)
      → IsCoherent s
      → IsKeyed s.db.dim_projects
      → Answers new_id clock s.db pids (get_project_agg_ids_batch clock new_id pids s)
  unfolding get_project_agg_ids_batch
  get_project_agg_ids_batch-Answers pids c k =
      Collected-Answers new_id clock s.db pids (collect clock pids [] [] s) k
        (collect_lem new_id clock s.db pids [] [] s c refl (λ p. unfold lookup in inl refl))
