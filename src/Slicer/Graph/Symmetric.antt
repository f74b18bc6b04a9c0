-- ===== src/Slicer/Graph/Symmetric.antt =====
-- The ways back in the graph of pipelines/utils/smart_slicer.py.
use process_metrics_platform.Common.{String, ◌≡◌, refl, subst, ◌⊎◌, inl, inr, List, [], ◌∷◌, lookup}
use process_metrics_platform.Slicer.Graph.{
  ForeignKey, Table, Edge, Graph, edges_of, ensure_table, append_edge, qualified, schema_of, link,
  link_columns, link_keys, link_tables, build_graph,
}
use process_metrics_platform.Slicer.Graph.Edges.{EdgeAt, edges_of-ensure_table, EdgeAt-append_edge}

-- The edge back to the table `t`.
abbrev pub flip : String → Edge → Edge
flip t e = record { table = t; local_col = e.ref_col; ref_col = e.local_col }

abbrev pub IsSymmetric : Graph → Type 0
IsSymmetric g = (t : String) (e : Edge) → EdgeAt g t e → EdgeAt g e.table (flip t e)

ensure_table-IsSymmetric : (k : String) (g : Graph) → IsSymmetric g → IsSymmetric (ensure_table k g)
ensure_table-IsSymmetric k g s t e h =
    rw (edges_of-ensure_table k e.table g) (s t e (rw (edges_of-ensure_table k t g) at h))

module _ (full referred l r : String) (g : Graph) where
  abbrev pub out : Edge
  out = record { table = referred; local_col = l; ref_col = r }

  abbrev pub back : Edge
  back = record { table = full; local_col = r; ref_col = l }

  -- The edges after one pair of columns: the old ones and the two of the pair.
  pub link-old : (t : String) (e : Edge) → EdgeAt g t e → EdgeAt (link full referred l r g) t e
  unfolding link
  link-old t e h =
      (EdgeAt-append_edge referred t back e (append_edge full out g)).1
        (inl ((EdgeAt-append_edge full t out e g).1 (inl h)))

  pub link-back : EdgeAt (link full referred l r g) referred back
  unfolding link
  link-back =
      (EdgeAt-append_edge referred referred back back (append_edge full out g)).1 (inr (refl, refl))

  pub link-out : EdgeAt (link full referred l r g) full out
  unfolding link
  link-out =
      (EdgeAt-append_edge referred full back out (append_edge full out g)).1
        (inl ((EdgeAt-append_edge full full out out g).1 (inr (refl, refl))))

  pub link-cases :
      (t : String) (e : Edge)
      → EdgeAt (link full referred l r g) t e
      → EdgeAt g t e ⊎ ((full ≡ t) × (out ≡ e)) ⊎ ((referred ≡ t) × (back ≡ e))
  unfolding link
  link-cases t e h = elim ((EdgeAt-append_edge referred t back e (append_edge full out g)).0 h) [
    | inl older ↦ elim ((EdgeAt-append_edge full t out e g).0 older) [
      | inl old ↦ inl old
      | inr new ↦ inr (inl new)
    ]
    | inr new ↦ inr (inr new)
  ]

  link-IsSymmetric : IsSymmetric g → IsSymmetric (link full referred l r g)
  link-IsSymmetric s t e h = elim (link-cases t e h) [
    | inl old ↦ link-old e.table (flip t e) (s t e old)
    | inr (inl (at, is)) ↦
        subst (λ x. EdgeAt (link full referred l r g) x.table (flip t x)) is
          (subst (λ x. EdgeAt (link full referred l r g) referred (flip x out)) at link-back)
    | inr (inr (at, is)) ↦
        subst (λ x. EdgeAt (link full referred l r g) x.table (flip t x)) is
          (subst (λ x. EdgeAt (link full referred l r g) full (flip x back)) at link-out)
  ]

link_columns-IsSymmetric :
    (full referred : String) (ls rs : List String) (g : Graph)
    → IsSymmetric g
    → IsSymmetric (link_columns full referred ls rs g)
unfolding link_columns
link_columns-IsSymmetric full referred (l ∷ ls) (r ∷ rs) g s =
    link_columns-IsSymmetric full referred ls rs (link full referred l r g)
      (link-IsSymmetric full referred l r g s)
link_columns-IsSymmetric full referred _ _ g s = s

link_keys-IsSymmetric :
    (schema full : String) (fks : List ForeignKey) (g : Graph)
    → IsSymmetric g
    → IsSymmetric (link_keys schema full fks g)
unfolding link_keys
link_keys-IsSymmetric schema full [] g s = s
link_keys-IsSymmetric schema full (fk ∷ fks) g s = link_keys-IsSymmetric schema full fks _ (
    link_columns-IsSymmetric full
      (qualified (schema_of fk.referred_schema schema) fk.referred_table) fk.constrained_columns
      fk.referred_columns g s)

link_tables-IsSymmetric :
    (schema : String) (ts : List Table) (g : Graph)
    → IsSymmetric g
    → IsSymmetric (link_tables schema ts g)
unfolding link_tables
link_tables-IsSymmetric schema [] g s = s
link_tables-IsSymmetric schema (t ∷ ts) g s =
    let full = qualified schema t.name in
    link_tables-IsSymmetric schema ts (link_keys schema full t.foreign_keys (ensure_table full g)) (
      link_keys-IsSymmetric schema full t.foreign_keys (ensure_table full g)
        (ensure_table-IsSymmetric full g s))

-- Whatever the foreign keys, the graph has every edge in both directions, with the two columns
-- exchanged: a join path can be walked either way.
pub build_graph-IsSymmetric :
    (schema : String) (tables : List Table) → IsSymmetric (build_graph schema tables)
unfolding build_graph
build_graph-IsSymmetric schema tables =
    link_tables-IsSymmetric schema tables [] (λ t e h. absurd (no_edge t e h))
  where
    no_edge : (t : String) (e : Edge) → EdgeAt [] t e → ⊥
    no_edge t e h = unfold edges_of lookup in h tt
