-- ===== src/Slicer/Graph/Declared.antt =====
-- The edges of the graph of pipelines/utils/smart_slicer.py, against the declared foreign keys.
use process_metrics_platform.Common.{
  String, ◌≡◌, subst, ap, ◌⊎◌, inl, inr, ◌↔◌, List, [], ◌∷◌, lookup, arith, Any,
}
use process_metrics_platform.Slicer.Graph.{
  ForeignKey, Table, Edge, Graph, edges_of, ensure_table, qualified, schema_of, link, link_columns,
  link_keys, link_tables, build_graph,
}
use process_metrics_platform.Slicer.Graph.Edges.{EdgeAt, edges_of-ensure_table}
use process_metrics_platform.Slicer.Graph.Symmetric.{
  flip, link-old, link-back, link-out, link-cases,
}

-- The two columns stand at the same place of the two lists.
abbrev pub PairIn : String → String → List String → List String → Type 0
PairIn l r (l' ∷ ls) (r' ∷ rs) = ((l' ≡ l) × (r' ≡ r)) ⊎ PairIn l r ls rs
PairIn l r _ _ = ⊥

-- A foreign key of the table `full` has the columns of the edge, and refers to the edge's table.
abbrev pub KeyHas : String → String → Edge → ForeignKey → Type 0
KeyHas schema t e fk =
    (qualified (schema_of fk.referred_schema schema) fk.referred_table ≡ e.table)
    × PairIn e.local_col e.ref_col fk.constrained_columns fk.referred_columns

abbrev pub TableHas : String → String → Edge → Table → Type 0
TableHas schema t e table =
    (qualified schema table.name ≡ t) × Any (KeyHas schema t e) table.foreign_keys

abbrev pub Declares : String → List Table → String → Edge → Type 0
Declares schema tables t e = Any (TableHas schema t e) tables

-- `D` holds of the edge, or of the way back.
abbrev Either : (String → Edge → Type 0) → String → Edge → Type 0
Either D t e = D t e ⊎ D e.table (flip t e)

-- The new graph has the edges of the old one and those that `D` names, in both directions.
abbrev Adds : (String → Edge → Type 0) → Graph → Graph → Type 0
Adds D g g' = (t : String) (e : Edge) → EdgeAt g' t e ↔ (EdgeAt g t e ⊎ Either D t e)

Adds-trans :
    (D E F : String → Edge → Type 0) (g h k : Graph)
    → ((t : String) (e : Edge) → F t e ↔ (D t e ⊎ E t e))
    → Adds D g h
    → Adds E h k
    → Adds F g k
Adds-trans D E F g h k f a b t e =
    let (p, q) = a t e in
    let (r, s) = b t e in let (u, v) = f t e in let (w, x) = f e.table (flip t e) in ground arith

EdgeAt-cast : (g : Graph) (t u : String) (e f : Edge) → t ≡ u → e ≡ f → EdgeAt g t e → EdgeAt g u f
EdgeAt-cast g t u e f p q h = subst (λ x. EdgeAt g u x) q (subst (λ x. EdgeAt g x e) p h)

abbrev LinkHas : String → String → String → String → String → Edge → Type 0
LinkHas full referred l r t e =
    (full ≡ t) × (referred ≡ e.table) × (l ≡ e.local_col) × (r ≡ e.ref_col)

Adds-link :
    (full referred l r : String) (g : Graph)
    → Adds (LinkHas full referred l r) g (link full referred l r g)
Adds-link full referred l r g t e = (forward, backward)
  where
    forward :
        EdgeAt (link full referred l r g) t e
        → EdgeAt g t e ⊎ Either (LinkHas full referred l r) t e
    forward h = elim (link-cases full referred l r g t e h) [
      | inl old ↦ inl old
      | inr (inl (at, is)) ↦
          inr (inl (at, ap (λ x. x.table) is, ap (λ x. x.local_col) is, ap (λ x. x.ref_col) is))
      | inr (inr (at, is)) ↦
          inr (inr (ap (λ x. x.table) is, at, ap (λ x. x.ref_col) is, ap (λ x. x.local_col) is))
    ]

    backward :
        EdgeAt g t e ⊎ Either (LinkHas full referred l r) t e
        → EdgeAt (link full referred l r g) t e
    backward (inl old) = link-old full referred l r g t e old
    backward (inr (inl (p, q, a, b))) =
        EdgeAt-cast _ full t _ e p (λ i. record { table = q i; local_col = a i; ref_col = b i })
          (link-out full referred l r g)
    backward (inr (inr (p, q, a, b))) =
        EdgeAt-cast _ referred t _ e q (λ i. record { table = p i; local_col = b i; ref_col = a i })
          (link-back full referred l r g)

abbrev ColumnsHave : String → String → List String → List String → String → Edge → Type 0
ColumnsHave full referred ls rs t e =
    (full ≡ t) × (referred ≡ e.table) × PairIn e.local_col e.ref_col ls rs

Adds-link_columns :
    (full referred : String) (ls rs : List String) (g : Graph)
    → Adds (ColumnsHave full referred ls rs) g (link_columns full referred ls rs g)
unfolding link_columns
Adds-link_columns full referred (l ∷ ls) (r ∷ rs) g =
    Adds-trans (LinkHas full referred l r) (ColumnsHave full referred ls rs)
      (ColumnsHave full referred (l ∷ ls) (r ∷ rs)) g (link full referred l r g) _
      (λ t e. (λ h. ground arith, λ h. ground arith)) (Adds-link full referred l r g)
      (Adds-link_columns full referred ls rs (link full referred l r g))
Adds-link_columns full referred [] rs g = λ t e. (inl, λ h. ground arith)
Adds-link_columns full referred (l ∷ ls) [] g = λ t e. (inl, λ h. ground arith)

abbrev KeysHave : String → String → List ForeignKey → String → Edge → Type 0
KeysHave schema full fks t e = (full ≡ t) × Any (KeyHas schema t e) fks

Adds-link_keys :
    (schema full : String) (fks : List ForeignKey) (g : Graph)
    → Adds (KeysHave schema full fks) g (link_keys schema full fks g)
unfolding link_keys
Adds-link_keys schema full [] g = λ t e. (inl, λ h. ground arith)
Adds-link_keys schema full (fk ∷ fks) g =
    let referred = qualified (schema_of fk.referred_schema schema) fk.referred_table in
    let g' = link_columns full referred fk.constrained_columns fk.referred_columns g in
    Adds-trans (ColumnsHave full referred fk.constrained_columns fk.referred_columns)
      (KeysHave schema full fks) (KeysHave schema full (fk ∷ fks)) g g' _
      (λ t e. (λ h. ground arith, λ h. ground arith))
      (Adds-link_columns full referred fk.constrained_columns fk.referred_columns g)
      (Adds-link_keys schema full fks g')

Adds-ensure_table :
    (D : String → Edge → Type 0) (k : String) (g h : Graph)
    → Adds D (ensure_table k g) h
    → Adds D g h
Adds-ensure_table D k g h a t e = rw (edges_of-ensure_table k t g) at (a t e)

Adds-link_tables :
    (schema : String) (tables : List Table) (g : Graph)
    → Adds (Declares schema tables) g (link_tables schema tables g)
unfolding link_tables
Adds-link_tables schema [] g = λ t e. (inl, λ h. ground arith)
Adds-link_tables schema (table ∷ tables) g =
    let full = qualified schema table.name in
    let g' = link_keys schema full table.foreign_keys (ensure_table full g) in
    Adds-trans (KeysHave schema full table.foreign_keys) (Declares schema tables)
      (Declares schema (table ∷ tables)) g g' _ (λ t e. (λ h. ground arith, λ h. ground arith))
      (Adds-ensure_table (KeysHave schema full table.foreign_keys) full g g'
        (Adds-link_keys schema full table.foreign_keys (ensure_table full g)))
      (Adds-link_tables schema tables g')

-- The graph has an edge exactly where a foreign key of a table declares it, or declares the way
-- back: column by column, with the referred schema defaulting to the table's own.
pub build_graph-Declares :
    (schema : String) (tables : List Table) (t : String) (e : Edge)
    → EdgeAt (build_graph schema tables) t e
      ↔ (Declares schema tables t e ⊎ Declares schema tables e.table (flip t e))
unfolding build_graph
build_graph-Declares schema tables t e =
    let (p, q) = Adds-link_tables schema tables [] t e in
    (λ h. elim (p h) [ inl old ↦ absurd (no_edge old) | inr new ↦ new ], λ h. q (inr h))
  where
    no_edge : EdgeAt [] t e → ⊥
    no_edge h = unfold edges_of lookup in h tt
