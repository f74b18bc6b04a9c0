-- ===== src/Slicer/Graph/Edges.antt =====
-- Edges of the graph of pipelines/utils/smart_slicer.py after an append.
use process_metrics_platform.Common.{
  In, String, ◌≡◌, ◌⊎◌, inl, inr, ◌↔◌, List, [], ◌∷◌, ◌++◌, arith, str_eq, eq_iff, lookup-insert,
  if◌then◌else◌, Bool-cases, subst,
}
use process_metrics_platform.Slicer.Graph.{Edge, Graph, edges_of, ensure_table, append_edge}

-- The graph has the edge at the table.
abbrev pub EdgeAt : Graph → String → Edge → Type 0
EdgeAt g t e = In e (edges_of g t)

module _ {ℓ} {A : Type ℓ} where
  pub In-concat : (a x : A) (xs : List A) → In a (xs ++ x ∷ []) ↔ (In a xs ⊎ (x ≡ a))
  In-concat a x [] = (λ h. ground arith, λ h. ground arith)
  In-concat a x (y ∷ xs) = ground (arith, In-concat a x xs)

pub edges_of-append_edge :
    (k t : String) (x : Edge) (g : Graph)
    → edges_of (append_edge k x g) t ≡ (if str_eq k t then edges_of g k ++ x ∷ [] else edges_of g t)
unfolding edges_of append_edge
edges_of-append_edge k t x g = ground (arith, lookup-insert k t (edges_of g k ++ x ∷ []) g)

pub edges_of-ensure_table :
    (k t : String) (g : Graph) → edges_of (ensure_table k g) t ≡ edges_of g t
unfolding edges_of ensure_table
edges_of-ensure_table k t g = ground (arith, eq_iff k t, lookup-insert k t (edges_of g k) g)

pub EdgeAt-append_edge :
    (k t : String) (x e : Edge) (g : Graph)
    → EdgeAt (append_edge k x g) t e ↔ (EdgeAt g t e ⊎ (k ≡ t) × (x ≡ e))
EdgeAt-append_edge k t x e g = elim (Bool-cases (str_eq k t)) [
  | inl same ↦ rw (edges_of-append_edge k t x g) (
      rw same (
        subst (λ j. In e (edges_of g k ++ x ∷ []) ↔ (EdgeAt g j e ⊎ (k ≡ j) × (x ≡ e)))
          ((eq_iff k t).0 same) (ground (arith, In-concat e x (edges_of g k)))))
  | inr other ↦ rw (edges_of-append_edge k t x g) (rw other (ground (arith, eq_iff k t)))
]
