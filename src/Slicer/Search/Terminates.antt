-- ===== src/Slicer/Search/Terminates.antt =====
-- The fuel of the search of pipelines/utils/smart_slicer.py.
use process_metrics_platform.Common.{
  In, ℕ, zero, suc, ◌+◌, ◌≤◌, ◌<◌, String, ◌≡◌, ◌≢◌, refl, ap, inl, inr, false, List, [], ◌∷◌, ◌++◌,
  arith, str_eq, eq_iff, lookup, length, length-append, if◌then◌else◌, Bool-cases,
}
use process_metrics_platform.Slicer.Graph.{Edge, Graph, edges_of}
use process_metrics_platform.Slicer.Graph.Edges.{EdgeAt}
use process_metrics_platform.Slicer.Search.{
  JoinPath, last_table, seen, Frontier, offer, offer_all, out_of_fuel, expand, search, edge_count,
}

-- The edges whose target has not been seen.
unseen_in : List String → List Edge → ℕ
unseen_in vs [] = 0
unseen_in vs (e ∷ es) = (if seen vs e.table then 0 else 1) + unseen_in vs es

unseen : List String → Graph → ℕ
unseen vs [] = 0
unseen vs ((t, es) ∷ g) = unseen_in vs es + unseen vs g

unseen_in-mark :
    (t : String) (vs : List String) (es : List Edge) → unseen_in (t ∷ vs) es ≤ unseen_in vs es
unfolding unseen_in seen
unseen_in-mark t vs [] = omega arith
unseen_in-mark t vs (e ∷ es) = ground (arith, unseen_in-mark t vs es)

unseen-mark : (t : String) (vs : List String) (g : Graph) → unseen (t ∷ vs) g ≤ unseen vs g
unfolding unseen
unseen-mark t vs [] = omega arith
unseen-mark t vs ((u, es) ∷ g) = omega (arith, unseen_in-mark t vs es, unseen-mark t vs g)

unseen_in-lt :
    (e : Edge) (vs : List String) (es : List Edge)
    → In e es
    → seen vs e.table ≡ false
    → unseen_in (e.table ∷ vs) es < unseen_in vs es
unfolding unseen_in seen
unseen_in-lt e vs [] m h = absurd (m tt)
unseen_in-lt e vs (x ∷ es) (inl is) h =
    ground (arith, eq_iff e.table x.table, unseen_in-mark e.table vs es, ap (λ y. y.table) is)
unseen_in-lt e vs (x ∷ es) (inr m) h = ground (arith, unseen_in-lt e vs es m h)

unseen-lt :
    (t : String) (e : Edge) (vs : List String) (g : Graph)
    → EdgeAt g t e
    → seen vs e.table ≡ false
    → unseen (e.table ∷ vs) g < unseen vs g
unfolding unseen edges_of lookup
unseen-lt t e vs [] m h = absurd (m tt)
unseen-lt t e vs ((u, es) ∷ g) m h = elim (Bool-cases (str_eq u t)) [
  | inl same ↦ omega (arith, unseen_in-lt e vs es (rw same at m) h, unseen-mark e.table vs g)
  | inr other ↦ omega (arith, unseen_in-mark e.table vs es, unseen-lt t e vs g (rw other at m) h)
]

-- Paths that wait, and edges whose target has not been seen.
abbrev work : Graph → Frontier → ℕ
work g f = length f.queue + unseen f.visited g

offer-work :
    (g : Graph) (t : String) (path : JoinPath) (e : Edge) (f : Frontier)
    → EdgeAt g t e
    → work g (offer path e f) ≤ work g f
unfolding offer
offer-work g t path e f m =
    ground (arith, unseen-lt t e f.visited g m, length-append f.queue ((path ++ e ∷ []) ∷ []))

offer_all-work :
    (g : Graph) (t : String) (path : JoinPath) (es : List Edge) (f : Frontier)
    → ((e : Edge) → In e es → EdgeAt g t e)
    → work g (offer_all path es f) ≤ work g f
unfolding offer_all
offer_all-work g t path [] f h = omega arith
offer_all-work g t path (e ∷ es) f h = omega (
  arith,
  offer-work g t path e f (h e (inl refl)),
  offer_all-work g t path es (offer path e f) (λ x m. h x (inr m)),
)

module _ (g : Graph) (start end : String) where
  search-ends :
      (fuel : ℕ) (queue : List JoinPath) (visited : List String)
      → work g (record { queue = queue; visited = visited }) < fuel
      → search g start end fuel queue visited ≢ out_of_fuel
  unfolding search expand
  search-ends zero queue visited h = absurd (omega arith)
  search-ends (suc fuel) [] visited h = λ e. cc
  search-ends (suc fuel) (path ∷ queue) visited h =
      let f : Frontier = record { queue = queue; visited = visited } in
      let at = last_table start path in
      let less = offer_all-work g at path (edges_of g at) f (λ e m. m) in
      ground (
        arith,
        search-ends fuel (offer_all path (edges_of g at) f).queue
            (offer_all path (edges_of g at) f).visited,
      )

unseen_in-le : (vs : List String) (es : List Edge) → unseen_in vs es ≤ length es
unfolding unseen_in
unseen_in-le vs [] = omega arith
unseen_in-le vs (e ∷ es) = ground (arith, unseen_in-le vs es)

unseen-le : (vs : List String) (g : Graph) → unseen vs g ≤ edge_count g
unfolding unseen edge_count
unseen-le vs [] = omega arith
unseen-le vs ((t, es) ∷ g) = omega (arith, unseen_in-le vs es, unseen-le vs g)

-- Two rounds more than there are edges are enough for the search to end by itself.
pub search-enough_fuel :
    (g : Graph) (start end : String)
    → search g start end (edge_count g + 2) ([] ∷ []) (start ∷ []) ≢ out_of_fuel
search-enough_fuel g start end =
    search-ends g start end (edge_count g + 2) ([] ∷ []) (start ∷ [])
      (omega (arith, unseen-le (start ∷ []) g))
