-- ===== src/Slicer/Search/Walks.antt =====
-- Walks in the graph of tables, and the frontier of the search after some neighbours were offered.
use process_metrics_platform.Common.{
  In, String, ◌≡◌, refl, sym, subst, ◌⊎◌, inl, inr, ◌↔◌, true, false, List, [], ◌∷◌, ◌++◌,
  append-nil, append_assoc, ◌∙◌, arith, eq_iff, Any, Bool-cases,
}
use process_metrics_platform.Slicer.Graph.{Edge, Graph}
use process_metrics_platform.Slicer.Graph.Edges.{EdgeAt}
use process_metrics_platform.Slicer.Search.{JoinPath, last_table, seen, Frontier, offer, offer_all}

-- The edges lead from the table `t` on, each from where the one before it ends.
abbrev pub IsWalk : Graph → String → JoinPath → Type 0
IsWalk g t [] = Unit {0}
IsWalk g t (e ∷ es) = EdgeAt g t e × IsWalk g e.table es

pub last_table-concat :
    (t : String) (p : JoinPath) (e : Edge) → last_table t (p ++ e ∷ []) ≡ e.table
unfolding last_table
last_table-concat t [] e = refl
last_table-concat t (x ∷ p) e = last_table-concat x.table p e

pub IsWalk-concat :
    (g : Graph) (t : String) (p : JoinPath) (e : Edge)
    → IsWalk g t p
    → EdgeAt g (last_table t p) e
    → IsWalk g t (p ++ e ∷ [])
unfolding last_table
IsWalk-concat g t [] e w h = (h, tt)
IsWalk-concat g t (x ∷ p) e w h = (w.0, IsWalk-concat g x.table p e w.1 h)

module _ {ℓ} {A : Type ℓ} where
  pub Any-append {κ} : (P : A → Type κ) (xs ys : List A) → Any P (xs ++ ys) ↔ (Any P xs ⊎ Any P ys)
  Any-append P [] ys = (inr, elim [ inl none ↦ absurd (none tt) | inr h ↦ h ])
  Any-append P (x ∷ xs) ys = (
    elim [
      | inl h ↦ inl (inl h)
      | inr h ↦ elim ((Any-append P xs ys).0 h) [ inl i ↦ inl (inr i) | inr i ↦ inr i ]
    ],
    elim [
      | inl (inl h) ↦ inl h
      | inl (inr h) ↦ inr ((Any-append P xs ys).1 (inl h))
      | inr h ↦ inr ((Any-append P xs ys).1 (inr h))
    ],
  )

-- What the loop over the neighbours does to the frontier.
pub record Offered (path : JoinPath) (es : List Edge) (f f' : Frontier) : Type 0 where
  pub added : List JoinPath
  pub queue : f'.queue ≡ f.queue ++ added
  -- Each new path is the popped one with one of the edges.
  pub extends :
      (p : JoinPath)
      → In p added
      → (e : Edge) × In e es × (p ≡ path ++ e ∷ []) × (seen f.visited e.table ≡ false)
  -- A table is seen afterwards if it was, or if a new path ends there.
  pub seen_iff :
      (start t : String)
      → (seen f'.visited t ≡ true)
        ↔ ((seen f.visited t ≡ true) ⊎ Any (λ p. last_table start p ≡ t) added)
  -- Every neighbour is seen afterwards.
  pub all_seen : (e : Edge) → In e es → seen f'.visited e.table ≡ true

Offered-old :
    (path : JoinPath) (e : Edge) (es : List Edge) (f f' : Frontier)
    → seen f.visited e.table ≡ true
    → Offered path es f f'
    → Offered path (e ∷ es) f f'
Offered-old path e es f f' old o = record {
  added = o.added;
  queue = o.queue;
  extends = λ p h. let (x, m, is, fresh) = o.extends p h in (x, inr m, is, fresh);
  seen_iff = o.seen_iff;
  all_seen = λ x. elim [
    | inl is ↦ subst (λ y. seen f'.visited y.table ≡ true) is ((o.seen_iff "" e.table).1 (inl old))
    | inr m ↦ o.all_seen x m
  ];
}

-- The frontier after a neighbour that was not seen.
abbrev with_path : JoinPath → Edge → Frontier → Frontier
with_path path e f = record {
  queue = f.queue ++ (path ++ e ∷ []) ∷ [];
  visited = e.table ∷ f.visited;
}

Offered-new :
    (path : JoinPath) (e : Edge) (es : List Edge) (f f' : Frontier)
    → seen f.visited e.table ≡ false
    → Offered path es (with_path path e f) f'
    → Offered path (e ∷ es) f f'
unfolding seen
Offered-new path e es f f' new o = record {
  added = (path ++ e ∷ []) ∷ o.added;
  queue = o.queue ∙ append_assoc f.queue ((path ++ e ∷ []) ∷ []) o.added;
  extends = λ p. elim [
    | inl is ↦ (e, inl refl, sym is, new)
    | inr h ↦ let (x, m, is, fresh) = o.extends p h in (x, inr m, is, ground arith)
  ];
  seen_iff = λ start t.
      ground (arith, o.seen_iff start t, last_table-concat start path e, eq_iff e.table t);
  all_seen = λ x. elim [
    | inl is ↦
        subst (λ y. seen f'.visited y.table ≡ true) is
          ((o.seen_iff "" e.table).1 (inl (ground (arith, eq_iff e.table e.table))))
    | inr m ↦ o.all_seen x m
  ];
}

offer-old :
    (path : JoinPath) (e : Edge) (f : Frontier) → seen f.visited e.table ≡ true → offer path e f ≡ f
unfolding offer
offer-old path e f h = rw h

offer-new :
    (path : JoinPath) (e : Edge) (f : Frontier)
    → seen f.visited e.table ≡ false
    → offer path e f ≡ with_path path e f
unfolding offer
offer-new path e f h = rw h

pub offer_all-Offered :
    (path : JoinPath) (es : List Edge) (f : Frontier) → Offered path es f (offer_all path es f)
unfolding offer_all
offer_all-Offered path [] f = record {
  added = [];
  queue = sym (append-nil f.queue);
  extends = λ p h. absurd (h tt);
  seen_iff = λ start t. (inl, λ h. ground arith);
  all_seen = λ e h. absurd (h tt);
}
offer_all-Offered path (e ∷ es) f = elim (Bool-cases (seen f.visited e.table)) [
  | inl old ↦ Offered-old path e es f _ old (
      subst (λ x. Offered path es x (offer_all path es (offer path e f))) (offer-old path e f old)
        (offer_all-Offered path es (offer path e f)))
  | inr new ↦ Offered-new path e es f _ new (
      subst (λ x. Offered path es x (offer_all path es (offer path e f))) (offer-new path e f new)
        (offer_all-Offered path es (offer path e f)))
]
