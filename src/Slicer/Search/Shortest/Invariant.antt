-- ===== src/Slicer/Search/Shortest/Invariant.antt =====
-- The invariant of the search of pipelines/utils/smart_slicer.py, on its queue and its marks.
use process_metrics_platform.Common.{
  In, ℕ, suc, ◌≤◌, ◌<◌, String, ◌≡◌, ◌≢◌, refl, sym, ap, subst, ◌⊎◌, inl, inr, true, false, List,
  [], ◌∷◌, ◌++◌, arith, str_eq, eq_iff, length, length-append, Bool-cases, Any,
}
use native.Mathlib.Decide.{dec_le}
use process_metrics_platform.Slicer.Graph.{Edge, Graph, edges_of}
use process_metrics_platform.Slicer.Graph.Edges.{EdgeAt}
use process_metrics_platform.Slicer.Search.{JoinPath, last_table, seen, expand}
use process_metrics_platform.Slicer.Search.Walks.{IsWalk, IsWalk-concat, Any-append, Offered}

module _ (g : Graph) (start end : String) where
  -- Some path of the list ends at the table.
  abbrev pub Reaches : List JoinPath → String → Type 0
  Reaches ps t = Any (λ p. last_table start p ≡ t) ps

  -- `now` are the paths of `level` edges, `next` those with one more; `done` are the tables that
  -- have been expanded.
  pub record Inv (level : ℕ) (now next : List JoinPath) (done visited : List String) : Type 0 where
    pub now_len : (p : JoinPath) → In p now → length p ≡ level
    pub next_len : (p : JoinPath) → In p next → length p ≡ suc level
    pub now_walks : (p : JoinPath) → In p now → IsWalk g start p
    pub next_walks : (p : JoinPath) → In p next → IsWalk g start p
    pub placed :
        (t : String) → seen visited t ≡ true → (seen done t ≡ true) ⊎ Reaches now t ⊎ Reaches next t
    pub nearer :
        (w : JoinPath) → IsWalk g start w → length w < level → seen done (last_table start w) ≡ true
    pub near :
        (w : JoinPath)
        → IsWalk g start w
        → length w ≤ level
        → (seen done (last_table start w) ≡ true) ⊎ Reaches now (last_table start w)
    pub closed :
        (t : String) (e : Edge) → seen done t ≡ true → EdgeAt g t e → seen visited e.table ≡ true
    pub not_end : seen done end ≡ false

  pub Inv-start : Inv 0 ([] ∷ []) [] [] (start ∷ [])
  unfolding seen last_table
  Inv-start = record {
    now_len = λ p. elim [ inl is ↦ ap length (sym is) | inr h ↦ absurd (h tt) ];
    next_len = λ p h. absurd (h tt);
    now_walks = λ p. elim [ inl is ↦ subst (IsWalk g start) is tt | inr h ↦ absurd (h tt) ];
    next_walks = λ p h. absurd (h tt);
    placed = λ t h. ground (arith, eq_iff start t);
    nearer = λ w h l. absurd (omega arith);
    near = λ w h l. inr (inl (start_only w l));
    closed = λ t e h. absurd (ground arith);
    not_end = refl;
  }
    where
      start_only : (w : JoinPath) → length w ≤ 0 → start ≡ last_table start w
      start_only [] l = refl
      start_only (e ∷ w) l = absurd (omega arith)

  -- A walk that is not empty is a walk and one more edge.
  unsnoc :
      (t : String) (w : JoinPath)
      → IsWalk g t w
      → 0 < length w
      → (w' : JoinPath) × (e : Edge) × IsWalk g t w'
        × (suc (length w') ≡ length w)
        × EdgeAt g (last_table t w') e
        × (last_table t w ≡ e.table)
  unfolding last_table
  unsnoc t [] h l = absurd (omega arith)
  unsnoc t (e ∷ []) h l = ([], e, tt, omega arith, h.0, refl)
  unsnoc t (e ∷ x ∷ w) h l =
      let (w', y, walk, len, edge, at) = unsnoc e.table (x ∷ w) h.1 (omega arith) in
      (e ∷ w', y, (h.0, walk), omega arith, edge, at)

  -- With no path of the level left, the next level begins.
  pub Inv-shift :
      {level : ℕ} {next : List JoinPath} {done visited : List String}
      → Inv level [] next done visited
      → Inv (suc level) next [] done visited
  Inv-shift {level} {next} {done} {visited} h = record {
    now_len = h.next_len;
    next_len = λ p i. absurd (i tt);
    now_walks = h.next_walks;
    next_walks = λ p i. absurd (i tt);
    placed = λ t s. ground (arith, h.placed t s);
    nearer = λ w i l. ground (arith, h.near w i (omega arith));
    near = λ w i l. elim (dec_le (length w) level) [
      | yes short ↦ inl (ground (arith, h.near w i short))
      | no long ↦ one_more w i l (unsnoc start w i (omega arith))
    ];
    closed = h.closed;
    not_end = h.not_end;
  }
    where
      one_more :
          (w : JoinPath)
          → IsWalk g start w
          → length w ≤ suc level
          → (w' : JoinPath) × (e : Edge) × IsWalk g start w'
            × (suc (length w') ≡ length w)
            × EdgeAt g (last_table start w') e
            × (last_table start w ≡ e.table)
          → (seen done (last_table start w) ≡ true) ⊎ Reaches next (last_table start w)
      one_more w i l (w', e, walk, len, edge, at) = rw at (elim (h.near w' walk (omega arith)) [
        | inl d ↦ elim (h.placed e.table (h.closed (last_table start w') e d edge)) [
          | inl old ↦ inl old
          | inr (inl none_left) ↦ absurd (none_left tt)
          | inr (inr reached) ↦ inr reached
        ]
        | inr none_left ↦ absurd (none_left tt)
      ])

  -- The first path is popped, its table is not the one that is sought, and its neighbours are
  -- offered.
  pub Inv-expand :
      {level : ℕ} {path : JoinPath} {now next : List JoinPath} {done visited : List String}
      (queue : List JoinPath)
      → Inv level (path ∷ now) next done visited
      → last_table start path ≢ end
      → (o : Offered path
          (edges_of g (last_table start path))
          (record { queue = queue; visited = visited })
          (expand g start end path queue visited))
      → Inv level now
          (next ++ o.added)
          (last_table start path ∷ done)
          (expand g start end path queue visited).visited
  unfolding seen
  Inv-expand {level} {path} {now} {next} {done} {visited} queue h other o = record {
    now_len = λ p i. h.now_len p (inr i);
    next_len = λ p i. elim ((Any-append (λ x. x ≡ p) next o.added).0 i) [
      | inl old ↦ h.next_len p old
      | inr new ↦
          let (e, m, is, fresh) = o.extends p new in
          omega (arith, ap length is, length-append {0} path (e ∷ []), h.now_len path (inl refl))
    ];
    now_walks = λ p i. h.now_walks p (inr i);
    next_walks = λ p i. elim ((Any-append (λ x. x ≡ p) next o.added).0 i) [
      | inl old ↦ h.next_walks p old
      | inr new ↦
          let (e, m, is, fresh) = o.extends p new in
          subst (IsWalk g start) (sym is)
            (IsWalk-concat g start path e (h.now_walks path (inl refl)) m)
    ];
    placed = λ t s. elim ((o.seen_iff start t).0 s) [
      | inl old ↦ elim (h.placed t old) [
        | inl d ↦ inl (ground arith)
        | inr (inl (inl at)) ↦ inl (ground (arith, eq_iff (last_table start path) t))
        | inr (inl (inr later)) ↦ inr (inl later)
        | inr (inr later) ↦
            inr (inr ((Any-append (λ p. last_table start p ≡ t) next o.added).1 (inl later)))
      ]
      | inr new ↦ inr (inr ((Any-append (λ p. last_table start p ≡ t) next o.added).1 (inr new)))
    ];
    nearer = λ w i l. ground (arith, h.nearer w i l);
    near =
        λ w i l. ground (arith, h.near w i l, eq_iff (last_table start path) (last_table start w));
    closed = λ t e s m. elim (Bool-cases (str_eq (last_table start path) t)) [
      | inl same ↦
          o.all_seen e
            (subst (λ x. EdgeAt g x e) (sym ((eq_iff (last_table start path) t).0 same)) m)
      | inr differs ↦ (o.seen_iff start e.table).1 (inl (h.closed t e (ground arith) m))
    ];
    not_end = ground (arith, eq_iff (last_table start path) end, h.not_end);
  }
