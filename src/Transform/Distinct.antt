-- ===== src/Transform/Distinct.antt =====
-- The dictionary of `deduplicate_issues` (pipelines/utils/transformations.py) and its values.
use process_metrics_platform.Common.{
  ◌≡◌, ◌≢◌, refl, inl, inr, String, Option, none, some, List, [], ◌∷◌, arith, All, In, Dict, lookup,
  insert, str_eq, eq_iff, Bool-cases, ap,
}
use process_metrics_platform.Transform.Deduplicate.{
  Issue, key_of, keep_newer, see, see_all, values, is_newer, updated_at, deduplicate_issues,
}
use process_metrics_platform.Transform.Newest.{Inv-cast, IsNewest, see_all-Inv, Inv-start}

-- No entry of the dictionary has the key.
abbrev IsFree : String → Dict Issue → Type 0
IsFree key seen = All (λ (e : String × Issue). e.0 ≢ key) seen

-- No key stands twice.
abbrev IsKeyed : Dict Issue → Type 0
IsKeyed [] = Unit
IsKeyed ((key, issue) ∷ seen) = IsFree key seen × IsKeyed seen

insert-IsFree :
    (key k : String) (issue : Issue) (seen : Dict Issue)
    → k ≢ key
    → IsFree key seen
    → IsFree key (insert k issue seen)
unfolding insert
insert-IsFree key k issue [] h f = (h, tt)
insert-IsFree key k issue ((j, x) ∷ seen) h (apart, f) = elim (Bool-cases (str_eq j k)) [
  | inl e ↦ rw e (apart, f)
  | inr e ↦ rw e (apart, insert-IsFree key k issue seen h f)
]

insert-IsKeyed :
    (k : String) (issue : Issue) (seen : Dict Issue) → IsKeyed seen → IsKeyed (insert k issue seen)
unfolding insert
insert-IsKeyed k issue [] h = (tt, tt)
insert-IsKeyed k issue ((j, x) ∷ seen) (f, h) = elim (Bool-cases (str_eq j k)) [
  | inl e ↦ rw e (f, h)
  | inr e ↦ rw e (
    insert-IsFree j k issue seen (λ s. ground (arith, eq_iff j k)) f,
    insert-IsKeyed k issue seen h,
  )
]

keep_newer-IsKeyed :
    (k : String) (issue : Issue) (o : Option Issue) (seen : Dict Issue)
    → IsKeyed seen
    → IsKeyed (keep_newer k issue o seen)
unfolding keep_newer
keep_newer-IsKeyed k issue none seen h = insert-IsKeyed k issue seen h
keep_newer-IsKeyed k issue (some old) seen h =
    elim (Bool-cases (is_newer (updated_at issue) (updated_at old))) [
      | inl e ↦ rw e (insert-IsKeyed k issue seen h)
      | inr e ↦ rw e h
    ]

see-IsKeyed :
    (o : Option String) (issue : Issue) (seen : Dict Issue)
    → IsKeyed seen
    → IsKeyed (see o issue seen)
unfolding see
see-IsKeyed none issue seen h = h
see-IsKeyed (some k) issue seen h = keep_newer-IsKeyed k issue (lookup k seen) seen h

see_all-IsKeyed :
    (field : String) (issues : List Issue) (seen : Dict Issue)
    → IsKeyed seen
    → IsKeyed (see_all field issues seen)
unfolding see_all
see_all-IsKeyed field [] seen h = h
see_all-IsKeyed field (issue ∷ issues) seen h =
    see_all-IsKeyed field issues _ (see-IsKeyed (key_of field issue) issue seen h)

IsFree-lookup : (key : String) (seen : Dict Issue) → IsFree key seen → lookup key seen ≡ none
unfolding lookup
IsFree-lookup key [] f = refl
IsFree-lookup key ((j, x) ∷ seen) (apart, f) =
    ground (arith, eq_iff j key, IsFree-lookup key seen f)

lookup-values :
    (seen : Dict Issue) (key : String) (x : Issue) → lookup key seen ≡ some x → In x (values seen)
unfolding lookup values
lookup-values [] key x h = absurd (ground arith)
lookup-values ((j, y) ∷ seen) key x h = ground (arith, lookup-values seen key x)

values-lookup :
    (seen : Dict Issue) (x : Issue)
    → IsKeyed seen
    → In x (values seen)
    → (key : String) × (lookup key seen ≡ some x)
unfolding lookup values
values-lookup [] x h i = absurd (i tt)
values-lookup ((j, y) ∷ seen) x (f, h) (inl same) = (j, ground (arith, eq_iff j j))
values-lookup ((j, y) ∷ seen) x (f, h) (inr i) =
    let (key, e) = values-lookup seen x h i in
    (key, ground (arith, eq_iff j key, IsFree-lookup j seen f, ap (λ k. lookup k seen)))

-- No two issues of the list have the same key.
abbrev pub AreApart : String → List Issue → Type 0
AreApart field [] = Unit
AreApart field (x ∷ xs) = All (λ y. key_of field y ≢ key_of field x) xs × AreApart field xs

module _ (field : String) where
  -- Every entry stands under its own key.
  abbrev AreOwn : Dict Issue → Type 0
  AreOwn seen = All (λ (e : String × Issue). key_of field e.1 ≡ some e.0) seen

  AreOwn-of :
      (seen : Dict Issue)
      → IsKeyed seen
      → ((key : String) (x : Issue) → lookup key seen ≡ some x → key_of field x ≡ some key)
      → AreOwn seen
  AreOwn-of [] k h = tt
  AreOwn-of ((j, y) ∷ seen) (f, k) h = (
    h j y (unfold lookup in ground (arith, eq_iff j j)),
    AreOwn-of seen k (λ key x e. h key x (
        unfold lookup in
        ground (arith, eq_iff j key, IsFree-lookup j seen f, ap (λ k. lookup k seen)))),
  )

  values-Apart_from :
      (j : String) (y : Issue) (seen : Dict Issue)
      → key_of field y ≡ some j
      → IsFree j seen
      → AreOwn seen
      → All (λ x. key_of field x ≢ key_of field y) (values seen)
  unfolding values
  values-Apart_from j y [] e f o = tt
  values-Apart_from j y ((k, x) ∷ seen) e (apart, f) (own, o) =
      ((λ same. ground arith), values-Apart_from j y seen e f o)

  values-AreApart : (seen : Dict Issue) → IsKeyed seen → AreOwn seen → AreApart field (values seen)
  unfolding values
  values-AreApart [] k o = tt
  values-AreApart ((j, y) ∷ seen) (f, k) (own, o) =
      (values-Apart_from j y seen own f o, values-AreApart seen k o)

  -- `deduplicate_issues` keeps one issue of every key: no two of the issues that it returns have
  -- the same key; each of them is one of the given issues, and none of those with its key has a
  -- later updated_at (an issue without one counts as older than all others); and a given issue
  -- with a key is represented by one with the same key. Issues without a key are left out.
  pub deduplicate_issues_lem :
      (issues : List Issue)
      → AreApart field (deduplicate_issues issues field)
        × ((kept : Issue)
            → In kept (deduplicate_issues issues field)
            → (key : String) × IsNewest field (λ x. In x issues) key kept)
        × ((issue : Issue) (key : String)
            → In issue issues
            → key_of field issue ≡ some key
            → (kept : Issue) × In kept (deduplicate_issues issues field)
              × (key_of field kept ≡ some key))
  unfolding deduplicate_issues
  deduplicate_issues_lem issues =
      let seen = see_all field issues [] in
      let keyed = see_all-IsKeyed field issues [] tt in
      let i =
        Inv-cast field _ (λ x. In x issues) seen (λ x h. ground arith) (λ x h. inr h)
          (see_all-Inv field (λ x. ⊥) issues [] (Inv-start field)) in
      (
        values-AreApart seen keyed (AreOwn-of seen keyed (λ key x e. (i.newest key x e).1)),
        (λ kept h. let (key, e) = values-lookup seen kept keyed h in (key, i.newest key kept e)),
        λ issue key h e.
            let (kept, l) = i.covers issue key h e in
            (kept, lookup-values seen key kept l, (i.newest key kept l).1),
      )
