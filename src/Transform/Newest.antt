-- ===== src/Transform/Newest.antt =====
-- What `deduplicate_issues` of pipelines/utils/transformations.py keeps.
use process_metrics_platform.Common.{
  ℕ, suc, ◌≤◌, ◌<◌, ◌≡◌, refl, ◌↔◌, ◌⊎◌, inl, inr, String, true, Option, none, some, List, [], ◌∷◌,
  arith, In, Dict, lookup, insert, lookup-insert, str_eq, eq_iff, Bool-cases, ap, sym, ◌∙◌,
}
use process_metrics_platform.Transform.Deduplicate.{
  Issue, key_of, updated_at, is_newer, keep_newer, see, see_all,
}

-- The age of an issue: one with no date is older than every other.
abbrev pub age : Option ℕ → ℕ
age none = 0
age (some t) = suc t

is_newer_iff : (o p : Option ℕ) → (is_newer o p ≡ true) ↔ (age p < age o)
unfolding is_newer
is_newer_iff none p = ground arith
is_newer_iff (some t) none = ground arith
is_newer_iff (some t) (some u) = ground arith

module _ (field : String) where
  -- Among the issues of `M`, the kept one has the key, and none with the key is newer.
  abbrev pub IsNewest : (Issue → Type 0) → String → Issue → Type 0
  IsNewest M key kept =
      M kept
      × (key_of field kept ≡ some key)
      × ((other : Issue)
          → M other
          → key_of field other ≡ some key
          → age (updated_at other) ≤ age (updated_at kept))

  pub record Inv (M : Issue → Type 0) (seen : Dict Issue) : Type 0 where
    pub newest : (key : String) (kept : Issue) → lookup key seen ≡ some kept → IsNewest M key kept
    pub covers :
        (issue : Issue) (key : String)
        → M issue
        → key_of field issue ≡ some key
        → (kept : Issue) × (lookup key seen ≡ some kept)

  -- The issues so far, and one more.
  abbrev And : (Issue → Type 0) → Issue → Issue → Type 0
  And M issue x = M x ⊎ (issue ≡ x)

  Inv-skip :
      (M : Issue → Type 0) (seen : Dict Issue) (issue : Issue)
      → key_of field issue ≡ none
      → Inv M seen
      → Inv (And M issue) seen
  Inv-skip M seen issue e i = record {
    newest = λ key kept h.
        let (m, k, top) = i.newest key kept h in
        (
          inl m,
          k,
          λ other. elim [
            | inl n ↦ top other n
            | inr same ↦ λ q. absurd (ground (arith, ap (key_of field) same))
          ],
        );
    covers = λ x key. elim [
      | inl n ↦ i.covers x key n
      | inr same ↦ λ q. absurd (ground (arith, ap (key_of field) same))
    ];
  }

  Inv-keep :
      (M : Issue → Type 0) (seen : Dict Issue) (issue old : Issue) (k : String)
      → key_of field issue ≡ some k
      → lookup k seen ≡ some old
      → age (updated_at issue) ≤ age (updated_at old)
      → Inv M seen
      → Inv (And M issue) seen
  Inv-keep M seen issue old k e l le i = record {
    newest = λ key kept h.
        let (m, q, top) = i.newest key kept h in
        (
          inl m,
          q,
          λ other. elim [
            | inl n ↦ top other n
            | inr same ↦ λ r.
                let here : k ≡ key = ground (arith, ap (key_of field) same) in
                let was : old ≡ kept = ground (arith, ap (λ x. lookup x seen) here) in
                ground (arith, ap (λ x. age (updated_at x)) same, ap (λ x. age (updated_at x)) was)
          ],
        );
    covers = λ x key. elim [
      | inl n ↦ i.covers x key n
      | inr same ↦ λ q.
          let here : k ≡ key = ground (arith, ap (key_of field) same) in
          (old, sym (ap (λ y. lookup y seen) here) ∙ l)
    ];
  }

  Inv-put :
      (M : Issue → Type 0) (seen : Dict Issue) (issue : Issue) (k : String)
      → key_of field issue ≡ some k
      → ((other : Issue)
          → M other
          → key_of field other ≡ some k
          → age (updated_at other) ≤ age (updated_at issue))
      → Inv M seen
      → Inv (And M issue) (insert k issue seen)
  Inv-put M seen issue k e top i = record {
    newest = λ key kept h. elim (Bool-cases (str_eq k key)) [
      | inl same ↦
          let here : k ≡ key = (eq_iff k key).0 same in
          let is : issue ≡ kept = ground (arith, lookup-insert k key issue seen) in
          (
            inr is,
            sym (ap (key_of field) is) ∙ e ∙ ap (λ x. some x) here,
            λ other. elim [
              | inl n ↦ λ q. ground (
                arith,
                top other n (q ∙ ap (λ x. some x) (sym here)),
                ap (λ x. age (updated_at x)) is,
              )
              | inr r ↦ λ q.
                  ground (arith, ap (λ x. age (updated_at x)) is, ap (λ x. age (updated_at x)) r)
            ],
          )
      | inr apart ↦
          let (m, q, above) = i.newest key kept (ground (arith, lookup-insert k key issue seen)) in
          (
            inl m,
            q,
            λ other. elim [
              | inl n ↦ above other n
              | inr r ↦ λ s. absurd (ground (arith, ap (key_of field) r, eq_iff k key))
            ],
          )
    ];
    covers = λ x key m q. elim (Bool-cases (str_eq k key)) [
      | inl same ↦ (issue, lookup-insert k key issue seen ∙ rw same refl)
      | inr apart ↦ elim m [
        | inl n ↦
            let (kept, l) = i.covers x key n q in
            (kept, lookup-insert k key issue seen ∙ rw apart l)
        | inr r ↦ absurd (ground (arith, ap (key_of field) r, eq_iff k key))
      ]
    ];
  }

  keep_newer-Inv :
      (M : Issue → Type 0) (seen : Dict Issue) (issue : Issue) (k : String) (o : Option Issue)
      → key_of field issue ≡ some k
      → lookup k seen ≡ o
      → Inv M seen
      → Inv (And M issue) (keep_newer k issue o seen)
  unfolding keep_newer
  keep_newer-Inv M seen issue k none e l i =
      Inv-put M seen issue k e (λ other m q. absurd (ground (arith, i.covers other k m q))) i
  keep_newer-Inv M seen issue k (some old) e l i =
      elim (Bool-cases (is_newer (updated_at issue) (updated_at old))) [
        | inl newer ↦
            let lt = (is_newer_iff (updated_at issue) (updated_at old)).0 newer in
            let (_, _, top) = i.newest k old l in
            rw newer (
              Inv-put M seen issue k e
                (λ other m q. let le = top other m q in omega (arith, le, lt)) i)
        | inr older ↦ rw older (
            Inv-keep M seen issue old k e l
              (ground (arith, is_newer_iff (updated_at issue) (updated_at old))) i)
      ]

  see-Inv :
      (M : Issue → Type 0) (seen : Dict Issue) (issue : Issue) (o : Option String)
      → key_of field issue ≡ o
      → Inv M seen
      → Inv (And M issue) (see o issue seen)
  unfolding see
  see-Inv M seen issue none e i = Inv-skip M seen issue e i
  see-Inv M seen issue (some k) e i = keep_newer-Inv M seen issue k (lookup k seen) e refl i

  pub Inv-cast :
      (M N : Issue → Type 0) (seen : Dict Issue)
      → ((x : Issue) → M x → N x)
      → ((x : Issue) → N x → M x)
      → Inv M seen
      → Inv N seen
  Inv-cast M N seen f g i = record {
    newest = λ key kept h.
        let (m, q, top) = i.newest key kept h in (f kept m, q, λ other n. top other (g other n));
    covers = λ x key n. i.covers x key (g x n);
  }

  pub see_all-Inv :
      (M : Issue → Type 0) (issues : List Issue) (seen : Dict Issue)
      → Inv M seen
      → Inv (λ x. M x ⊎ In x issues) (see_all field issues seen)
  unfolding see_all
  see_all-Inv M [] seen i =
      Inv-cast M (λ x. M x ⊎ In x []) seen (λ x m. inl m)
        (λ x. elim [ inl m ↦ m | inr no_issue ↦ absurd (no_issue tt) ]) i
  see_all-Inv M (issue ∷ issues) seen i =
      Inv-cast (λ x. And M issue x ⊎ In x issues) (λ x. M x ⊎ In x (issue ∷ issues)) _
        (λ x h. ground arith) (λ x h. ground arith)
        (see_all-Inv (And M issue) issues _ (see-Inv M seen issue (key_of field issue) refl i))

  pub Inv-start : Inv (λ x. ⊥) []
  Inv-start = record {
    newest = λ key kept h. absurd (unfold lookup in ground arith);
    covers = λ x key n. absurd n;
  }
