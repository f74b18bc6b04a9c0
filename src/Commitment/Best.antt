-- ===== src/Commitment/Best.antt =====
-- Which rule pipelines/calculations/commitment_resolver.py picks.
use process_metrics_platform.Common.{
  ℕ, ◌+◌, ◌*◌, ◌≤◌, ◌<◌, ◌≡◌, refl, ◌↔◌, ◌⊎◌, inl, inr, String, true, false, Option, none, some,
  List, [], ◌∷◌, ◌++◌, arith, All, Bool-cases, ap,
}
use process_metrics_platform.Commitment.Rules.{
  Rule, flag, below, applies, score_of, resolve_rule_from_cache,
}
use process_metrics_platform.Commitment.Sorted.{pick, best, resolve_rule_from_cache-best}

-- 3 for project and board, 2 for the project, 1 for the board, 0 for neither.
abbrev pub rank : Rule → ℕ
rank rule = 2 * flag rule.project_id + flag rule.board_id

flag-le : (o : Option String) → flag o ≤ 1
flag-le none = omega arith
flag-le (some s) = omega arith

below-rank : (r s : Rule) → (below (score_of r) (score_of s) ≡ true) ↔ (rank r < rank s)
unfolding below score_of
below-rank r s =
    ground
      (arith, flag-le r.project_id, flag-le r.board_id, flag-le s.project_id, flag-le s.board_id)

module _ (project board : String) where
  -- An applicable rule ranks no higher, or lower.
  abbrev pub AtMost : Rule → Rule → Type 0
  AtMost rule other = applies project board other ≡ true → rank other ≤ rank rule

  abbrev pub Under : Rule → Rule → Type 0
  Under rule other = applies project board other ≡ true → rank other < rank rule

  -- The rule applies, no applicable rule ranks higher, and those before it rank lower.
  abbrev pub IsBest : List Rule → Rule → Type 0
  IsBest rules rule =
      (before : List Rule) × (after : List Rule) × (rules ≡ before ++ rule ∷ after)
      × (applies project board rule ≡ true)
      × All (Under rule) before
      × All (AtMost rule) rules

  AtMost-trans :
      (r s : Rule) (rules : List Rule)
      → rank s ≤ rank r
      → All (AtMost s) rules
      → All (AtMost r) rules
  AtMost-trans r s [] h a = tt
  AtMost-trans r s (x ∷ xs) h (p, a) = ((λ e. omega (arith, p e)), AtMost-trans r s xs h a)

  abbrev NoneApplies : List Rule → Type 0
  NoneApplies rules = All (λ r. applies project board r ≡ false) rules

  NoneApplies-AtMost : (r : Rule) (rules : List Rule) → NoneApplies rules → All (AtMost r) rules
  NoneApplies-AtMost r [] h = tt
  NoneApplies-AtMost r (x ∷ xs) (out, h) = ((λ e. absurd (ground arith)), NoneApplies-AtMost r xs h)

  abbrev Picks : List Rule → Option Rule → Type 0
  Picks rules none = NoneApplies rules
  Picks rules (some rule) = IsBest rules rule

  skip_rule :
      (rule : Rule) (rules : List Rule) (rest : Option Rule)
      → applies project board rule ≡ false
      → Picks rules rest
      → Picks (rule ∷ rules) rest
  skip_rule rule rules none out h = (out, h)
  skip_rule rule rules (some other) out (before, after, split, fit, under, most) = (
    rule ∷ before,
    after,
    ap (λ rs. rule ∷ rs) split,
    fit,
    ((λ e. absurd (ground arith)), under),
    ((λ e. absurd (ground arith)), most),
  )

  pick_rule :
      (rule : Rule) (rules : List Rule) (rest : Option Rule)
      → applies project board rule ≡ true
      → Picks rules rest
      → Picks (rule ∷ rules) (pick rule rest)
  pick_rule rule rules none fit h =
      ([], rules, refl, fit, tt, ((λ e. omega arith), NoneApplies-AtMost rule rules h))
  pick_rule rule rules (some other) fit (before, after, split, fits, under, most) =
      elim (Bool-cases (below (score_of rule) (score_of other))) [
        | inl up ↦
            let lower = (below-rank rule other).0 up in
            rw up (
              rule ∷ before,
              after,
              ap (λ rs. rule ∷ rs) split,
              fits,
              ((λ e. lower), under),
              ((λ e. omega (arith, lower)), most),
            )
        | inr down ↦
            let higher : rank other ≤ rank rule = ground (arith, below-rank rule other) in
            rw down (
              [],
              rules,
              refl,
              fit,
              tt,
              ((λ e. omega arith), AtMost-trans rule other rules higher most),
            )
      ]

  best-Picks : (rules : List Rule) → Picks rules (best project board rules)
  unfolding best
  best-Picks [] = tt
  best-Picks (rule ∷ rules) = elim (Bool-cases (applies project board rule)) [
    | inl e ↦ rw e (pick_rule rule rules _ e (best-Picks rules))
    | inr e ↦ rw e (skip_rule rule rules _ e (best-Picks rules))
  ]

-- `resolve_rule_from_cache` returns None exactly where no rule applies to the project and the
-- board. Otherwise it returns an applicable rule of the highest rank (both scopes, then the
-- project's, then the board's, then neither), and of several such rules the first.
pub resolve_rule_from_cache_lem :
    (project board : String) (rules : List Rule)
    → ((resolve_rule_from_cache rules project board ≡ none)
        × All (λ r. applies project board r ≡ false) rules)
      ⊎ ((rule : Rule) × (resolve_rule_from_cache rules project board ≡ some rule)
          × IsBest project board rules rule)
resolve_rule_from_cache_lem project board rules =
    rw (resolve_rule_from_cache-best project board rules)
      (cases (best project board rules) (best-Picks project board rules))
  where
    cases :
        (o : Option Rule)
        → Picks project board rules o
        → ((o ≡ none) × All (λ r. applies project board r ≡ false) rules)
          ⊎ ((rule : Rule) × (o ≡ some rule) × IsBest project board rules rule)
    cases none h = inl (refl, h)
    cases (some rule) h = inr (rule, refl, h)
