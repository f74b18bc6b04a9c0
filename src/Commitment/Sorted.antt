-- ===== src/Commitment/Sorted.antt =====
-- The sort of the candidates (pipelines/calculations/commitment_resolver.py), against one pass over
-- the rules.
use process_metrics_platform.Common.{
  All, String, ◌≡◌, refl, inl, inr, Option, none, some, List, [], ◌∷◌, Bool-cases, if◌then◌else◌,
  ap, sym, ◌∙◌,
}
use process_metrics_platform.Commitment.Rules.{
  Rule, Score, below, candidates, place, sort_descending, first_rule, applies, score_of,
  resolve_rule_from_cache,
}

-- The better of a candidate and the best of those after it; the earlier one at a tie.
abbrev pub pick : Rule → Option Rule → Option Rule
pick rule none = some rule
pick rule (some other) = if below (score_of rule) (score_of other) then some other else some rule

-- The best applicable rule by one pass from the right.
unfoldable pub best : String → String → List Rule → Option Rule
best project board [] = none
best project board (rule ∷ rules) =
    let rest = best project board rules in
    if applies project board rule then pick rule rest else rest

abbrev IsScored : List (Score × Rule) → Type 0
IsScored cs = All (λ (c : Score × Rule). c.0 ≡ score_of c.1) cs

place-IsScored :
    (c : Score × Rule) (cs : List (Score × Rule))
    → c.0 ≡ score_of c.1
    → IsScored cs
    → IsScored (place c cs)
unfolding place
place-IsScored c [] e h = (e, tt)
place-IsScored c (d ∷ ds) e (f, h) = elim (Bool-cases (below c.0 d.0)) [
  | inl up ↦ rw up (f, place-IsScored c ds e h)
  | inr down ↦ rw down (e, (f, h))
]

sort-IsScored : (cs : List (Score × Rule)) → IsScored cs → IsScored (sort_descending cs)
unfolding sort_descending
sort-IsScored [] h = tt
sort-IsScored (c ∷ cs) (e, h) = place-IsScored c (sort_descending cs) e (sort-IsScored cs h)

first_rule-place :
    (rule : Rule) (cs : List (Score × Rule))
    → IsScored cs
    → first_rule (place (score_of rule, rule) cs) ≡ pick rule (first_rule cs)
unfolding place first_rule
first_rule-place rule [] h = refl
first_rule-place rule ((score, other) ∷ cs) (e, h) =
    elim (Bool-cases (below (score_of rule) score)) [
      | inl up ↦ rw (up, sym e, up) refl
      | inr down ↦ rw (down, sym e, down) refl
    ]

candidates-IsScored :
    (project board : String) (rules : List Rule) → IsScored (candidates project board rules)
unfolding candidates
candidates-IsScored project board [] = tt
candidates-IsScored project board (rule ∷ rules) = elim (Bool-cases (applies project board rule)) [
  | inl e ↦ rw e (refl, candidates-IsScored project board rules)
  | inr e ↦ rw e (candidates-IsScored project board rules)
]

-- Sorting and taking the first is one pass.
pub resolve_rule_from_cache-best :
    (project board : String) (rules : List Rule)
    → resolve_rule_from_cache rules project board ≡ best project board rules
unfolding resolve_rule_from_cache best
resolve_rule_from_cache-best project board [] = refl
resolve_rule_from_cache-best project board (rule ∷ rules) =
    elim (Bool-cases (applies project board rule)) [
      | inl e ↦ rw e (
          first_rule-place rule _ (sort-IsScored _ (candidates-IsScored project board rules))
          ∙ ap (pick rule) (resolve_rule_from_cache-best project board rules))
      | inr e ↦ rw e (resolve_rule_from_cache-best project board rules)
    ]
