-- ===== src/Metabase/Tags/Order.antt =====
-- The sorted set of tags in bi/providers/metabase/provider.py: its order and its elements.
use Prim.Native.Char.{code}
use Prim.Native.String.{◌∷◌ as scons}
use text.Mathlib.TextEquality.{Char-path}
use process_metrics_platform.Common.{
  ◌≡◌, ◌≢◌, refl, subst, ap, ◌∙◌, ◌↔◌, ◌⊎◌, inl, inr, String, true, false, List, [], ◌∷◌, All, In,
  AreDistinct, arith, Bool-cases, str_eq, eq_iff, ◌==◌, ==_iff,
}
use process_metrics_platform.Metabase.Text.{before}
use process_metrics_platform.Metabase.Tags.Sorted.{place_tag, sorted_set}

pub before_trans : (s t u : String) → before s t ≡ true → before t u ≡ true → before s u ≡ true
unfolding before
before_trans String.[] String.[] u h k = ground arith
before_trans String.[] (String.◌∷◌ d t) String.[] h k = ground arith
before_trans String.[] (String.◌∷◌ d t) (String.◌∷◌ e u) h k = refl
before_trans (String.◌∷◌ c s) String.[] u h k = ground arith
before_trans (String.◌∷◌ c s) (String.◌∷◌ d t) String.[] h k = ground arith
before_trans (String.◌∷◌ c s) (String.◌∷◌ d t) (String.◌∷◌ e u) h k = ground (
  arith,
  before_trans s t u,
  ==_iff (code c) (code d),
  ==_iff (code d) (code e),
  ==_iff (code c) (code e),
)

pub before_irrefl : (s : String) → before s s ≡ false
unfolding before
before_irrefl String.[] = refl
before_irrefl (String.◌∷◌ c s) = ground (arith, before_irrefl s, ==_iff (code c) (code c))

pub before_total : (s t : String) → s ≢ t → before s t ≡ false → before t s ≡ true
unfolding before
before_total String.[] String.[] ne h = absurd (ne refl)
before_total String.[] (String.◌∷◌ d t) ne h = ground arith
before_total (String.◌∷◌ c s) String.[] ne h = refl
before_total (String.◌∷◌ c s) (String.◌∷◌ d t) ne h = elim (Bool-cases (code c == code d)) [
  | inl e ↦
      let same = (==_iff (code c) (code d)).0 e in
      ground (
        arith,
        same,
        before_total s t (λ q. ne (ap (λ x. scons x s) (Char-path c d same) ∙ ap (scons d) q)),
        ==_iff (code d) (code c),
      )
  | inr e ↦ ground (arith, e, h, ==_iff (code c) (code d), ==_iff (code d) (code c))
]

-- Every tag comes before those that follow it.
abbrev pub IsSorted : List String → Type 0
IsSorted [] = Unit
IsSorted (t ∷ ts) = All (λ u. before t u ≡ true) ts × IsSorted ts

before-All :
    (s t : String) (us : List String)
    → before s t ≡ true
    → All (λ u. before t u ≡ true) us
    → All (λ u. before s u ≡ true) us
before-All s t [] h a = tt
before-All s t (u ∷ us) h (b, a) = (before_trans s t u h b, before-All s t us h a)

place_tag-All :
    (s t : String) (us : List String)
    → before s t ≡ true
    → All (λ u. before s u ≡ true) us
    → All (λ u. before s u ≡ true) (place_tag t us)
unfolding place_tag
place_tag-All s t [] h a = (h, tt)
place_tag-All s t (u ∷ us) h (b, a) = ground (arith, place_tag-All s t us h a)

place_tag-IsSorted : (t : String) (us : List String) → IsSorted us → IsSorted (place_tag t us)
unfolding place_tag
place_tag-IsSorted t [] i = (tt, tt)
place_tag-IsSorted t (u ∷ us) (a, i) = elim (Bool-cases (str_eq t u)) [
  | inl e ↦ rw e (a, i)
  | inr e ↦ elim (Bool-cases (before t u)) [
    | inl b ↦ rw (e, b) ((b, before-All t u us b a), (a, i))
    | inr b ↦
        rw (e, b)
          (
            place_tag-All u t us (before_total t u (λ q. ground (arith, e, q, eq_iff t u)) b) a,
            place_tag-IsSorted t us i,
          )
  ]
]

pub sorted_set-IsSorted : (ts : List String) → IsSorted (sorted_set ts)
unfolding sorted_set
sorted_set-IsSorted [] = tt
sorted_set-IsSorted (t ∷ ts) = place_tag-IsSorted t (sorted_set ts) (sorted_set-IsSorted ts)

place_tag-In : (s t : String) (us : List String) → In s (place_tag t us) ↔ ((t ≡ s) ⊎ In s us)
unfolding place_tag
place_tag-In s t [] = ground arith
place_tag-In s t (u ∷ us) = ground (arith, place_tag-In s t us, eq_iff t u)

pub sorted_set-In : (s : String) (ts : List String) → In s (sorted_set ts) ↔ In s ts
unfolding sorted_set
sorted_set-In s [] = ground arith
sorted_set-In s (t ∷ ts) = ground (arith, place_tag-In s t (sorted_set ts), sorted_set-In s ts)

-- What comes after a tag is another tag.
later-Fresh :
    (t : String) (us : List String) → All (λ u. before t u ≡ true) us → All (λ u. u ≢ t) us
later-Fresh t [] a = tt
later-Fresh t (u ∷ us) (b, a) =
    ((λ e. ground (arith, before_irrefl t, subst (λ v. before t v ≡ true) e b)), later-Fresh t us a)

pub IsSorted-AreDistinct : (ts : List String) → IsSorted ts → AreDistinct ts
IsSorted-AreDistinct [] i = tt
IsSorted-AreDistinct (t ∷ ts) (a, i) = (later-Fresh t ts a, IsSorted-AreDistinct ts i)
