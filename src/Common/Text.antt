-- ===== src/Common/Text.antt =====
-- Text that the program only compares and joins is the native `String`; text that it walks is the
-- list of its code points.
use Prim.Native.Nat.{ℕ}
use Prim.Native.Char.{Char, code}
use Prim.Native.String.{String, ◌∷◌ as scons, ◌++◌ as join}
use mathlib.Core.Path.{◌≡◌, sym, ap, ◌∙◌}
use mathlib.Core.Logic.{◌≢◌, ◌↔◌}
use mathlib.Core.Bool.{Bool, true, false, ◌&&◌}
use mathlib.Core.List.{List, [], ◌∷◌}
use native.Mathlib.Omega.{arith}
use text.Mathlib.Text.{◌==◌}
use text.Mathlib.TextEquality.{eq_iff}
use process_metrics_platform.Common.Tests.{==_iff, ◌==◌ as same_code}
use text.Mathlib.TextLemmas.{cons-append, head-eq_of_cons-eq, append_cancel_left}

abbrev pub codes : String → List ℕ
codes String.[] = []
codes (String.◌∷◌ c s) = code c ∷ codes s

-- Texts with a common beginning are compared by the rest.
pub eq-append_left : (p s t : String) → (join p s == join p t) ≡ (s == t)
eq-append_left p s t = ground (
  arith,
  eq_iff (join p s) (join p t),
  eq_iff s t,
  append_cancel_left p s t,
  λ (e : s ≡ t). ap (join p) e,
)

heads_differ :
    (c d : Char) (p s q t : String) → code c ≢ code d → join (scons c p) s ≢ join (scons d q) t
heads_differ c d p s q t h e =
    h (ap code (head-eq_of_cons-eq (sym (cons-append c p s) ∙ e ∙ cons-append d q t)))

-- Texts that begin with different characters differ.
pub eq-heads_ne :
    (c d : Char) (p s q t : String)
    → code c ≢ code d
    → (join (scons c p) s == join (scons d q) t) ≡ false
eq-heads_ne c d p s q t h =
    ground (arith, eq_iff (join (scons c p) s) (join (scons d q) t), heads_differ c d p s q t h)

-- Two lists of code points are the same text.
unfoldable pub same_text : List ℕ → List ℕ → Bool
same_text [] [] = true
same_text (c ∷ s) (d ∷ t) = same_code c d && same_text s t
same_text _ _ = false

pub same_text_iff : (s t : List ℕ) → (same_text s t ≡ true) ↔ (s ≡ t)
unfolding same_text
same_text_iff [] [] = ground arith
same_text_iff [] (d ∷ t) = ground arith
same_text_iff (c ∷ s) [] = ground arith
same_text_iff (c ∷ s) (d ∷ t) = ground (arith, ==_iff c d, same_text_iff s t)
