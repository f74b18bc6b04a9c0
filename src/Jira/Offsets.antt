-- ===== src/Jira/Offsets.antt =====
-- How parse_jira_datetime of pipelines/utils/__init__.py reads a datetime with a fraction of a
-- second.
use Prim.Native.Char.{Char, char, code}
use Prim.Native.String.{◌∷◌ as scons, ◌++◌ as join}
use package.text.Mathlib.TextLemmas.{nil-append, cons-append, append_assoc}
use process_metrics_platform.Common.{
  ℕ, ◌≡◌, refl, sym, ap, ◌∙◌, String, true, false, ◌||◌, Option, arith, str_eq, eq_iff, ◌==◌,
  ==_iff, inl, inr, Bool-cases,
}
use process_metrics_platform.Documents.{ok, text}
use process_metrics_platform.Documents.Access.{truthy}
use process_metrics_platform.Jira.Datetime.{
  Datetime, has_char, ends_with_char, replace_utc, split_last, before_char, second_part, zone_of,
  drop_fraction, zoned_format, fraction_format, parse_text, parse_jira_datetime,
}

has_char-append : (n : ℕ) (s t : String) → has_char n (join s t) ≡ (has_char n s || has_char n t)
unfolding has_char
has_char-append n String.[] t = rw nil-append refl
has_char-append n (String.◌∷◌ c s) t = rw cons-append (ground (arith, has_char-append n s t))

replace_utc-append : (s t : String) → replace_utc (join s t) ≡ join (replace_utc s) (replace_utc t)
unfolding replace_utc
replace_utc-append String.[] t = rw (nil-append t, nil-append (replace_utc t)) refl
replace_utc-append (String.◌∷◌ c s) t = elim (Bool-cases (code c == 90)) [
  | inl e ↦
      rw (cons-append c s t, e, replace_utc-append s t)
        (sym (append_assoc "+0000" (replace_utc s) (replace_utc t)))
  | inr e ↦
      rw (cons-append c s t, e, replace_utc-append s t)
        (sym (cons-append c (replace_utc s) (replace_utc t)))
]

replace_utc-none : (s : String) → has_char 90 s ≡ false → replace_utc s ≡ s
unfolding replace_utc has_char
replace_utc-none String.[] h = refl
replace_utc-none (String.◌∷◌ c s) h = ground (arith, replace_utc-none s, h)

before_char-none : (n : ℕ) (s : String) → has_char n s ≡ false → before_char n s ≡ s
unfolding before_char has_char
before_char-none n String.[] h = refl
before_char-none n (String.◌∷◌ c s) h = ground (arith, before_char-none n s, h)

-- The part after the first occurrence, where there is one occurrence.
second_part-append :
    (c : Char) (s t : String)
    → has_char (code c) s ≡ false
    → has_char (code c) t ≡ false
    → second_part (code c) (join s (scons c t)) ≡ t
unfolding second_part has_char
second_part-append c String.[] t h k =
    rw nil-append (ground (arith, ==_iff (code c) (code c), before_char-none (code c) t k))
second_part-append c (String.◌∷◌ d s) t h k =
    rw cons-append (ground (arith, second_part-append c s t, h, k))

split_last-append :
    (c : Char) (s t : String)
    → code c ≡ 46
    → has_char 46 t ≡ false
    → split_last (join s (scons c t)) ≡ (s, t)
unfolding split_last has_char
split_last-append c String.[] t e h = rw nil-append (ground (arith, h))
split_last-append c (String.◌∷◌ d s) t e h =
    let later : has_char 46 (join s (scons c t)) ≡ true =
      rw has_char-append (ground (arith, e, ==_iff (code c) 46)) in
    rw (cons-append, later, split_last-append c s t e h) refl

-- The last character is that of the second part.
ends_with_char-append :
    (n : ℕ) (s : String) (c : Char) (t : String)
    → ends_with_char n (join s (scons c t)) ≡ ends_with_char n (scons c t)
unfolding ends_with_char
ends_with_char-append n String.[] c t = rw nil-append refl
ends_with_char-append n (String.◌∷◌ d String.[]) c t = rw (cons-append, nil-append) refl
ends_with_char-append n (String.◌∷◌ d (String.◌∷◌ e s)) c t =
    let rest = cons-append e s (scons c t) in
    ap (ends_with_char n) (cons-append d (scons e s) (scons c t) ∙ ap (scons d) rest)
    ∙ sym (ap (ends_with_char n) rest)
    ∙ ends_with_char-append n (scons e s) c t

ends_with_char-none : (n : ℕ) (s : String) → has_char n s ≡ false → ends_with_char n s ≡ false
unfolding ends_with_char has_char
ends_with_char-none n String.[] h = refl
ends_with_char-none n (String.◌∷◌ d String.[]) h = ground (arith, h)
ends_with_char-none n (String.◌∷◌ d (String.◌∷◌ e s)) h =
    ground (arith, h, ends_with_char-none n (scons e s))

abbrev pub dot : Char
dot = char 46 tt

abbrev pub plus : Char
plus = char 43 tt

abbrev pub minus : Char
minus = char 45 tt

abbrev pub zulu : Char
zulu = char 90 tt

-- The characters that the parser looks for are not in the text.
abbrev pub IsPlain : String → Type 0
IsPlain s =
    (has_char 43 s ≡ false)
    × (has_char 45 s ≡ false)
    × (has_char 46 s ≡ false)
    × (has_char 90 s ≡ false)

-- A date and a time: with dashes, and without the others.
abbrev pub IsDateTime : String → Type 0
IsDateTime s = (has_char 43 s ≡ false) × (has_char 46 s ≡ false) × (has_char 90 s ≡ false)

-- base.ms, followed by the character and the rest.
abbrev pub stamp : String → String → Char → String → String
stamp base ms c zone = join base (scons dot (join ms (scons c zone)))

drop_fraction-plus :
    (base ms zone : String)
    → IsPlain ms
    → IsPlain zone
    → drop_fraction (stamp base ms plus zone) ≡ join base (scons plus zone)
unfolding drop_fraction zone_of has_char
drop_fraction-plus base ms zone m z =
    let dotted : has_char 46 (stamp base ms plus zone) ≡ true = rw has_char-append (ground arith) in
    let rest : has_char 46 (join ms (scons plus zone)) ≡ false =
      rw has_char-append (ground (arith, m.2, z.2)) in
    let signed : has_char 43 (join ms (scons plus zone)) ≡ true =
      rw has_char-append (ground arith) in
    rw
      (
        dotted,
        split_last-append dot base (join ms (scons plus zone)) refl rest,
        signed,
        second_part-append plus ms zone (m.0) (z.0),
      )
      (ap (join base) (cons-append plus "" zone ∙ ap (scons plus) (nil-append zone)))

stamp-has_char :
    (n : ℕ) (base ms : String) (c : Char) (zone : String)
    → has_char n (stamp base ms c zone)
      ≡ (has_char n base || ((46 == n) || (has_char n ms || ((code c == n) || has_char n zone))))
unfolding has_char
stamp-has_char n base ms c zone =
    rw
      (
        has_char-append n base (scons dot (join ms (scons c zone))),
        has_char-append n ms (scons c zone),
      )
      refl

replace_utc-stamp :
    (base ms : String)
    → IsDateTime base
    → IsPlain ms
    → replace_utc (stamp base ms zulu "") ≡ stamp base ms plus "0000"
unfolding replace_utc
replace_utc-stamp base ms b m =
    replace_utc-append base (scons dot (join ms (scons zulu "")))
    ∙ rw
        (
          replace_utc-none base (b.2),
          replace_utc-append ms (scons zulu ""),
          replace_utc-none ms (m.3),
        )
        refl

zeros : IsPlain "0000"
unfolding has_char
zeros = (refl, refl, refl, refl)

module _ (strptime : String → String → Option Datetime) where
  parse_text-plus :
      (base ms zone : String)
      → IsDateTime base
      → IsPlain ms
      → IsPlain zone
      → parse_text strptime (stamp base ms plus zone)
        ≡ strptime (join base (scons plus zone)) zoned_format
  unfolding parse_text
  parse_text-plus base ms zone b m z =
      let signed : has_char 43 (stamp base ms plus zone) ≡ true =
        rw stamp-has_char (ground (arith, b, m, z)) in
      let zoned : has_char 90 (stamp base ms plus zone) ≡ false =
        rw stamp-has_char (ground (arith, b, m, z)) in
      rw
        (
          signed,
          replace_utc-none (stamp base ms plus zone) zoned,
          drop_fraction-plus base ms zone m z,
        )
        refl

  parse_text-zulu :
      (base ms : String)
      → IsDateTime base
      → IsPlain ms
      → parse_text strptime (stamp base ms zulu "") ≡ strptime (join base "+0000") zoned_format
  unfolding parse_text ends_with_char
  parse_text-zulu base ms b m =
      let signed : has_char 43 (stamp base ms zulu "") ≡ false =
        rw stamp-has_char (ground (arith, b, m)) in
      let last : ends_with_char 90 (stamp base ms zulu "") ≡ true =
        ends_with_char-append 90 base dot (join ms (scons zulu ""))
        ∙ ap (ends_with_char 90) (sym (cons-append dot ms (scons zulu "")))
        ∙ ends_with_char-append 90 (scons dot ms) zulu "" in
      rw (signed, last, replace_utc-stamp base ms b m, drop_fraction-plus base ms "0000" m zeros)
        refl

  parse_text-minus :
      (base ms zone : String)
      → IsDateTime base
      → IsPlain ms
      → IsPlain zone
      → parse_text strptime (stamp base ms minus zone)
        ≡ strptime (stamp base ms minus zone) fraction_format
  unfolding parse_text
  parse_text-minus base ms zone b m z =
      let signed : has_char 43 (stamp base ms minus zone) ≡ false =
        rw stamp-has_char (ground (arith, b, m, z)) in
      let zoned : has_char 90 (stamp base ms minus zone) ≡ false =
        rw stamp-has_char (ground (arith, b, m, z)) in
      let dotted : has_char 46 (stamp base ms minus zone) ≡ true =
        rw stamp-has_char (ground (arith, b)) in
      rw (signed, ends_with_char-none 90 (stamp base ms minus zone) zoned, dotted) refl

  stamp-present :
      (base ms : String) (c : Char) (zone : String) → str_eq (stamp base ms c zone) "" ≡ false
  unfolding has_char
  stamp-present base ms c zone =
      let dotted : has_char 46 (stamp base ms c zone) ≡ true = rw stamp-has_char (ground arith) in
      ground (
        arith,
        eq_iff (stamp base ms c zone) "",
        (λ (e : stamp base ms c zone ≡ ""). sym (ap (has_char 46) e) ∙ dotted),
      )

  present :
      (s : String)
      → str_eq s "" ≡ false
      → parse_jira_datetime strptime (text s) ≡ ok (parse_text strptime s)
  unfolding parse_jira_datetime truthy
  present s h = rw h refl

  -- A datetime of Jira, base.ms with an offset, is read without its fraction of a second where the offset begins with a plus,
  -- and where it is a Z, which stands for +0000. Where it begins with a minus, the whole text is read by the format that has
  -- no offset.
  pub parse_jira_datetime_lem :
      (base ms zone : String)
      → IsDateTime base
      → IsPlain ms
      → IsPlain zone
      → (parse_jira_datetime strptime (text (stamp base ms plus zone))
          ≡ ok (strptime (join base (scons plus zone)) zoned_format))
        × (parse_jira_datetime strptime (text (stamp base ms zulu ""))
            ≡ ok (strptime (join base "+0000") zoned_format))
        × (parse_jira_datetime strptime (text (stamp base ms minus zone))
            ≡ ok (strptime (stamp base ms minus zone) fraction_format))
  parse_jira_datetime_lem base ms zone b m z = (
    present (stamp base ms plus zone) (stamp-present base ms plus zone)
        ∙ ap (λ o. ok o) (parse_text-plus base ms zone b m z),
    present (stamp base ms zulu "") (stamp-present base ms zulu "")
        ∙ ap (λ o. ok o) (parse_text-zulu base ms b m),
    present (stamp base ms minus zone) (stamp-present base ms minus zone)
        ∙ ap (λ o. ok o) (parse_text-minus base ms zone b m z),
  )
