-- ===== src/Schedules/Once.antt =====
-- A sensor of pipelines/jobs/schedules.py over a series of evaluations.
use process_metrics_platform.Common.{
  AreDistinct, ℕ, ◌≤◌, ◌<◌, ◌≡◌, ◌≢◌, refl, ◌⊎◌, inl, inr, some, List, [], ◌∷◌, ◌++◌, arith, All,
  ap, sym, ◌∙◌,
}
use process_metrics_platform.Schedules.Clock.{
  Utc, IsTime, day_number, hour_number, minute_number, day_bucket, hour_bucket, day_bucket_inj,
  hour_bucket_inj,
}
use process_metrics_platform.Schedules.Runs.{RunRecord, GetRunRecords}
use process_metrics_platform.Schedules.Sensors.{
  Answer, waiting, already_requested, blocked, run_request, Cursor, Sensor, light_refresh,
  heavy_refresh, heavy_cfd, heavy_backlog_aging, bucket_of, key_prefix, evaluate,
}
use process_metrics_platform.Schedules.Requests.{run_key, evaluate-cases}

pub record Evaluation : Type 0 where
  pub now : Utc
  pub runs : List RunRecord

unfoldable pub add_key : Answer → List (List ℕ) → List (List ℕ)
add_key (run_request key) keys = key ∷ keys
add_key waiting keys = keys
add_key (already_requested bucket) keys = keys
add_key (blocked runs) keys = keys

-- The run keys that a sensor requests, evaluated again and again from a cursor.
unfoldable pub requested : GetRunRecords → Sensor → List Evaluation → Cursor → List (List ℕ)
unfolding add_key
requested get sensor [] c = []
requested get sensor (e ∷ es) c =
    let (answer, cursor) = evaluate get sensor e.now e.runs c in
    add_key answer (requested get sensor es cursor)

-- The clock does not go back, and starts no earlier than `start`.
abbrev pub IsOrdered : ℕ → List Evaluation → Type 0
IsOrdered start [] = Unit
IsOrdered start (e ∷ es) =
    (start ≤ minute_number e.now) × IsTime e.now × IsOrdered (minute_number e.now) es

IsOrdered-earlier : {a b : ℕ} (es : List Evaluation) → a ≤ b → IsOrdered b es → IsOrdered a es
IsOrdered-earlier [] h o = tt
IsOrdered-earlier (e ∷ es) h (late, i, rest) = (omega arith, i, rest)

-- The bucket as a number.
abbrev number : Sensor → Utc → ℕ
number light_refresh t = hour_number t
number heavy_refresh t = day_number t
number heavy_cfd t = day_number t
number heavy_backlog_aging t = day_number t

bucket_of_inj : (s : Sensor) (t u : Utc) → bucket_of s t ≡ bucket_of s u → number s t ≡ number s u
unfolding bucket_of
bucket_of_inj light_refresh t u e = hour_bucket_inj t u e
bucket_of_inj heavy_refresh t u e = day_bucket_inj t u e
bucket_of_inj heavy_cfd t u e = day_bucket_inj t u e
bucket_of_inj heavy_backlog_aging t u e = day_bucket_inj t u e

day_bucket-number :
    (t u : Utc) → IsTime t → IsTime u → day_number t ≡ day_number u → day_bucket t ≡ day_bucket u
unfolding day_bucket
day_bucket-number t u i j e =
    let y : t.year ≡ u.year = omega arith in
    let m : t.month ≡ u.month = omega arith in
    let d : t.day ≡ u.day = omega arith in rw (y, m, d) refl

hour_bucket-number :
    (t u : Utc)
    → IsTime t
    → IsTime u
    → hour_number t ≡ hour_number u
    → hour_bucket t ≡ hour_bucket u
unfolding hour_bucket
hour_bucket-number t u i j e =
    let y : t.year ≡ u.year = omega arith in
    let m : t.month ≡ u.month = omega arith in
    let d : t.day ≡ u.day = omega arith in
    let h : t.hour ≡ u.hour = omega arith in rw (y, m, d, h) refl

bucket_of-number :
    (s : Sensor) (t u : Utc)
    → IsTime t
    → IsTime u
    → number s t ≡ number s u
    → bucket_of s t ≡ bucket_of s u
unfolding bucket_of
bucket_of-number light_refresh t u i j e = hour_bucket-number t u i j e
bucket_of-number heavy_refresh t u i j e = day_bucket-number t u i j e
bucket_of-number heavy_cfd t u i j e = day_bucket-number t u i j e
bucket_of-number heavy_backlog_aging t u i j e = day_bucket-number t u i j e

number_mono :
    (s : Sensor) (t u : Utc)
    → IsTime t
    → IsTime u
    → minute_number t ≤ minute_number u
    → number s t ≤ number s u
number_mono light_refresh t u i j h = omega arith
number_mono heavy_refresh t u i j h = omega arith
number_mono heavy_cfd t u i j h = omega arith
number_mono heavy_backlog_aging t u i j h = omega arith

append_cancel : (p s t : List ℕ) → p ++ s ≡ p ++ t → s ≡ t
append_cancel [] s t e = e
append_cancel (c ∷ p) s t e = append_cancel p s t (ground arith)

-- The key is of a bucket after the one of `w`.
abbrev IsLater : Sensor → Utc → List ℕ → Type 0
IsLater s w key = (t : Utc) × (key ≡ run_key s t) × (number s w < number s t)

IsLater-trans :
    (s : Sensor) (w t : Utc) (keys : List (List ℕ))
    → number s w ≤ number s t
    → All (IsLater s t) keys
    → All (IsLater s w) keys
IsLater-trans s w t [] h a = tt
IsLater-trans s w t (k ∷ keys) h ((u, e, l), a) =
    ((u, e, omega arith), IsLater-trans s w t keys h a)

IsLater-distinct :
    (s : Sensor) (w : Utc) (keys : List (List ℕ))
    → All (IsLater s w) keys
    → All (λ k. k ≢ run_key s w) keys
IsLater-distinct s w [] a = tt
IsLater-distinct s w (k ∷ keys) ((u, e, l), a) = (
  λ same.
      let n = bucket_of_inj s u w (append_cancel (key_prefix s) _ _ (sym e ∙ same)) in
      absurd (omega arith),
  IsLater-distinct s w keys a,
)

add_key-skip :
    (a : Answer) (keys : List (List ℕ))
    → ((key : List ℕ) → a ≢ run_request key)
    → add_key a keys ≡ keys
unfolding add_key
add_key-skip waiting keys h = refl
add_key-skip (already_requested bucket) keys h = refl
add_key-skip (blocked runs) keys h = refl
add_key-skip (run_request key) keys h = absurd (h key refl)

module _ (get : GetRunRecords) (s : Sensor) where
  -- What one evaluation adds to the keys: a new one with its bucket in the cursor, or nothing.
  requested-cases :
      (e : Evaluation) (es : List Evaluation) (c : Cursor)
      → ((requested get s (e ∷ es) c
            ≡ run_key s e.now ∷ requested get s es (some (bucket_of s e.now)))
          × (c ≢ some (bucket_of s e.now)))
        ⊎ (requested get s (e ∷ es) c ≡ requested get s es c)
  unfolding requested
  requested-cases e es c = elim (evaluate-cases get s e.now e.runs c) [
    | inl (same, inside, new, free) ↦
        inl (ap (λ (r : Answer × Cursor). add_key r.0 (requested get s es r.1)) same, new)
    | inr ((silent, kept), reason) ↦ inr (add_key-skip _ _ silent ∙ ap (requested get s es) kept)
  ]

  requested-IsLater :
      (es : List Evaluation) (w : Utc)
      → IsTime w
      → IsOrdered (minute_number w) es
      → All (IsLater s w) (requested get s es (some (bucket_of s w)))
  requested-IsLater [] w i o = unfold requested in tt
  requested-IsLater (e ∷ es) w i (late, j, o) = elim (requested-cases e es (some (bucket_of s w))) [
    | inr same ↦ rw same (requested-IsLater es w i (IsOrdered-earlier es late o))
    | inl (same, new) ↦
        let le = number_mono s w e.now i j late in
        let lt : number s w < number s e.now = omega (
          arith,
          le,
          λ (n : number s w ≡ number s e.now). new (ap some (bucket_of-number s w e.now i j n)),
        ) in
        rw same ((e.now, refl, lt), IsLater-trans s w e.now _ le (requested-IsLater es e.now j o))
  ]

  -- While the clock does not go back, a sensor never requests the same run key twice, whatever
  -- cursor it starts from and whatever runs there are in between.
  pub requested-AreDistinct :
      (es : List Evaluation) (start : ℕ) (c : Cursor)
      → IsOrdered start es
      → AreDistinct (requested get s es c)
  requested-AreDistinct [] start c o = unfold requested in tt
  requested-AreDistinct (e ∷ es) start c (late, j, o) = elim (requested-cases e es c) [
    | inl (same, new) ↦ rw same (
      IsLater-distinct s e.now _ (requested-IsLater es e.now j o),
      requested-AreDistinct es (minute_number e.now) _ o,
    )
    | inr same ↦ rw same (requested-AreDistinct es (minute_number e.now) c o)
  ]
