-- ===== src/Schedules/Clock.antt =====
-- What pipelines/jobs/schedules.py takes from `datetime.now(timezone.utc)`, and the buckets that it
-- prints with `strftime`. A text is the list of its code points.
use process_metrics_platform.Common.{ℕ, ◌+◌, ◌*◌, ◌/◌, ◌%◌, ◌<◌, ◌≡◌, List, [], ◌∷◌, ◌++◌, arith}

pub record Utc : Type 0 where
  pub year : ℕ
  pub month : ℕ
  pub day : ℕ
  pub hour : ℕ
  pub minute : ℕ

-- %m, %d and %H: two decimal digits
abbrev pub two_digits : ℕ → List ℕ
two_digits n = (48 + n / 10) ∷ (48 + n % 10) ∷ []

-- %Y of a year with four digits
abbrev pub four_digits : ℕ → List ℕ
four_digits n = (48 + n / 1000) ∷ (48 + n / 100 % 10) ∷ (48 + n / 10 % 10) ∷ (48 + n % 10) ∷ []

-- now_utc.strftime("%Y-%m-%d")
unfoldable pub day_bucket : Utc → List ℕ
day_bucket t = four_digits t.year ++ 45 ∷ two_digits t.month ++ 45 ∷ two_digits t.day

-- now_utc.strftime("%Y-%m-%dT%H")
unfoldable pub hour_bucket : Utc → List ℕ
hour_bucket t =
    four_digits t.year ++ 45 ∷ two_digits t.month ++ 45 ∷ two_digits t.day ++ 84 ∷ two_digits t.hour

-- The fields are in the ranges of datetime.
abbrev pub IsTime : Utc → Type 0
IsTime t = (t.year < 10000) × (t.month < 13) × (t.day < 32) × (t.hour < 24) × (t.minute < 60)

-- The day and the hour as numbers that grow with time.
abbrev pub day_number : Utc → ℕ
day_number t = (t.year * 100 + t.month) * 100 + t.day

abbrev pub hour_number : Utc → ℕ
hour_number t = day_number t * 100 + t.hour

abbrev pub minute_number : Utc → ℕ
minute_number t = hour_number t * 100 + t.minute

pub day_bucket_inj : (t u : Utc) → day_bucket t ≡ day_bucket u → day_number t ≡ day_number u
unfolding day_bucket
day_bucket_inj t u e = ground arith

pub hour_bucket_inj : (t u : Utc) → hour_bucket t ≡ hour_bucket u → hour_number t ≡ hour_number u
unfolding hour_bucket
hour_bucket_inj t u e = ground arith
