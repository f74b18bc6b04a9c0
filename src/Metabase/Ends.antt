-- ===== src/Metabase/Ends.antt =====
-- The waits of bi/providers/metabase come to an end.
use process_metrics_platform.Common.{
  ℕ, zero, suc, ◌+◌, ◌*◌, ◌≤◌, ◌≡◌, ◌≢◌, refl, String, Bool, true, false, Option, none, some, List,
  [], ◌∷◌, ltb, arith, ltb→lt,
}
use process_metrics_platform.Documents.{Result, ok, raised, ℤ, pos, negsuc, Json}
use process_metrics_platform.Documents.Access.{Conversions}
use process_metrics_platform.Metabase.Settings.{getenv_int}
use process_metrics_platform.Metabase.Metadata.{read_field_map}
use process_metrics_platform.Metabase.Database.{
  covers, poll_fields, fetched, get_field_id_map, fields_ready, wait_for_required_fields,
}
use process_metrics_platform.Metabase.Database.{metadata_path}
use process_metrics_platform.Metabase.Client.{
  Event, slept, clock_read, get_method, World, Client, Action, continue, pure, lift, attempt, ◌>>=◌,
  time, sleep, check_health, request,
}
use process_metrics_platform.Metabase.Polling.{
  wait_until, round, next, later, rounds, wait_for_health,
}

-- Time does not go back, and a sleep takes as long as it says.
pub record IsClock (w : World) : Type 0 where
  pub onward : (e : Event) (h : List Event) → w.now h ≤ w.now (e ∷ h)
  pub sleeps : (n : ℕ) (h : List Event) → w.now h + n ≤ w.now (slept n ∷ h)

-- The clock does not go back while the action runs.
abbrev pub GoesOn : World → Action Bool → Type 0
GoesOn w m = (c : Client) → w.now c.events ≤ w.now ((m c).1.events)

-- The action does not report that its fuel ran out.
abbrev pub Ends : Action (Option Unit) → Type 0
Ends m = (c : Client) → (m c).0 ≢ ok none

module _ {A : Type 0} where
  continue-Ends :
      (r : Result A) (f : A → Action (Option Unit)) (c : Client)
      → ((a : A) → Ends (f a))
      → (continue r f c).0 ≢ ok none
  continue-Ends (ok a) f c h = h a c
  continue-Ends (raised e) f c h = ground arith

  pub bind-Ends :
      (m : Action A) (f : A → Action (Option Unit)) → ((a : A) → Ends (f a)) → Ends (m >>= f)
  bind-Ends m f h c = continue-Ends ((m c).0) f ((m c).1) h

module _ (w : World) (clock : IsClock w) (p : ℕ) where
  -- The action does not run out when it starts a second after `c`.
  abbrev EndsAfter : Client → Action (Option Unit) → Type 0
  EndsAfter c again =
      (d : Client) → w.now c.events + 1000000 ≤ w.now d.events → (again d).0 ≢ ok none

  next-Ends :
      (check : Action Bool) (again : Action (Option Unit)) (r : Result Bool) (c : Client)
      → EndsAfter c again
      → (continue r (next w check (pos (suc p)) again) c).0 ≢ ok none
  unfolding next sleep
  next-Ends check again (ok true) c h = ground arith
  next-Ends check again (ok false) c h =
      h (record c { events = slept (suc p * 1000000) ∷ c.events })
        (omega (arith, clock.sleeps (suc p * 1000000) c.events))
  next-Ends check again (raised e) c h = ground arith

  module _ (check : Action Bool) (goes : GoesOn w check) where
    round-Ends :
        (again : Action (Option Unit)) (b : Bool) (c : Client)
        → (b ≡ true → EndsAfter c again)
        → (round w check (pos (suc p)) again b c).0 ≢ ok none
    unfolding round
    round-Ends again false c h = ground arith
    round-Ends again true c h =
        next-Ends check again ((check c).0) ((check c).1)
          (λ d le. h refl d (omega (arith, goes c, le)))

    -- With a pause of a second or more, as many rounds as there are seconds to the deadline, and one
    -- more, are enough.
    wait_until-Ends :
        (k deadline : ℕ) (c : Client)
        → deadline ≤ w.now c.events + k * 1000000
        → (wait_until w check (pos (suc p)) (suc k) deadline c).0 ≢ ok none
    unfolding wait_until time
    wait_until-Ends zero deadline c le =
        let read = record c { events = clock_read ∷ c.events } in
        round-Ends (wait_until w check (pos (suc p)) zero deadline)
          (ltb (w.now read.events) deadline) read
          (λ b. absurd (
            omega
              (arith, ltb→lt (w.now read.events) deadline b, clock.onward clock_read c.events, le)))
    wait_until-Ends (suc k) deadline c le =
        let read = record c { events = clock_read ∷ c.events } in
        round-Ends (wait_until w check (pos (suc p)) (suc k) deadline)
          (ltb (w.now read.events) deadline) read
          (λ _ d later.
            wait_until-Ends k deadline d
              (omega (arith, later, clock.onward clock_read c.events, le)))

    deadline-Ends :
        (seconds : ℤ) (c : Client)
        → (wait_until w check (pos (suc p)) (rounds seconds) (later (w.now c.events) seconds) c).0
          ≢ ok none
    unfolding rounds later
    deadline-Ends (pos n) c = wait_until-Ends n _ c (omega arith)
    deadline-Ends (negsuc n) c = wait_until-Ends 0 _ c (omega arith)

module _ (w : World) (clock : IsClock w) where
  pub wait_for_health-Ends : (seconds : ℤ) → Ends (wait_for_health w seconds)
  unfolding wait_for_health time check_health
  wait_for_health-Ends seconds c =
      deadline-Ends w clock 2 (check_health w) (λ d. clock.onward _ d.events) seconds
        (record c { events = clock_read ∷ c.events })

  still :
      {A B : Type 0} (r : Result A) (g : A → B) (d : Client)
      → (continue r (λ x. pure (g x)) d).1 ≡ d
  still (ok a) g d = refl
  still (raised e) g d = refl

  -- Whatever the reply is, it is read without another event.
  abbrev read_fields : Conversions → List String → Result Json → Action Bool
  read_fields c paths r =
      (attempt (lift r >>= λ found. pure (some found)) (λ _. pure none) >>= fetched w c)
      >>= λ field_map. pure (covers field_map paths)

  read_fields-GoesOn :
      (c : Conversions) (paths : List String) (t : ℕ) (r : Result Json) (d : Client)
      → t ≤ w.now d.events
      → t ≤ w.now ((read_fields c paths r d).1.events)
  unfolding fetched
  read_fields-GoesOn c paths t (ok j) d le =
      rw (still (read_field_map c j) (λ field_map. covers field_map paths) d) le
  read_fields-GoesOn c paths t (raised e) d le = le

  fields_ready-GoesOn :
      (c : Conversions) (getenv : String → Option String) (id : ℤ) (paths : List String)
      → GoesOn w (fields_ready w c getenv id paths)
  unfolding fields_ready get_field_id_map request
  fields_ready-GoesOn c getenv id paths d =
      let (r, after) = request w get_method (metadata_path id) none (200 ∷ []) d in
      read_fields-GoesOn c paths (w.now d.events) r after (clock.onward _ d.events)

  poll_fields-Ends :
      (c : Conversions) (getenv : String → Option String) (p : ℕ) (id : ℤ) (paths : List String)
      (timeout : ℤ)
      → Ends (poll_fields w c getenv id paths timeout (pos (suc p)))
  unfolding poll_fields time
  poll_fields-Ends c getenv p id paths timeout d =
      deadline-Ends w clock p (fields_ready w c getenv id paths)
        (fields_ready-GoesOn c getenv id paths) timeout
        (record d { events = clock_read ∷ d.events })

  pub wait_for_required_fields-Ends :
      (c : Conversions) (getenv : String → Option String) (p : ℕ) (id : ℤ) (paths : List String)
      → getenv_int c getenv "BI_FIELD_SYNC_POLL_SECONDS" "5" ≡ ok (pos (suc p))
      → Ends (wait_for_required_fields w c getenv id paths)
  unfolding wait_for_required_fields time
  wait_for_required_fields-Ends c getenv p id [] e d = ground arith
  wait_for_required_fields-Ends c getenv p id (path ∷ paths) e d =
      bind-Ends (lift (getenv_int c getenv "BI_FIELD_SYNC_TIMEOUT_SECONDS" "300"))
        (λ timeout. lift (getenv_int c getenv "BI_FIELD_SYNC_POLL_SECONDS" "5") >>= λ pause.
          poll_fields w c getenv id (path ∷ paths) timeout pause)
        (λ timeout b. rw e (poll_fields-Ends c getenv p id (path ∷ paths) timeout b)) d
