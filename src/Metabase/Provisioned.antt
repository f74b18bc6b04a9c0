-- ===== src/Metabase/Provisioned.antt =====
-- MetabaseProvider.provision as a whole, in bi/providers/metabase/provider.py.
use process_metrics_platform.Common.{
  ℕ, suc, ◌≡◌, ◌≢◌, refl, String, Option, none, some, List, arith,
}
use process_metrics_platform.Documents.{Result, ok, raised, ℤ, pos}
use process_metrics_platform.Documents.Access.{Conversions}
use process_metrics_platform.Metabase.Settings.{getenv_int}
use process_metrics_platform.Metabase.Database.{
  wait_for_required_fields, bootstrap_and_authenticate, ensure_database,
}
use process_metrics_platform.Metabase.Settings.{Settings}
use process_metrics_platform.Metabase.Pack.{Pack, validate_pack}
use process_metrics_platform.Metabase.Provision.{after_wait, make_all, set_up_and_make, provision}
use process_metrics_platform.Metabase.Metadata.{collect_required_field_paths}
use process_metrics_platform.Metabase.Collections.{ensure_collections}
use process_metrics_platform.Metabase.Cards.{upsert_cards}
use process_metrics_platform.Metabase.Dashboards.{upsert_dashboards}
use process_metrics_platform.Metabase.Client.{
  World, Client, Action, continue, pure, lift, ◌>>=◌, ◌>>◌,
}
use process_metrics_platform.Metabase.Polling.{next, wait_for_health}
use process_metrics_platform.Metabase.Ends.{
  IsClock, Ends, bind-Ends, wait_for_health-Ends, wait_for_required_fields-Ends,
}

after_wait-Ends :
    (next : Action (Option Unit)) (r : Result (Option Unit)) (c : Client)
    → r ≢ ok none
    → Ends next
    → (continue r (after_wait next) c).0 ≢ ok none
after_wait-Ends next (ok none) c first second = absurd (first refl)
after_wait-Ends next (ok (some u)) c first second = second c
after_wait-Ends next (raised e) c first second = ground arith

module _ (w : World) (c : Conversions) (md5 : String → String)
    (getenv : String → Option String) where
  make_all-Ends : (pack : Pack) (id : ℤ) → Ends (make_all w c md5 getenv pack id)
  unfolding make_all
  make_all-Ends pack id =
      bind-Ends (ensure_collections c w pack)
        (λ collections. upsert_cards md5 c w pack id collections >>= λ cards.
          upsert_dashboards c w md5 pack collections cards >> pure (some tt))
        (λ collections.
          bind-Ends (upsert_cards md5 c w pack id collections)
            (λ cards. upsert_dashboards c w md5 pack collections cards >> pure (some tt))
            (λ cards.
              bind-Ends (upsert_dashboards c w md5 pack collections cards) (λ _. pure (some tt))
                (λ _ d. ground arith)))

  set_up_and_make-Ends :
      (settings : Settings) (pack : Pack) (paths : List String) (p : ℕ)
      → IsClock w
      → getenv_int c getenv "BI_FIELD_SYNC_POLL_SECONDS" "5" ≡ ok (pos (suc p))
      → Ends (set_up_and_make w c md5 getenv settings pack paths)
  unfolding set_up_and_make
  set_up_and_make-Ends settings pack paths p clock e =
      bind-Ends (bootstrap_and_authenticate w settings)
        (λ _. ensure_database w c settings >>= λ id.
          wait_for_required_fields w c getenv id paths
          >>= after_wait (make_all w c md5 getenv pack id))
        (λ _.
          bind-Ends (ensure_database w c settings)
            (λ id.
              wait_for_required_fields w c getenv id paths
              >>= after_wait (make_all w c md5 getenv pack id))
            (λ id d.
              after_wait-Ends (make_all w c md5 getenv pack id) _ _
                (wait_for_required_fields-Ends w clock c getenv p id paths e d)
                (make_all-Ends pack id)))

  -- Provisioning does not wait for ever: where time passes as the clock's laws say and the pause
  -- between two polls is a second or more, the waits that provision makes, each with its fuel of a round for each
  -- second and one more, do not run out of it, whatever Metabase replies.
  pub provision-Ends :
      (settings : Settings) (pack : Pack) (p : ℕ)
      → IsClock w
      → getenv_int c getenv "BI_FIELD_SYNC_POLL_SECONDS" "5" ≡ ok (pos (suc p))
      → (d : Client) → (provision w c md5 getenv settings pack d).0 ≢ ok none
  unfolding provision
  provision-Ends settings pack p clock e =
      bind-Ends (lift (validate_pack pack))
        (λ _. lift (collect_required_field_paths pack) >>= λ paths.
          wait_for_health w (pos 300)
          >>= after_wait (set_up_and_make w c md5 getenv settings pack paths))
        (λ _.
          bind-Ends (lift (collect_required_field_paths pack))
            (λ paths.
              wait_for_health w (pos 300)
              >>= after_wait (set_up_and_make w c md5 getenv settings pack paths))
            (λ paths d.
              after_wait-Ends (set_up_and_make w c md5 getenv settings pack paths) _ _
                (wait_for_health-Ends w clock (pos 300) d)
                (set_up_and_make-Ends settings pack paths p clock e)))
