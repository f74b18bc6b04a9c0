-- ===== src/Metabase/Provision.antt =====
-- MetabaseProvider.provision, in bi/providers/metabase/provider.py.
use process_metrics_platform.Common.{String, Option, none, some, List}
use process_metrics_platform.Documents.{ℤ, pos}
use process_metrics_platform.Documents.Access.{Conversions}
use process_metrics_platform.Metabase.Client.{World, Action, pure, lift, ◌>>=◌, ◌>>◌}
use process_metrics_platform.Metabase.Polling.{wait_for_health}
use process_metrics_platform.Metabase.Pack.{Pack, validate_pack}
use process_metrics_platform.Metabase.Settings.{Settings}
use process_metrics_platform.Metabase.Metadata.{collect_required_field_paths}
use process_metrics_platform.Metabase.Database.{
  bootstrap_and_authenticate, ensure_database, wait_for_required_fields,
}
use process_metrics_platform.Metabase.Collections.{ensure_collections}
use process_metrics_platform.Metabase.Cards.{upsert_cards}
use process_metrics_platform.Metabase.Dashboards.{upsert_dashboards}

-- What follows a wait; none says that the fuel of the wait ran out.
abbrev pub after_wait : Action (Option Unit) → Option (Unit {0}) → Action (Option Unit)
after_wait next none = pure none
after_wait next (some _) = next

module _ (w : World) (c : Conversions) (md5 : String → String)
    (getenv : String → Option String) where
  unfoldable pub make_all : Pack → ℤ → Action (Option Unit)
  unfolding ensure_collections upsert_cards upsert_dashboards
  make_all pack id = do
    collections ← ensure_collections c w pack
    cards ← upsert_cards md5 c w pack id collections
    upsert_dashboards c w md5 pack collections cards
    pure (some tt)

  unfoldable pub set_up_and_make : Settings → Pack → List String → Action (Option Unit)
  unfolding bootstrap_and_authenticate ensure_database wait_for_required_fields make_all
  set_up_and_make settings pack paths = do
    bootstrap_and_authenticate w settings
    id ← ensure_database w c settings
    waited ← wait_for_required_fields w c getenv id paths
    after_wait (make_all pack id) waited

  unfoldable pub provision : Settings → Pack → Action (Option Unit)
  unfolding validate_pack collect_required_field_paths wait_for_health set_up_and_make
  provision settings pack = do
    lift (validate_pack pack)
    paths ← lift (collect_required_field_paths pack)
    healthy ← wait_for_health w (pos 300)
    after_wait (set_up_and_make settings pack paths) healthy
