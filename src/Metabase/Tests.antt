-- ===== src/Metabase/Tests.antt =====
-- The provider of Metabase on small packs.
use process_metrics_platform.Common.{
  ℕ, suc, ◌+◌, ◌≤◌, ◌≡◌, ◌≢◌, refl, ◌↔◌, String, false, Option, none, some, List, [], ◌∷◌, arith,
  All, AreDistinct, map, length, Dict,
}
use process_metrics_platform.Documents.{
  ok, raised, type_error, ℤ, pos, negsuc, Json, null, boolean, number, text, Members, object, dict,
  list, members_of,
}
use process_metrics_platform.Documents.Access.{Conversions}
use process_metrics_platform.Documents.Keys.{number_key, text_key, same_key_iff, find, Keyed}
use process_metrics_platform.Metabase.Client.{
  Event, sent, slept, health_check, clock_read, get_method, Reply, response, empty, document, World,
  Client,
}
use process_metrics_platform.Metabase.Pack.{Pack, validate_pack, files_of}
use process_metrics_platform.Metabase.Valid.{IsPack, validate_pack_iff}
use process_metrics_platform.Metabase.Settings.{Settings, getenv_int}
use process_metrics_platform.Metabase.Tags.{build_native_query_payload}
use process_metrics_platform.Metabase.Tags.Scan.{findall}
use process_metrics_platform.Metabase.Tags.Sorted.{sorted_set}
use process_metrics_platform.Metabase.Tags.Defined.{AreDefined, build_native_query_payload-Defines}
use process_metrics_platform.Metabase.Cards.{Cards, upsert_cards}
use process_metrics_platform.Metabase.KnownCards.{IsKnown, upsert_cards-Known}
use process_metrics_platform.Metabase.Collections.{root_only}
use process_metrics_platform.Metabase.Layout.{Layout, place_cards}
use process_metrics_platform.Metabase.DashcardIds.{
  number_at, AreDashcards, card_of, id_of, ids_for, place_cards-AreDistinct,
}
use process_metrics_platform.Metabase.Ends.{IsClock}
use process_metrics_platform.Metabase.Provision.{provision}
use process_metrics_platform.Metabase.Provisioned.{provision-Ends}

abbrev card : Members
card = members_of (
    ("key", text "lead")
    ∷ ("name", text "Lead")
    ∷ ("query", text "SELECT 1 WHERE {{ project_key }} AND {{n_id}}")
    ∷ ("field_filters", dict (("project_key", text "metrics.v_facts.project_key") ∷ []))
    ∷ [])

abbrev item : String → Json
item key = dict (
    ("card_key", text key)
    ∷ ("row", number (pos 0))
    ∷ ("col", number (pos 0))
    ∷ ("size_x", number (pos 6))
    ∷ ("size_y", number (pos 4))
    ∷ [])

abbrev dashboard : Json
dashboard = dict (("name", text "Board") ∷ ("layout", list (item "lead" ∷ [])) ∷ [])

abbrev sample : Pack
sample = record {
  cards = some (ok (object card) ∷ []);
  dashboards = some (ok dashboard ∷ []);
  collections = none;
}

abbrev conversions : Conversions
conversions = record { parse_int = λ _. some (pos 5); print = λ _. "" }

abbrev digest : String → String
digest s = "0123456789abcdef"

abbrev total_slept : List Event → ℕ
total_slept [] = 0
total_slept (slept n ∷ h) = n + total_slept h
total_slept (_ ∷ h) = total_slept h

-- A Metabase with the field of the card, and with nothing else in it.
abbrev metadata : Json
metadata = dict (
    (
      "tables",
      list (
          dict (
            ("schema", text "metrics")
            ∷ ("name", text "v_facts")
            ∷ (
              "fields",
              list (dict (("name", text "project_key") ∷ ("id", number (pos 12)) ∷ []) ∷ []),
            )
            ∷ [])
          ∷ []),
    )
    ∷ [])

abbrev answer : List Event → Reply
answer (sent headers get_method path body ∷ h) = response 200 (document metadata)
answer (sent headers method path body ∷ h) =
    response 200 (document (dict (("id", number (pos 5)) ∷ [])))
answer _ = response 200 empty

abbrev world : World
world = record { reply = answer; now = total_slept }

onward_example : (e : Event) (h : List Event) → total_slept h ≤ total_slept (e ∷ h)
onward_example (slept n) h = omega arith
onward_example (sent headers method path body) h = omega arith
onward_example (health_check path) h = omega arith
onward_example clock_read h = omega arith

world-IsClock : IsClock world
world-IsClock = record { onward = onward_example; sleeps = λ n h. omega arith }

abbrev unset : String → Option String
unset _ = none

poll_example : getenv_int conversions unset "BI_FIELD_SYNC_POLL_SECONDS" "5" ≡ ok (pos (suc 4))
unfolding getenv_int
poll_example = refl

abbrev settings : Settings
settings = record {
  base_url = "http://metabase:3000/";
  api_key = some "key";
  admin_email = "";
  admin_password = "";
  site_name = "";
  target_db_name = "Process Metrics DB";
  target_db_engine = "postgres";
  target_db_schema = "metrics";
  target_db_ssl = false;
  pg_host = "postgres";
  pg_port = pos 5432;
  pg_db = "";
  pg_user = "";
  pg_password = "";
}

abbrev client : Client
client = record { base_url = "http://metabase:3000"; headers = []; events = [] }

validate_sample : validate_pack sample ≡ ok tt
unfolding validate_pack
validate_sample = refl

validate_pack_iff_example : (validate_pack sample ≡ ok tt) ↔ IsPack sample
validate_pack_iff_example = validate_pack_iff sample

provision-Ends_example :
    (provision world conversions digest unset settings sample client).0 ≢ ok none
provision-Ends_example =
    provision-Ends world conversions digest unset settings sample 4 world-IsClock poll_example
      client

find_tags_example : findall "{{{ b }} {{a}} {{ c d }} {{b}}" ≡ "b" ∷ "a" ∷ "b" ∷ []
unfolding findall
find_tags_example = refl

sort_tags_example : sorted_set ("b" ∷ "a" ∷ "b" ∷ []) ≡ "a" ∷ "b" ∷ []
unfolding sorted_set
sort_tags_example = refl

-- A list of dashboards: the filters of one are null, which the walk through them meets.
null_filters :
    validate_pack (record sample {
      dashboards =
          some (
            ok (dict (("name", text "Board") ∷ ("layout", list []) ∷ ("filters", null) ∷ [])) ∷ []);
    })
    ≡ raised type_error
unfolding validate_pack
null_filters = refl

abbrev field_ids : Dict ℤ
field_ids = ("v_facts.project_key", pos 12) ∷ []

abbrev definitions : Dict Json
definitions =
    (
      "n_id",
      dict (
          ("id", text "01234567")
          ∷ ("name", text "n_id")
          ∷ ("display-name", text "N Id")
          ∷ ("type", text "number")
          ∷ ("required", boolean false)
          ∷ []),
    )
    ∷ (
      "project_key",
      dict (
          ("id", text "01234567")
          ∷ ("name", text "project_key")
          ∷ ("display-name", text "Project Key")
          ∷ ("type", text "dimension")
          ∷ ("widget-type", text "category")
          ∷ ("required", boolean false)
          ∷ ("dimension", list (text "field" ∷ number (pos 12) ∷ null ∷ []))
          ∷ []),
    )
    ∷ []

payload_of_card :
    build_native_query_payload digest conversions (object card) field_ids
    ≡ ok ("SELECT 1 WHERE {{ project_key }} AND {{n_id}}", definitions)
unfolding build_native_query_payload
payload_of_card = refl

build_native_query_payload-Defines_example :
    AreDefined digest card field_ids ("SELECT 1 WHERE {{ project_key }} AND {{n_id}}", definitions)
build_native_query_payload-Defines_example =
    build_native_query_payload-Defines digest conversions card field_ids
      "SELECT 1 WHERE {{ project_key }} AND {{n_id}}" definitions payload_of_card

abbrev made : Cards
made = record {
  card_ids = (text_key "lead", pos 5) ∷ [];
  field_tags = (text_key "lead", "project_key" ∷ []) ∷ [];
}

cards_of_sample :
    (upsert_cards digest conversions world sample (pos 5) root_only client).0 ≡ ok made
unfolding upsert_cards
cards_of_sample = refl

upsert_cards-Known_example : All (IsKnown made) (files_of sample.cards)
upsert_cards-Known_example =
    upsert_cards-Known digest conversions world sample (pos 5) root_only client made cards_of_sample

abbrev two_cards : Cards
two_cards = record {
  card_ids = (text_key "lead", pos 5) ∷ (text_key "cycle", pos 6) ∷ [];
  field_tags = [];
}

abbrev on_dashboard : Keyed ℤ
on_dashboard = (number_key (pos 6), pos 31) ∷ []

on_dashboard-AreDashcards : AreDashcards on_dashboard
unfolding find
on_dashboard-AreDashcards = (
  (λ j k id e f.
      ground
        (arith, e, f, same_key_iff (number_key (pos 6)) j, same_key_iff (number_key (pos 6)) k)),
  λ k id e. (31, ground (arith, e)),
)

abbrev placed : Json → ℤ → ℤ → Json
placed mappings card_id id = dict (
    ("card_id", number card_id)
    ∷ ("row", number (pos 0))
    ∷ ("col", number (pos 0))
    ∷ ("size_x", number (pos 6))
    ∷ ("size_y", number (pos 4))
    ∷ ("parameter_mappings", mappings)
    ∷ ("visualization_settings", dict [])
    ∷ ("id", number id)
    ∷ [])

abbrev two_placed : Layout
two_placed = record {
  dashcards = placed (list []) (pos 5) (negsuc 0) ∷ placed (list []) (pos 6) (pos 31) ∷ [];
  used = 1;
}

place_two : place_cards two_cards [] on_dashboard (item "lead" ∷ item "cycle" ∷ []) ≡ ok two_placed
unfolding place_cards
place_two = refl

different_cards : AreDistinct (map card_of two_placed.dashcards)
unfolding number_at
different_cards = ((ground arith, tt), (tt, tt))

place_cards-AreDistinct_example :
    (length two_placed.dashcards ≡ length (item "lead" ∷ item "cycle" ∷ []))
    × AreDistinct (map id_of two_placed.dashcards)
    × (map id_of two_placed.dashcards ≡ ids_for on_dashboard 0 (map card_of two_placed.dashcards))
place_cards-AreDistinct_example =
    place_cards-AreDistinct two_cards [] on_dashboard (item "lead" ∷ item "cycle" ∷ []) two_placed
      on_dashboard-AreDashcards place_two different_cards
