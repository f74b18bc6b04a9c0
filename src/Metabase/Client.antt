-- ===== src/Metabase/Client.antt =====
-- bi/providers/metabase/client.py: the requests to Metabase, with their headers. The state keeps
-- what happened so far, the newest first; the server and the clock are functions of it.
use Prim.Native.String.{◌++◌ as join}
use process_metrics_platform.Common.{
  ◌≡◌, refl, arith, ℕ, ◌*◌, String, Bool, false, ◌||◌, Option, List, [], ◌∷◌, ◌==◌, Dict,
  if◌then◌else◌,
}
use process_metrics_platform.Documents.{
  Exn, value_error, runtime_error, connection_error, Result, ok, raised, ℤ, pos, negsuc, Json, null,
  text,
}
use process_metrics_platform.Metabase.Text.{rstrip_slashes}

pub data Method : Type 0 where
  get_method post put delete : Method

pub data Event : Type 0 where
  sent : Dict Json → Method → String → Option Json → Event
  health_check : String → Event
  slept : ℕ → Event
  clock_read : Event

-- The content of a response: none, a document of JSON, or a text that is none.
pub data Content : Type 0 where
  empty : Content
  document : Json → Content
  plain : String → Content

-- A response with its status code, or an exception of the requests library.
pub data Reply : Type 0 where
  response : ℕ → Content → Reply
  failed : Reply

-- Metabase and the clock, in microseconds.
pub record World : Type 0 where
  pub reply : List Event → Reply
  pub now : List Event → ℕ

pub record Client : Type 0 where
  pub base_url : String
  pub headers : Dict Json
  pub events : List Event

abbrev pub content_type : String × Json
content_type = ("Content-Type", text "application/json")

-- MetabaseClient(base_url)
unfoldable pub new_client : String → List Event → Client
unfolding rstrip_slashes
new_client url events = record {
  base_url = rstrip_slashes url;
  headers = content_type ∷ [];
  events = events;
}

abbrev pub Action : Type 0 → Type 0
Action A = Client → Result A × Client

module _ {A : Type 0} where
  abbrev pub pure : A → Action A
  pure a c = (ok a, c)

  abbrev pub raise : Exn → Action A
  raise e c = (raised e, c)

  abbrev pub lift : Result A → Action A
  lift r c = (r, c)

module _ {A B : Type 0} where
  abbrev pub continue : Result A → (A → Action B) → Action B
  continue (ok a) f c = f a c
  continue (raised e) f c = (raised e, c)

  infixl 5 ◌>>=◌ ◌>>◌
  abbrev pub ◌>>=◌ : Action A → (A → Action B) → Action B
  ◌>>=◌ m f c = let (r, c') = m c in continue r f c'

  abbrev pub ◌>>◌ : Action A → Action B → Action B
  m >> n = m >>= λ _. n

module _ {A B : Type 0} where
  continue-ok :
      (r : Result A) (f : A → Action B) (c : Client) (b : B)
      → (continue r f c).0 ≡ ok b
      → (a : A) × (r ≡ ok a) × ((f a c).0 ≡ ok b)
  continue-ok (ok a) f c b h = (a, refl, h)
  continue-ok (raised e) f c b h = absurd (ground arith)

  -- What a chain returns is returned by its second part, for what the first one returns.
  pub >>=-ok :
      (m : Action A) (f : A → Action B) (c : Client) (b : B)
      → ((m >>= f) c).0 ≡ ok b
      → (a : A) × ((m c).0 ≡ ok a) × ((f a ((m c).1)).0 ≡ ok b)
  >>=-ok m f c b h = continue-ok ((m c).0) f ((m c).1) b h

  -- A loop that carries a value.
  unfoldable pub loop : (B → A → Action B) → B → List A → Action B
  loop f b [] = pure b
  loop f b (x ∷ xs) = f b x >>= λ next. loop f next xs

module _ {A : Type 0} where
  abbrev handle : (Exn → Action A) → Result A → Action A
  handle f (ok a) = pure a
  handle f (raised e) = f e

  -- try: m, except: f
  abbrev pub attempt : Action A → (Exn → Action A) → Action A
  attempt m f c = let (r, c') = m c in handle f r c'

abbrev pub log : Event → Client → Client
log e c = record c { events = e ∷ c.events }

unfoldable pub with_api_key : String → Action Unit
with_api_key key c = (ok tt, record c { headers = content_type ∷ ("x-api-key", text key) ∷ [] })

unfoldable pub with_session : Json → Action Unit
with_session id c = (ok tt, record c { headers = content_type ∷ ("X-Metabase-Session", id) ∷ [] })

unfoldable pub is_expected : ℕ → List ℕ → Bool
is_expected status [] = false
is_expected status (s ∷ ss) = (s == status) || is_expected status ss

abbrev pub value_of : Content → Json
value_of empty = null
value_of (document j) = j
value_of (plain s) = text s

abbrev pub read_reply : List ℕ → Reply → Result Json
unfolding is_expected
read_reply expected failed = raised connection_error
read_reply expected (response status content) =
    if is_expected status expected then ok (value_of content) else raised runtime_error

module _ (w : World) where
  unfoldable pub request : Method → String → Option Json → List ℕ → Action Json
  unfolding read_reply
  request method path body expected c =
      let after = log (sent c.headers method (join c.base_url path) body) c in
      (read_reply expected (w.reply after.events), after)

  -- time.time()
  unfoldable pub time : Action ℕ
  time c = let after = log clock_read c in (ok (w.now after.events), after)

  -- requests.get(health_url, timeout=5), where the exceptions of requests are passed over
  abbrev is_healthy : Reply → Bool
  is_healthy (response status content) = status == 200
  is_healthy failed = false

  unfoldable pub check_health : Action Bool
  check_health c =
      let after = log (health_check (join c.base_url "/api/health")) c in
      (ok (is_healthy (w.reply after.events)), after)

-- time.sleep(seconds)
unfoldable pub sleep : ℤ → Action Unit
sleep (pos n) c = (ok tt, log (slept (n * 1000000)) c)
sleep (negsuc n) c = (raised value_error, c)
