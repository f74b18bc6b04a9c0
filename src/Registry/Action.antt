-- ===== src/Registry/Action.antt =====
-- The state that pipelines/utils/metric_registry.py works on, and its functions' shape: they
-- change the state, and return a value or raise ValueError.
use process_metrics_platform.Common.{ℕ, ◌+◌, String, Option, Dict}
use process_metrics_platform.Registry.Database.{Database}

-- What the cache holds under a key; Python's None is `none` of an `Option Value`.
pub data Value : Type 0 where
  text : String → Value
  unit : String → Option String → Value

pub record Entry : Type 0 where
  pub value : Option Value
  pub expires_at : ℕ

-- `reads` counts the calls of time.time(), `queries` the statements sent to the database.
pub record Registry : Type 0 where
  pub cache : Dict Entry
  pub db : Database
  pub reads : ℕ
  pub queries : ℕ

pub data Result {ℓ} (A : Type ℓ) : Type ℓ where
  ok : A → Result A
  value_error : Result A

abbrev pub Action : Type 0 → Type 0
Action A = Registry → Result A × Registry

module _ {A : Type 0} where
  abbrev pub pure : A → Action A
  pure a s = (ok a, s)

  abbrev pub raise : Action A
  raise s = (value_error, s)

  -- A statement that reads the database.
  abbrev pub query : (Database → A) → Action A
  query f s = (ok (f s.db), record s { queries = s.queries + 1 })

-- A statement that changes the database.
abbrev pub execute : (Database → Database) → Action Unit
execute f s = (ok tt, record s { db = f s.db; queries = s.queries + 1 })

module _ {A B : Type 0} where
  abbrev pub continue : Result A → (A → Action B) → Action B
  continue (ok a) f s = f a s
  continue value_error f s = (value_error, s)

  infixl 5 ◌>>=◌ ◌>>◌
  abbrev pub ◌>>=◌ : Action A → (A → Action B) → Action B
  ◌>>=◌ m f s = let (r, s') = m s in continue r f s'

  abbrev pub ◌>>◌ : Action A → Action B → Action B
  m >> n = m >>= λ _. n
