-- ===== src/Documents.antt =====
-- Python values that the json module reads and writes, and results that may raise.
pub mod Access
pub mod Keys
mod Tests
use process_metrics_platform.Common.{
  ℕ, ◌≡◌, refl, sym, ap, subst, arith, String, Bool, Option, none, some, List, [], ◌∷◌, str_eq,
  Dict, if◌then◌else◌,
}

-- `connection_error` stands for the exceptions of the requests library, which are OSErrors.
pub data Exn : Type 0 where
  value_error type_error key_error os_error runtime_error overflow_error attribute_error : Exn
  connection_error : Exn

pub data Result {ℓ} (A : Type ℓ) : Type ℓ where
  ok : A → Result A
  raised : Exn → Result A

module _ {A : Type 0} where
  abbrev value_or : A → Result A → A
  value_or default (ok a) = a
  value_or default (raised e) = default

module _ {A B : Type 0} where
  infixl 5 ◌>>=◌
  abbrev pub ◌>>=◌ : Result A → (A → Result B) → Result B
  ok a >>= f = f a
  raised e >>= f = raised e

module _ {A B : Type 0} where
  -- What a chain returns is returned by its second part, for what the first one returns.
  pub >>=-ok :
      (r : Result A) (f : A → Result B) (b : B)
      → (r >>= f) ≡ ok b
      → (a : A) × (r ≡ ok a) × (f a ≡ ok b)
  >>=-ok (ok a) f b h = (a, refl, h)
  >>=-ok (raised e) f b h = absurd (ground arith)

  -- A loop that carries a value.
  unfoldable pub fold : (B → A → Result B) → B → List A → Result B
  fold f b [] = ok b
  fold f b (x ∷ xs) = f b x >>= λ next. fold f next xs

-- The computation returns a value with the property.
pub record Returns {A : Type 0} (P : A → Type 0) (r : Result A) : Type 0 where
  pub value : A
  pub is : r ≡ ok value
  pub has : P value

module _ {A : Type 0} where
  abbrev pub Anything : A → Type 0
  Anything a = Unit

module _ {A B : Type 0} where
  pub >>=-Returns :
      (P : A → Type 0) (Q : B → Type 0) (r : Result A) (f : A → Result B)
      → Returns P r
      → ((a : A) → P a → Returns Q (f a))
      → Returns Q (r >>= f)
  >>=-Returns P Q (ok a) f i h = h a (subst P (sym (ap (value_or a) i.is)) i.has)
  >>=-Returns P Q (raised e) f i h = absurd (ground (arith, i.is))

module _ {A B : Type 0} (P : B → Type 0) (f : B → A → Result B) where
  -- What every round of a loop keeps holds after the loop.
  pub fold-Keeps :
      (keeps : (b : B) (x : A) (next : B) → P b → f b x ≡ ok next → P next) (b : B) (xs : List A)
      (out : B)
      → P b
      → fold f b xs ≡ ok out
      → P out
  unfolding fold
  fold-Keeps keeps b [] out p h = subst P (ap (value_or b) h) p
  fold-Keeps keeps b (x ∷ xs) out p h =
      let (next, e, rest) = >>=-ok (f b x) (λ next. fold f next xs) out h in
      fold-Keeps keeps next xs out (keeps b x next p e) rest

pub data ℤ : Type 0 where
  pos : ℕ → ℤ
  negsuc : ℕ → ℤ

-- A value that json.loads returns. `fraction m e` is the float m / 10 ^ e that is no whole number;
-- a float that is whole is the number. The keys of an object are distinct, and an object is in the
-- order of its insertions.
mutual
  pub data Json : Type 0 where
    null : Json
    boolean : Bool → Json
    number : ℤ → Json
    fraction : ℤ → ℕ → Json
    text : String → Json
    array : Items → Json
    object : Members → Json

  pub data Items : Type 0 where
    no_items : Items
    item : Json → Items → Items

  pub data Members : Type 0 where
    no_members : Members
    member : String → Json → Members → Members

unfoldable pub member_of : String → Members → Option Json
member_of key no_members = none
member_of key (member k v ms) = let rest = member_of key ms in if str_eq k key then some v else rest

unfoldable pub elements : Items → List Json
elements no_items = []
elements (item j js) = j ∷ elements js

abbrev pub array_of : List Json → Items
array_of [] = no_items
array_of (j ∷ js) = item j (array_of js)

unfoldable pub entries : Members → Dict Json
entries no_members = []
entries (member k v ms) = (k, v) ∷ entries ms

abbrev pub members_of : Dict Json → Members
members_of [] = no_members
members_of ((k, v) ∷ d) = member k v (members_of d)

-- The displays {...} and [...]
abbrev pub dict : Dict Json → Json
dict d = object (members_of d)

abbrev pub list : List Json → Json
list js = array (array_of js)
