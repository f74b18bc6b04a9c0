-- ===== src/Auth/Runtime.antt =====
-- What app/services/admin_auth.py computes with: instants, and the operations of Python's libraries that the model takes as given.
use process_metrics_platform.Common.{
  ℕ, zero, suc, ◌+◌, ◌-◌, ◌*◌, ◌/◌, String, Bool, Option, List, ltb, leb, if◌then◌else◌,
}
pub use process_metrics_platform.Documents.{
  Exn, value_error, type_error, key_error, os_error, runtime_error, overflow_error, attribute_error,
  Result, ok, raised, ◌>>=◌, ℤ, pos, negsuc, Json, null, boolean, number, text, object, Members,
  no_members, member,
}
unfoldable pub use process_metrics_platform.Documents.{member_of}

-- An instant is the number of microseconds since the year 1, which is datetime's first; the epoch
-- of Unix time is this many seconds later.
abbrev pub epoch : ℕ
epoch = 62135596800

-- datetime.fromtimestamp(n, tz=UTC): the years 1 to 9999; beyond them ValueError, beyond the range
-- of the platform's calendar OSError, and beyond 64 bits OverflowError.
unfoldable pub fromtimestamp : ℤ → Result ℕ
fromtimestamp (pos n) =
    if ltb n 253402300800
    then ok ((epoch + n) * 1000000)
    else if ltb n 67768036191676800
    then raised value_error
    else if ltb n 9223372036854775808
    then raised os_error
    else raised overflow_error
fromtimestamp (negsuc n) =
    if leb (suc n) epoch
    then ok ((epoch - suc n) * 1000000)
    else if leb (suc n) 67768040609740800
    then raised value_error
    else if leb (suc n) 9223372036854775808
    then raised os_error
    else raised overflow_error

abbrev negated : ℕ → ℤ
negated zero = pos 0
negated (suc n) = negsuc n

-- int(t.timestamp()), which drops the fraction
unfoldable pub to_timestamp : ℕ → ℤ
to_timestamp t =
    if leb (epoch * 1000000) t
    then pos (t / 1000000 - epoch)
    else negated ((epoch * 1000000 - t) / 1000000)

-- What datetime.fromisoformat reads: an aware datetime as its instant, or a naive one.
pub data Iso : Type 0 where
  aware : ℕ → Iso
  naive : ℕ → Iso

-- Operations of hmac, json, datetime and of Python's conversions, as functions; a none is a
-- ValueError. `digest secret input` is the HMAC-SHA256 of the two texts.
pub record Runtime : Type 0 where
  pub digest : List ℕ → List ℕ → List ℕ
  pub dumps : Json → List ℕ
  pub loads : List ℕ → Option Json
  pub int_of : Json → Result ℤ
  pub str_of : Json → String
  pub bool_of : Json → Bool
  pub parse_int : List ℕ → Option ℤ
  pub fromisoformat : List ℕ → Option Iso
