-- ===== src/Remote.antt =====
-- `BnetClient` of main/battle_net.py: one exchange with the remote API, and what is made of its answer.
-- What `urlopen` and `json.loads` give is an argument.
pub mod Leagues
pub mod Numbers
pub mod Statuses
pub mod Answers
pub mod Refers
pub mod Profiles
mod Tests
use Prim.Native.String.{String}
use text.Mathlib.Text.{find?}
use rankedftw.Prelude.{ℕ, ◌==◌, Bool, true, false, Option, none, some, if◌then◌else◌, ◌≡◌}
use rankedftw.Prelude.Result.{Result, ok, err, Error, attribute_error, ◌>>=◌}

-- `class LocalStatus`.
abbrev pub socket_timeout : ℕ
socket_timeout = 600

abbrev pub connection_refused : ℕ
connection_refused = 601

abbrev pub incomplete_read : ℕ
incomplete_read = 602

abbrev pub bad_status_line : ℕ
bad_status_line = 603

abbrev pub os_error : ℕ
os_error = 604

abbrev pub unparsable_json : ℕ
unparsable_json = 605

abbrev pub db_inconsistency : ℕ
db_inconsistency = 606

-- The exceptions of an exchange, by the handler that takes them; `other` is one that none takes.
pub data Raised : Type 0 where
  timed_out cut_short no_status_line os_failed : Raised
  other : Error → Raised

-- The reading of a body.
pub data Body : Type 0 where
  content : String → Body
  unread : Raised → Body

-- What `raw_get` does: it gives a response, or raises `HTTPError` with one, or `URLError` with a text,
-- or another exception.
pub data Opened : Type 0 where
  responded http_error : ℕ → Body → Opened
  url_error : String → Opened
  failed : Raised → Opened

abbrev pub is_some {ℓ} : {A : Type ℓ} → Option A → Bool
is_some none = false
is_some (some a) = true

-- `t in s` on texts.
abbrev pub contains : String → String → Bool
contains s t = is_some (find? s t)

-- The handlers of the outer `try`.
abbrev pub handled : Raised → Result (ℕ × Option String)
handled timed_out = ok (socket_timeout, none)
handled cut_short = ok (incomplete_read, none)
handled no_status_line = ok (bad_status_line, none)
handled os_failed = ok (os_error, none)
handled (other e) = err e

abbrev pub with_body : ℕ → Body → Result (ℕ × Option String)
with_body code (content raw) = ok (code, some raw)
with_body code (unread r) = handled r

-- A `URLError` that is raised again is an `OSError`.
unfoldable pub http_get : Opened → Result (ℕ × Option String)
http_get (responded code body) = with_body code body
http_get (http_error code body) = with_body code body
http_get (url_error text) =
    if contains text "timed out"
    then ok (socket_timeout, none)
    else if contains text "Connection refused"
    then ok (connection_refused, none)
    else handled os_failed
http_get (failed r) = handled r

-- `{'unparsable': data}`, a document that is an object with the status that it has under 'code', or a
-- document of another kind, which has no `get`.
pub data Document (Value : Type 0) : Type 0 where
  unparsable : String → Document Value
  object : Option ℕ → Value → Document Value
  no_object : Value → Document Value

module _ {Value : Type 0} (loads : String → Option (Document Value)) where
  abbrev pub parsed : ℕ → String → Option (Document Value) → ℕ × Document Value
  parsed status raw none = (if status == 200 then status else unparsable_json, unparsable raw)
  parsed status raw (some json_data) = (status, json_data)

  abbrev pub code_or_200 : Option ℕ → ℕ
  code_or_200 none = 200
  code_or_200 (some code) = code

  -- `json_data.get('code', 200)`.
  abbrev pub code_of : Document Value → Result ℕ
  code_of (unparsable raw) = ok 200
  code_of (object code v) = ok (code_or_200 code)
  code_of (no_object v) = err attribute_error

  abbrev pub coded : ℕ × Document Value → Result (ℕ × Document Value)
  coded (status, json_data) =
      if status == 200
      then (do code ← code_of json_data; ok (code, json_data))
      else ok (status, json_data)

  abbrev pub from_raw : ℕ × Option String → Result (ℕ × Document Value)
  from_raw (status, none) = ok (status, unparsable "")
  from_raw (status, some raw) = coded (parsed status raw (loads raw))

  unfoldable pub http_get_json : Opened → Result (ℕ × Document Value)
  http_get_json opened = do answer ← http_get opened; from_raw answer
