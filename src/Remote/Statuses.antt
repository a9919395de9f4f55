-- ===== src/Remote/Statuses.antt =====
-- The status that an exchange ends with.
use Prim.Native.String.{String}
use rankedftw.Prelude.{
  ℕ, ◌<◌, ◌==◌, ltb, Option, none, some, ◌≡◌, inl, inr, refl, arith, Bool-cases, if◌then◌else◌,
}
use rankedftw.Prelude.Result.{Result, ok}
use rankedftw.Remote.{
  Raised, timed_out, cut_short, no_status_line, os_failed, other, Body, content, unread, Opened,
  responded, http_error, url_error, failed, is_some, contains, http_get, Document, unparsable,
  http_get_json, handled, with_body,
}

-- Exceptions that the handlers know, and statuses of a server, which are below 600.
abbrev pub IsKnown : Raised → Type 0
IsKnown (other e) = ⊥
IsKnown _ = Unit

abbrev pub IsReadable : Body → Type 0
IsReadable (content raw) = Unit
IsReadable (unread r) = IsKnown r

abbrev pub IsExpected : Opened → Type 0
IsExpected (responded code body) = (code < 600) × IsReadable body
IsExpected (http_error code body) = (code < 600) × IsReadable body
IsExpected (url_error text) = Unit
IsExpected (failed r) = IsKnown r

abbrev Answered : Result (ℕ × Option String) → Type 0
Answered r =
    (status : ℕ) × (raw : Option String) × (r ≡ ok (status, raw)) × (is_some raw ≡ ltb status 600)

handled-Answered : (r : Raised) → IsKnown r → Answered (handled r)
handled-Answered timed_out h = (600, none, refl, refl)
handled-Answered cut_short h = (602, none, refl, refl)
handled-Answered no_status_line h = (603, none, refl, refl)
handled-Answered os_failed h = (604, none, refl, refl)
handled-Answered (other e) h = absurd h

with_body-Answered :
    (code : ℕ) (body : Body) → code < 600 → IsReadable body → Answered (with_body code body)
with_body-Answered code (content raw) low h = (code, some raw, refl, ground arith)
with_body-Answered code (unread r) low h = handled-Answered r h

-- For an exchange in which the server gives a status below 600, if any, and which raises only the
-- exceptions that `http_get` knows, `http_get` returns a status, and it gives a body exactly when
-- the status is below 600.
pub http_get-answers :
    (opened : Opened)
    → IsExpected opened
    → (status : ℕ) × (raw : Option String) × (http_get opened ≡ ok (status, raw))
      × (is_some raw ≡ ltb status 600)
unfolding http_get
http_get-answers (responded code body) h = with_body-Answered code body h.0 h.1
http_get-answers (http_error code body) h = with_body-Answered code body h.0 h.1
http_get-answers (url_error text) h = elim (Bool-cases (contains text "timed out")) [
  | inl e ↦ rw e (600, none, refl, refl)
  | inr e ↦ elim (Bool-cases (contains text "Connection refused")) [
    | inl f ↦ rw (e, f) (601, none, refl, refl)
    | inr f ↦ rw (e, f) (604, none, refl, refl)
  ]
]
http_get-answers (failed r) h = handled-Answered r h

module _ {Value : Type 0} (loads : String → Option (Document Value)) where
  -- Where an exchange gives a status and a body that is no JSON, `http_get_json` returns the body
  -- as unparsable, with the status 200 where the status is 200, and with 605 otherwise.
  http_get_json-unparsable :
      (opened : Opened) (status : ℕ) (raw : String)
      → http_get opened ≡ ok (status, some raw)
      → loads raw ≡ none
      → http_get_json loads opened ≡ ok (if status == 200 then 200 else 605, unparsable raw)
  unfolding http_get_json
  http_get_json-unparsable opened status raw h e = elim (Bool-cases (status == 200)) [
    | inl f ↦ rw (h, e, f, f) refl
    | inr f ↦ rw (h, e, f) refl
  ]
