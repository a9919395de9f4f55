-- ===== src/Client/Joined.antt =====
-- The answer of the server, however the stream cuts it.
use text.Mathlib.Text.{◌==◌ as str_eq}
use text.Mathlib.TextEquality.{eq_iff}
use Prim.Native.String.{String}
use mathlib.Core.Bool.{true≢false}
use mathlib.Core.List.{append_assoc, append-nil}
use rankedftw.Client.{
  as_client_error, Bytes, Ending, closes, breaks, Socket, Request, Reply, Filled, receive,
  ladder_command, clan_command, request_server, ladder_request, is_ok, checked, get_ladder,
  clan_request, get_clan,
}
use rankedftw.Enums.Mode as Mode
use rankedftw.Enums.Version as Version
use rankedftw.Prelude.{
  ap, ℕ, length, ◌<◌, true, List, [], ◌∷◌, ◌++◌, Option, none, some, ◌≡◌, ◌≢◌, ◌⊎◌, false, sym, inl,
  inr, Bool-cases, refl, ◌∙◌, arith,
}
use rankedftw.Prelude.Int.{ℤ}
use rankedftw.Prelude.Result.{
  Error, Result, ok, err, Result-cases, client_error, socket_error, ◌>>=◌,
}

abbrev pub join : List Bytes → Bytes
join [] = []
join (c ∷ cs) = c ++ join cs

-- `recv` returns no empty chunk before the end.
abbrev pub AreChunks : List Bytes → Type 0
AreChunks [] = Unit
AreChunks (c ∷ cs) = (0 < length c) × AreChunks cs

abbrev got : Bytes → Ending → Result Bytes
got raw closes = ok raw
got raw breaks = err socket_error

receive-join :
    (string : Bytes) (cs : List Bytes) (ending : Ending)
    → AreChunks cs
    → receive string cs ending ≡ got (string ++ join cs) ending
unfolding receive
receive-join string [] closes h = rw (append-nil string) refl
receive-join string [] breaks h = refl
receive-join string ([] ∷ cs) ending h = absurd (omega (arith, h.0))
receive-join string ((b ∷ bs) ∷ cs) ending h =
    receive-join (string ++ (b ∷ bs)) cs ending h.1
    ∙ rw (append_assoc string (b ∷ bs) (join cs)) refl

-- What is made of what `json.loads` gives for the whole stream: the reply if its code is ok, and
-- `ClientError` for another code, for none, and for a stream that breaks.
pub data IsAnswer {Content : Type 0}
    : Ending → Result (Reply Content) → Result (Reply Content) → Type 0 where
  broken : {read : Result (Reply Content)} → IsAnswer breaks read (err client_error)
  unreadable : {e : Error} → IsAnswer closes (err e) (err e)
  accepted :
      {reply : Reply Content} → reply.code ≡ some "ok" → IsAnswer closes (ok reply) (ok reply)
  refused :
      {reply : Reply Content}
      → reply.code ≢ some "ok"
      → IsAnswer closes (ok reply) (err client_error)

module _ {Content : Type 0} (loads : Bytes → Result (Reply Content))
    (server : Request → Socket) where
  -- A request that is sent, and the chunks that come back.
  abbrev pub Exchanges : Request → List Bytes → Ending → Type 0
  Exchanges request cs ending =
      (server request ≡ record { sent = true; received = cs; ending = ending }) × AreChunks cs

  request_server-join :
      (request : Request) (cs : List Bytes) (ending : Ending)
      → Exchanges request cs ending
      → request_server loads server request ≡ (as_client_error (got (join cs) ending) >>= loads)
  unfolding request_server
  request_server-join request cs ending h = rw (h.0, receive-join [] cs ending h.1) refl

  is_ok-cases :
      (code : Option String)
      → ((is_ok loads server code ≡ true) × (code ≡ some "ok"))
        ⊎ ((is_ok loads server code ≡ false) × (code ≢ some "ok"))
  is_ok-cases none = inr (refl, λ same. absurd cc)
  is_ok-cases (some code) = elim (Bool-cases (str_eq code "ok")) [
    | inl e ↦ inl (e, ap some ((eq_iff code "ok").0 e))
    | inr e ↦ inr (e, λ same. true≢false (sym ((eq_iff code "ok").1 (text_of same)) ∙ e))
  ]
    where
      text_of : {s t : String} → some s ≡ some t → s ≡ t
      text_of h = cc

  checked-IsAnswer :
      (raw : Bytes) (ending : Ending)
      → IsAnswer ending
          (loads raw)
          (as_client_error (got raw ending) >>= loads >>= checked loads server)
  checked-IsAnswer raw breaks = broken
  checked-IsAnswer raw closes = elim (Result-cases (loads raw)) [
    | inl (reply, e) ↦ rw e (on_code reply)
    | inr (x, e) ↦ rw e unreadable
  ]
    where
      on_code : (reply : Reply Content) → IsAnswer closes (ok reply) (checked loads server reply)
      on_code reply = elim (is_ok-cases reply.code) [
        | inl (e, same) ↦ rw e (accepted same)
        | inr (e, other) ↦ rw e (refused other)
      ]

  -- Where the request that holds the filters and the arguments given, and no other key, is sent,
  -- and `recv` returns no empty chunk before the end of the stream: `get_ladder` returns the reply
  -- that `json.loads` reads from the chunks joined, wherever the stream is cut, if its code is ok,
  -- and raises what `json.loads` raises; it raises `ClientError` for another code or none, and for
  -- a stream that breaks.
  pub get_ladder-IsAnswer :
      (f : Filled) (version mode : ℤ) (offset : Option ℤ) (team_id : ℕ) (limit : ℤ)
      (cs : List Bytes) (ending : Ending)
      → Exchanges
          (record {
            cmd = ladder_command;
            key = f.key;
            reverse = f.reverse;
            region = f.region;
            race = f.race;
            league = f.league;
            version = version;
            mode = mode;
            team_id = some team_id;
            limit = some limit;
            offset = offset;
            team_ids = none;
          })
          cs
          ending
      → IsAnswer ending
          (loads (join cs))
          (get_ladder loads server f version mode offset team_id limit)
  unfolding get_ladder
  get_ladder-IsAnswer f version mode offset team_id limit cs ending h =
      rw (request_server-join (ladder_request f version mode offset team_id limit) cs ending h)
        (checked-IsAnswer (join cs) ending)

  -- The same for `get_clan`, with the version, the mode and the ids of the teams in its request.
  get_clan-IsAnswer :
      (f : Filled) (team_ids : List ℕ) (cs : List Bytes) (ending : Ending)
      → Exchanges
          (record {
            cmd = clan_command;
            key = f.key;
            reverse = f.reverse;
            region = f.region;
            race = f.race;
            league = f.league;
            version = Version.lotv;
            mode = Mode.team_1v1;
            team_id = none;
            limit = none;
            offset = none;
            team_ids = some team_ids;
          })
          cs
          ending
      → IsAnswer ending (loads (join cs)) (get_clan loads server f team_ids)
  unfolding get_clan
  get_clan-IsAnswer f team_ids cs ending h =
      rw (request_server-join (clan_request f team_ids) cs ending h)
        (checked-IsAnswer (join cs) ending)
