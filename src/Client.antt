-- ===== src/Client.antt =====
-- main/client.py: the requests to the server of rankings, and what comes back. What the socket does, and
-- what `json.loads` of the bytes gives, are arguments.
pub mod Joined
mod Tests
use Prim.Native.String.{String}
use text.Mathlib.Text.{◌==◌ as str_eq}
use rankedftw.Enums.Mode as Mode
use rankedftw.Enums.Version as Version
use rankedftw.Prelude.{ℕ, Bool, true, false, Option, none, some, List, [], ◌∷◌, ◌++◌, if◌then◌else◌}
use rankedftw.Prelude.Int.{ℤ}
use rankedftw.Prelude.Result.{Result, ok, err, socket_error, client_error, raise_if, ◌>>=◌, ◌>>◌}

pub data Command : Type 0 where
  ladder_command clan_command : Command

-- The dict that is sent. A key that is not set is none, but for `key` and `reverse`, which are always set
-- and may be `None`.
pub record Request : Type 0 where
  pub cmd : Command
  pub key : Option ℤ
  pub reverse : Option Bool
  pub region : Option ℤ
  pub race : Option ℤ
  pub league : Option ℤ
  pub version : ℤ
  pub mode : ℤ
  pub team_id : Option ℕ
  pub limit : Option ℤ
  pub offset : Option ℤ
  pub team_ids : Option (List ℕ)

-- The filters that `fill_data` takes.
pub record Filled : Type 0 where
  pub key : Option ℤ
  pub reverse : Option Bool
  pub region : Option ℤ
  pub race : Option ℤ
  pub league : Option ℤ

abbrev pub ladder_request : Filled → ℤ → ℤ → Option ℤ → ℕ → ℤ → Request
ladder_request f version mode offset team_id limit = record {
  cmd = ladder_command;
  key = f.key;
  reverse = f.reverse;
  region = f.region;
  race = f.race;
  league = f.league;
  version = version;
  mode = mode;
  team_id = some team_id;
  limit = some limit;
  offset = offset;
  team_ids = none;
}

abbrev pub clan_request : Filled → List ℕ → Request
clan_request f team_ids = record {
  cmd = clan_command;
  key = f.key;
  reverse = f.reverse;
  region = f.region;
  race = f.race;
  league = f.league;
  version = Version.lotv;
  mode = Mode.team_1v1;
  team_id = none;
  limit = none;
  offset = none;
  team_ids = some team_ids;
}

abbrev pub Bytes : Type 0
Bytes = List ℕ

-- How the stream ends: the other side closes it, or `recv` raises, as after the timeout.
pub data Ending : Type 0 where
  closes breaks : Ending

-- Whether the connection is made and the request sent, and what the calls of `recv` return.
pub record Socket : Type 0 where
  pub sent : Bool
  pub received : List Bytes
  pub ending : Ending

-- The loop of `request_tcp`, which an empty chunk ends.
unfoldable pub receive : Bytes → List Bytes → Ending → Result Bytes
receive string [] closes = ok string
receive string [] breaks = err socket_error
receive string ([] ∷ chunks) ending = ok string
receive string ((b ∷ data_read) ∷ chunks) ending = receive (string ++ (b ∷ data_read)) chunks ending

abbrev pub request_tcp : Socket → Result Bytes
request_tcp sock = if sock.sent then receive [] sock.received sock.ending else err socket_error

-- `except OSError as e: raise ClientError(...) from e`.
abbrev pub as_client_error : Result Bytes → Result Bytes
as_client_error (ok raw) = ok raw
as_client_error (err socket_error) = err client_error
as_client_error (err e) = err e

-- The object that the server answers.
pub record Reply (Content : Type 0) : Type 0 where
  pub code : Option String
  pub content : Content

module _ {Content : Type 0} (loads : Bytes → Result (Reply Content))
    (server : Request → Socket) where
  unfoldable pub request_server : Request → Result (Reply Content)
  request_server request = do raw ← as_client_error (request_tcp (server request)); loads raw

  -- `data.get('code', 'empty') != 'ok'`.
  abbrev pub is_ok : Option String → Bool
  is_ok none = str_eq "empty" "ok"
  is_ok (some code) = str_eq code "ok"

  abbrev pub checked : Reply Content → Result (Reply Content)
  checked reply = if is_ok reply.code then ok reply else err client_error

  unfoldable pub get_ladder : Filled → ℤ → ℤ → Option ℤ → ℕ → ℤ → Result (Reply Content)
  get_ladder f version mode offset team_id limit = do
    reply ← request_server (ladder_request f version mode offset team_id limit)
    checked reply

  unfoldable pub get_clan : Filled → List ℕ → Result (Reply Content)
  get_clan f team_ids = do reply ← request_server (clan_request f team_ids); checked reply
