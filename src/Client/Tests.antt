-- ===== src/Client/Tests.antt =====
-- A server whose answer to a ladder comes in two chunks, and one that refuses.
use rankedftw.Client.{
  Bytes, Command, ladder_command, clan_command, Ending, closes, breaks, Filled, Request, Socket,
  Reply, get_ladder, get_clan, receive, request_server,
}
use rankedftw.Client.Joined.{IsAnswer, get_ladder-IsAnswer, join}
use rankedftw.Enums.Mode as Mode
use rankedftw.Enums.Version as Version
use rankedftw.Prelude.{ℕ, List, true, none, some, [], ◌∷◌, length, ◌≡◌, refl, arith}
use rankedftw.Prelude.Int.{pos}
use rankedftw.Prelude.Result.{Result, ok, err, client_error}

abbrev ending_for : Command → Ending
ending_for ladder_command = closes
ending_for clan_command = breaks

abbrev chunks : List Bytes
chunks = (123 ∷ []) ∷ (32 ∷ 125 ∷ []) ∷ []

abbrev server : Request → Socket
server request = record { sent = true; received = chunks; ending = ending_for request.cmd }

-- The number of the bytes stands for the content.
abbrev loads : Bytes → Result (Reply ℕ)
loads raw = ok (record { code = some "ok"; content = length raw })

abbrev loads_error : Bytes → Result (Reply ℕ)
loads_error raw = ok (record { code = none; content = length raw })

abbrev by_key : Filled
by_key = record { key = some (pos 1); reverse = none; region = none; race = none; league = none }

whole :
    get_ladder loads server by_key Version.lotv Mode.team_1v1 none 0 (pos 100)
    ≡ ok (record { code = some "ok"; content = 3 })
unfolding get_ladder request_server receive
whole = refl

-- A reply without a code is as one with another code.
no_code :
    get_ladder loads_error server by_key Version.lotv Mode.team_1v1 none 0 (pos 100)
    ≡ err client_error
unfolding get_ladder request_server receive
no_code = refl

broken_stream : get_clan loads server by_key (1 ∷ []) ≡ err client_error
unfolding get_clan request_server receive
broken_stream = refl

get_ladder-IsAnswer_example :
    IsAnswer closes
      (loads (join chunks))
      (get_ladder loads server by_key Version.lotv Mode.team_1v1 none 0 (pos 100))
get_ladder-IsAnswer_example =
    get_ladder-IsAnswer loads server by_key Version.lotv Mode.team_1v1 none 0 (pos 100) chunks
      closes (refl, (omega arith, (omega arith, tt)))
