-- ===== src/People/Search.antt =====
-- `SearchView.get` and `PlayerView.get` of main/views/search.py. The comparisons of the database on texts,
-- and Python's `int` and `strip`, are arguments.
use Prim.Native.String.{String, count}
use rankedftw.People.{StoredPlayer, StoredTeam, People, player_objects, team_objects, is_member}
use rankedftw.Prelude.{
  ℕ, zero, suc, ◌+◌, ◌-◌, ◌*◌, ◌==◌, ◌&&◌, ◌||◌, ltb, Bool, false, Option, none, some, List, [],
  ◌∷◌, length, take, drop, if◌then◌else◌,
}
use rankedftw.Prelude.Clock.{Day}
use rankedftw.Prelude.Int.{ℤ, sub_ℕ, pos_part, ◌==ℤ◌}
use rankedftw.Prelude.Objects.{filter, get}
use rankedftw.Prelude.Result.{Result, ok, err, does_not_exist}
use rankedftw.Prelude.Sort.{sort_by}
use rankedftw.Remote.Profiles.{Info}

abbrev pub search_size : ℕ
search_size = 32

-- `max(int(...), 0)`, or 0 where `int` raises.
abbrev pub given_offset : Option ℤ → ℕ
given_offset none = 0
given_offset (some i) = pos_part i

-- `q[offset:offset + n]`.
abbrev pub slice {ℓ} : {A : Type ℓ} → ℕ → ℕ → List A → List A
slice offset n xs = take n (drop offset xs)

-- `range(start, stop, step)`, where the fuel is over the number of its places.
abbrev pub range_steps : ℕ → ℕ → ℕ → ℕ → List ℕ
range_steps zero start stop step = []
range_steps (suc fuel) start stop step =
    let rest = range_steps fuel (start + step) stop step in
    if ltb start stop then start ∷ rest else []

abbrev pub range : ℕ → ℕ → ℕ → List ℕ
range start stop step = range_steps (suc stop) start stop step

abbrev pub pages_of : ℕ → ℕ → List ℕ
pages_of offset total = take 12 (range (offset - search_size * 6) total search_size)

abbrev pub last? : List ℕ → Option ℕ
last? [] = none
last? (x ∷ []) = some x
last? (x ∷ y ∷ ys) = last? (y ∷ ys)

abbrev pub is_last : ℕ → Option ℕ → Bool
is_last offset none = false
is_last offset (some page) = offset == page

-- `context['prev']`, which may be below 0.
abbrev pub prev_of : ℕ → Option ℤ
prev_of offset = if offset == 0 then none else some (sub_ℕ offset search_size)

abbrev pub next_of : ℕ → List ℕ → Option ℕ
next_of offset pages = if is_last offset (last? pages) then none else some (offset + search_size)

-- The context that is shown.
pub record Shown : Type 0 where
  pub prev : Option ℤ
  pub next : Option ℕ
  pub count_shown : ℕ
  pub items : List StoredPlayer
  pub pages : List ℕ
  pub offset : ℕ

abbrev pub count_items : ℕ → ℕ → ℕ → ℕ
count_items offset items total =
    if (items == 0) || ltb search_size items then total else items + offset

-- What is shown of the rows of a query.
unfoldable pub show_page : ℕ → List StoredPlayer → Shown
show_page offset q =
    let items = slice offset (search_size + 1) q in
    let total = count_items offset (length items) (length q) in
    let pages = pages_of offset total in
    record {
      prev = prev_of offset;
      next = next_of offset pages;
      count_shown = total;
      items = take search_size items;
      pages = pages;
      offset = offset;
    }

-- The page of a player, no match for the address of a profile, a text that is too short, or a list.
pub data Response : Type 0 where
  to_player : ℕ → Response
  no_match no_search : Response
  listed : Shown → Response

-- `startswith` is `name__istartswith`, and `in_order` is the order of the columns.
pub record Columns : Type 0 where
  pub startswith : String → String → Bool
  pub in_order : StoredPlayer → StoredPlayer → Bool

module _ (columns : Columns) (limit : Day) (people : People) where
  abbrev pub query_of : String → List StoredPlayer
  query_of name =
      sort_by columns.in_order (
        filter (λ (p : StoredPlayer). columns.startswith p.name name) (player_objects limit people))

  abbrev pub search_name : String → ℕ → Response
  search_name name offset =
      if ltb (count name) 2 then no_search else listed (show_page offset (query_of name))

  -- `Player.objects.get`, where a table that breaks its unique key raises.
  abbrev pub go_to : Result StoredPlayer → Result Response
  go_to (ok player) = ok (to_player player.id)
  go_to (err does_not_exist) = ok no_match
  go_to (err e) = err e

  abbrev pub is_profile : ℤ → ℕ → ℕ → StoredPlayer → Bool
  is_profile region realm bid p = (p.bid == bid) && (p.realm == realm) && (p.region ==ℤ region)

  abbrev pub by_info : Info → String → ℕ → Result Response
  by_info none name offset = ok (search_name name offset)
  by_info (some (region, realm, bid)) name offset =
      go_to (get (is_profile region realm bid) (player_objects limit people))

  -- `info` is what `get_bnet_profile_url_info` makes of the stripped name.
  unfoldable pub search : Bool → String → Option ℤ → Info → Result Response
  search json name given info =
      if json
      then ok (search_name name (given_offset given))
      else by_info info name (given_offset given)

  -- The teams of `PlayerView.get`, before they are sorted.
  abbrev pub teams_with : ℕ → List StoredTeam
  teams_with player_id = filter (is_member player_id) (team_objects limit people)
