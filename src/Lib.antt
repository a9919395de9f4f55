-- ===== src/Lib.antt =====
-- Verification of the Python server code of rankedftw: the tables of main/models.py, the choice and the
-- switch of seasons, the fetch and the refetch of ladders, the loop that updates rankings, the
-- categorizer of ladders, the deletion and the archive of old rankings, the remote API, the purge of
-- players, the pages of ladders, searches, clans, teams and statistics, and two of the scripts.
--
-- The program fetches the ladders of a game's regions from a remote API, saves each answer as a row of
-- `Cache`, groups them in `Ranking` rows, one every now and then, and shows teams and statistics of the
-- rankings. Seasons follow each other; each ranking belongs to one. The fetcher finds out that the
-- season has changed and then opens the next one; the deleter thins out the rankings.
--
-- Prelude: the names of the library that all files use, and Prelude/Int (the integers of the enums),
--   Prelude/Result (Python's exceptions as values), Prelude/Objects (`filter`, `get` and `first` of a
--   Django manager on the list of the rows), Prelude/Clock (dates as day numbers, datetimes in UTC as
--   microseconds; `date.year` by the Gregorian rule), Prelude/Sort (a stable sort).
-- Enums: `EnumMeta`, `EnumBase`, `Race`, `League`, `Region`, `Version`, `Mode` and the positions in
--   `RankingStats` of main/models.py. Enums/Lookup and Enums/Stats hold the theorems.
-- Store: the rows and the tables of main/models.py. Store/Action is code that reads and writes the
--   tables and may raise; a raise keeps what was written unless an `atomic` encloses it. Store/Rows is
--   `save()`, and Store/Keys what a query finds after it.
-- Season: the methods and queries of `Season` in main/models.py. Season/Chain says what the table of
--   seasons holds (`IsChain`), Season/Queries what the queries then find.
-- FetchNew: `create_new_season` of main/fetch_new.py, with FetchNew/Chain on the table of seasons.
--   FetchNew/Switch holds `update_season_cache` and `fetch_new`, whose two tries are counted down.
-- Fetch: `fetch_new_in_region`, `fetch_new_in_league` and `fetch_new_ladder` of main/fetch.py.
--   Fetch/Answers holds what the API answers and the tries for a league, which are counted down from
--   four as `range(1, 5)` counts. Fetch/Ladders is about the table of ladders, Fetch/Leagues and
--   Fetch/Regions about what the fetch does to it. Fetch/Cached is `update_ladder_cache`, with
--   Fetch/Sources on what it leaves.
-- Categorizer: main/categorizer.py, of which Categorizer/Modes is `get_version_mode_league`; Join and
--   Determine are what is shown.
-- Retention: `DataDeleter.delete_old_rankings` of main/delete.py. Flags to Sources and Spacing follow a
--   keep flag through the steps and the sorts; Keeps, Seasons, Purge, Gaps and Links say what is left.
-- Deletion: the other methods of `DataDeleter` in main/delete.py, with Deletion/Rankings and
--   Deletion/Ladders on what refers to the deleted rows.
-- Update: main/update.py. The back off of `FetcherThread.do_run`; Update/Queues and Update/Batches its
--   queues and how they are filled; Update/Save and Update/Until `UpdateManager`; Update/Copy and
--   Update/Switch `countinously_update`. Interleave, Fairness, Backlog, Partition, Ends, Copied, Onward
--   and Hours hold what is said of these.
-- Refetch: main/refetch.py and `Ranking.set_data_time`. Refetch/Missing, Refetch/Past and
--   Refetch/Seasons are its three functions; Good, Due and Times say what they leave.
-- Archive: main/archive.py, and `iterate_query_chunked` of common/utils.py, which is Archive/Chunks. Its
--   fuel is one more than the rows of the query. Archive/Files holds the open file and the calls of
--   `check_stop`, Archive/Load the loading; Written, Restored, Roundtrip, Loads, Rows, Steps and Whole
--   are what is shown.
-- Api: `ApiLadder` of main/battle_net.py, with Api/Bounds on the members of a ladder.
-- People: `Player` and `Team` of main/models.py, main/purge.py (People/Purge, and People/Left on what is
--   left), the search of main/views/search.py (People/Search, and People/Listed on its pages), and
--   main/views/team.py (People/Teams, with Members and Theirs on the team that is found).
-- Clans: the overview and the rows of main/views/clan.py, with Clans/Shown on what is shown.
-- Client: main/client.py, with Client/Joined on the answer as the stream cuts it.
-- Remote: the rest of main/battle_net.py but for its debug logs. Remote/Leagues is what is asked for,
--   Remote/Answers the documents that come back, Remote/Profiles the addresses of profiles; Numbers,
--   Statuses and Refers are what is shown.
-- Pages: main/views/ladder.py. Pages/Request what a request asks for, Pages/Nav and Pages/Paging the
--   links, Pages/Teams the rows; Covers and Filters are about the links.
-- Views: the parts of main/views/base.py that compute, and `cache_value` of common/cache.py.
--   Views/Statistics is main/views/stats.py, with Views/Modified on its conditional requests.
-- Scripts: the status and the argument for regions of tasks/base.py. Scripts/Stale is
--   tasks/check-api-data-stale.py, with Scripts/Ages on its verdict, and Scripts/Repair
--   tasks/repair_ranking.py, with Scripts/Spared on the caches that it leaves and
--   Scripts/Sourced on the sources that the ranking has then (by Any and Linked).
--
-- All recursion is on the list that the code loops over, or on the tries that are left, but for three
-- loops on fuel. `interleave` has one more than the ladders and batches in its queues: each round takes
-- one. The chunked query of Archive has one more than its rows: each chunk takes one. A Python `range` of
-- People/Search has one more than its end: each place is over the one before.
-- A loop that runs until `check_stop` is a run over the list of its turns. The threads of main/update.py
-- meet in their queues only; the C++ module and the ping of the server are arguments, by what their calls
-- return or raise. Ids, counts and times are naturals without a bound, as Python's integers are; where a
-- datetime would fall before the first one the model raises as Python does. A row that is missing, or an
-- attribute of `None`, is an exception. What the remote API answers, the time and the calls of
-- `check_stop` are arguments, one value for each call of a run.
--
-- Not modelled: log lines and the text of exceptions, the concurrency control of the database
-- (`select_for_update`), what the C++ module writes to its tables, when the cache of
-- pages expires, the JSON forms, the menus and the rendering of pages; the page of a clan but for its
-- rows, the other helpers of common/utils.py, and the other scripts in tasks, which call the classes
-- above or print tables; the C++ code and the browser code, which are in other languages.
pub mod Prelude
pub mod Enums
pub mod Store
pub mod Season
pub mod FetchNew
pub mod Categorizer
pub mod Retention
pub mod Fetch
pub mod Deletion
pub mod Update
pub mod Refetch
pub mod Pages
pub mod Api
pub mod Archive
pub mod Remote
pub mod People
pub mod Client
pub mod Clans
pub mod Scripts
pub mod Views
