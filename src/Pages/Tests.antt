-- ===== src/Pages/Tests.antt =====
-- A ladder page of 20 pages, and the links of its filters.
use rankedftw.Prelude.Int.{pos}
use rankedftw.Prelude.Result.{does_not_exist, ok, err}
use rankedftw.Prelude.{true, refl, arith, [], ◌≡◌, ◌∷◌, some, none}
use rankedftw.Pages.{Paths, make_url, age_of, minutes, hours, update_age}
use rankedftw.Pages.Request.{
  Filters, extract_filters, args_of, query_tags, extract_common, extract_rest,
}
use rankedftw.Pages.Paging.{paginate, page_count, current_page_plus_1}
use rankedftw.Pages.Covers.{has_page, paginate-has_page}
use rankedftw.Pages.Filters.{extract_filters-args_of}

abbrev paths : Paths
paths = record { version = some "lotv"; mode = some "1v1"; reverse = none; sort_key = some "mmr" }

abbrev filters : Filters
filters = record { region_id = some (pos 1); race_id = none; league_id = some (pos 6) }

-- The page of the offset 930 is the tenth of 20, counted from 0.
counts : (page_count 1930 930 ≡ 20) × (current_page_plus_1 1930 930 ≡ 11)
counts = (refl, refl)

paginate-has_page_example : has_page 7 (paginate paths (args_of filters 0) 1930 930) ≡ true
paginate-has_page_example = paginate-has_page paths (args_of filters 0) 1930 930 7

extract_filters-args_of_example :
    extract_filters (query_tags (make_url paths (args_of filters 0) none).filters) ≡ filters
extract_filters-args_of_example =
    extract_filters-args_of paths filters 0 none (omega arith) tt (omega arith)

ages :
    update_age 10000 (some 9999 ∷ none ∷ some 2000 ∷ [])
    ≡ some (minutes 1) ∷ none ∷ some (hours 2) ∷ []
unfolding age_of
ages = refl

common : extract_common (some "-") (some "wins") ≡ ok (true, 2)
unfolding extract_common
common = refl

no_such_version : extract_rest (some "unknown") (some "1v1") none none ≡ err does_not_exist
unfolding extract_rest
no_such_version = refl
