-- ===== src/Pages/Filters.antt =====
-- The filters of a link of main/views/ladder.py, when it is followed.
use rankedftw.Prelude.Int.{negsuc, pos, ℤ}
use Prim.Native.String.{String}
use rankedftw.Prelude.{arith, refl, ◌∷◌, ◌<◌, [], ◌∷◌, none, ◌≡◌, ◌++◌, some, ℕ, Option, List}
use rankedftw.Pages.{make_url, tag_of, Paths}
use rankedftw.Pages.Request.{
  Filters, on_tags, on_tag, extract_filters, args_of, query_tags, key_of, or_all,
}
use rankedftw.Enums.{key_get, id_by_keys, id_get, key_by_ids}
use rankedftw.Enums.Region as Region
use rankedftw.Enums.Race as Race
use rankedftw.Enums.League as League

-- None, or an id below a bound.
abbrev pub Chosen : ℕ → Option ℤ → Type 0
Chosen n none = Unit
Chosen n (some (pos k)) = k < n
Chosen n (some (negsuc k)) = ⊥

on_tags-append : (a b : List String) (f : Filters) → on_tags (a ++ b) f ≡ on_tags b (on_tags a f)
on_tags-append [] b f = refl
on_tags-append (t ∷ a) b f = on_tags-append a b (on_tag t f)

abbrev chosen : Option ℤ → Option ℤ → Option ℤ → Filters
chosen region race league = record { region_id = region; race_id = race; league_id = league }

region_tags :
    (race league id : Option ℤ)
    → Chosen 5 id
    → on_tags (tag_of (or_all (key_of Region.mapping id))) (chosen none race league)
      ≡ chosen id race league
unfolding on_tag key_get id_by_keys id_get key_by_ids
region_tags race league none h = refl
region_tags race league (some (pos ℕ.zero)) h = refl
region_tags race league (some (pos (ℕ.suc ℕ.zero))) h = refl
region_tags race league (some (pos (ℕ.suc (ℕ.suc ℕ.zero)))) h = refl
region_tags race league (some (pos (ℕ.suc (ℕ.suc (ℕ.suc ℕ.zero))))) h = refl
region_tags race league (some (pos (ℕ.suc (ℕ.suc (ℕ.suc (ℕ.suc ℕ.zero)))))) h = refl
region_tags race league (some (pos (ℕ.suc (ℕ.suc (ℕ.suc (ℕ.suc (ℕ.suc n))))))) h =
    absurd (omega (arith, h))
region_tags race league (some (negsuc n)) h = absurd h

race_tags :
    (region league id : Option ℤ)
    → Chosen 4 id
    → on_tags (tag_of (key_of Race.mapping id)) (chosen region none league)
      ≡ chosen region id league
unfolding on_tag key_get id_by_keys id_get key_by_ids
race_tags region league none h = refl
race_tags region league (some (pos ℕ.zero)) h = refl
race_tags region league (some (pos (ℕ.suc ℕ.zero))) h = refl
race_tags region league (some (pos (ℕ.suc (ℕ.suc ℕ.zero)))) h = refl
race_tags region league (some (pos (ℕ.suc (ℕ.suc (ℕ.suc ℕ.zero))))) h = refl
race_tags region league (some (pos (ℕ.suc (ℕ.suc (ℕ.suc (ℕ.suc n)))))) h = absurd (omega (arith, h))
race_tags region league (some (negsuc n)) h = absurd h

league_tags :
    (region race id : Option ℤ)
    → Chosen 7 id
    → on_tags (tag_of (key_of League.mapping id)) (chosen region race none) ≡ chosen region race id
unfolding on_tag key_get id_by_keys id_get key_by_ids
league_tags region race none h = refl
league_tags region race (some (pos ℕ.zero)) h = refl
league_tags region race (some (pos (ℕ.suc ℕ.zero))) h = refl
league_tags region race (some (pos (ℕ.suc (ℕ.suc ℕ.zero)))) h = refl
league_tags region race (some (pos (ℕ.suc (ℕ.suc (ℕ.suc ℕ.zero))))) h = refl
league_tags region race (some (pos (ℕ.suc (ℕ.suc (ℕ.suc (ℕ.suc ℕ.zero)))))) h = refl
league_tags region race (some (pos (ℕ.suc (ℕ.suc (ℕ.suc (ℕ.suc (ℕ.suc ℕ.zero))))))) h = refl
league_tags region race (some (pos (ℕ.suc (ℕ.suc (ℕ.suc (ℕ.suc (ℕ.suc (ℕ.suc ℕ.zero)))))))) h = refl
league_tags region race (some (pos (ℕ.suc (ℕ.suc (ℕ.suc (ℕ.suc (ℕ.suc (ℕ.suc (ℕ.suc n))))))))) h =
    absurd (omega (arith, h))
league_tags region race (some (negsuc n)) h = absurd h

-- An empty query has one tag, which no table has.
query_tags_lem : (tags : List String) (f : Filters) → on_tags (query_tags tags) f ≡ on_tags tags f
unfolding on_tag key_get id_by_keys
query_tags_lem [] f = refl
query_tags_lem (tag ∷ tags) f = refl

-- For a region, race and league that are none or one of those that can be chosen, the filters of a
-- link that is made with them are read back from its tags as they were.
pub extract_filters-args_of :
    (paths : Paths) (f : Filters) (team_id : ℕ) (offset : Option ℤ)
    → Chosen 5 f.region_id
    → Chosen 4 f.race_id
    → Chosen 7 f.league_id
    → extract_filters (query_tags (make_url paths (args_of f team_id) offset).filters) ≡ f
unfolding extract_filters make_url args_of
extract_filters-args_of paths f team_id offset region race league =
    let a = tag_of (or_all (key_of Region.mapping f.region_id)) in
    let b = tag_of (key_of League.mapping f.league_id) in
    let c = tag_of (key_of Race.mapping f.race_id) in
    rw
      (
        query_tags_lem (a ++ (b ++ c)) (chosen none none none),
        on_tags-append a (b ++ c) (chosen none none none),
        on_tags-append b c (on_tags a (chosen none none none)),
        region_tags none none f.region_id region,
        league_tags f.region_id none f.league_id league,
        race_tags f.region_id f.league_id f.race_id race,
      )
      refl
