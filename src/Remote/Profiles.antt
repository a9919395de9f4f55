-- ===== src/Remote/Profiles.antt =====
-- `get_bnet_profile_url_info` of main/battle_net.py: the region, realm and id in the address of a
-- profile. What the two regular expressions match is an argument, by the numbers of their groups.
use Prim.Native.String.{String}
use rankedftw.Enums.{key_get}
use rankedftw.Enums.Region as Region
use rankedftw.Prelude.{ℕ, Option, none, some, List, map, if◌then◌else◌}
use rankedftw.Prelude.Int.{ℤ}
use rankedftw.Remote.{contains}
use rankedftw.Remote.Leagues.{region_ids}

abbrev pub region_by_ids : List (String × ℤ)
region_by_ids = map (λ (r : ℤ × String). (r.1, r.0)) region_ids

-- `.*/(\d+)/(\d+)/(\d+)`, with the text of the first group, and `.*/(\d+)/(\d+)/.*`.
pub record Expressions : Type 0 where
  pub new_style : String → Option (String × ℕ × ℕ)
  pub legacy : String → Option (ℕ × ℕ)

-- The code returns three times `None` where this is none.
abbrev pub Info : Type 0
Info = Option (ℤ × ℕ × ℕ)

abbrev pub with_region : ℕ → ℕ → Option ℤ → Info
with_region realm bid none = none
with_region realm bid (some region) = some (region, realm, bid)

abbrev pub new_info : Option (String × ℕ × ℕ) → Info
new_info none = none
new_info (some (id, realm, bid)) = with_region realm bid (key_get id region_by_ids)

abbrev pub legacy_region : String → Option ℤ
legacy_region url =
    if contains url "eu.battle.net"
    then some Region.eu
    else if contains url "us.battle.net"
    then some Region.am
    else if contains url "kr.battle.net"
    then some Region.kr
    else if contains url "sea.battle.net"
    then some Region.sea
    else if contains url "www.battlenet.com.cn"
    then some Region.cn
    else none

abbrev pub legacy_info : Option ℤ → Option (ℕ × ℕ) → Info
legacy_info region none = none
legacy_info region (some (bid, realm)) = with_region realm bid region

unfoldable pub get_bnet_profile_url_info : Expressions → String → Info
get_bnet_profile_url_info re url =
    if contains url "starcraft2.com"
    then new_info (re.new_style url)
    else legacy_info (legacy_region url) (re.legacy url)
