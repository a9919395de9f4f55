-- ===== src/Remote/Numbers.antt =====
-- The number of a league, from which its parts can be read.
use rankedftw.Remote.Leagues.{
  queue_id_major, queue_id_minor, team_types, bid_of, ask_league, region_url_prefixes, ApiUrl,
  league_url,
}
use rankedftw.Prelude.{
  ◌∙◌, sym, ◌<◌, ap, Option-cases, inl, inr, ℕ, ◌+◌, ◌*◌, ◌%◌, ◌≤◌, some, ◌≡◌, arith, if◌then◌else◌,
  ◌==◌,
}
use rankedftw.Enums.{id_get}
use rankedftw.Prelude.Int.{pos_part, ℤ, pos, negsuc, ◌+ℤ◌}
use rankedftw.Prelude.Result.{ok}

-- A version and a mode, back from their numbers.
abbrev version_from : ℕ → ℤ
version_from major = if major == 0 then pos 0 else if major == 100 then pos 1 else pos 2

abbrev mode_from : ℕ → ℕ → ℤ
mode_from minor team_type =
    if minor == 1 then pos 11 else if minor == 6 then pos 12 else pos (minor * 10 + team_type)

version_from_lem :
    (v : ℤ) (major : ℕ)
    → id_get v queue_id_major ≡ some major
    → (v ≡ version_from major) × (major % 100 ≡ 0) × (major ≤ 200)
unfolding id_get
version_from_lem (negsuc n) major h = ground arith
version_from_lem (pos n) major h = ground arith

mode_from_lem :
    (m : ℤ) (minor team_type : ℕ)
    → id_get m queue_id_minor ≡ some minor
    → id_get m team_types ≡ some team_type
    → (m ≡ mode_from minor team_type) × (minor ≤ 6) × (team_type ≤ 1)
unfolding id_get
mode_from_lem (negsuc n) minor team_type h i = ground arith
mode_from_lem (pos n) minor team_type h i = ground arith

abbrev value : ℤ → ℕ
value b = pos_part b

bid_of-pos : (s k t l : ℕ) → bid_of s k t (pos l) ≡ pos (l + (t * 10 + k * 100 + s * 100000))
unfolding ◌+ℤ◌
bid_of-pos s k t l = ground arith

-- The parts of a call that returns.
ask_league-parts :
    (region version mode : ℤ) (s l : ℕ) (u : ApiUrl) (b : ℤ)
    → ask_league region s version mode (pos l) ≡ ok (u, b)
    → (major : ℕ) × (minor : ℕ) × (t : ℕ) × (version ≡ version_from major)
      × (mode ≡ mode_from minor t)
      × (major % 100 ≡ 0)
      × (major ≤ 200)
      × (minor ≤ 6)
      × (t ≤ 1)
      × (pos_part b ≡ l + (t * 10 + (major + minor) * 100 + s * 100000))
unfolding ask_league
ask_league-parts region version mode s l u b h =
    elim (Option-cases (id_get region region_url_prefixes)) [
      | inl e ↦ absurd (cc (rw e at h))
      | inr (prefix, e) ↦ elim (Option-cases (id_get version queue_id_major)) [
        | inl f ↦ absurd (cc (rw (e, f) at h))
        | inr (major, f) ↦ elim (Option-cases (id_get mode queue_id_minor)) [
          | inl g ↦ absurd (cc (rw (e, f, g) at h))
          | inr (minor, g) ↦ elim (Option-cases (id_get mode team_types)) [
            | inl i ↦ absurd (cc (rw (e, f, g, i) at h))
            | inr (t, i) ↦
                let v = version_from_lem version major f in
                let m = mode_from_lem mode minor t g i in
                let made : ApiUrl × ℤ = (
                  league_url prefix s (major + minor) t (pos l),
                  bid_of s (major + minor) t (pos l),
                ) in
                let got : ApiUrl × ℤ = (u, b) in
                let same : ok made ≡ ok got = rw (e, f, g, i) at h in
                let pair : made ≡ got = cc in
                let number : bid_of s (major + minor) t (pos l) ≡ b = ap (λ p. p.1) pair in
                (
                  major,
                  minor,
                  t,
                  v.0,
                  m.0,
                  v.1,
                  v.2,
                  m.1,
                  m.2,
                  ap pos_part (sym number) ∙ ap pos_part (bid_of-pos s (major + minor) t l),
                )
          ]
        ]
      ]
    ]

-- For leagues below 10: two calls of `fetch_league` that ask with the same number in the table of
-- the caches are for the same season, version, mode and league.
pub ask_league-injective :
    (r1 r2 v1 v2 m1 m2 : ℤ) (s1 s2 l1 l2 : ℕ) (u1 u2 : ApiUrl) (b : ℤ)
    → l1 < 10
    → l2 < 10
    → ask_league r1 s1 v1 m1 (pos l1) ≡ ok (u1, b)
    → ask_league r2 s2 v2 m2 (pos l2) ≡ ok (u2, b)
    → (s1 ≡ s2) × (v1 ≡ v2) × (m1 ≡ m2) × (l1 ≡ l2)
ask_league-injective r1 r2 v1 v2 m1 m2 s1 s2 l1 l2 u1 u2 b low1 low2 h1 h2 =
    let (j1, n1, t1, version1, mode1, whole1, most1, least1, type1, eq1) =
      ask_league-parts r1 v1 m1 s1 l1 u1 b h1 in
    let (j2, n2, t2, version2, mode2, whole2, most2, least2, type2, eq2) =
      ask_league-parts r2 v2 m2 s2 l2 u2 b h2 in
    let same_season : s1 ≡ s2 = omega arith in
    let same_league : l1 ≡ l2 = omega arith in
    let same_type : t1 ≡ t2 = omega arith in
    let same_minor : n1 ≡ n2 = omega arith in
    let same_major : j1 ≡ j2 = omega arith in
    (
      same_season,
      version1 ∙ ap version_from same_major ∙ sym version2,
      mode1 ∙ ap (λ n. mode_from n t1) same_minor ∙ ap (mode_from n2) same_type ∙ sym mode2,
      same_league,
    )
