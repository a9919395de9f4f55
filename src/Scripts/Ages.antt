-- ===== src/Scripts/Ages.antt =====
-- The ages of the regions, by the rankings alone.
use rankedftw.Prelude.{
  ◌||◌, ℕ, ◌&&◌, not, Bool, true, false, Option, none, some, List, [], ◌∷◌, ◌≡◌, refl, sym, ap, ◌∙◌,
  inl, inr, arith, Bool-cases, Option-cases, if◌then◌else◌,
}
use rankedftw.Prelude.Int.{pos, ltb_ℤ, ℤ, ◌==ℤ◌, ==ℤ_iff}
use rankedftw.Prelude.Result.{map_ok, Result-cases, Result, ok, err, or_raise, key_error, ◌>>=◌}
use Prim.Native.Nat.{max}
use rankedftw.Prelude.Clock.{Time}
use rankedftw.Prelude.Objects.{filter}
use rankedftw.Scripts.Stale.{
  Counts, look, differs, set_times, are_none_left, scan, is_region, as_set, days_of, level, worst,
  times_of, check_ages,
}
use rankedftw.Store.{Ranking}

abbrev pub first_of {ℓ} : {V : Type ℓ} → Option V → Option V → Option V
first_of none o = o
first_of (some v) o = some v

module _ (games_played : ℕ → Counts) (latest : Counts) where
  -- The time of the last ranking before the first, in which the count of a region is another.
  abbrev pub differs_at : ℤ → List Ranking → Option Time
  differs_at g [] = none
  differs_at g (r ∷ rs) =
      if differs latest (games_played r.id) g then some r.data_time else differs_at g rs

and_false : (b : Bool) → (b && false) ≡ false
and_false true = refl
and_false false = refl

if-same {ℓ} : {A : Type ℓ} (b : Bool) (x : A) → (if b then x else x) ≡ x
if-same true x = refl
if-same false x = refl

and_true : (b : Bool) → (b && true) ≡ b
and_true true = refl
and_true false = refl

is_region-filter :
    (p : ℤ → Bool) (g : ℤ) (gs : List ℤ) → is_region g (filter p gs) ≡ (is_region g gs && p g)
is_region-filter p g [] = refl
is_region-filter p g (h ∷ hs) = elim (Bool-cases (h ==ℤ g)) [
  | inl e ↦
      let same : h ≡ g = (==ℤ_iff h g).0 e in
      elim (Bool-cases (p h)) [
        | inl f ↦ rw (f, e, ← same, f) refl
        | inr f ↦
            let at_g : p g ≡ false = ap p (sym same) ∙ f in
            rw (f, e, is_region-filter p g hs, at_g) (and_false (is_region g hs))
      ]
  | inr e ↦ elim (Bool-cases (p h)) [
    | inl f ↦ rw (f, e) (is_region-filter p g hs)
    | inr f ↦ rw (f, e) (is_region-filter p g hs)
  ]
]

look-set_times :
    (p : ℤ → Bool) (t : Time) (g : ℤ) (gs : List ℤ) (times : List (ℤ × Time))
    → look g (set_times p t gs times) ≡ (if is_region g gs && p g then some t else look g times)
look-set_times p t g [] times = refl
look-set_times p t g (h ∷ hs) times = elim (Bool-cases (h ==ℤ g)) [
  | inl e ↦
      let same : h ≡ g = (==ℤ_iff h g).0 e in
      elim (Bool-cases (p h)) [
        | inl f ↦
            let at_g : p g ≡ true = ap p (sym same) ∙ f in
            rw (f, look-set_times p t g hs ((h, t) ∷ times), e, at_g)
              (if-same (is_region g hs && true) (some t))
        | inr f ↦
            let at_g : p g ≡ false = ap p (sym same) ∙ f in
            rw (f, look-set_times p t g hs times, e, at_g, and_false (is_region g hs)) refl
      ]
  | inr e ↦ elim (Bool-cases (p h)) [
    | inl f ↦ rw (f, look-set_times p t g hs ((h, t) ∷ times), e) refl
    | inr f ↦ rw (f, look-set_times p t g hs times, e) refl
  ]
]

is_region-are_none_left : (g : ℤ) (gs : List ℤ) → are_none_left gs ≡ true → is_region g gs ≡ false
is_region-are_none_left g [] h = refl
is_region-are_none_left g (k ∷ ks) h = absurd cc

is_region-as_set : (g : ℤ) (gs : List ℤ) → is_region g (as_set gs) ≡ is_region g gs
is_region-as_set g [] = refl
is_region-as_set g (h ∷ hs) = elim (Bool-cases (is_region h (as_set hs))) [
  | inl e ↦ elim (Bool-cases (h ==ℤ g)) [
    | inl f ↦
        let same : h ≡ g = (==ℤ_iff h g).0 f in
        rw (e, f) (ap (λ k. is_region k (as_set hs)) (sym same) ∙ e)
    | inr f ↦ rw (e, f) (is_region-as_set g hs)
  ]
  | inr e ↦ rw (e, is_region-as_set g hs) refl
]

-- One ranking: `m` and `b` say whether the region is among the rest and differs, `d` is what the later
-- rankings give, and `l`, `now` and `rest` are the lookups before, after and at the end.
after_rest :
    (m b : Bool) (t : Time) (d l now rest : Option Time)
    → now ≡ (if m && b then some t else l)
    → rest ≡ (if m && not b then first_of d now else now)
    → rest ≡ (if m then first_of (if b then some t else d) l else l)
after_rest true true t d l now rest e f = f ∙ e
after_rest true false t d l now rest e f = f ∙ ap (first_of d) e
after_rest false b t d l now rest e f = f ∙ e

after_last :
    (m b : Bool) (t : Time) (d l now : Option Time)
    → now ≡ (if m && b then some t else l)
    → (m && not b) ≡ false
    → now ≡ (if m then first_of (if b then some t else d) l else l)
after_last true true t d l now e h = e
after_last true false t d l now e h = absurd cc
after_last false b t d l now e h = e

module _ (games_played : ℕ → Counts) (latest : Counts) where
  look-scan :
      (g : ℤ) (rs : List Ranking) (gs : List ℤ) (times : List (ℤ × Time))
      → look g (scan games_played latest rs gs times) ≡ (
          if is_region g gs
          then first_of (differs_at games_played latest g rs) (look g times)
          else look g times)
  unfolding scan
  look-scan g [] gs times = sym (if-same (is_region g gs) (look g times))
  look-scan g (r ∷ rs) gs times =
      let p : ℤ → Bool = differs latest (games_played r.id) in
      let left : List ℤ = filter (λ h. not (p h)) gs in
      let now : List (ℤ × Time) = set_times p r.data_time gs times in
      let there : is_region g left ≡ (is_region g gs && not (p g)) =
        is_region-filter (λ h. not (p h)) g gs in
      let set_now = look-set_times p r.data_time g gs times in
      let later = look-scan g rs left now in
      let d = differs_at games_played latest g rs in
      elim (Bool-cases (are_none_left left)) [
        | inl stop ↦ rw stop (
            after_last (is_region g gs) (p g) r.data_time d (look g times) (look g now) set_now
              (sym there ∙ is_region-are_none_left g left stop))
        | inr on ↦ rw on (
            after_rest (is_region g gs) (p g) r.data_time d (look g times) (look g now)
              (look g (scan games_played latest rs left now)) set_now (rw there at later))
      ]

-- The ages of the regions, of those that differ somewhere.
unfoldable pub ages_of : (ℤ → Option Time) → Time → List ℤ → Result (List ℤ)
ages_of at time [] = ok []
ages_of at time (g ∷ gs) =
    let rest = ages_of at time gs in
    do diff ← or_raise (at g) key_error; ages ← rest; ok (days_of time diff ∷ ages)

abbrev pub any_over : ℕ → List ℤ → Bool
any_over n [] = false
any_over n (age ∷ ages) = ltb_ℤ (pos n) age || any_over n ages

-- The status that the ages call for.
abbrev pub verdict : List ℤ → ℕ
verdict ages = if any_over 4 ages then 2 else if any_over 1 ages then 1 else 0

verdict-cons : (age : ℤ) (ages : List ℤ) → verdict (age ∷ ages) ≡ max (level age) (verdict ages)
verdict-cons age ages = ground arith

max_assoc : (a b c : ℕ) → max (max a b) c ≡ max a (max b c)
max_assoc a b c = omega arith

first_of-none : (o : Option Time) → first_of o none ≡ o
first_of-none none = refl
first_of-none (some t) = refl

map_ok-max : (r : Result (List ℤ)) → map_ok (λ ages. max 0 (verdict ages)) r ≡ map_ok verdict r
map_ok-max (ok ages) = ap ok (omega arith)
map_ok-max (err e) = refl

worst-verdict :
    (time : Time) (times : List (ℤ × Time)) (at : ℤ → Option Time) (gs : List ℤ) (status : ℕ)
    → ((g : ℤ) → is_region g gs ≡ true → look g times ≡ at g)
    → worst time times gs status ≡ map_ok (λ ages. max status (verdict ages)) (ages_of at time gs)
unfolding worst ages_of
worst-verdict time times at [] status h = ap ok (omega arith)
worst-verdict time times at (g ∷ gs) status h =
    let here : look g times ≡ at g =
      h g (ap (λ b. if b then true else is_region g gs) ((==ℤ_iff g g).1 refl)) in
    elim (Option-cases (at g)) [
      | inl e ↦ rw (here, e) refl
      | inr (diff, e) ↦
          let now = max status (level (days_of time diff)) in
          let rest =
            worst-verdict time times at gs now
              (λ k there. h k (rw there (if-same (g ==ℤ k) true))) in
          elim (Result-cases (ages_of at time gs)) [
            | inl (ages, f) ↦
                rw (here, e, rest, f, verdict-cons (days_of time diff) ages)
                  (ap ok (max_assoc status (level (days_of time diff)) (verdict ages)))
            | inr (x, f) ↦ rw (here, e, rest, f) refl
          ]
    ]

-- For any rankings, the last first, and any regions: the status of the check is that of the ages by
-- themselves, 2 when one is over 4 days, else 1 when one is over 1 day, else 0, where the age of a
-- region is the time from the last ranking before it in which the count of the region is another; a
-- region without such a ranking makes the check raise.
pub check_ages-verdict :
    (games_played : ℕ → Counts) (regions : List ℤ) (r : Ranking) (rs : List Ranking)
    → check_ages games_played regions (r ∷ rs)
      ≡ map_ok verdict
          (ages_of (λ g. differs_at games_played (games_played r.id) g rs) r.data_time regions)
check_ages-verdict games_played regions r rs =
    let latest = games_played r.id in
    let at : ℤ → Option Time = λ g. differs_at games_played latest g rs in
    worst-verdict r.data_time (times_of games_played regions r rs) at regions 0 (λ g there.
      look-scan games_played latest g rs (as_set regions) []
      ∙ rw (is_region-as_set g regions, there) (first_of-none (at g)))
    ∙ map_ok-max (ages_of at r.data_time regions)
