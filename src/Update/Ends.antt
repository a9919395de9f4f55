-- ===== src/Update/Ends.antt =====
-- How `update_until` of main/update.py ends.
use mathlib.Core.Path.{subst}
use rankedftw.Refetch.Past.{subtract}
use rankedftw.Update.Batches.{Thread}
use rankedftw.Season.{get_current_season, end_time, is_open}
use rankedftw.Store.Rows.{save_ranking}
use rankedftw.Prelude.Result.{err, Result-cases, ok, Result}
use rankedftw.Prelude.{
  ◌*◌, ◌∙◌, Bool, arith, ℕ, true, false, inr, inl, Bool-cases, refl, sym, ltb, some, if◌then◌else◌,
  [], ◌≡◌, ◌∷◌, List,
}
use rankedftw.Prelude.Clock.{day, Time}
use rankedftw.Store.{Ladder, Season, complete_with_data, Db, Ranking}
use rankedftw.Refetch.{set_data_time, Cpp}
use rankedftw.Update.Until.{
  minute, update_popped, passed, update_until, start_when_due, save_when_due, Turn, Timers, turns,
  do_turn, check_current,
}
use rankedftw.Update.Save.{save_ranked, ranking_key, reload}
use rankedftw.Store.Action.{continue_ok, pure, continue_cong, bind_lift, ◌>>=◌}
use rankedftw.Store.Keys.{find-saved, find}

-- The turns before the first whose time is past the end.
abbrev pub in_time : Time → List Turn → List Turn
in_time until [] = []
in_time until (turn ∷ later) = if ltb until turn.now then [] else turn ∷ in_time until later

-- Over any turns, timers and database, the loop of `update_until` does what it does over the turns
-- before the first whose time is past the end.
turns-in_time :
    (until : Time) (run : List Turn) (t : Timers) (db : Db)
    → turns until run t db ≡ turns until (in_time until run) t db
unfolding turns
turns-in_time until [] t db = refl
turns-in_time until (turn ∷ later) t db = elim (Bool-cases (ltb until turn.now)) [
  | inl over ↦ rw over refl
  | inr going ↦
      rw (going, going)
        (continue_cong _ _ (check_current turn.now t db) (λ (broken, checked) now.
          elim broken
            as (λ b.
              (if b then pure checked else (do_turn turn checked >>= turns until later)) now
              ≡ (if b
                    then pure checked
                    else (do_turn turn checked >>= turns until (in_time until later)))
                  now) [
                    | true ↦ refl
                    | false ↦
                        continue_cong _ _ (do_turn turn checked now)
                          (λ next after. turns-in_time until later next after)
                  ]))
]

-- The row that a ranking has after a save.
abbrev pub IsSaved : ℕ → Ranking → Db → Type 0
IsSaved id r db =
    (r.id ≡ id) × (find ranking_key id db.rankings ≡ some r) × (r.status ≡ complete_with_data)

set_data_time-id :
    (season : Season) (times : ℕ × ℕ) (ranking timed : Ranking)
    → set_data_time season times ranking ≡ ok timed
    → timed.id ≡ ranking.id
unfolding set_data_time
set_data_time-id season (a, b) ranking timed h = elim (Bool-cases (is_open season)) [
  | inl e ↦ let same : ok _ ≡ ok timed = rw e at h in ground (arith, same)
  | inr e ↦ elim (Result-cases (end_time season)) [
    | inl (t, f) ↦ let same : ok _ ≡ ok timed = rw (e, f) at h in ground (arith, same)
    | inr (x, f) ↦ let same : err x ≡ ok timed = rw (e, f) at h in cc
  ]
]

save_ranked-IsSaved :
    (cpp : Cpp) (ping : Result (Unit {0})) (ranking r : Ranking) (db : Db)
    → (save_ranked cpp ping ranking db).0 ≡ ok r
    → IsSaved ranking.id r (save_ranked cpp ping ranking db).1
unfolding save_ranked
save_ranked-IsSaved cpp ping ranking r db =
    let Q = IsSaved ranking.id r in
    bind_lift Q r (reload ranking.season_id db.seasons) _ db (λ season e.
      bind_lift Q r (set_data_time season cpp.min_max_data_time ranking) _ db (λ timed is_timed.
        bind_lift Q r (cpp.save_data timed.id timed.season_id) _ db (λ a e.
          bind_lift Q r (cpp.save_stats timed.id) _ db (λ b e.
            let row = record timed { status = complete_with_data } in
            let id = set_data_time-id season cpp.min_max_data_time ranking timed is_timed in
            bind_lift Q r ping _ (save_ranking row db) (λ c e h.
              let same : row ≡ r = cc in
              rw (sym same) (id, find-saved ranking_key ranking.id row db.rankings id, refl))))))

start_when_due-ranking :
    (now : Time) (ladders : List Ladder) (t : Timers)
    → (start_when_due now ladders t).ranking ≡ t.ranking
unfolding start_when_due
start_when_due-ranking now ladders t = ground arith

save_when_due-id :
    (turn : Turn) (t e : Timers) (db : Db)
    → (save_when_due turn t db).0 ≡ ok e
    → e.ranking.id ≡ t.ranking.id
unfolding save_when_due
save_when_due-id turn t e db = elim (Bool-cases (passed turn.now t.last_save minute)) [
  | inl due ↦ rw due (
      continue_ok (λ now. e.ranking.id ≡ t.ranking.id) e _
        (save_ranked turn.cpp turn.ping t.ranking db)
        (λ r saved h.
          let id = (save_ranked-IsSaved turn.cpp turn.ping t.ranking r db saved).0 in
          let same : record t { ranking = r; last_save = turn.saved_at } ≡ e = cc in
          rw (sym same) id))
  | inr early ↦ rw early (λ h. let same : t ≡ e = cc in rw (sym same) refl)
]

do_turn-id :
    (turn : Turn) (t e : Timers) (db : Db)
    → (do_turn turn t db).0 ≡ ok e
    → e.ranking.id ≡ t.ranking.id
unfolding do_turn
do_turn-id turn t e db =
    let seen = record t { threads = turn.fetchers t.threads } in
    continue_ok (λ now. e.ranking.id ≡ t.ranking.id) e _ (save_when_due turn seen db)
      (λ saved is_saved.
        let begun = start_when_due turn.now (save_when_due turn seen db).1.ladders saved in
        continue_ok (λ now. e.ranking.id ≡ t.ranking.id) e _
          (update_popped turn.cpp begun.ranking.id turn.popped (save_when_due turn seen db).1)
          (λ done is_done h.
            let same : begun ≡ e = cc in
            let id = save_when_due-id turn seen saved db is_saved in
            rw
              (
                sym same,
                start_when_due-ranking turn.now (save_when_due turn seen db).1.ladders saved,
              )
              id))

check_current-id :
    (now : Time) (t e : Timers) (b : Bool) (db : Db)
    → (check_current now t db).0 ≡ ok (b, e)
    → e.ranking.id ≡ t.ranking.id
unfolding check_current
check_current-id now t e b db = elim (Bool-cases (passed now t.last_season_check (30 * minute))) [
  | inl due ↦ rw due (
      continue_ok (λ after. e.ranking.id ≡ t.ranking.id) (b, e) _
        (get_current_season db.seasons, db)
        (λ current found h.
          let same : record t { last_season_check = now } ≡ e = cc in rw (sym same) refl))
  | inr early ↦ rw early (λ h. let same : t ≡ e = cc in rw (sym same) refl)
]

turns-id :
    (until : Time) (run : List Turn) (t e : Timers) (db : Db)
    → (turns until run t db).0 ≡ ok e
    → e.ranking.id ≡ t.ranking.id
unfolding turns
turns-id until [] t e db = λ h. let same : t ≡ e = cc in rw (sym same) refl
turns-id until (turn ∷ later) t e db = elim (Bool-cases (ltb until turn.now)) [
  | inl over ↦ rw over (λ h. let same : t ≡ e = cc in rw (sym same) refl)
  | inr going ↦ rw going (
      continue_ok (λ after. e.ranking.id ≡ t.ranking.id) e _ (check_current turn.now t db)
        (λ (broken, checked) is_checked.
          let id = check_current-id turn.now t checked broken db is_checked in
          elim (Bool-cases broken) [
            | inl stop ↦ rw stop (λ h. let same : checked ≡ e = cc in rw (sym same) id)
            | inr on ↦ rw on (
                continue_ok (λ after. e.ranking.id ≡ t.ranking.id) e _
                  (do_turn turn checked (check_current turn.now t db).1)
                  (λ next is_next h.
                    turns-id until later next e
                      (do_turn turn checked (check_current turn.now t db).1).1 h
                    ∙ do_turn-id turn checked next _ is_next
                    ∙ id))
          ]))
]

save_ranked_at-IsSaved :
    (i : ℕ) (cpp : Cpp) (ping : Result (Unit {0})) (ranking r : Ranking) (db : Db)
    → ranking.id ≡ i
    → (save_ranked cpp ping ranking db).0 ≡ ok r
    → IsSaved i r (save_ranked cpp ping ranking db).1
save_ranked_at-IsSaved i cpp ping ranking r db e h =
    subst (λ k. IsSaved k r (save_ranked cpp ping ranking db).1) e
      (save_ranked-IsSaved cpp ping ranking r db h)

-- Where `update_until` returns a ranking, it has the id of the one it was given, and the row of
-- that id is that ranking, complete with data.
pub update_until-IsSaved :
    (start until : Time) (threads : List Thread) (cpp : Cpp) (ping : Result (Unit {0}))
    (run : List Turn) (ranking r : Ranking) (db : Db)
    → (update_until start until threads cpp ping run ranking db).0 ≡ ok r
    → IsSaved ranking.id r (update_until start until threads cpp ping run ranking db).1
unfolding update_until
update_until-IsSaved start until threads cpp ping run ranking r db =
    bind_lift (IsSaved ranking.id r) r (subtract start (20 * day)) _ db (λ long_ago e.
      continue_ok (IsSaved ranking.id r) r _ (turns until run _ db) (λ ended is_ended h.
        let id = turns-id until run _ ended db is_ended in
        save_ranked_at-IsSaved ranking.id cpp ping ended.ranking r _ id h))
