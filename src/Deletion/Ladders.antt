-- ===== src/Deletion/Ladders.antt =====
-- `delete_ladders` of main/delete.py: the ladders and the caches that refer to them.
use rankedftw.Prelude.Objects.{filter}
use rankedftw.Store.{Cache, Ladder, Db}
use rankedftw.Deletion.{
  is_stale, is_source_of, stale_ids, drop_ladders, when, is_in, delete_ladders,
}
use rankedftw.Prelude.{
  refl, arith, inr, inl, ◌||◌, none, [], Option-cases, Bool-cases, ◌≡◌, ◌==◌, some, ◌∷◌, true, not,
  false, Option, ℕ, List, Bool,
}
use rankedftw.Store.Action.{atomic, lift, ◌>>◌}
use rankedftw.Prelude.Result.{Result, ok, err}

-- Whether a ladder of the table has the id.
abbrev pub has_ladder_id : ℕ → List Ladder → Bool
has_ladder_id k [] = false
has_ladder_id k (l ∷ ls) = (l.id == k) || has_ladder_id k ls

abbrev pub has_owner : List Ladder → Option ℕ → Bool
has_owner ls none = true
has_owner ls (some k) = has_ladder_id k ls

-- Every foreign key of a cache to a ladder is null or the id of a ladder.
abbrev pub IsOwned : List Ladder → List Cache → Type 0
IsOwned ls [] = Unit
IsOwned ls (c ∷ cs) = (has_owner ls c.ladder_id ≡ true) × IsOwned ls cs

kept_id :
    (keep : List ℕ) (k : ℕ) (ls : List Ladder)
    → is_in k (stale_ids keep ls) ≡ false
    → has_ladder_id k ls ≡ true
    → has_ladder_id k (filter (λ l. not (is_stale keep l)) ls) ≡ true
kept_id keep k [] out h = h
kept_id keep k (l ∷ ls) out h = elim (Bool-cases (is_stale keep l)) [
  | inl stale ↦
      let out' : ((l.id == k) || is_in k (stale_ids keep ls)) ≡ false = rw stale at out in
      rw stale (kept_id keep k ls (ground (arith, out')) (ground (arith, out', h)))
  | inr stays ↦
      let out' : is_in k (stale_ids keep ls) ≡ false = rw stays at out in
      rw stays (ground (arith, h, kept_id keep k ls out'))
]

kept_owner :
    (keep : List ℕ) (ls : List Ladder) (c : Cache)
    → not (is_source_of (stale_ids keep ls) c.ladder_id) ≡ true
    → has_owner ls c.ladder_id ≡ true
    → has_owner (filter (λ l. not (is_stale keep l)) ls) c.ladder_id ≡ true
kept_owner keep ls c out h = elim (Option-cases c.ladder_id) [
  | inl e ↦ rw e refl
  | inr (k, e) ↦
      let outside : is_in k (stale_ids keep ls) ≡ false = ground (arith, out, e) in
      rw e (kept_id keep k ls outside (cc (h, e)))
]

IsOwned-filter :
    (keep : List ℕ) (ls : List Ladder) (cs : List Cache)
    → IsOwned ls cs
    → IsOwned
        (filter (λ l. not (is_stale keep l)) ls)
        (filter (λ (c : Cache). not (is_source_of (stale_ids keep ls) c.ladder_id)) cs)
IsOwned-filter keep ls [] h = tt
IsOwned-filter keep ls (c ∷ cs) h =
    elim (Bool-cases (not (is_source_of (stale_ids keep ls) c.ladder_id))) [
      | inl out ↦ rw out (kept_owner keep ls c out h.0, IsOwned-filter keep ls cs h.1)
      | inr within ↦ rw within (IsOwned-filter keep ls cs h.1)
    ]

ladders_result :
    (do_delete : Bool) (keep : List ℕ) (db : Db) (r : Result (Unit {0}))
    → IsOwned db.ladders db.caches
    → IsOwned
        (atomic (lift r >> when do_delete (drop_ladders keep)) db).1.ladders
        (atomic (lift r >> when do_delete (drop_ladders keep)) db).1.caches
ladders_result true keep db (ok done) h = IsOwned-filter keep db.ladders db.caches h
ladders_result false keep db (ok done) h = h
ladders_result do_delete keep db (err e) h = h

-- Where every foreign key of a cache to a ladder is null or the id of a ladder, it is so after
-- `delete_ladders`, dry or not, and whether or not it raises.
pub delete_ladders-IsOwned :
    (do_delete : Bool) (keep : List ℕ) (db : Db)
    → IsOwned db.ladders db.caches
    → IsOwned
        (delete_ladders do_delete keep db).1.ladders
        (delete_ladders do_delete keep db).1.caches
unfolding delete_ladders
delete_ladders-IsOwned do_delete keep db h = ladders_result do_delete keep db _ h
