-- ===== src/Retention/Spacing.antt =====
-- The loop of `delete_old_rankings` of main/delete.py that spaces the rankings: what is kept before
-- one that is not.
use rankedftw.Store.{Ranking}
use rankedftw.Prelude.Sort.{sort_by, insert_by}
use rankedftw.Prelude.Clock.{day, Time}
use rankedftw.Prelude.{
  refl, if◌then◌else◌, ◌⊎◌, zero, true, false, ◌*◌, some, inr, ◌≡◌, ◌+◌, inl, ◌<◌, suc, get_elem?,
  arith, [], Bool-cases, ◌≤◌, ◌∷◌, ℕ, List,
}
use rankedftw.Retention.{keeps_now, Mark, keep_spaced, interval, earlier}

-- `r` is less than its interval after `t`.
abbrev pub IsRecent : Time → Ranking → Time → Type 0
IsRecent last r t = r.data_time < t + interval last r * day

-- No entry has an earlier data time than `t`; data times do not fall.
abbrev NotBefore : Time → List Mark → Type 0
NotBefore t [] = Unit
NotBefore t (m ∷ a) = (t ≤ m.ranking.data_time) × NotBefore t a

abbrev pub IsTimed : List Mark → Type 0
IsTimed [] = Unit
IsTimed (m ∷ a) = NotBefore m.ranking.data_time a × IsTimed a

NotBefore-trans : (s t : Time) (a : List Mark) → s ≤ t → NotBefore t a → NotBefore s a
NotBefore-trans s t [] le h = tt
NotBefore-trans s t (m ∷ a) le h = (omega (arith, h.0), NotBefore-trans s t a le h.1)

NotBefore-insert_by :
    (t : Time) (m : Mark) (a : List Mark)
    → t ≤ m.ranking.data_time
    → NotBefore t a
    → NotBefore t (insert_by earlier m a)
unfolding insert_by
NotBefore-insert_by t m [] le h = (le, tt)
NotBefore-insert_by t m (x ∷ a) le h = ground (arith, NotBefore-insert_by t m a le h.1, h.0)

IsTimed-insert_by : (m : Mark) (a : List Mark) → IsTimed a → IsTimed (insert_by earlier m a)
unfolding insert_by
IsTimed-insert_by m [] h = (tt, tt)
IsTimed-insert_by m (x ∷ a) h = elim (Bool-cases (earlier m x)) [
  | inl first ↦ rw first (
    (ground arith, NotBefore-trans m.ranking.data_time x.ranking.data_time a (ground arith) h.0),
    h,
  )
  | inr later ↦
      rw later
        (NotBefore-insert_by x.ranking.data_time m a (ground arith) h.0, IsTimed-insert_by m a h.1)
]

pub IsTimed-sort_by : (a : List Mark) → IsTimed (sort_by earlier a)
unfolding sort_by
IsTimed-sort_by [] = tt
IsTimed-sort_by (m ∷ a) = IsTimed-insert_by m (sort_by earlier a) (IsTimed-sort_by a)

NotBefore-elem :
    (last : Time) (a : List Mark) (t k : Time) (i : ℕ) {m : Mark}
    → NotBefore t a
    → get_elem? (keep_spaced last k a) i ≡ some m
    → t ≤ m.ranking.data_time
unfolding keep_spaced
NotBefore-elem last [] t k i h e = cc
NotBefore-elem last (x ∷ a) t k zero h e = ground (arith, h.0)
NotBefore-elem last (x ∷ a) t k (suc i) h e = NotBefore-elem last a t _ i h.1 e

-- A kept entry of the list that is not later than `m`, and less than its interval before it.
pub record Anchor (last : Time) (out : List Mark) (m : Mark) : Type 0 where
  pub entry : Mark
  pub at : ℕ
  pub there : get_elem? out at ≡ some entry
  pub is_kept : entry.keep ≡ true
  pub order : entry.ranking.data_time ≤ m.ranking.data_time
  pub recent : IsRecent last m.ranking entry.ranking.data_time

deeper : {last : Time} {out : List Mark} {m x : Mark} → Anchor last out m → Anchor last (x ∷ out) m
deeper g = record {
  entry = g.entry;
  at = suc g.at;
  there = g.there;
  is_kept = g.is_kept;
  order = g.order;
  recent = g.recent;
}

pub spaced_gap :
    (last : Time) (a : List Mark) (k : Time) (i : ℕ) (m : Mark)
    → IsTimed a
    → get_elem? (keep_spaced last k a) i ≡ some m
    → m.keep ≡ false
    → IsRecent last m.ranking k ⊎ Anchor last (keep_spaced last k a) m
unfolding keep_spaced
spaced_gap last [] k i m h e d = cc
spaced_gap last (x ∷ a) k zero m h e d = inl (ground arith)
spaced_gap last (x ∷ a) k (suc i) m h e d =
    let keep = keeps_now last k x in
    let k' : Time = if keep then x.ranking.data_time else k in
    elim (spaced_gap last a k' i m h.1 e d) [
      | inr g ↦ inr (deeper g)
      | inl near ↦ elim (Bool-cases keep) [
        | inl was ↦ inr (record {
          entry = record x { keep = keep };
          at = 0;
          there = refl;
          is_kept = was;
          order = NotBefore-elem last a x.ranking.data_time k' i h.0 e;
          recent = rw was at near;
        })
        | inr was_not ↦ inl (rw was_not at near)
      ]
    ]
