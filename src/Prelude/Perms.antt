-- ===== src/Prelude/Perms.antt =====
-- Lists up to order: moving parts, and a list that tests split in parts.
use rankedftw.Prelude.{◌++◌, List}
use mathlib.Core.List.{Perm, append_assoc, perm_append_comm}
use mathlib.Core.List.Perm

module _ {ℓ} {A : Type ℓ} where
  -- The first two of three parts are swapped.
  pub append_left_comm-perm : (a b c : List A) → Perm (a ++ (b ++ c)) (b ++ (a ++ c))
  append_left_comm-perm a b c =
      rw (← append_assoc a b c, ← append_assoc b a c) (Perm.append_right c (perm_append_comm a b))

  -- The middle two of four parts are swapped.
  pub append_middle-perm : (a b c d : List A) → Perm ((a ++ b) ++ (c ++ d)) ((a ++ c) ++ (b ++ d))
  append_middle-perm a b c d =
      rw (append_assoc a b (c ++ d), append_assoc a c (b ++ d))
        (Perm.append_left a (append_left_comm-perm b c d))
