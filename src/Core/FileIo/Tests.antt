-- ===== src/Core/FileIo/Tests.antt =====
-- Disks at which the theorems about files apply.
use mpcc.Common.{◌≡◌, refl, Bool, true, none, [], ◌∷◌, codes, length, arith}
use mpcc.Core.FileIo.{
  Os, Disk, good, made, getlines, unlines, atomic_write_lines, parent_dir, rfind, parent_at,
}
use mpcc.Core.FileIo.Atomic.{Flushes, Post, atomic_write_lines_lem}

parents :
    (parent_dir (codes "data/users.txt") ≡ codes "data")
    × (parent_dir (codes "/x") ≡ codes "/")
    × (parent_dir (codes "x") ≡ [])
unfolding parent_dir rfind parent_at
parents = (refl, refl, refl)

lines_of_text : getlines [] (codes "a\n\nb") ≡ codes "a" ∷ [] ∷ codes "b" ∷ []
unfolding getlines
lines_of_text = refl

-- A disk that does as it is told.
abbrev os : Os
os = record {
  mkdir = λ t dir. made;
  can_open = λ t path. true;
  write = λ t path content. good (length content);
  rename = λ t from to. true;
}

os-Flushes : Flushes os
os-Flushes t path content n e = ground arith

abbrev disk : Disk
disk = record { file = λ path. none; mkdirs = []; now = 0 }

atomic_write_lines_lem_example :
    (ok : Bool) × (d' : Disk) × (atomic_write_lines os
        (codes "d/f")
        (codes "a" ∷ codes "b" ∷ [])
        disk
      ≡ (ok, d'))
    × Post (codes "d/f") (unlines (codes "a" ∷ codes "b" ∷ [])) disk ok d'
atomic_write_lines_lem_example =
    atomic_write_lines_lem os (codes "d/f") (codes "a" ∷ codes "b" ∷ []) disk os-Flushes
