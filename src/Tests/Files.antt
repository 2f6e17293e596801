-- ===== src/Tests/Files.antt =====
-- A copy in the file system of `FileSystem.InMemory`, which takes two bytes in one write.
use patchwork.Files.{write_file}
use patchwork.Files.Whole.{IsRead, read_file-IsRead, IsStored, write_file-IsStored}
use patchwork.Prelude.{ℕ, refl, ◌<◌, ◌≡◌, ◌≢◌, String, [], length, if◌then◌else◌, codes, arith}
use text.Mathlib.Text.{◌==◌ as str_eq}
use mathlib.Core.Bool.{true, false≢true}
use text.Mathlib.TextEquality.{eq_iff}
use patchwork.FileSystem.Disk.{closed, writer}
use patchwork.FileSystem.InMemory.{
  World, in_memory, in_memory_disk, in_memory_disk-file, in_memory_disk-handle,
}
use patchwork.Files.Results.{IsReturned, copy_file-IsReturned}

disk_world : World
disk_world = record {
  file = λ p. if str_eq p "new" then codes "12345" else [];
  handle = λ fd. closed;
  next = 3;
  inbox = [];
}

new-ne-old : ◌≢◌ {A = String} "new" "old"
new-ne-old e = let h : str_eq "new" "old" ≡ true = (eq_iff "new" "old").1 e in absurd (false≢true h)

new_fits : length ((in_memory_disk 2).file disk_world "new") < 9
unfolding disk_world
new_fits = rw in_memory_disk-file (omega arith)

copy_file-IsReturned_example : IsReturned (in_memory 2) (in_memory_disk 2) 9 "new" "old" disk_world
copy_file-IsReturned_example =
    copy_file-IsReturned (in_memory 2) (in_memory_disk 2) 9 "new" "old" disk_world new-ne-old
      new_fits

open_world : World
open_world = record { file = λ p. []; handle = λ fd. writer "old"; next = 4; inbox = [] }

old_open : (in_memory_disk 2).handle open_world 3 ≡ writer "old"
unfolding open_world
old_open = rw in_memory_disk-handle

quiet : String → World → World
quiet title w = w

quiet_lem :
    (title : String) (w : World)
    → ((f : ℕ) → (in_memory_disk 2).handle (quiet title w) f ≡ (in_memory_disk 2).handle w f)
      × ((q : String) → (in_memory_disk 2).file (quiet title w) q ≡ (in_memory_disk 2).file w q)
unfolding quiet
quiet_lem title w = (λ f. refl, λ q. refl)

read_file-IsRead_example : IsRead (in_memory 2) (in_memory_disk 2) quiet "new" 312 disk_world
read_file-IsRead_example =
    read_file-IsRead (in_memory 2) (in_memory_disk 2) quiet "new" 312 disk_world quiet_lem

write_file-IsStored_example :
    IsStored
      (in_memory 2)
      (in_memory_disk 2)
      0
      "old"
      (codes "12345")
      disk_world
      (write_file (in_memory 2) 0 "old" (codes "12345") disk_world)
write_file-IsStored_example =
    write_file-IsStored (in_memory 2) (in_memory_disk 2) 0 "old" (codes "12345") disk_world
