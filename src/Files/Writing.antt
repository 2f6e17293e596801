-- ===== src/Files/Writing.antt =====
-- The inner loop of `CopyFile` writes the bytes in order, each once, or reports that it did not.
use patchwork.Prelude.{ℕ, zero, suc, ◌+◌, ◌≤◌, ◌≡◌, ◌≢◌, refl, ap, ◌∙◌, Bool, true, false}
use patchwork.Prelude.{
  some, String, List, [], ◌∷◌, ◌++◌, length, take, drop, length-drop, take-add, arith,
}
use patchwork.Prelude.{inl, inr, Bool-cases, not, ◌||◌, ◌==◌}
use mathlib.Core.List.{append_assoc, append-nil}
use patchwork.FileSystem.{FileSystem}
use patchwork.FileSystem.Disk.{Disk, writer}
use patchwork.Files.{write_rest}

module _ {W : Type 0} (fs : FileSystem W) (disk : Disk fs) where
  open disk use {file, handle}

  -- The loop returned, after writing the first `count` bytes: all of them if it says so.
  pub record IsWritten (fuel fd : ℕ) (path : String) (bytes : List ℕ) (w : W) : Type 0 where
    pub complete : Bool
    pub world : W
    pub count : ℕ
    pub returns : write_rest fs fuel fd bytes w ≡ some (complete, world)
    pub bounded : count ≤ length bytes
    pub all_written : complete ≡ true → count ≡ length bytes
    pub appended : file world path ≡ file w path ++ take count bytes
    pub same_handles : (f : ℕ) → handle world f ≡ handle w f
    pub same_files : (q : String) → q ≢ path → file world q ≡ file w q

  abbrev reply : ℕ → List ℕ → ℕ → W → Bool × ℕ × W
  reply b bs fd w = fs.cell_fs_write fd (b ∷ bs) w

  -- A round that fails, or that writes nothing, ends the loop.
  write_rest_stop :
      (fuel fd : ℕ) (path : String) (b : ℕ) (bs : List ℕ) (w : W)
      → handle w fd ≡ writer path
      → (not (reply b bs fd w).0 || (reply b bs fd w).1 == 0) ≡ true
      → IsWritten (suc fuel) fd path (b ∷ bs) w
  write_rest_stop fuel fd path b bs w h stop =
      let law = disk.write_some path fd (b ∷ bs) w h in
      record {
        complete = false;
        world = (reply b bs fd w).2;
        count = (reply b bs fd w).1;
        returns = unfold write_rest in rw stop;
        bounded = law.0;
        all_written = λ e. cc;
        appended = law.1;
        same_handles = law.2;
        same_files = law.3;
      }

  write_rest_more :
      (fuel fd : ℕ) (path : String) (b : ℕ) (bs : List ℕ) (w : W)
      → handle w fd ≡ writer path
      → (not (reply b bs fd w).0 || (reply b bs fd w).1 == 0) ≡ false
      → IsWritten fuel fd path (drop (reply b bs fd w).1 (b ∷ bs)) (reply b bs fd w).2
      → IsWritten (suc fuel) fd path (b ∷ bs) w
  write_rest_more fuel fd path b bs w h more rest =
      let law = disk.write_some path fd (b ∷ bs) w h in
      let left = length-drop {0} (reply b bs fd w).1 (b ∷ bs) in
      record {
        complete = rest.complete;
        world = rest.world;
        count = (reply b bs fd w).1 + rest.count;
        returns = unfold write_rest in rw more rest.returns;
        bounded = omega (arith, rest.bounded, left, law.0);
        all_written = λ e. omega (arith, rest.all_written e, left, law.0);
        appended =
            rest.appended
            ∙ rw (law.1, append_assoc)
                (ap (◌++◌ (file w path)) (take-add (reply b bs fd w).1 rest.count (b ∷ bs)));
        same_handles = λ f. rest.same_handles f ∙ law.2 f;
        same_files = λ q ne. rest.same_files q ne ∙ law.3 q ne;
      }

  -- On a descriptor that writes a file, and with a round of fuel for each byte, the inner loop of
  -- `CopyFile` returns. It has appended a part of the bytes from their start to the file, all of
  -- them if it says so, and has changed no other file and no descriptor.
  pub write_rest-IsWritten :
      (fuel fd : ℕ) (path : String) (bytes : List ℕ) (w : W)
      → length bytes ≤ fuel
      → handle w fd ≡ writer path
      → IsWritten fuel fd path bytes w
  write_rest-IsWritten fuel fd path [] w enough h = record {
    complete = true;
    world = w;
    count = 0;
    returns = unfold write_rest in refl;
    bounded = omega arith;
    all_written = λ _. refl;
    appended = rw append-nil;
    same_handles = λ f. refl;
    same_files = λ q _. refl;
  }
  write_rest-IsWritten zero fd path (b ∷ bs) w enough h = absurd (omega arith)
  write_rest-IsWritten (suc fuel) fd path (b ∷ bs) w enough h =
      elim (Bool-cases (not (reply b bs fd w).0 || (reply b bs fd w).1 == 0)) [
        | inl stop ↦ write_rest_stop fuel fd path b bs w h stop
        | inr more ↦ write_rest_more fuel fd path b bs w h more (
            write_rest-IsWritten fuel fd path (drop (reply b bs fd w).1 (b ∷ bs))
              (reply b bs fd w).2 (ground (arith, length-drop {0} (reply b bs fd w).1 (b ∷ bs)))
              ((disk.write_some path fd (b ∷ bs) w h).2 fd ∙ h))
      ]
