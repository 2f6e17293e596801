-- ===== src/Http/Download.antt =====
-- `HttpDownloadFile`: the file and the hash that it leaves.
pub mod Rounds
pub mod Results
use patchwork.Prelude.{
  ℕ, zero, suc, ◌+◌, ◌≤◌, ◌<◌, ◌≡◌, ◌≢◌, refl, Bool, true, false, String, List, [], ◌∷◌, ◌++◌,
}
use patchwork.Prelude.{Option, some, ◌==◌, length, drop, Bool-cases, inl, inr, if◌then◌else◌, arith}
use patchwork.FileSystem.{FileSystem, create_truncate}
use patchwork.FileSystem.Disk.{Disk}
use patchwork.Files.{write_rest}
use patchwork.Http.{HttpLibrary, Sha256, ok}
use patchwork.Http.Saving.{save_rest}

-- The same file system, to a caller that does not look at the result of a write.
abbrev pub unchecked : {W : Type 0} → FileSystem W → FileSystem W
unchecked fs = record fs {
  cell_fs_write = λ fd bytes w. let reply = fs.cell_fs_write fd bytes w in (true, reply.1, reply.2);
}

pub unchecked_disk : {W : Type 0} (fs : FileSystem W) → Disk fs → Disk (unchecked fs)
unchecked_disk fs disk = record {
  file = disk.file;
  handle = disk.handle;
  open_read = disk.open_read;
  open_read_error = disk.open_read_error;
  open_write = disk.open_write;
  open_write_error = disk.open_write_error;
  read_some = disk.read_some;
  read_keeps = disk.read_keeps;
  write_some = disk.write_some;
  close_keeps = disk.close_keeps;
}

-- The inner loops of `HttpDownloadFile` and `CopyFile` differ in that look.
pub save_rest-write_rest :
    {W : Type 0} (fs : FileSystem W) (fuel fd : ℕ) (bytes : List ℕ) (w : W)
    → save_rest fs fuel fd bytes w ≡ write_rest (unchecked fs) fuel fd bytes w
unfolding save_rest write_rest
save_rest-write_rest fs fuel fd [] w = refl
save_rest-write_rest fs zero fd (b ∷ bs) w = refl
save_rest-write_rest fs (suc fuel) fd (b ∷ bs) w =
    let reply = fs.cell_fs_write fd (b ∷ bs) w in
    rw (save_rest-write_rest fs fuel fd (drop reply.1 (b ∷ bs)) reply.2)

-- What the code relies on of the HTTP library and of SHA-256: a transaction delivers the rest of
-- its response in order, an empty block only at the end, whatever happens to files, and leaves
-- files alone; a digest over blocks is the digest of all their bytes.
pub record Response {W : Type 0} (fs : FileSystem W) (disk : Disk fs) (http : HttpLibrary W)
    (sha : Sha256) : Type 0 where
  pub body : W → ℕ → List ℕ
  pub recv_some :
      (id n : ℕ) (w : W) {bytes : List ℕ}
      → (http.cell_http_recv_response id n w).0 ≡ ok bytes
      → (bytes ++ body (http.cell_http_recv_response id n w).1 id ≡ body w id)
        × (0 < n → bytes ≡ [] → body w id ≡ [])
  pub recv_keeps :
      (id n : ℕ) (w : W)
      → ((f : ℕ) → disk.handle (http.cell_http_recv_response id n w).1 f ≡ disk.handle w f)
        × ((q : String) → disk.file (http.cell_http_recv_response id n w).1 q ≡ disk.file w q)
  pub open_keeps :
      (p : String) (id : ℕ) (w : W) → body (fs.cell_fs_open p create_truncate w).1 id ≡ body w id
  pub write_keeps :
      (fd : ℕ) (bytes : List ℕ) (id : ℕ) (w : W)
      → body (fs.cell_fs_write fd bytes w).2 id ≡ body w id
  pub absorbed : sha.WorkArea → List ℕ
  pub absorbed-init : absorbed sha.block_init ≡ []
  pub absorbed-update :
      (a : sha.WorkArea) (bytes : List ℕ)
      → absorbed (sha.block_update a bytes) ≡ absorbed a ++ bytes
  pub digest-result : (a : sha.WorkArea) → sha.block_result a ≡ sha.digest (absorbed a)

-- So the inner loop leaves the response alone.
pub save_rest-keeps :
    {W : Type 0} (fs : FileSystem W) (rest : W → List ℕ)
    → ((fd : ℕ) (bytes : List ℕ) (w : W) → rest (fs.cell_fs_write fd bytes w).2 ≡ rest w)
    → (fuel fd : ℕ) (bytes : List ℕ) (w : W) (done : Bool) (v : W)
    → save_rest fs fuel fd bytes w ≡ some (done, v)
    → rest v ≡ rest w
unfolding save_rest
save_rest-keeps fs rest keeps fuel fd [] w done v e = ground arith
save_rest-keeps fs rest keeps zero fd (b ∷ bs) w done v e = cc
save_rest-keeps fs rest keeps (suc fuel) fd (b ∷ bs) w done v e =
    let reply = fs.cell_fs_write fd (b ∷ bs) w in
    ground (
      arith,
      keeps fd (b ∷ bs) w,
      save_rest-keeps fs rest keeps fuel fd (drop reply.1 (b ∷ bs)) reply.2 done v,
    )
