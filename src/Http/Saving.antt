-- ===== src/Http/Saving.antt =====
-- `HttpDownloadFile` of src/http/http.c. Its outer loop ends when the response does: it takes fuel,
-- a round for each block, and `none` means that the fuel ran out.
use mathlib.Core.Option
use patchwork.Prelude.{ℕ, zero, suc, Bool, true, false, Option, none, some, String, List, [], ◌∷◌}
use patchwork.Prelude.{◌==◌, if◌then◌else◌, length, drop}
use patchwork.FileSystem.{FileSystem, create_truncate}
use patchwork.Http.{HttpLibrary, Sha256, HttpTransaction, ok, negative}

-- `char buffer[256]`
abbrev pub block_size : ℕ
block_size = 256

-- What the call returns and leaves: the buffer of the hash, the transaction and the world.
pub record Downloaded (W : Type 0) : Type 0 where
  pub status : ℕ
  pub hash : Option (List ℕ)
  pub trans : HttpTransaction
  pub world : W

module _ {W : Type 0} (fs : FileSystem W) where
  -- The inner loop, on the bytes from `buffer + offset` on: whether all were written. The result of
  -- `cellFsWrite` is not looked at.
  unfoldable pub save_rest : ℕ → ℕ → List ℕ → W → Option (Bool × W)
  save_rest fuel fd [] w = some (true, w)
  save_rest zero fd (b ∷ bs) w = none
  save_rest (suc fuel) fd (b ∷ bs) w =
      let (_, written, w') = fs.cell_fs_write fd (b ∷ bs) w in
      let rest = save_rest fuel fd (drop written (b ∷ bs)) w' in
      if written == 0 then some (false, w') else rest

  module _ (http : HttpLibrary W) (sha : Sha256) where
    open sha use {WorkArea, block_init, block_update, block_result}

    -- The outer loop. A hash is computed if there is a buffer for it.
    unfoldable pub download_loop :
        ℕ → ℕ → Option (List ℕ) → WorkArea → HttpTransaction → W → Option (Downloaded W)
    download_loop zero fd hash_buf workarea trans w = none
    download_loop (suc fuel) fd hash_buf workarea trans w =
        let (received, w1) = http.cell_http_recv_response trans.trans_id block_size w in
        elim received [
          | negative ↦ some (record {
            status = 0;
            hash = hash_buf;
            trans = record trans { failed = true };
            world = w1;
          })
          | ok [] ↦ some (record {
            status = 1;
            hash = Option.map (λ _. block_result workarea) hash_buf;
            trans = record trans { recv = 0; failed = false };
            world = fs.cell_fs_close fd w1;
          })
          | ok (b ∷ bs) ↦
              let trans' : HttpTransaction = record trans {
                recv = length (b ∷ bs);
                failed = false;
              } in
              elim (save_rest (length (b ∷ bs)) fd (b ∷ bs) w1) [
                | none ↦ none
                | some (false, w2) ↦
                    some (record { status = 0; hash = hash_buf; trans = trans'; world = w2 })
                | some (true, w2) ↦
                    download_loop fuel fd hash_buf (block_update workarea (b ∷ bs)) trans' w2
              ]
        ]

    unfoldable pub http_download_file :
        ℕ → HttpTransaction → String → Option (List ℕ) → W → Option (Downloaded W)
    http_download_file fuel trans path hash_buf w =
        let (opened, w1) = fs.cell_fs_open path create_truncate w in
        elim opened [
          | none ↦ some (record { status = 0; hash = hash_buf; trans = trans; world = w1 })
          | some fd ↦ download_loop fuel fd hash_buf block_init trans w1
        ]
