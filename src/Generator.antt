-- ===== src/Generator.antt =====
-- tools/patch_generator: the command that prints the plugin's patches as a file for RPCS3. Here are
-- the data of game.go; the definitions of the games are in lbpdefs/.
-- A string of the Go code is its bytes. A call that returns an error or panics gives `failed`.
pub mod Dict
pub mod Hook
pub mod Entries
pub mod Make
pub mod Definitions
pub mod Main
pub mod Rpcs3
pub mod Texts
use patchwork.Prelude.{ℕ, Bool, Option, none, some, List, codes}

pub data Result {ℓ} (A : Type ℓ) : Type ℓ where
  ok : A → Result A
  failed : Result A

abbrev pub Bytes : Type 0
Bytes = List ℕ

-- `PatchType`
abbrev pub hook : Bytes
hook = codes "hook"

abbrev pub overwrite : Bytes
overwrite = codes "overwrite"

pub record Patch : Type 0 where
  pub symbol : Bytes
  pub len : ℕ
  pub type : Bytes
  pub offset : ℕ

pub record GameAddressOffsets : Type 0 where
  pub user_agent : ℕ
  pub http_url : ℕ
  pub https_url : ℕ
  pub presence_url : ℕ
  pub live_url : ℕ
  pub digest_key : ℕ
  pub network_key : ℕ

pub record Game : Type 0 where
  pub offsets : GameAddressOffsets
  pub user_agent : Bytes
  pub name : Bytes
  pub game_versions : List Bytes
  pub title_ids : List Bytes
  pub ppu_hash : Bytes
  pub patches : List Patch

pub record Server : Type 0 where
  pub primary_url : Bytes
  pub https_url : Bytes
  pub custom_digest : Bytes
  pub name : Bytes
  pub owner : Bytes
  pub description : Bytes

-- What `ReadAt` has put into the buffer, and whether it returned an error.
pub record Reply : Type 0 where
  pub bytes : Bytes
  pub is_error : Bool

-- `io.ReaderAt`: the offset is the pattern of an `int64`, and the second number the buffer's size.
abbrev pub ReaderAt : Type 0
ReaderAt = ℕ → ℕ → Reply

pub record Symbol : Type 0 where
  pub name : Bytes
  pub value : ℕ

-- An ELF file: its symbols, unless they cannot be read, and its section `.text`, if it has one.
pub record ElfFile : Type 0 where
  pub symbols : Option (List Symbol)
  pub section : Option ReaderAt

-- A call with fuel: `none` is that the fuel ran out.
abbrev pub Fueled : Type 0 → Type 0
Fueled A = Option (Result A)

abbrev pub after : {A B : Type 0} → Fueled A → (A → Fueled B) → Fueled B
after none f = none
after (some failed) f = some failed
after (some (ok a)) f = f a

-- A result that needs no fuel.
abbrev pub then_ok : {A B : Type 0} → Result A → (A → Fueled B) → Fueled B
then_ok failed f = some failed
then_ok (ok a) f = f a
