-- ===== src/Start/Configured.antt =====
-- How a string of the configuration gets into the game.
use patchwork.Prelude.{true}
use patchwork.Prelude.{
  ℕ, zero, false, get_or, suc, ◌+◌, ◌≤◌, ◌<◌, ◌^◌, ◌≡◌, ◌≢◌, refl, ◌∙◌, ◌⊎◌, some, String, List, [],
  ◌∷◌, length, get_elem?, codes, arith,
}
use patchwork.Memory.{
  Memory, Outside, load_pointer, store_word, load_pointer-store_word, store_word-Outside,
}
use patchwork.Message.{Message, text}
use patchwork.Text.Strings.{IsString, IsString-bytes, strlen-IsString}
use patchwork.Text.Trim.{strip_rest, strip-take, trim_end-strip_rest}
use patchwork.Http.{Sha256}
use patchwork.Hooks.Patches.{Symbols, indirect_patch}
use patchwork.Hooks.Apply.{source_of, apply_game_patches}
use patchwork.Hooks.Game.{GameNumber, patches_of, IsAboveGame}
use patchwork.Hooks.Game.Tables.{apply_game_patches-get_elem?}
use patchwork.Start.{Services, ScriptHooks, Locals, string_at, load_bytes, write_bytes}
use patchwork.Update.{fits_log}
use patchwork.Start.Steps.{string_message, set_string, copy_hashed_join_key}

pub strip_rest-length : (cs : List ℕ) → length (strip_rest cs) ≤ length cs
strip_rest-length [] = omega arith
strip_rest-length (c ∷ cs) = omega (arith, (strip-take cs).0)

load_bytes-IsString :
    (m : Memory) (p : ℕ) (cs : List ℕ) → IsString m p cs → load_bytes m p (length cs) ≡ cs
unfolding load_bytes
load_bytes-IsString m p [] s = refl
load_bytes-IsString m p (c ∷ cs) (here, nonzero, rest) =
    rw (here, load_bytes-IsString m (p + 1) cs rest)

pub string_at-IsString :
    (fuel : ℕ) (m : Memory) (p : ℕ) (cs : List ℕ)
    → length cs < fuel
    → IsString m p cs
    → string_at fuel m p ≡ some cs
unfolding string_at
string_at-IsString fuel m p cs enough s =
    rw (strlen-IsString fuel m p cs enough s, load_bytes-IsString m p cs s)

pub write_bytes-get_or :
    (m : Memory) (p : ℕ) (bs : List ℕ) (i : ℕ)
    → i < length bs
    → write_bytes m p bs (p + i) ≡ get_or bs i 0
unfolding write_bytes
write_bytes-get_or m p [] i below = absurd (omega arith)
write_bytes-get_or m p (b ∷ bs) zero below = ground arith
write_bytes-get_or m p (b ∷ bs) (suc i) below =
    ground (arith, write_bytes-get_or m (p + 1) bs i (omega arith))

module _ {W : Type 0} (v : Services W) (sha : Sha256) (s : Symbols) (hooks : ScriptHooks)
    (locals : Locals) where
  -- The pointer is set to the string, whose end is stripped; nothing but the pointer and the
  -- string's bytes changes.
  pub record IsPointed (fuel global option : ℕ) (format : String) (m : Memory) (w : W) (cs : List ℕ)
      : Type 0 where
    pub memory : Memory
    pub world : W
    pub returns :
        set_string v sha s hooks locals fuel global option format (m, w) ≡ some (memory, world)
    pub pointer : load_pointer memory global ≡ option
    pub stripped : IsString memory option (strip_rest cs)
    pub same : (a : ℕ) → Outside a global 4 → Outside a option (length cs + 1) → memory a ≡ m a

  -- Let an option be a 32-bit address other than NULL, at which a string stands that does not
  -- overlap the pointer, let there be fuel for its length, and let the logger have room for it. Then setting the pointer returns:
  -- the pointer holds the address, where the string now stands without the white space at its end
  -- (the first character is kept), and no byte outside the two changes.
  pub set_string-IsPointed :
      (fuel global option : ℕ) (format : String) (m : Memory) (w : W) (cs : List ℕ)
      → option ≢ 0
      → option < 2 ^ 32
      → length cs < fuel
      → IsString m option cs
      → (global + 4 ≤ option) ⊎ (option + length cs < global)
      → fits_log v.platform (string_message format (strip_rest cs)) ≡ true
      → IsPointed fuel global option format m w cs
  unfolding set_string
  set_string-IsPointed fuel global option format m w cs nonnull bound enough here apart fits =
      let (m1, returned, stripped, kept) =
        trim_end-strip_rest fuel m option cs nonnull enough here in
      let shorter = strip_rest-length cs in
      let read = string_at-IsString fuel m1 option (strip_rest cs) (omega arith) stripped in
      record {
        memory = store_word m1 global option;
        world =
            v.platform.log_ln
              (record { format = codes format; arguments = text (strip_rest cs) ∷ [] }) w;
        returns = ground (arith, returned, read, fits);
        pointer = load_pointer-store_word m1 global option bound;
        stripped =
            IsString-bytes m1 (store_word m1 global option) option option (strip_rest cs)
              (λ i below. store_word-Outside m1 global option (option + i) (omega arith)) stripped;
        same = λ a away off.
            store_word-Outside m1 global option a away ∙ kept a (λ e. absurd (omega arith));
      }

-- Let the join key be a string at an address other than NULL, with fuel for its length. Then
-- `CopyHashedJoinKey` returns, says that the key is not random, and leaves in the buffer each byte
-- of the digest of the key without the white space at its end (the first character is kept).
pub copy_hashed_join_key-digest :
    {W : Type 0} (v : Services W) (sha : Sha256) (fuel hash_buf join_key : ℕ) (m : Memory) (w : W)
    (cs : List ℕ)
    → join_key ≢ 0
    → length cs < fuel
    → IsString m join_key cs
    → (m' : Memory) × (copy_hashed_join_key v sha fuel hash_buf join_key (m, w)
        ≡ some (false, (m', w)))
      × ((i : ℕ)
          → i < length (sha.digest (strip_rest cs))
          → m' (hash_buf + i) ≡ get_or (sha.digest (strip_rest cs)) i 0)
unfolding copy_hashed_join_key
copy_hashed_join_key-digest v sha fuel hash_buf join_key m w cs nonnull enough here =
    let (m1, returned, stripped, kept) =
      trim_end-strip_rest fuel m join_key cs nonnull enough here in
    let shorter = strip_rest-length cs in
    let read = string_at-IsString fuel m1 join_key (strip_rest cs) (omega arith) stripped in
    (
      write_bytes m1 hash_buf (sha.digest (strip_rest cs)),
      ground (arith, returned, read),
      write_bytes-get_or m1 hash_buf (sha.digest (strip_rest cs)),
    )

-- Let `later` be the memory in which the patches of a game are applied, with all that they read
-- above the game, and let an entry of the table be an indirect patch of `size` bytes whose pointer
-- is not NULL. A string at that pointer that is shorter than `size` then stands in the game, at the
-- offset of the patch.
pub apply_game_patches-IsString :
    {W : Type 0} (log_ln : Message → W → W) (s : Symbols) (game : GameNumber)
    (k offset source size : ℕ) (later : Memory) (w : W) (cs : List ℕ)
    → IsAboveGame s later
    → get_elem? (patches_of game s) k ≡ some (indirect_patch offset source size)
    → load_pointer later source ≢ 0
    → IsString later (load_pointer later source) cs
    → length cs < size
    → IsString (apply_game_patches log_ln (patches_of game s) (later, w)).0 offset cs
unfolding source_of
apply_game_patches-IsString log_ln s game k offset source size later w cs above at set here fits =
    IsString-bytes later _ (load_pointer later source) offset cs
      (λ i below. apply_game_patches-get_elem? log_ln game s later w k i above at set (omega arith))
      here
