-- ===== src/Lib.antt =====
-- Patchwork: a plugin for the PlayStation 3 that patches the LittleBigPlanet games in memory, so that
-- they use another server, another digest and a private lobby key, and that can update itself.
--
-- How the parts interact. `start` (src/prx.c) loads the console's modules, opens the log, reads its
-- configuration, may download, install and restart a newer version of itself, finds out which game
-- runs, selects a table of patches for it, and applies the table to the game's memory, which is the
-- plugin's own: a patch's source and target are addresses of one memory.
--
-- Prelude, Message and Memory hold what the parts share: lists and tests over native numbers, the
-- arguments of a formatted message, and memory as a function from addresses to bytes, with `memcpy`
-- and the big-endian load of a pointer.
--
-- * Hooks is src/hooks and src/offsets.h. Hooks.Branch is `RelativeBranch` (src/hooks/hooks.c) on
--   32-bit words; its specification decodes the branch as the processor does. Hooks.Offsets is
--   src/offsets.h; Hooks.Patches the structures of src/hooks/patches.h and the four tables of
--   src/hooks/patches.c; Hooks.Apply `ApplyGamePatches`; Hooks.Game `GetLBPGameNumber` and the
--   selection of a table in `start`. The specification of the application is an overlay: each byte of
--   memory afterwards is said by a formula (Hooks.Apply.Overlay).
-- * Hooks.Assembly is the code that runs inside the games, as a list of instructions and a run over the
--   processor's registers: the hooks of src/hooks/script-block.s (Hooks.Assembly.ScriptBlock) and the
--   patches of src/hooks/forcejoin-patch.s (Hooks.Assembly.ForceJoin). Exits, Answered and Dealt below
--   it follow the runs of the three games. The instructions mean what the PowerPC manual says; the
--   games' functions that the code calls are a parameter.
-- * Text is `TrimEnd` and `ReplaceNext`, and Log `Print`, `PrintLn`, `Log`, `LogLn`, `InitLogger` and
--   `DestroyLogger`, of src/tools/util.c. Text works on strings that stand in memory, with their
--   NUL. In Log an access outside the 128-byte buffer gives `none`.
-- * FileSystem is the console's file system as a record of its calls; FileSystem.Disk states the laws
--   that the code relies on, and FileSystem.InMemory meets them. Files is src/tools/fs.c over it.
-- * ProcessMemory is src/tools/memory.c, with the latch that sends later calls another way, and
--   Sysmodules src/tools/modules.c.
-- * Http is src/http/http.c. Http.Saving is `HttpDownloadFile`, and Http.Download its proof, over
--   what the console's HTTP library and its SHA-256 promise (`Response`).
-- * Update is src/update.c: `DownloadUpdate` with its check of the announced hash, `InstallUpdate`,
--   `TryUpdateAndInstall` and `TryRestartModule`. Update.Hash, Update.Verified and Update.Outcome
--   follow the download, Update.Installed the installation; Update.Keeps says which calls leave a file
--   alone, and Update.Unharmed takes in the whole of `TryUpdateAndInstall`.
-- * Start is src/prx.c: `CopyHashedJoinKey` and `start`, which Start.Entry puts
--   together from the steps of Start.Steps. Start.Hooked follows the hook's branch into the game,
--   Start.Configured a string of the configuration; Start.Updating says when an update is tried,
--   Start.Restarting that its step returns, and with which memory, Start.Announcing what fits into the buffer of the message,
--   and Start.Announced, with Start.Wording, what the message is. For the whole of `start`, each
--   address has an owner, the game or the object of the module that the linker or the stack put
--   there: Start.Layout is about what a step changes by owners, Start.Objects names the owners and
--   what is to be there before, Start.Keyed, Start.Prepared and Start.Named (with Start.Agent) take
--   the steps for the key, the strings and the user agent, Start.Strung and Start.Ready (with
--   Start.Held) put the steps together, Start.Patched says what the patches make of it
--   (Start.InGame), at the places of Start.Places, and Start.Booted and Start.Undetected take in the
--   rest of `start`.
-- * Generator is the command tools/patch_generator, in Go, that prints the patches as a file for the
--   emulator RPCS3, with the games' definitions of lbpdefs (Generator.Definitions). Generator has the
--   data of game.go, and Generator.Dict Go's maps. Generator.Hook is `GetHook` of hooks.go, which cuts
--   a hook out of the plugin's ELF file: Generator.Hook.Scan says what it returns of any section,
--   with the test of an instruction read in Generator.Hook.Mask, and Generator.Hook.Encoded and
--   Generator.Hook.Extracted take in the hooks of Hooks.Assembly. Generator.Entries is patches.go;
--   Generator.Rpcs3 says what the emulator does with a row, and Generator.Texts with rows of texts.
--   Generator.Make is helpers.go: Generator.Make.Rows follows the rows of a patch,
--   Generator.Make.Plugin says what the plugin's ELF file holds, Generator.Make.Combined follows the
--   combined patch, Generator.Make.Placed and Generator.Make.Served those of the servers, and
--   Generator.Make.Keys the names under which they stand. Generator.Main is patch_generator.go;
--   Generator.Main.Listing describes its directory, Generator.Main.Written takes in the whole
--   command, and Generator.Main.Broken a directory that it cannot use. The
--   specification is the plugin itself: the code and the places of Hooks, and what Memory's `memcpy`
--   does to the game.
-- * Tests has runs of the definitions, and the theorems at concrete inputs.
--
-- State. A call that changes something takes the world and returns it. The world is a parameter:
-- the console's calls are functions on it, gathered in the records `FileSystem`, `HttpLibrary` and
-- `Platform`. A C variable that is read before it is assigned holds what an argument of the model
-- says, as in `StackFrame`. The plugin, the game and a module that the plugin starts share one memory,
-- so the call that starts the module takes it and gives what the module has made of it. Where a
-- line is longer than the logger's buffer, or a pointer that was not assigned is at no string, the
-- code's behaviour is not defined, and the step that logs or reads it gives `none`: the theorems on
-- such a step have the length of the line, or the string, as a condition.
--
-- Fuel. A walk over a string takes fuel for its length, as nothing but its NUL ends it. The inner
-- loops that write a block take fuel for its length: each round but the last writes a byte.
-- `copy_loop` and `download_loop` take a round for a block, and each block but the last has a byte:
-- more rounds than the file or the response has bytes are enough. The theorems on them have that
-- bound as their condition, and state that the call returns. A run of the code inside a game has
-- fuel for each instruction once, as its branches go forward or leave it. `get_hook` takes a round for
-- a word of the section: more rounds than it has words are enough, as the reader ends the loop.
--
-- Parameters. `Vsnprintf` is another project's library, kept in src/tools/printf.c. The number parser
-- and the configuration reader are in the submodule src/toml. The system calls are the console's. Of
-- the generator, the reader of ELF files, the YAML library, `Sprintf`, `ParseFloat` and `Quote` are
-- parameters, and so are the emulator (`Rpcs3`), of which only two types of rows are described, and
-- the assembler (`IsEncoding`), of which only opcodes and low bits are.
--
-- Not modelled: src/tools/printf.c, which is another project's library; the whole encoding of the
-- hooks' instructions by the assembler (src/hooks/forcejoin-patch.s and src/hooks/script-block.s);
-- what the emulator does with a row that reserves memory, and the order in which Go walks a map; the
-- build and the scripts. Allocation on the stack and the console's own failures beyond the results of
-- its calls are not modelled.
pub mod Prelude
pub mod Memory
pub mod Message
pub mod Hooks
pub mod Text
pub mod FileSystem
pub mod Log
pub mod ProcessMemory
pub mod Sysmodules
pub mod Files
pub mod Http
pub mod Update
pub mod Start
pub mod Generator
mod Tests
