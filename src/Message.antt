-- ===== src/Message.antt =====
-- The arguments of a `printf`-like call, as the code passes them to `Print`, `Log` and their
-- variants of src/tools/util.c: a format and the values after it.
use patchwork.Prelude.{ℕ, List}

pub data Argument : Type 0 where
  number : ℕ → Argument
  text : List ℕ → Argument

pub record Message : Type 0 where
  pub format : List ℕ
  pub arguments : List Argument
