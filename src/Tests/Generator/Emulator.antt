-- ===== src/Tests/Generator/Emulator.antt =====
-- A format of the numbers and texts, and an emulator that reads it.
use patchwork.Prelude.{
  ℕ, suc, ◌+◌, ◌-◌, ◌*◌, ◌/◌, ◌%◌, ◌^◌, ◌≤◌, ◌<◌, ◌≡◌, refl, ap, ◌∙◌, true, ◌&&◌, [], ◌∷◌, ◌++◌,
  ltb, leb, if◌then◌else◌, length, All, get_or, codes, arith,
}
use patchwork.Memory.{Memory, Outside}
use patchwork.Text.Strings.{IsString}
use patchwork.Start.Wording.{avoids}
use patchwork.Generator.{Bytes}
use patchwork.Generator.Dict.{equal}
use patchwork.Generator.Entries.{PatchEntry, Format, c_utf8_patch_type}
use patchwork.Generator.Rpcs3.{Rpcs3, IsByte, word_row}

abbrev digit : ℕ → ℕ
digit d = if ltb d 10 then b'0' + d else b'a' + d - 10

abbrev digit_value : ℕ → ℕ
digit_value c = if ltb c b'a' then c - b'0' else c - b'a' + 10

abbrev hex_digits : Bytes → Bytes
hex_digits [] = []
hex_digits (x ∷ xs) = digit (x / 16) ∷ digit (x % 16) ∷ hex_digits xs

abbrev hex_value : Bytes → Bytes
hex_value (high ∷ low ∷ xs) = (digit_value high * 16 + digit_value low) ∷ hex_value xs
hex_value _ = []

-- Numbers of two digits are enough here.
abbrev pub fmt : Format
fmt = record {
  hex_bytes = λ bytes. codes "0x" ++ hex_digits bytes;
  hex_address = λ a.
      codes "0x"
      ++ hex_digits (a / 2 ^ 24 % 256 ∷ a / 2 ^ 16 % 256 ∷ a / 2 ^ 8 % 256 ∷ a % 256 ∷ []);
  decimal = λ n. digit (n / 10 % 10) ∷ digit (n % 10) ∷ [];
  is_float = λ bytes. equal (codes "0x") (get_or bytes 0 0 ∷ get_or bytes 1 0 ∷ []);
  quote = λ bytes. codes "\"" ++ bytes ++ codes "\"";
}

-- The bytes from the address on.
abbrev put : ℕ → Bytes → Memory → Memory
put address bytes m a =
    if leb address a && ltb a (address + length bytes) then get_or bytes (a - address) 0 else m a

abbrev skip_prefix : Bytes → Bytes
skip_prefix (x ∷ y ∷ xs) = xs
skip_prefix _ = []

abbrev write : PatchEntry → Memory → Memory
write row m =
    if equal row.type (codes "be32")
    then put row.address (hex_value (skip_prefix row.value)) m
    else if equal row.type c_utf8_patch_type
    then put row.address (row.value ++ 0 ∷ []) m
    else m

byte_value :
    (x : ℕ) → x < 2 ^ 8 → digit_value (digit (x / 16)) * 16 + digit_value (digit (x % 16)) ≡ x
byte_value x h = ground arith

hex_value-hex_digits : (xs : Bytes) → All IsByte xs → hex_value (hex_digits xs) ≡ xs
hex_value-hex_digits [] bytes = refl
hex_value-hex_digits (x ∷ xs) (h, hs) =
    ap (λ y. y ∷ hex_value (hex_digits xs)) (byte_value x h)
    ∙ ap (◌∷◌ x) (hex_value-hex_digits xs hs)

put_inside :
    (address i : ℕ) (bytes : Bytes) (m : Memory)
    → i < length bytes
    → put address bytes m (address + i) ≡ get_or bytes i 0
put_inside address i bytes m h =
    let e : address + i - address ≡ i = omega arith in rw e (ground arith)

put-Outside :
    (address a : ℕ) (bytes : Bytes) (m : Memory)
    → Outside a address (length bytes)
    → put address bytes m a ≡ m a
put-Outside address a bytes m h = ground arith

be32_word_lem :
    (m : Memory) (address b0 b1 b2 b3 i : ℕ)
    → address + 4 ≤ 2 ^ 32
    → i < 4
    → b0 < 2 ^ 8
    → b1 < 2 ^ 8
    → b2 < 2 ^ 8
    → b3 < 2 ^ 8
    → write (word_row fmt address (b0 ∷ b1 ∷ b2 ∷ b3 ∷ [])) m (address + i)
      ≡ get_or (b0 ∷ b1 ∷ b2 ∷ b3 ∷ []) i 0
be32_word_lem m address b0 b1 b2 b3 i bound near h0 h1 h2 h3 =
    put_inside address i (hex_value (hex_digits (b0 ∷ b1 ∷ b2 ∷ b3 ∷ []))) m near
    ∙ ap (λ xs. get_or xs i 0)
        (hex_value-hex_digits (b0 ∷ b1 ∷ b2 ∷ b3 ∷ []) (h0, (h1, (h2, (h3, tt)))))

text-IsString :
    (address i : ℕ) (value : Bytes) (m : Memory)
    → avoids 0 value ≡ true
    → ((j : ℕ) → j ≤ length value → m (address + j) ≡ get_or (value ++ 0 ∷ []) j 0)
    → IsString m address value
text-IsString address i [] m clean stands = ground (arith, stands 0 (omega arith))
text-IsString address i (c ∷ cs) m clean stands = (
  ground (arith, stands 0 (omega arith)),
  λ e. ground (arith, e, clean),
  text-IsString (address + 1) i cs m (ground (arith, clean))
      (λ j below. ground (arith, stands (suc j) (omega arith))),
)

length-text : (value : Bytes) → length (value ++ 0 ∷ []) ≡ length value + 1
length-text [] = refl
length-text (c ∷ cs) = omega (arith, length-text cs)

pub rpcs3 : Rpcs3 fmt
rpcs3 = record {
  write = write;
  be32_word = be32_word_lem;
  be32-Outside = λ m address b0 b1 b2 b3 a bound out.
      put-Outside address a (hex_value (hex_digits (b0 ∷ b1 ∷ b2 ∷ b3 ∷ []))) m out;
  c_utf8-IsString = λ m address value clean.
      text-IsString address 0 value _ clean
        (λ j below. put_inside address j (value ++ 0 ∷ []) m (omega (arith, length-text value)));
  c_utf8-Outside = λ m address value a out.
      put-Outside address a (value ++ 0 ∷ []) m (omega (arith, length-text value));
}
