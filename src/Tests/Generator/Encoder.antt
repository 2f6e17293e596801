-- ===== src/Tests/Generator/Encoder.antt =====
-- An assembler for the instructions of the hooks, by the fields of the PowerPC manual.
use patchwork.Prelude.{ℕ, ◌+◌, ◌*◌, ◌/◌, ◌%◌, ◌^◌, ◌-◌, ◌<◌, arith}
use patchwork.Hooks.Assembly.{
  Target, forward, backward, label, absolute, Instruction, lwz, lbz, cmpwi, beq, bne, bgt, b, bla,
  clrldi, rlwinm, rldicl, li, lis, ori, or, subic,
}
use patchwork.Generator.Hook.Encoded.{IsEncoding}

abbrev field : ℕ → ℕ → ℕ → ℕ
field x width low = x % 2 ^ width * 2 ^ low

-- Opcode, two registers and a 16-bit immediate.
abbrev d_form : ℕ → ℕ → ℕ → ℕ → ℕ
d_form opcode t a imm = opcode * 2 ^ 26 + field t 5 21 + field a 5 16 + field imm 16 0

-- A distance in words; a label counts from the start of the code.
abbrev words : Target → ℕ
words (forward d) = d / 4
words (backward d) = 2 ^ 24 - d / 4
words (label o) = o / 4
words (absolute a) = a / 4

abbrev conditional : ℕ → ℕ → ℕ → Target → ℕ
conditional condition bit f t =
    16 * 2 ^ 26 + condition * 2 ^ 21 + field f 3 18 + bit * 2 ^ 16 + field (words t) 14 2

abbrev rotation : ℕ → ℕ → ℕ → ℕ → ℕ
rotation a s sh mb =
    30 * 2 ^ 26
    + field s 5 21
    + field a 5 16
    + field sh 5 11
    + field mb 5 6
    + field (mb / 32) 1 5
    + field (sh / 32) 1 1

abbrev is_absolute_bit : Target → ℕ
is_absolute_bit (absolute a) = 2
is_absolute_bit t = 0

abbrev pub encode : Instruction → ℕ
encode (lwz t d a) = d_form 32 t a d
encode (lbz t d a) = d_form 34 t a d
encode (cmpwi f a n) = 11 * 2 ^ 26 + field f 3 23 + field a 5 16 + field n 16 0
encode (beq f t) = conditional 12 2 f t
encode (bne f t) = conditional 4 2 f t
encode (bgt f t) = conditional 12 1 f t
encode (b t) = 18 * 2 ^ 26 + field (words t) 24 2 + is_absolute_bit t
encode (bla a) = 18 * 2 ^ 26 + field (a / 4) 24 2 + 3
encode (clrldi a s n) = rotation a s 0 n
encode (rlwinm a s sh mb me) =
    21 * 2 ^ 26 + field s 5 21 + field a 5 16 + field sh 5 11 + field mb 5 6 + field me 5 1
encode (rldicl a s sh mb) = rotation a s sh mb
encode (li t imm) = d_form 14 t 0 imm
encode (lis t imm) = d_form 15 t 0 imm
encode (ori a s imm) = d_form 24 s a imm
encode (or a s c) = 31 * 2 ^ 26 + field s 5 21 + field a 5 16 + field c 5 11 + 444 * 2
encode (subic t a imm) = d_form 12 t a (2 ^ 16 - imm)

encode_is_word : (i : Instruction) → encode i < 2 ^ 32
encode_is_word (lwz t d a) = omega arith
encode_is_word (lbz t d a) = omega arith
encode_is_word (cmpwi f a n) = omega arith
encode_is_word (beq f t) = omega arith
encode_is_word (bne f t) = omega arith
encode_is_word (bgt f t) = omega arith
encode_is_word (b (forward d)) = omega arith
encode_is_word (b (backward d)) = omega arith
encode_is_word (b (label o)) = omega arith
encode_is_word (b (absolute a)) = omega arith
encode_is_word (bla a) = omega arith
encode_is_word (clrldi a s n) = omega arith
encode_is_word (rlwinm a s sh mb me) = omega arith
encode_is_word (rldicl a s sh mb) = omega arith
encode_is_word (li t imm) = omega arith
encode_is_word (lis t imm) = omega arith
encode_is_word (ori a s imm) = omega arith
encode_is_word (or a s c) = omega arith
encode_is_word (subic t a imm) = omega arith

pub encode-IsEncoding : IsEncoding encode
encode-IsEncoding = record {
  is_word = encode_is_word;
  lwz_opcode = λ t d a. omega arith;
  lbz_opcode = λ t d a. omega arith;
  cmpwi_opcode = λ f a n. omega arith;
  beq_opcode = λ f o. omega arith;
  bne_opcode = λ f o. omega arith;
  clrldi_low = λ a s n. omega arith;
  bla_low = λ a. omega arith;
  ba_opcode = λ a. omega arith;
  ba_low = λ a. omega arith;
}
