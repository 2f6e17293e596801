-- ===== src/Update/Hash.antt =====
-- The comparison of `DownloadUpdate` between the digest and the hash that the server has announced.
use native.Mathlib.Decide.{ℕ_discrete}
use patchwork.Prelude.{
  ℕ, zero, suc, ◌+◌, ◌<◌, ◌≡◌, ◌≢◌, refl, ◌⊎◌, inl, inr, List, ◌==◌, if◌then◌else◌, get_or, arith,
}
use patchwork.Update.{hash_loop, server_byte}

module _ (str_to_int : List ℕ → ℕ → ℕ → ℕ) (value hash : List ℕ) where
  -- Each of the 32 bytes is the one that the server has announced.
  pub Matches : Type 0
  Matches = (i : ℕ) → i < 32 → server_byte str_to_int value i ≡ get_or hash i 0

  Differs : Type 0
  Differs = (i : ℕ) × (i < 32) × (server_byte str_to_int value i ≢ get_or hash i 0)

  -- The bytes from `i` on.
  Compared : ℕ → ℕ → Type 0
  Compared i result =
      ((j : ℕ) → i < suc j → j < 32 → server_byte str_to_int value j ≡ get_or hash j 0)
        × (result ≡ 1)
      ⊎ (Differs × (result ≡ 2))

  hash_loop-Compared :
      (rounds i err : ℕ)
      → rounds + i ≡ 32
      → (i ≡ 32 → err ≡ 1)
      → Compared i (hash_loop str_to_int value hash rounds i err)
  unfolding hash_loop Compared Differs
  hash_loop-Compared zero i err count last =
      inl (λ j above below. absurd (omega arith), last (omega arith))
  hash_loop-Compared (suc rounds) i err count last =
      let next = if i == 31 then 1 else err in
      elim (ℕ_discrete (server_byte str_to_int value i) (get_or hash i 0)) [
        | yes same ↦
            elim (hash_loop-Compared rounds (i + 1) next (omega arith) (λ e. ground arith)) [
              | inl (others, e) ↦ inl (
                λ j above below. elim (ℕ_discrete j i) [
                  | yes at ↦ rw (at) same
                  | no ne ↦ others j (omega arith) below
                ],
                ground arith,
              )
              | inr (differs, e) ↦ inr (differs, ground arith)
            ]
        | no ne ↦ inr ((i, omega arith, ne), ground arith)
      ]

  -- The comparison of 32 bytes ends with 1 if all of them match, and with 2 if one differs, whatever
  -- `err` was before it.
  pub hash_loop_cases :
      (err : ℕ)
      → (Matches × (hash_loop str_to_int value hash 32 0 err ≡ 1))
        ⊎ (((i : ℕ) × (i < 32) × (server_byte str_to_int value i ≢ get_or hash i 0))
            × (hash_loop str_to_int value hash 32 0 err ≡ 2))
  unfolding Compared Differs Matches
  hash_loop_cases err = elim (hash_loop-Compared 32 0 err refl (λ e. absurd (omega arith))) [
    | inl (all, e) ↦ inl (λ i below. all i (omega arith) below, e)
    | inr found ↦ inr found
  ]
