-- ===== src/Start/Wording.antt =====
-- The wording of the message that `start` leaves for the console's web server.
use patchwork.Prelude.{
  ℕ, ◌+◌, ◌≡◌, refl, ap, ◌∙◌, Bool, true, false, not, ◌&&◌, List, [], ◌∷◌, ◌++◌, ◌==◌,
  if◌then◌else◌, length, codes, arith,
}
use patchwork.Memory.{Memory, Outside}
use patchwork.Text.Strings.{IsString, IsString-bytes}
use patchwork.Text.Replace.{replace_first}
use patchwork.Start.{write_bytes, success_message, chosen_message, with_pw, random_pw, without_pw}

-- The character is not in the list.
abbrev pub avoids : ℕ → List ℕ → Bool
avoids k [] = true
avoids k (c ∷ cs) = not (c == k) && avoids k cs

avoids-append : (k : ℕ) (xs ys : List ℕ) → avoids k (xs ++ ys) ≡ avoids k xs && avoids k ys
avoids-append k [] ys = refl
avoids-append k (x ∷ xs) ys = ground (arith, avoids-append k xs ys)

replace_first_after :
    (k c : ℕ) (xs ys : List ℕ)
    → avoids k xs ≡ true
    → replace_first k c (xs ++ ys) ≡ xs ++ replace_first k c ys
unfolding replace_first
replace_first_after k c [] ys h = refl
replace_first_after k c (x ∷ xs) ys h = ground (arith, replace_first_after k c xs ys)

replace_first_within :
    (k c : ℕ) (xs ys : List ℕ)
    → avoids k xs ≡ false
    → replace_first k c (xs ++ ys) ≡ replace_first k c xs ++ ys
unfolding replace_first
replace_first_within k c [] ys h = ground arith
replace_first_within k c (x ∷ xs) ys h = ground (arith, replace_first_within k c xs ys)

-- The message for a game, whose character is `c`.
abbrev pub message_for : ℕ → List ℕ → List ℕ → List ℕ → List ℕ
message_for c major minor outcome =
    codes "/popup.ps3?Patchwork%20"
    ++ major
    ++ codes "."
    ++ minor
    ++ (codes "%20Loaded%20for%20LBP" ++ c ∷ codes "%0ALobby%20password%20")
    ++ outcome
    ++ codes "&icon=8&snd=5"

success_message-message_for :
    (c : ℕ) (major minor outcome : List ℕ)
    → avoids b'X' major ≡ true
    → avoids b'X' minor ≡ true
    → replace_first b'X' c (success_message major minor outcome) ≡ message_for c major minor outcome
unfolding success_message replace_first
success_message-message_for c major minor outcome h_major h_minor =
    let start = codes "/popup.ps3?Patchwork%20" ++ major ++ codes "." ++ minor in
    let middle = codes "%20Loaded%20for%20LBPX%0ALobby%20password%20" in
    let free : avoids b'X' start ≡ true = ground (
      arith,
      avoids-append b'X' (codes "/popup.ps3?Patchwork%20") major,
      avoids-append b'X' (codes "/popup.ps3?Patchwork%20" ++ major) (codes "."),
      avoids-append b'X' (codes "/popup.ps3?Patchwork%20" ++ major ++ codes ".") minor,
    ) in
    let held : avoids b'X' (start ++ middle) ≡ false =
      avoids-append b'X' start middle ∙ ap (λ b. b && false) free in
    let held_on : avoids b'X' (start ++ middle ++ outcome) ≡ false =
      avoids-append b'X' (start ++ middle) outcome ∙ ap (λ b. b && avoids b'X' outcome) held in
    replace_first_within b'X' c (start ++ middle ++ outcome) (codes "&icon=8&snd=5") held_on
    ∙ ap (λ xs. xs ++ codes "&icon=8&snd=5")
        (replace_first_within b'X' c (start ++ middle) outcome held
          ∙ ap (λ xs. xs ++ outcome) (replace_first_after b'X' c start middle free))

pub write_bytes-IsString :
    (m : Memory) (p : ℕ) (cs : List ℕ)
    → avoids 0 cs ≡ true
    → IsString (write_bytes m p (cs ++ 0 ∷ [])) p cs
unfolding write_bytes
write_bytes-IsString m p [] h = ground arith
write_bytes-IsString m p (c ∷ cs) h =
    let rest = write_bytes-IsString m (p + 1) cs (ground arith) in
    (
      ground arith,
      ground arith,
      IsString-bytes (write_bytes m (p + 1) (cs ++ 0 ∷ [])) _ (p + 1) (p + 1) cs
          (λ i below. ground arith) rest,
    )

pub write_bytes-Outside :
    (m : Memory) (p : ℕ) (bs : List ℕ) (a : ℕ)
    → Outside a p (length bs)
    → write_bytes m p bs a ≡ m a
unfolding write_bytes
write_bytes-Outside m p [] a away = refl
write_bytes-Outside m p (b ∷ bs) a away =
    ground (arith, write_bytes-Outside m (p + 1) bs a (omega arith))

pub replace_first-length : (k c : ℕ) (cs : List ℕ) → length (replace_first k c cs) ≡ length cs
unfolding replace_first
replace_first-length k c [] = refl
replace_first-length k c (x ∷ xs) = ground (arith, replace_first-length k c xs)

success_message-avoids :
    (major minor outcome : List ℕ)
    → avoids 0 major ≡ true
    → avoids 0 minor ≡ true
    → avoids 0 outcome ≡ true
    → avoids 0 (success_message major minor outcome) ≡ true
unfolding success_message
success_message-avoids major minor outcome h_major h_minor h_outcome = ground (
  arith,
  avoids-append 0 (codes "/popup.ps3?Patchwork%20") major,
  avoids-append 0 (codes "/popup.ps3?Patchwork%20" ++ major) (codes "."),
  avoids-append 0 (codes "/popup.ps3?Patchwork%20" ++ major ++ codes ".") minor,
  avoids-append 0 (codes "/popup.ps3?Patchwork%20" ++ major ++ codes "." ++ minor)
      (codes "%20Loaded%20for%20LBPX%0ALobby%20password%20"),
  avoids-append 0
      (codes "/popup.ps3?Patchwork%20"
        ++ major
        ++ codes "."
        ++ minor
        ++ codes "%20Loaded%20for%20LBPX%0ALobby%20password%20")
      outcome,
  avoids-append 0
      (codes "/popup.ps3?Patchwork%20"
        ++ major
        ++ codes "."
        ++ minor
        ++ codes "%20Loaded%20for%20LBPX%0ALobby%20password%20"
        ++ outcome)
      (codes "&icon=8&snd=5"),
)

-- What is said of the lobby's key.
abbrev pub outcome_of : ℕ → Bool → List ℕ
outcome_of enable_join_key randomized =
    if enable_join_key == 0 then without_pw else if randomized then random_pw else with_pw

outcome_of-avoids : (n : ℕ) (b : Bool) → avoids 0 (outcome_of n b) ≡ true
outcome_of-avoids n b = ground arith

pub chosen_message-avoids :
    (major minor : List ℕ) (n : ℕ) (b : Bool)
    → avoids 0 major ≡ true
    → avoids 0 minor ≡ true
    → avoids 0 (chosen_message major minor n b) ≡ true
unfolding chosen_message
chosen_message-avoids major minor n b h_major h_minor =
    success_message-avoids major minor (outcome_of n b) h_major h_minor (outcome_of-avoids n b)

pub chosen_message-message_for :
    (c : ℕ) (major minor : List ℕ) (n : ℕ) (b : Bool)
    → avoids b'X' major ≡ true
    → avoids b'X' minor ≡ true
    → replace_first b'X' c (chosen_message major minor n b)
      ≡ message_for c major minor (outcome_of n b)
unfolding chosen_message
chosen_message-message_for c major minor n b =
    success_message-message_for c major minor (outcome_of n b)
