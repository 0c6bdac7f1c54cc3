-- ===== src/Chat/Title.antt =====
-- `#generateHeuristicTitle` of backend/src/p9/services/chat.service.ts, over the code units of a
-- text, with the white space of JavaScript.
pub mod Bounds
use backend_bmo_blabs.Base.{
  ℕ, zero, suc, ◌+◌, Bool, true, false, ◌&&◌, ◌||◌, not, List, [], ◌∷◌, ◌++◌, ltb, leb, ◌==◌,
  if◌then◌else◌, length,
}

-- `\s`, which `trim` takes off too
unfoldable pub is_space : ℕ → Bool
is_space x =
    leb 9 x && leb x 13
    || x == 32
    || x == 160
    || x == 5_760
    || leb 8_192 x && leb x 8_202
    || x == 8_232
    || x == 8_233
    || x == 8_239
    || x == 8_287
    || x == 12_288
    || x == 65_279

unfoldable pub trim_start : List ℕ → List ℕ
unfolding is_space
trim_start [] = []
trim_start (x ∷ xs) = let rest = trim_start xs in if is_space x then rest else x ∷ xs

unfoldable pub trim_end : List ℕ → List ℕ
unfolding is_space
trim_end [] = []
trim_end (x ∷ xs) =
    let rest = trim_end xs in if is_space x && length rest == 0 then [] else x ∷ rest

unfoldable pub trim : List ℕ → List ℕ
unfolding trim_start trim_end
trim xs = trim_end (trim_start xs)

-- The next character ends the line.
unfoldable pub starts_line : List ℕ → Bool
starts_line [] = false
starts_line (x ∷ xs) = x == 10

-- `split(/\r?\n/)[0]`
unfoldable pub first_line : List ℕ → List ℕ
unfolding starts_line
first_line [] = []
first_line (x ∷ xs) =
    let rest = first_line xs in
    if x == 10 then [] else if x == 13 && starts_line xs then [] else x ∷ rest

-- `replace(/[...]+/g, " ")`; the Boolean tells whether the character before belongs to a run.
unfoldable pub squeeze : (ℕ → Bool) → Bool → List ℕ → List ℕ
squeeze p in_run [] = []
squeeze p in_run (x ∷ xs) =
    let rest = squeeze p (p x) xs in if p x then (if in_run then rest else 32 ∷ rest) else x ∷ rest

unfoldable pub is_break : ℕ → Bool
is_break x = x == 13 || x == 10 || x == 9

unfoldable pub slice : ℕ → List ℕ → List ℕ
slice zero xs = []
slice (suc n) [] = []
slice (suc n) (x ∷ xs) = x ∷ slice n xs

abbrev pub new_chat : List ℕ
new_chat = b'N' ∷ b'e' ∷ b'w' ∷ 32 ∷ b'c' ∷ b'h' ∷ b'a' ∷ b't' ∷ []

unfoldable pub generate_heuristic_title : List ℕ → List ℕ
unfolding trim first_line squeeze is_break slice
generate_heuristic_title text =
    let cleaned = trim (squeeze is_space false (squeeze is_break false (first_line (trim text)))) in
    if length cleaned == 0
    then new_chat
    else if ltb 40 (length cleaned)
    then trim (slice 37 cleaned) ++ (b'.' ∷ b'.' ∷ b'.' ∷ [])
    else cleaned
