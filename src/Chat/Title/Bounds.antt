-- ===== src/Chat/Title/Bounds.antt =====
-- The title has one to forty characters.
use backend_bmo_blabs.Base.{
  ℕ, zero, suc, ◌≤◌, ◌<◌, inl, inr, false, List, [], ◌∷◌, ltb, ◌==◌, length, length-append, arith,
  Bool-cases,
}
use backend_bmo_blabs.Chat.Title.{
  is_space, trim_start, trim_end, trim, first_line, squeeze, is_break, slice,
  generate_heuristic_title,
}

length-trim_start : (xs : List ℕ) → length (trim_start xs) ≤ length xs
unfolding trim_start
length-trim_start [] = omega arith
length-trim_start (x ∷ xs) = ground (arith, length-trim_start xs)

length-trim_end : (xs : List ℕ) → length (trim_end xs) ≤ length xs
unfolding trim_end
length-trim_end [] = omega arith
length-trim_end (x ∷ xs) = ground (arith, length-trim_end xs)

length-trim : (xs : List ℕ) → length (trim xs) ≤ length xs
unfolding trim
length-trim xs = omega (arith, length-trim_start xs, length-trim_end (trim_start xs))

length-slice : (n : ℕ) (xs : List ℕ) → length (slice n xs) ≤ n
unfolding slice
length-slice zero xs = omega arith
length-slice (suc n) [] = omega arith
length-slice (suc n) (x ∷ xs) = omega (arith, length-slice n xs)

-- Any text gives a title of at least one character and at most forty.
pub title_bounds :
    (text : List ℕ)
    → (0 < length (generate_heuristic_title text)) × (length (generate_heuristic_title text) ≤ 40)
unfolding generate_heuristic_title
title_bounds text =
    let cleaned = trim (squeeze is_space false (squeeze is_break false (first_line (trim text)))) in
    let a = length-trim (slice 37 cleaned) in
    let b = length-slice 37 cleaned in
    let c = length-append (trim (slice 37 cleaned)) (b'.' ∷ b'.' ∷ b'.' ∷ []) in
    elim (Bool-cases (length cleaned == 0)) [
      | inl nothing ↦ rw nothing (omega arith, omega arith)
      | inr words ↦ elim (Bool-cases (ltb 40 (length cleaned))) [
        | inl long ↦ rw (words, long) (omega arith, omega arith)
        | inr short ↦ rw (words, short) (ground arith, ground arith)
      ]
    ]
