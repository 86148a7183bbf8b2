-- ===== src/Cstring.antt =====
-- The functions of the C library on strings that the programs under src use: strings are lists of
-- bytes, without the terminating zero.
use raft_research.Prelude.{
  ℕ, zero, suc, ◌+◌, ◌-◌, ◌*◌, List, [], ◌∷◌, ◌++◌, Option, none, some, Bool, ◌&&◌, ◌||◌, leb, ◌==◌,
  if◌then◌else◌, take,
}
use raft_research.Prelude.Int.{ℤ, pos, negsuc}

-- strncpy into an array of `n` bytes. The array ends there; C leaves it without a zero.
abbrev pub strncpy : ℕ → List ℕ → List ℕ
strncpy n s = take n s

-- strcmp(..) == 0
abbrev pub str_eq : List ℕ → List ℕ → Bool
str_eq [] [] = Bool.true
str_eq (x ∷ xs) (y ∷ ys) = let rest = str_eq xs ys in if x == y then rest else Bool.false
str_eq _ _ = Bool.false

-- strchr, and the text on both sides of the byte found.
abbrev pub split_at : ℕ → List ℕ → Option (List ℕ × List ℕ)
split_at c [] = none
split_at c (x ∷ xs) =
    let rest = split_at c xs in
    if x == c then some ([], xs) else elim rest [ none ↦ none | some (a, b) ↦ some (x ∷ a, b) ]

abbrev pub is_digit : ℕ → Bool
is_digit c = leb 48 c && leb c 57

-- The number that the digits at the start of a text denote, after `acc`.
abbrev pub digits : ℕ → List ℕ → ℕ
digits acc [] = acc
digits acc (c ∷ cs) = let rest = digits (acc * 10 + (c - 48)) cs in if is_digit c then rest else acc

abbrev negate : ℕ → ℤ
negate zero = pos 0
negate (suc n) = negsuc n

abbrev signed : List ℕ → ℤ
signed [] = pos 0
signed (c ∷ cs) =
    if c == 45
    then negate (digits 0 cs)
    else if c == 43
    then pos (digits 0 cs)
    else pos (digits 0 (c ∷ cs))

abbrev is_space : ℕ → Bool
is_space c = (c == 32) || (leb 9 c && leb c 13)

-- atoi; C leaves a number that does not fit an int open.
abbrev pub atoi : List ℕ → ℤ
atoi [] = pos 0
atoi (c ∷ cs) = let rest = atoi cs in if is_space c then rest else signed (c ∷ cs)

-- strtok with "," as the delimiter: the longest pieces without a comma that are not empty. `piece`
-- is the part of the current one that has been read.
abbrev end_piece : List ℕ → List (List ℕ) → List (List ℕ)
end_piece [] rest = rest
end_piece (c ∷ cs) rest = (c ∷ cs) ∷ rest

abbrev pub tokens_from : List ℕ → List ℕ → List (List ℕ)
tokens_from piece [] = end_piece piece []
tokens_from piece (c ∷ cs) =
    let done = tokens_from [] cs in
    let more = tokens_from (piece ++ c ∷ []) cs in if c == 44 then end_piece piece done else more

abbrev pub tokens : List ℕ → List (List ℕ)
tokens s = tokens_from [] s
