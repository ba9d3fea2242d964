-- ===== src/Text.antt =====
-- What the packages use of Go's `strings` and `strconv`, over text as a list of ASCII codes.
use gophersat.Prelude.{
  ℕ, ◌+◌, ◌-◌, ◌*◌, ◌^◌, Bool, ◌&&◌, ◌||◌, Option, none, some, List, [], ◌∷◌, ◌++◌, leb, ◌==◌,
  if◌then◌else◌,
}
use gophersat.Prelude.Int.{ℤ, pos, neg}

abbrev pub Str : Type 0
Str = List ℕ

unfoldable pub is_space : ℕ → Bool
is_space c = c == 32 || (leb 9 c && leb c 13)

abbrev end_word : Str → List Str → List Str
end_word [] words = words
end_word (c ∷ word) words = (c ∷ word) ∷ words

-- The words of `word ++ text`, where `word` holds no white space.
fields_from : Str → Str → List Str
fields_from word [] = end_word word []
fields_from word (c ∷ text) =
    let rest = end_word word (fields_from [] text) in
    let more = fields_from (word ++ c ∷ []) text in if is_space c then rest else more

-- strings.Fields
unfoldable pub fields : Str → List Str
unfolding fields_from is_space
fields text = fields_from [] text

-- The number written by the digits, read after others of the value `acc`.
unfoldable pub digits_value : ℕ → Str → Option ℕ
digits_value acc [] = some acc
digits_value acc (c ∷ text) =
    let rest = digits_value (acc * 10 + (c - 48)) text in
    if leb 48 c && leb c 57 then rest else none

-- The value of one digit or more, at most `limit`.
unfoldable pub unsigned : ℕ → Str → Option ℕ
unfolding digits_value
unsigned limit [] = none
unsigned limit (c ∷ text) = elim (digits_value 0 (c ∷ text)) [
  | none ↦ none
  | some n ↦ if leb n limit then some n else none
]

abbrev signed : (ℕ → ℤ) → Option ℕ → Option ℤ
signed f none = none
signed f (some n) = some (f n)

-- strconv.Atoi on a 64-bit machine: the value, or none for an error.
unfoldable pub atoi : Str → Option ℤ
unfolding unsigned
atoi [] = none
atoi (c ∷ text) =
    if c == 45
    then signed (λ n. neg (pos n)) (unsigned (2 ^ 63) text)
    else if c == 43
    then signed pos (unsigned (2 ^ 63 - 1) text)
    else signed pos (unsigned (2 ^ 63 - 1) (c ∷ text))
