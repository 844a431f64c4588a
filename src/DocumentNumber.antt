-- ===== src/DocumentNumber.antt =====
-- Sequential document numbers, apps/api/src/shared/document-number/document-number.service.ts.
use aipms.Prelude.{
  ℕ, zero, suc, ◌+◌, ◌-◌, ◌*◌, ◌/◌, ◌%◌, ◌≡◌, refl, Bool, true, false, ◌&&◌, Option, none, some,
  List, [], ◌∷◌, ◌++◌, length, ltb, leb, ◌==◌, if◌then◌else◌,
}
use aipms.Prelude.Text.{Text, units}

-- The decimal digits of a number; `f` bounds their count.
unfoldable pub digits_from : ℕ → ℕ → Text → Text
digits_from zero n acc = acc
digits_from (suc f) n acc =
    let rest = digits_from f (n / 10) ((b'0' + n % 10) ∷ acc) in
    if ltb n 10 then (b'0' + n) ∷ acc else rest

-- `String(n)`; a number has at most as many digits as `n + 1`.
unfoldable pub to_digits : ℕ → Text
to_digits n = digits_from (suc n) n []

unfoldable pub zeros : ℕ → Text
zeros zero = []
zeros (suc n) = b'0' ∷ zeros n

-- `padStart(width, '0')`
unfoldable pub pad_start : ℕ → Text → Text
pad_start width s = zeros (width - length s) ++ s

abbrev is_digit : ℕ → Bool
is_digit c = leb b'0' c && leb c b'9'

-- `Number.parseInt(s, 10)` of a text that begins with a digit; the digits in front count.
unfoldable pub parse_digits : ℕ → Text → ℕ
parse_digits acc [] = acc
parse_digits acc (c ∷ s) = if is_digit c then parse_digits (10 * acc + (c - b'0')) s else acc

-- Any other text gives NaN (the numbers in the tables carry no space or sign behind the prefix).
unfoldable pub parse_int : Text → Option ℕ
parse_int [] = none
parse_int (c ∷ s) = if is_digit c then some (parse_digits 0 (c ∷ s)) else none

-- `s.slice(n)`
unfoldable pub slice : ℕ → Text → Text
slice zero s = s
slice (suc n) [] = []
slice (suc n) (c ∷ s) = slice n s

unfoldable pub sequence : Option ℕ → Text
sequence none = units "NaN"
sequence (some n) = to_digits (n + 1)

unfoldable pub next : Text → Option Text → Text
next before none = before ++ pad_start 6 (to_digits 1)
next before (some last) = before ++ pad_start 6 (sequence (parse_int (slice (length before) last)))

-- The order of texts by code units, and the greatest number of a list: the first row of
-- `orderBy: { number: 'desc' }`.
unfoldable pub text_lt : Text → Text → Bool
text_lt [] [] = false
text_lt [] (b ∷ t) = true
text_lt (a ∷ s) [] = false
text_lt (a ∷ s) (b ∷ t) = if a == b then text_lt s t else ltb a b

unfoldable pub latest : List Text → Option Text
latest [] = none
latest (s ∷ ss) = elim (latest ss) [
  | none ↦ some s
  | some t ↦ if text_lt s t then some t else some s
]

first_number : next (units "RUN-") none ≡ units "RUN-000001"
unfolding next pad_start zeros to_digits digits_from
first_number = refl

later_number : next (units "RUN-") (some (units "RUN-000041")) ≡ units "RUN-000042"
unfolding next pad_start zeros to_digits digits_from slice parse_int parse_digits sequence
later_number = refl
