-- ===== src/Settings/Version.antt =====
-- internal/promshim/storage/settings_profile.go: versions as lists of numbers, and their order.
use promshim_clickhouse.Base.{
  ℕ, zero, suc, ◌+◌, ◌-◌, ◌*◌, ◌^◌, Bool, not, List, [], ◌∷◌, Option, none, some, if◌then◌else◌,
  is_empty, leb, ltb, ◌==◌,
}
use promshim_clickhouse.Base.Comparison.{Comparison, less, equal, greater, is_less}
use promshim_clickhouse.Base.Int.{ℤ, pos, negsuc, ltb_ℤ}
use promshim_clickhouse.Bytes.{is_digit, Bytes}
use promshim_clickhouse.Bytes.Text.{text}

-- The number that decimal digits spell, none where one is not a digit.
unfoldable pub digits_from : ℕ → Bytes → Option ℕ
digits_from acc [] = some acc
digits_from acc (c ∷ rest) =
    let value = digits_from (acc * 10 + (c - b'0')) rest in if is_digit c then value else none

unfoldable pub digits : Bytes → Option ℕ
unfolding digits_from
digits s = if is_empty s then none else digits_from 0 s

abbrev negative : ℕ → ℤ
negative zero = pos 0
negative (suc n) = negsuc n

-- strconv.Atoi: an optional sign, decimal digits, and a number in the range of an int.
unfoldable pub atoi : Bytes → Option ℤ
unfolding digits
atoi [] = none
atoi (c ∷ rest) =
    if c == b'-'
    then (elim (digits rest) [
      | none ↦ none
      | some n ↦ if leb n (2 ^ 63) then some (negative n) else none
    ])
    else elim (if c == b'+' then digits rest else digits (c ∷ rest)) [
      | none ↦ none
      | some n ↦ if ltb n (2 ^ 63) then some (pos n) else none
    ]

-- strings.Split by "."
unfoldable pub split_dots : Bytes → List Bytes
split_dots [] = [] ∷ []
split_dots (c ∷ rest) = elim (split_dots rest) [
  | [] ↦ (c ∷ []) ∷ []
  | part ∷ parts ↦ if c == b'.' then [] ∷ part ∷ parts else (c ∷ part) ∷ parts
]

-- The numbers before the first part that is none.
unfoldable pub leading_numbers : List Bytes → List ℤ
unfolding atoi
leading_numbers [] = []
leading_numbers (part ∷ parts) =
    let rest = leading_numbers parts in elim (atoi part) [ none ↦ [] | some value ↦ value ∷ rest ]

-- The text is as strings.TrimSpace leaves it.
unfoldable pub parse_version_parts : Bytes → List ℤ
unfolding split_dots leading_numbers
parse_version_parts trimmed =
    leading_numbers (split_dots (if is_empty trimmed then text "26.3" else trimmed))

abbrev compare_next : ℤ → ℤ → Comparison → Comparison
compare_next l r rest = if ltb_ℤ l r then less else if ltb_ℤ r l then greater else rest

-- The loop over the positions of the longer list, where a missing number is 0.
unfoldable pub compare_parts : List ℤ → List ℤ → Comparison
compare_parts [] [] = equal
compare_parts [] (r ∷ rs) = compare_next (pos 0) r (compare_parts [] rs)
compare_parts (l ∷ ls) [] = compare_next l (pos 0) (compare_parts ls [])
compare_parts (l ∷ ls) (r ∷ rs) = compare_next l r (compare_parts ls rs)

unfoldable pub compare_version_parts : Bytes → Bytes → Comparison
unfolding compare_parts parse_version_parts
compare_version_parts left right =
    compare_parts (parse_version_parts left) (parse_version_parts right)

unfoldable pub click_house_version_at_least : Bytes → Bytes → Bool
unfolding compare_version_parts
click_house_version_at_least version minimum = not (is_less (compare_version_parts version minimum))
