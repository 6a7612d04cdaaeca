-- ===== src/Sorting/Total.antt =====
-- The natural order of texts of internal/promshim/local/exec/sort.go, and the order of bytes, are total.
use promshim_clickhouse.Base.{◌≡◌, sym, arith, Bool-cases, inl, inr, subst, fun_ext}
use promshim_clickhouse.Base.Comparison.{
  less, equal, flip, IsOrder, Always, compare_nat-IsOrder, on-IsOrder, compare_list-IsOrder,
  by_less-IsOrder,
}
use promshim_clickhouse.Bytes.{bytes_lt, bytes_lt_trans, bytes_lt_asym, bytes_lt_connected}
use promshim_clickhouse.Bytes.Decimal.ReadBack.{number}
use promshim_clickhouse.Sorting.{compare_bytes, natural_compare_strings}
use promshim_clickhouse.Sorting.Natural.{
  Token, run, byte, tokens, compare_token, natural_compare_strings-tokens,
}

pub compare_bytes-IsOrder : IsOrder Always compare_bytes
compare_bytes-IsOrder = by_less-IsOrder record {
  asym = λ a b _ _. bytes_lt_asym a b;
  splits = λ a b c _ _ _ h k. elim (Bool-cases (bytes_lt b a)) [
    | inl e ↦ bytes_lt_trans b a c e h
    | inr e ↦ rw (sym (bytes_lt_connected a b k e)) h
  ];
}

-- Runs by numbers and bytes by codes: the digits lie together among the bytes.
token_flips : (a b : Token) → compare_token b a ≡ flip (compare_token a b)
token_flips (run a) (run b) = compare_nat-IsOrder.flips (number 0 a) (number 0 b) tt tt
token_flips (run a) (byte d) = ground arith
token_flips (byte c) (run b) = ground arith
token_flips (byte c) (byte d) = ground arith

token_trans :
    (a b c : Token) → compare_token a b ≡ less → compare_token b c ≡ less → compare_token a c ≡ less
token_trans (run a) (run b) (run c) h k =
    compare_nat-IsOrder.less_trans (number 0 a) (number 0 b) (number 0 c) tt tt tt h k
token_trans (run a) (run b) (byte c) h k = ground (arith, h, k)
token_trans (run a) (byte b) (run c) h k = ground (arith, h, k)
token_trans (run a) (byte b) (byte c) h k = ground (arith, h, k)
token_trans (byte a) (run b) (run c) h k = ground (arith, h, k)
token_trans (byte a) (run b) (byte c) h k = ground (arith, h, k)
token_trans (byte a) (byte b) (run c) h k = ground (arith, h, k)
token_trans (byte a) (byte b) (byte c) h k = ground (arith, h, k)

token_equal : (a b c : Token) → compare_token a b ≡ equal → compare_token a c ≡ compare_token b c
token_equal (run a) (run b) (run c) h =
    compare_nat-IsOrder.equal_left (number 0 a) (number 0 b) (number 0 c) tt tt tt h
token_equal (run a) (run b) (byte c) h = ground (arith, h)
token_equal (run a) (byte b) (run c) h = ground (arith, h)
token_equal (run a) (byte b) (byte c) h = ground (arith, h)
token_equal (byte a) (run b) (run c) h = ground (arith, h)
token_equal (byte a) (run b) (byte c) h = ground (arith, h)
token_equal (byte a) (byte b) (run c) h = ground (arith, h)
token_equal (byte a) (byte b) (byte c) h = ground (arith, h)

compare_token-IsOrder : IsOrder Always compare_token
compare_token-IsOrder = record {
  flips = λ a b _ _. token_flips a b;
  less_trans = λ a b c _ _ _. token_trans a b c;
  equal_left = λ a b c _ _ _. token_equal a b c;
}

-- The natural order of texts is total, and texts that it finds equal compare alike with every other.
pub natural_compare_strings-IsOrder : IsOrder Always natural_compare_strings
natural_compare_strings-IsOrder =
    subst (IsOrder Always) (fun_ext λ a. fun_ext λ b. sym (natural_compare_strings-tokens a b))
      (on-IsOrder (compare_list-IsOrder compare_token-IsOrder) Always tokens (λ _ _. tt))
