-- ===== src/Floats.antt =====
-- Go's float64, as far as the evaluator uses it: a type with the operations and tests of the language
-- and of package math, and no law. What a theorem relies on is among its hypotheses.
use promshim_clickhouse.Base.{
  ℕ, ◌+◌, ◌-◌, ◌*◌, ◌/◌, ◌%◌, ◌^◌, Bool, true, false, Option, none, some, ltb, leb, ◌==◌,
  if◌then◌else◌,
}

pub record Floats : Type 1 where
  pub F : Type 0
  pub zero : F
  pub one : F
  pub add : F → F → F
  pub sub : F → F → F
  pub mul : F → F → F
  pub div : F → F → F
  pub power : F → F → F
  pub modulo : F → F → F
  pub neg : F → F
  pub eq : F → F → Bool
  pub lt : F → F → Bool
  pub le : F → F → Bool
  pub is_nan : F → Bool
  pub is_inf : F → Bool
  pub trunc : F → F
  pub floor : F → F
  pub ceil : F → F
  pub sqrt : F → F
  pub min : F → F → F
  pub nan : F
  pub inf : F
  pub neg_inf : F
  -- float64(n) and int(x)
  pub of_int : ℕ → F
  pub to_int : F → ℕ

-- Natural numbers in the place of floats, for runs on concrete inputs.
abbrev pub nat_floats : Floats
nat_floats = record {
  F = ℕ;
  zero = 0;
  one = 1;
  add = λ a b. a + b;
  sub = λ a b. a - b;
  mul = λ a b. a * b;
  div = λ a b. a / b;
  power = λ a b. a ^ b;
  modulo = λ a b. a % b;
  neg = λ a. a;
  eq = λ a b. a == b;
  lt = ltb;
  le = leb;
  is_nan = λ a. false;
  is_inf = λ a. false;
  trunc = λ a. a;
  floor = λ a. a;
  ceil = λ a. a;
  sqrt = λ a. a;
  min = λ a b. if leb a b then a else b;
  nan = 0;
  inf = 0;
  neg_inf = 0;
  of_int = λ n. n;
  to_int = λ a. a;
}

-- An operation of numbers, and NaN where an operand is NaN.
abbrev lift : (ℕ → ℕ → ℕ) → Option ℕ → Option ℕ → Option ℕ
lift f (some a) (some b) = some (f a b)
lift f _ _ = none

-- A comparison of numbers, false where an operand is NaN.
abbrev both : (ℕ → ℕ → Bool) → Option ℕ → Option ℕ → Bool
both test (some a) (some b) = test a b
both test _ _ = false

-- Natural numbers and NaN in the place of floats.
abbrev pub nan_floats : Floats
nan_floats = record {
  F = Option ℕ;
  zero = some 0;
  one = some 1;
  add = lift (λ a b. a + b);
  sub = lift (λ a b. a - b);
  mul = lift (λ a b. a * b);
  div = lift (λ a b. a / b);
  power = lift (λ a b. a ^ b);
  modulo = lift (λ a b. a % b);
  neg = λ a. a;
  eq = both (λ a b. a == b);
  lt = both ltb;
  le = both leb;
  is_nan = λ a. elim a [ none ↦ true | some n ↦ false ];
  is_inf = λ a. false;
  trunc = λ a. a;
  floor = λ a. a;
  ceil = λ a. a;
  sqrt = λ a. a;
  min = lift (λ a b. if leb a b then a else b);
  nan = none;
  inf = some 0;
  neg_inf = some 0;
  of_int = λ n. some n;
  to_int = λ a. elim a [ none ↦ 0 | some n ↦ n ];
}
