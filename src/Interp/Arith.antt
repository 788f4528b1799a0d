-- ===== src/Interp/Arith.antt =====
-- Integer arithmetic on `i128` and `binary`: crates/ontixa-interpreter/src/interp.rs.
use ontixa.Prelude.{
  ℕ, ◌+◌, ◌/◌, ◌%◌, ◌^◌, Bool, true, false, not, ◌&&◌, ◌||◌, List, [], ◌∷◌, ◌++◌, leb, ltb, ◌==◌,
  if◌then◌else◌,
}
use ontixa.Prelude.Int.{ℤ, pos, negsuc, pos_part, neg_part, sub_ℕ, ◌+ℤ◌, ◌-ℤ◌, ◌*ℤ◌, ltb_ℤ}
use ontixa.Mir.{BinOp, UnOp, add, sub, mul, div, eq, ne, lt, le, gt, ge, and, or}
use ontixa.Interp.Value.{
  Floats, Value, M, panic, pure, fail, values_eq, division_by_zero, remainder_by_zero, bad_binary,
  bad_unary, int, float, str, char, bool,
}

abbrev pub i128_half : ℕ
i128_half = 2 ^ 127

unfoldable pub in_i128 : ℤ → Bool
in_i128 (pos n) = ltb n i128_half
in_i128 (negsuc n) = ltb n i128_half

unfoldable pub magnitude : ℤ → ℕ
magnitude a = pos_part a + neg_part a

unfoldable pub is_neg : ℤ → Bool
is_neg (pos n) = false
is_neg (negsuc n) = true

-- The integer of a sign and a magnitude.
unfoldable pub signed : Bool → ℕ → ℤ
signed negative n = if negative then sub_ℕ 0 n else pos n

-- `/` and `%` of Rust: the quotient is cut towards 0, the remainder has the dividend's sign.
unfoldable pub quot : ℤ → ℤ → ℤ
unfolding magnitude is_neg signed
quot a b = signed (if is_neg a then not (is_neg b) else is_neg b) (magnitude a / magnitude b)

unfoldable pub rem : ℤ → ℤ → ℤ
unfolding magnitude is_neg signed
rem a b = signed (is_neg a) (magnitude a % magnitude b)

unfoldable pub is_zero : ℤ → Bool
is_zero (pos n) = n == 0
is_zero (negsuc n) = false

-- Lexicographic order: of UTF-8 bytes and of scalar values it is the same.
unfoldable pub text_lt : List ℕ → List ℕ → Bool
text_lt [] [] = false
text_lt [] (b ∷ bs) = true
text_lt (a ∷ as') [] = false
text_lt (a ∷ as') (b ∷ bs) = ltb a b || a == b && text_lt as' bs

module _ (F : Floats) where
  -- An `i128` result, or the panic of an overflow check.
  unfoldable pub checked : ℤ → M F (Value F)
  unfolding in_i128
  checked z h = if in_i128 z then pure (int z) h else panic

  unfoldable pub divide : ℤ → ℤ → M F (Value F)
  unfolding is_zero quot checked
  divide a b = if is_zero b then fail division_by_zero else checked (quot a b)

  -- The remainder panics where the quotient overflows.
  unfoldable pub remainder : ℤ → ℤ → M F (Value F)
  unfolding is_zero quot rem in_i128
  remainder a b h =
      if is_zero b
      then fail remainder_by_zero h
      else (if in_i128 (quot a b) then pure (int (rem a b)) h else panic)

  unfoldable pub truth : Bool → M F (Value F)
  truth b = pure (bool b)

  unfoldable pub binary : BinOp → Value F → Value F → M F (Value F)
  unfolding checked divide remainder truth values_eq text_lt
  binary add (int a) (int b) = checked (a +ℤ b)
  binary add (float a) (float b) = pure (float (F.add a b))
  binary add (str a) (str b) = pure (str (a ++ b))
  binary sub (int a) (int b) = checked (a -ℤ b)
  binary sub (float a) (float b) = pure (float (F.sub a b))
  binary mul (int a) (int b) = checked (a *ℤ b)
  binary mul (float a) (float b) = pure (float (F.mul a b))
  binary div (int a) (int b) = divide a b
  binary div (float a) (float b) = pure (float (F.div a b))
  binary BinOp.rem (int a) (int b) = remainder a b
  binary BinOp.rem (float a) (float b) = pure (float (F.rem a b))
  binary eq a b = truth (values_eq F a b)
  binary ne a b = truth (not (values_eq F a b))
  binary lt (int a) (int b) = truth (ltb_ℤ a b)
  binary lt (float a) (float b) = truth (F.lt a b)
  binary lt (str a) (str b) = truth (text_lt a b)
  binary lt (char a) (char b) = truth (ltb a b)
  binary le (int a) (int b) = truth (not (ltb_ℤ b a))
  binary le (float a) (float b) = truth (F.le a b)
  binary le (str a) (str b) = truth (not (text_lt b a))
  binary le (char a) (char b) = truth (leb a b)
  binary gt (int a) (int b) = truth (ltb_ℤ b a)
  binary gt (float a) (float b) = truth (F.lt b a)
  binary gt (str a) (str b) = truth (text_lt b a)
  binary gt (char a) (char b) = truth (ltb b a)
  binary ge (int a) (int b) = truth (not (ltb_ℤ a b))
  binary ge (float a) (float b) = truth (F.le b a)
  binary ge (str a) (str b) = truth (not (text_lt a b))
  binary ge (char a) (char b) = truth (leb b a)
  binary and (bool a) (bool b) = truth (a && b)
  binary or (bool a) (bool b) = truth (a || b)
  binary _ _ _ = fail bad_binary

  unfoldable pub unary : UnOp → Value F → M F (Value F)
  unfolding checked
  unary UnOp.neg (int a) = checked (pos 0 -ℤ a)
  unary UnOp.neg (float a) = pure (float (F.neg a))
  unary UnOp.not (bool b) = pure (bool (not b))
  unary _ _ = fail bad_unary
