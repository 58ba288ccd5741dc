-- ===== src/Expression/Trees.antt =====
-- Expressions as trees, how they are written, and their values.
use hyu_3rd_1se.Prelude.{
  ℕ, ◌+◌, ◌≡◌, true, ltb, if◌then◌else◌, List, [], ◌∷◌, ◌++◌, Result, ok, fault, div_by_zero, ◌>>=◌,
  ◌==◌,
}
use hyu_3rd_1se.Prelude.Int.{ℤ, pos, pos_part, neg_part, ◌+ℤ◌, ◌-ℤ◌}
use hyu_3rd_1se.Expression.{isalnum, int_result, times, divide}

pub data Op : Type 0 where
  add sub mul div : Op

pub data Expr : Type 0 where
  operand : ℕ → Expr
  bin : Op → Expr → Expr → Expr

abbrev pub token_of : Op → ℕ
token_of add = 43
token_of sub = 45
token_of mul = 42
token_of div = 47

abbrev pub level_of : Op → ℕ
level_of add = 1
level_of sub = 1
level_of mul = 2
level_of div = 2

-- Every operand is a letter or a digit.
abbrev pub IsExpr : Expr → Type 0
IsExpr (operand c) = isalnum c ≡ true
IsExpr (bin op l r) = IsExpr l × IsExpr r

abbrev pub postfix : Expr → List ℕ
postfix (operand c) = c ∷ []
postfix (bin op l r) = postfix l ++ postfix r ++ token_of op ∷ []

-- The infix form where operators of a lower level than `p` are in brackets: operators of a level group to
-- the left.
unfoldable pub infix_form : ℕ → Expr → List ℕ
infix_form p (operand c) = c ∷ []
infix_form p (bin op l r) =
    let inner = infix_form (level_of op) l ++ token_of op ∷ infix_form (level_of op + 1) r in
    if ltb (level_of op) p then 40 ∷ inner ++ 41 ∷ [] else inner

abbrev pub apply : Op → ℤ → ℤ → Result ℤ
apply add a b = int_result (a +ℤ b)
apply sub a b = int_result (a -ℤ b)
apply mul a b = int_result (times a b)
apply div a b = if pos_part b + neg_part b == 0 then fault div_by_zero else int_result (divide a b)

abbrev pub value : Expr → Result ℤ
value (operand c) = ok (pos c -ℤ pos 48)
value (bin op l r) = value l >>= λ a. value r >>= λ b. apply op a b
