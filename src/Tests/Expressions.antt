-- ===== src/Tests/Expressions.antt =====
-- HW8_given.c at 9-(1+2)*3.
use hyu_3rd_1se.Prelude.{◌≡◌, refl, [], ◌∷◌, ok, ◌>>=◌, arith}
use hyu_3rd_1se.Expression.{infix_to_postfix, postfix_eval}
use hyu_3rd_1se.Expression.Trees.{
  Expr, operand, bin, add, sub, mul, IsExpr, infix_form, postfix, value,
}
use hyu_3rd_1se.Expression.Convert.{infix_to_postfix-infix_form, postfix_eval-infix_to_postfix}

abbrev small_expr : Expr
small_expr = bin sub (operand b'9') (bin mul (bin add (operand b'1') (operand b'2')) (operand b'3'))

small_expr-IsExpr : IsExpr small_expr
small_expr-IsExpr = (refl, ((refl, refl), refl))

infix_to_postfix-infix_form_example :
    infix_to_postfix (infix_form 0 small_expr) ≡ ok (postfix small_expr)
infix_to_postfix-infix_form_example =
    infix_to_postfix-infix_form small_expr small_expr-IsExpr (omega arith)

postfix_eval-infix_to_postfix_example :
    (infix_to_postfix (infix_form 0 small_expr) >>= postfix_eval) ≡ value small_expr
postfix_eval-infix_to_postfix_example =
    postfix_eval-infix_to_postfix small_expr small_expr-IsExpr (omega arith) (omega arith)

-- 9-(1+2)*3 is read back as it is written.
small_expr_text :
    infix_form 0 small_expr ≡ b'9' ∷ b'-' ∷ b'(' ∷ b'1' ∷ b'+' ∷ b'2' ∷ b')' ∷ b'*' ∷ b'3' ∷ []
unfolding infix_form
small_expr_text = refl
