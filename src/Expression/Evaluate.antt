-- ===== src/Expression/Evaluate.antt =====
-- `postfixEval` on the postfix form of an expression.
use hyu_3rd_1se.Prelude.{
  ℕ, ◌+◌, ◌≤◌, ◌<◌, ◌≡◌, sym, ap, ◌∙◌, ltb, ◌==◌, if◌then◌else◌, List, [], ◌∷◌, ◌++◌, length,
  append_assoc, append-nil, Result, ok, ◌>>=◌, bind_ext, bind_assoc, arith, ==-of_ne, Bool-cases,
  inl, inr, bind_ok,
}
use hyu_3rd_1se.Prelude.Int.{ℤ, pos, pos_part, neg_part, ◌+ℤ◌, ◌-ℤ◌}
use hyu_3rd_1se.Expression.{
  StackType, push, pop, int_result, times, divide, operate, eval_token, eval_loop, postfix_eval,
}
use hyu_3rd_1se.Expression.Trees.{
  Op, add, sub, mul, div, Expr, operand, bin, token_of, IsExpr, postfix, apply, value,
}

-- How many elements the evaluation needs on the stack.
abbrev pub depth : Expr → ℕ
depth (operand c) = 1
depth (bin op l r) = if ltb (depth l) (1 + depth r) then 1 + depth r else depth l

pub push_room : {A : Type 0} (s : StackType A) (x : A) → length s < 50 → push s x ≡ x ∷ s
unfolding push
push_room s x l = rw (==-of_ne (length s) 50 (λ e. absurd (omega (arith, e))))

-- A result that is put on the stack.
int_result-push :
    (v : ℤ) (s : StackType ℤ)
    → length s < 50
    → (int_result v >>= λ x. ok (push s x)) ≡ (int_result v >>= λ x. ok (x ∷ s))
int_result-push v s l =
    bind_ext (int_result v) (λ x. ok (push s x)) (λ x. ok (x ∷ s)) (λ x. ap ok (push_room s x l))

eval_token-apply :
    (op : Op) (a b : ℤ) (s : StackType ℤ)
    → length s < 50
    → eval_token (token_of op) (b ∷ a ∷ s) ≡ (apply op a b >>= λ v. ok (v ∷ s))
unfolding eval_token pop operate
eval_token-apply add a b s l = int_result-push (a +ℤ b) s l
eval_token-apply sub a b s l = int_result-push (a -ℤ b) s l
eval_token-apply mul a b s l = int_result-push (times a b) s l
eval_token-apply div a b s l = elim (Bool-cases (pos_part b + neg_part b == 0)) [
  | inl z ↦ rw z
  | inr n ↦ rw n (int_result-push (divide a b) s l)
]

eval_loop-op :
    (op : Op) (a b : ℤ) (rest : List ℕ) (s : StackType ℤ)
    → length s < 50
    → eval_loop (token_of op ∷ rest) (b ∷ a ∷ s) ≡ (apply op a b >>= λ v. eval_loop rest (v ∷ s))
unfolding eval_loop
eval_loop-op op a b rest s l =
    ap (λ (m : Result (StackType ℤ)). m >>= eval_loop rest) (eval_token-apply op a b s l)
    ∙ bind_assoc (apply op a b) (λ v. ok (v ∷ s)) (eval_loop rest)

eval_loop-postfix :
    (e : Expr) (rest : List ℕ) (s : StackType ℤ)
    → IsExpr e
    → length s + depth e ≤ 50
    → eval_loop (postfix e ++ rest) s ≡ (value e >>= λ v. eval_loop rest (v ∷ s))
unfolding eval_loop eval_token
eval_loop-postfix (operand c) rest s i l = rw (i, push_room s (pos c -ℤ pos 48) (omega arith))
eval_loop-postfix (bin op l r) rest s (i, j) d =
    let deep_l : depth l ≤ depth (bin op l r) = ground arith in
    let deep_r : 1 + depth r ≤ depth (bin op l r) = ground arith in
    let order : postfix (bin op l r) ++ rest ≡ postfix l ++ (postfix r ++ (token_of op ∷ rest)) =
      simp append_assoc in
    ap (λ ts. eval_loop ts s) order
    ∙ eval_loop-postfix l (postfix r ++ (token_of op ∷ rest)) s i (omega (arith, d, deep_l))
    ∙ bind_ext (value l) (λ a. eval_loop (postfix r ++ (token_of op ∷ rest)) (a ∷ s))
        (λ a. value r >>= (λ b. apply op a b) >>= λ v. eval_loop rest (v ∷ s))
        (λ a.
          eval_loop-postfix r (token_of op ∷ rest) (a ∷ s) j (omega (arith, d, deep_r))
          ∙ bind_ext (value r) (λ b. eval_loop (token_of op ∷ rest) (b ∷ a ∷ s))
              (λ b. apply op a b >>= λ v. eval_loop rest (v ∷ s))
              (λ b. eval_loop-op op a b rest s (omega (arith, d, deep_r)))
          ∙ sym (bind_assoc (value r) (λ b. apply op a b) (λ v. eval_loop rest (v ∷ s))))
    ∙ sym (bind_assoc (value l) (λ a. value r >>= λ b. apply op a b) (λ v. eval_loop rest (v ∷ s)))

-- `postfixEval` of the postfix form of an expression computes its value, or fails as the expression does:
-- at the first division by zero or overflow. The stack has room for expressions up to depth 50.
pub postfix_eval-postfix : (e : Expr) → IsExpr e → depth e ≤ 50 → postfix_eval (postfix e) ≡ value e
unfolding postfix_eval eval_loop pop
postfix_eval-postfix e i d =
    ap (λ (ts : List ℕ). eval_loop ts [] >>= λ s. pop s >>= λ (v, s1). ok v)
      (sym (append-nil (postfix e)))
    ∙ ap (λ (m : Result (StackType ℤ)). m >>= λ s. pop s >>= λ (v, s1). ok v)
        (eval_loop-postfix e [] [] i (omega arith))
    ∙ bind_assoc (value e) (λ v. ok (v ∷ [])) (λ s. pop s >>= λ (v, s1). ok v)
    ∙ bind_ok (value e)
