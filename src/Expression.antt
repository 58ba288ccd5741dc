-- ===== src/Expression.antt =====
-- CSE/HW8/HW8_given.c: infix and postfix expressions, with a stack. A C string is the list of its bytes
-- before the terminating zero, and the arrays for the results are taken to be long enough.
pub mod Trees
pub mod Convert
pub mod Evaluate
pub mod Pending
use hyu_3rd_1se.Prelude.{
  ℕ, zero, suc, ◌+◌, ◌-◌, ◌*◌, ◌/◌, ◌≡◌, Bool, true, false, not, ◌&&◌, ◌||◌, ltb, leb, ◌==◌,
  if◌then◌else◌, List, [], ◌∷◌, ◌++◌, length, Result, ok, fault, div_by_zero, exit_1, int_overflow,
  ◌>>=◌,
}
use hyu_3rd_1se.Prelude.Int.{ℤ, pos, negsuc, pos_part, neg_part, ltb_ℤ, sub_ℕ, ◌+ℤ◌, ◌-ℤ◌}

abbrev pub max_stack_size : ℕ
max_stack_size = 50

-- `StackType` is the list of `stack[top]` to `stack[0]`.
abbrev pub StackType : Type 0 → Type 0
StackType A = List A

module _ {A : Type 0} where
  abbrev pub is_empty : StackType A → Bool
  is_empty s = length s == 0

  abbrev pub is_full : StackType A → Bool
  is_full s = length s == max_stack_size

  -- A push onto a full stack only prints.
  unfoldable pub push : StackType A → A → StackType A
  push s item = if is_full s then s else item ∷ s

  unfoldable pub pop : StackType A → Result (A × StackType A)
  pop [] = fault exit_1
  pop (x ∷ s) = ok (x, s)

-- `isalnum` in the C locale.
abbrev pub isalnum : ℕ → Bool
isalnum c = (leb 48 c && leb c 57) || (leb 65 c && leb c 90) || (leb 97 c && leb c 122)

-- `prec`, by the bytes of ( ) + - * / in this order.
abbrev pub prec : ℕ → ℤ
prec op =
    if op == 40 || op == 41
    then pos 0
    else if op == 43 || op == 45
    then pos 1
    else if op == 42 || op == 47
    then pos 2
    else negsuc 0

-- The loop for `)`: what it pops before `(` goes to the result.
unfoldable pub pop_bracket : StackType ℕ → Result (StackType ℕ × List ℕ)
pop_bracket [] = fault exit_1
pop_bracket (x ∷ s) =
    let rest = pop_bracket s >>= λ (s1, out). ok (s1, x ∷ out) in
    if x == 40 then ok (s, []) else rest

-- The loop for an operator.
unfoldable pub pop_higher : ℕ → StackType ℕ → StackType ℕ × List ℕ
pop_higher token [] = ([], [])
pop_higher token (x ∷ s) =
    let (s1, out) = pop_higher token s in
    if ltb_ℤ (prec x) (prec token) then (x ∷ s, []) else (s1, x ∷ out)

-- One round of `infix_to_postfix`: the stack, and what goes to the result.
unfoldable pub convert_token : ℕ → StackType ℕ → Result (StackType ℕ × List ℕ)
convert_token token s =
    if isalnum token
    then ok (s, token ∷ [])
    else if token == 40
    then ok (push s 40, [])
    else if token == 41
    then pop_bracket s
    else ok (let (s1, out) = pop_higher token s in (push s1 token, out))

-- The loop, and then the loop that empties the stack.
unfoldable pub convert_loop : List ℕ → StackType ℕ → Result (List ℕ)
convert_loop [] s = ok s
convert_loop (token ∷ text) s =
    convert_token token s >>= λ (s1, out). convert_loop text s1 >>= λ more. ok (out ++ more)

unfoldable pub infix_to_postfix : List ℕ → Result (List ℕ)
infix_to_postfix text = convert_loop text []

-- An `int` result; what does not fit is an overflow, which C leaves undefined.
abbrev pub int_result : ℤ → Result ℤ
int_result v =
    if ltb_ℤ v (negsuc 2147483647) || ltb_ℤ (pos 2147483647) v then fault int_overflow else ok v

abbrev pub times : ℤ → ℤ → ℤ
times a b =
    sub_ℕ (pos_part a * pos_part b + neg_part a * neg_part b)
      (pos_part a * neg_part b + neg_part a * pos_part b)

-- Division of C rounds towards zero.
abbrev pub divide : ℤ → ℤ → ℤ
divide a b =
    let q = (pos_part a + neg_part a) / (pos_part b + neg_part b) in
    if ltb_ℤ a (pos 0) && ltb_ℤ b (pos 0) || not (ltb_ℤ a (pos 0)) && not (ltb_ℤ b (pos 0))
    then pos q
    else sub_ℕ 0 q

abbrev pub store : Result ℤ → StackType ℤ → Result (StackType ℤ)
store r s = r >>= λ v. ok (push s v)

-- The `switch` of `postfixEval`: the stack with the result of the operation.
unfoldable pub operate : ℕ → ℤ → ℤ → StackType ℤ → Result (StackType ℤ)
operate token oa2 oa1 s =
    if token == 43
    then store (int_result (oa2 +ℤ oa1)) s
    else if token == 42
    then store (int_result (times oa2 oa1)) s
    else if token == 45
    then store (int_result (oa2 -ℤ oa1)) s
    else if token == 47
    then if pos_part oa1 + neg_part oa1 == 0
      then fault div_by_zero
      else store (int_result (divide oa2 oa1)) s
    else ok s

unfoldable pub eval_token : ℕ → StackType ℤ → Result (StackType ℤ)
eval_token token s =
    if isalnum token
    then ok (push s (pos token -ℤ pos 48))
    else pop s >>= λ (oa1, s1). pop s1 >>= λ (oa2, s2). operate token oa2 oa1 s2

unfoldable pub eval_loop : List ℕ → StackType ℤ → Result (StackType ℤ)
eval_loop [] s = ok s
eval_loop (token ∷ exp) s = eval_token token s >>= λ s1. eval_loop exp s1

unfoldable pub postfix_eval : List ℕ → Result ℤ
postfix_eval exp = eval_loop exp [] >>= λ s. pop s >>= λ (v, s1). ok v
