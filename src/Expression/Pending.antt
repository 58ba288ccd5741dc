-- ===== src/Expression/Pending.antt =====
-- The stack of `infix_to_postfix`: what waits on it.
use hyu_3rd_1se.Prelude.{
  ℕ, ◌+◌, ◌≤◌, ◌≡◌, refl, ◌∙◌, true, false, ltb, ◌==◌, if◌then◌else◌, List, [], ◌∷◌, ◌++◌,
  append_assoc, All, Result, ok, ◌>>=◌, bind_ext, bind_assoc, arith,
}
use hyu_3rd_1se.Prelude.Int.{pos, ltb_ℤ}
use hyu_3rd_1se.Expression.{StackType, push, prec, pop_bracket, pop_higher, convert_token}
use hyu_3rd_1se.Expression.Trees.{Op, add, sub, mul, div, Expr, operand, bin, token_of, level_of}

-- How many elements the conversion of the infix form adds to the stack.
abbrev pub room : ℕ → Expr → ℕ
room p (operand c) = 0
room p (bin op l r) =
    let a = room (level_of op) l in
    let b = 1 + room (level_of op + 1) r in
    let inner = if ltb a b then b else a in if ltb (level_of op) p then 1 + inner else inner

-- Operators that wait on the stack, none of a lower level than `p`.
abbrev pub Pending : ℕ → List ℕ → Type 0
Pending p es = All (λ x. (op : Op) × (x ≡ token_of op) × (p ≤ level_of op)) es

-- What stands on top of the stack has a lower level than `p`.
abbrev pub Low : ℕ → List ℕ → Type 0
Low p [] = 0 ≤ p
Low p (x ∷ s) = ltb_ℤ (prec x) (pos p) ≡ true

pub prec-token_of : (op : Op) → prec (token_of op) ≡ pos (level_of op)
prec-token_of add = refl
prec-token_of sub = refl
prec-token_of mul = refl
prec-token_of div = refl

pub token_of_bracket : (op : Op) → (token_of op == 40) ≡ false
token_of_bracket add = refl
token_of_bracket sub = refl
token_of_bracket mul = refl
token_of_bracket div = refl

pub convert_token-op :
    (op : Op) (s : StackType ℕ)
    → convert_token (token_of op) s
      ≡ ok (let (s1, out) = pop_higher (token_of op) s in (push s1 (token_of op), out))
unfolding convert_token
convert_token-op add s = refl
convert_token-op sub s = refl
convert_token-op mul s = refl
convert_token-op div s = refl

pub pop_higher-Low :
    (op : Op) (s : StackType ℕ) → Low (level_of op) s → pop_higher (token_of op) s ≡ (s, [])
unfolding pop_higher
pop_higher-Low op [] l = refl
pop_higher-Low op (x ∷ s) l = rw (prec-token_of op, l)

pub pop_higher-Pending :
    (op : Op) (es s : StackType ℕ)
    → Pending (level_of op) es
    → Low (level_of op) s
    → pop_higher (token_of op) (es ++ s) ≡ (s, es)
unfolding pop_higher
pop_higher-Pending op [] s a l = pop_higher-Low op s l
pop_higher-Pending op (x ∷ es) s ((o, e, h), a) l =
    let not_lower : ltb_ℤ (prec x) (prec (token_of op)) ≡ false =
      rw (e, prec-token_of o, prec-token_of op) (ground arith) in
    rw (not_lower, pop_higher-Pending op es s a l)

pub pop_bracket-Pending :
    (p : ℕ) (es s : StackType ℕ) → Pending p es → pop_bracket (es ++ (40 ∷ s)) ≡ ok (s, es)
unfolding pop_bracket
pop_bracket-Pending p [] s a = refl
pop_bracket-Pending p (x ∷ es) s ((o, e, h), a) =
    let other : (x == 40) ≡ false = rw e (token_of_bracket o) in
    rw (other, pop_bracket-Pending p es s a)

-- A result behind what went to it before.
abbrev pub emit : List ℕ → Result (List ℕ) → Result (List ℕ)
emit out m = m >>= λ more. ok (out ++ more)

pub emit-append : (a b : List ℕ) (m : Result (List ℕ)) → emit a (emit b m) ≡ emit (a ++ b) m
emit-append a b m =
    bind_assoc m (λ more. ok (b ++ more)) (λ more. ok (a ++ more))
    ∙ bind_ext m (λ x. ok (a ++ (b ++ x))) (λ x. ok ((a ++ b) ++ x)) (λ x. simp append_assoc)
