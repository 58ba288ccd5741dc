-- ===== src/Expression/Convert.antt =====
-- `infix_to_postfix` on the infix form of an expression.
use hyu_3rd_1se.Prelude.{
  ℕ, ◌+◌, ◌≤◌, ◌<◌, ◌≡◌, refl, sym, ap, ◌∙◌, ltb, if◌then◌else◌, List, [], ◌∷◌, ◌++◌, length,
  append_assoc, append-nil, Result, ok, ◌>>=◌, bind_ok, arith, Bool-cases, inl, inr,
}
use hyu_3rd_1se.Expression.{StackType, convert_token, convert_loop, infix_to_postfix, postfix_eval}
use hyu_3rd_1se.Expression.Trees.{
  value, Op, add, sub, mul, div, Expr, operand, bin, token_of, level_of, IsExpr, postfix,
  infix_form,
}
use hyu_3rd_1se.Expression.Evaluate.{push_room}
use hyu_3rd_1se.Expression.Pending.{
  room, Pending, Low, convert_token-op, pop_higher-Pending, pop_bracket-Pending, emit, emit-append,
}
use hyu_3rd_1se.Expression.Evaluate.{depth, postfix_eval-postfix}

-- The conversion from a stack `s` takes a text away: what goes to the result and what waits on the stack
-- are together the postfix form.
record Converted (p : ℕ) (e : Expr) (text rest : List ℕ) (s : StackType ℕ) : Type 0 where
  pub out : List ℕ
  pub waiting : List ℕ
  pub pending : Pending p waiting
  pub whole : out ++ waiting ≡ postfix e
  pub run : convert_loop (text ++ rest) s ≡ emit out (convert_loop rest (waiting ++ s))

All-append : (p : ℕ) (xs ys : List ℕ) → Pending p xs → Pending p ys → Pending p (xs ++ ys)
All-append p [] ys a b = b
All-append p (x ∷ xs) ys (h, a) b = (h, All-append p xs ys a b)

Pending-lower : (p q : ℕ) (xs : List ℕ) → p ≤ q → Pending q xs → Pending p xs
Pending-lower p q [] l a = tt
Pending-lower p q (x ∷ xs) l ((o, e, h), a) = ((o, e, omega arith), Pending-lower p q xs l a)

-- The step at an operator behind its left operand.
convert_loop-op :
    (op : Op) (es rest s : List ℕ)
    → Pending (level_of op) es
    → Low (level_of op) s
    → length s < 50
    → convert_loop (token_of op ∷ rest) (es ++ s) ≡ emit es (convert_loop rest (token_of op ∷ s))
unfolding convert_loop
convert_loop-op op es rest s a l m =
    rw (convert_token-op op (es ++ s), pop_higher-Pending op es s a l, push_room s (token_of op) m)

inner_text : Op → Expr → Expr → List ℕ
inner_text op l r = infix_form (level_of op) l ++ token_of op ∷ infix_form (level_of op + 1) r

regroup : (a b c d t : List ℕ) → a ++ b ++ c ++ (d ++ t) ≡ (a ++ b) ++ (c ++ d) ++ t
regroup a b c d t = simp append_assoc

convert_inner :
    (op : Op) (l r : Expr) (rest s : List ℕ)
    → Low (level_of op) s
    → length s < 50
    → Converted
        (level_of op)
        l
        (infix_form (level_of op) l)
        (token_of op ∷ (infix_form (level_of op + 1) r ++ rest))
        s
    → Converted (level_of op + 1) r (infix_form (level_of op + 1) r) rest (token_of op ∷ s)
    → Converted (level_of op) (bin op l r) (inner_text op l r) rest s
unfolding inner_text
convert_inner op l r rest s low m a b = record {
  out = (a.out ++ a.waiting) ++ b.out;
  waiting = b.waiting ++ token_of op ∷ [];
  pending =
      All-append (level_of op) b.waiting (token_of op ∷ [])
        (Pending-lower (level_of op) (level_of op + 1) b.waiting (omega arith) b.pending)
        ((op, refl, omega arith), tt);
  whole =
      regroup a.out a.waiting b.out b.waiting (token_of op ∷ [])
      ∙ ap (λ x. x ++ (b.out ++ b.waiting) ++ token_of op ∷ []) a.whole
      ∙ ap (λ x. postfix l ++ x ++ token_of op ∷ []) b.whole;
  run =
      ap (λ ts. convert_loop ts s) (simp append_assoc)
      ∙ a.run
      ∙ ap (emit a.out) (
          convert_loop-op op a.waiting (infix_form (level_of op + 1) r ++ rest) s a.pending low m
          ∙ ap (emit a.waiting) b.run)
      ∙ emit-append a.out a.waiting
          (emit b.out (convert_loop rest (b.waiting ++ (token_of op ∷ s))))
      ∙ emit-append (a.out ++ a.waiting) b.out (convert_loop rest (b.waiting ++ (token_of op ∷ s)))
      ∙ ap (λ t. emit ((a.out ++ a.waiting) ++ b.out) (convert_loop rest t)) (simp append_assoc);
}

-- Brackets around a text.
convert_brackets :
    (p : ℕ) (op : Op) (l r : Expr) (rest s : List ℕ)
    → length s < 50
    → Converted (level_of op) (bin op l r) (inner_text op l r) (41 ∷ rest) (40 ∷ s)
    → Converted p (bin op l r) (40 ∷ inner_text op l r ++ 41 ∷ []) rest s
unfolding convert_loop convert_token
convert_brackets p op l r rest s m a = record {
  out = a.out ++ a.waiting;
  waiting = [];
  pending = tt;
  whole = append-nil (a.out ++ a.waiting) ∙ a.whole;
  run = rw (push_room s 40 m) (
      bind_ok (convert_loop (inner_text op l r ++ 41 ∷ [] ++ rest) (40 ∷ s))
      ∙ ap (λ ts. convert_loop ts (40 ∷ s)) {x = (inner_text op l r ++ (41 ∷ [])) ++ rest}
          {y = inner_text op l r ++ (41 ∷ rest)} (simp append_assoc)
      ∙ a.run
      ∙ ap (emit a.out) (rw (pop_bracket-Pending (level_of op) a.waiting s a.pending))
      ∙ emit-append a.out a.waiting (convert_loop rest s));
}

Low-bracket : (op : Op) (s : List ℕ) → Low (level_of op) (40 ∷ s)
Low-bracket add s = refl
Low-bracket sub s = refl
Low-bracket mul s = refl
Low-bracket div s = refl

Low-higher : (p q : ℕ) (s : List ℕ) → p ≤ q → Low p s → Low q s
Low-higher p q [] l a = omega arith
Low-higher p q (x ∷ s) l a = ground (arith, a)

Low-next : (op : Op) (s : List ℕ) → Low (level_of op + 1) (token_of op ∷ s)
Low-next add s = refl
Low-next sub s = refl
Low-next mul s = refl
Low-next div s = refl

abbrev inner_room : Op → Expr → Expr → ℕ
inner_room op l r =
    let a = room (level_of op) l in let b = 1 + room (level_of op + 1) r in if ltb a b then b else a

inner_room-parts :
    (op : Op) (l r : Expr)
    → (room (level_of op) l ≤ inner_room op l r)
      × (1 + room (level_of op + 1) r ≤ inner_room op l r)
inner_room-parts op l r = ground arith

Converted-lower :
    (p : ℕ) (op : Op) (l r : Expr) (rest s : List ℕ)
    → p ≤ level_of op
    → Converted (level_of op) (bin op l r) (inner_text op l r) rest s
    → Converted p (bin op l r) (inner_text op l r) rest s
Converted-lower p op l r rest s h a = record {
  out = a.out;
  waiting = a.waiting;
  pending = Pending-lower p (level_of op) a.waiting h a.pending;
  whole = a.whole;
  run = a.run;
}

infix_form-Converted :
    (e : Expr) (p : ℕ) (rest s : List ℕ)
    → IsExpr e
    → Low p s
    → length s + room p e ≤ 50
    → Converted p e (infix_form p e) rest s
unfolding infix_form convert_loop convert_token inner_text
infix_form-Converted (operand c) p rest s i low m = record {
  out = c ∷ [];
  waiting = [];
  pending = tt;
  whole = refl;
  run = rw i;
}
infix_form-Converted (bin op l r) p rest s (i, j) low m =
    let inner : (rest' s' : List ℕ)
        → Low (level_of op) s'
        → length s' + inner_room op l r ≤ 50
        → Converted (level_of op) (bin op l r) (inner_text op l r) rest' s' =
      λ rest' s' low' m'.
        let (a, b) = inner_room-parts op l r in
        convert_inner op l r rest' s' low' (omega (arith, b))
          (infix_form-Converted l (level_of op)
            (token_of op ∷ (infix_form (level_of op + 1) r ++ rest')) s' i low' (omega (arith, a)))
          (infix_form-Converted r (level_of op + 1) rest' (token_of op ∷ s') j (Low-next op s')
            (omega (arith, b))) in
    elim (Bool-cases (ltb (level_of op) p)) [
      | inl c ↦
          let more : room p (bin op l r) ≡ 1 + inner_room op l r = rw c in
          rw c (
            convert_brackets p op l r rest s (omega (arith, more))
              (inner (41 ∷ rest) (40 ∷ s) (Low-bracket op s) (omega (arith, more))))
      | inr c ↦
          let more : room p (bin op l r) ≡ inner_room op l r = rw c in
          let above : p ≤ level_of op = ground (arith, c) in
          rw c (
            Converted-lower p op l r rest s above
              (inner rest s (Low-higher p (level_of op) s above low) (omega (arith, more))))
    ]

-- Writing an expression in infix form and converting it gives its postfix form. The infix form has
-- brackets where the order of operations asks for them, operators of one level group to the left, and the
-- stack has room for it.
pub infix_to_postfix-infix_form :
    (e : Expr) → IsExpr e → room 0 e ≤ 50 → infix_to_postfix (infix_form 0 e) ≡ ok (postfix e)
unfolding infix_to_postfix convert_loop
infix_to_postfix-infix_form e i m =
    let c = infix_form-Converted e 0 [] [] i (omega arith) (omega arith) in
    ap (λ ts. convert_loop ts []) (sym (append-nil (infix_form 0 e)))
    ∙ c.run
    ∙ ap ok (ap (λ w. c.out ++ w) (append-nil c.waiting) ∙ c.whole)

-- To convert the infix form of an expression and evaluate the result computes the value of the expression,
-- or fails as the expression does. The two stacks have room for it.
pub postfix_eval-infix_to_postfix :
    (e : Expr)
    → IsExpr e
    → room 0 e ≤ 50
    → depth e ≤ 50
    → (infix_to_postfix (infix_form 0 e) >>= postfix_eval) ≡ value e
postfix_eval-infix_to_postfix e i m d =
    ap (λ (r : Result (List ℕ)). r >>= postfix_eval) (infix_to_postfix-infix_form e i m)
    ∙ postfix_eval-postfix e i d
