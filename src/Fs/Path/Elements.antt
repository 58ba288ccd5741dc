-- ===== src/Fs/Path/Elements.antt =====
-- `skipelem` of fs.c takes the elements of a path one by one.
use hyu_3rd_1se.Prelude.{
  ℕ, ◌<◌, ◌≤◌, ◌≡◌, refl, sym, ap, ◌∙◌, false, Option, none, some, List, [], ◌∷◌, ◌++◌, length,
  take, ◌==◌, if◌then◌else◌, arith, Bool-cases, inl, inr, ◌⊎◌, append_assoc, append-nil,
}
use hyu_3rd_1se.Fs.Path.{slash, skip_slashes, split_element, skip_first, skipelem}
use hyu_3rd_1se.Fs.Dir.{dirsiz}

-- The elements of a path, the bytes between slashes: `cur` are the bytes since the last slash.
flush : List ℕ → List (List ℕ) → List (List ℕ)
flush [] rest = rest
flush (c ∷ cs) rest = (c ∷ cs) ∷ rest

elements_from : List ℕ → List ℕ → List (List ℕ)
elements_from cur [] = flush cur []
elements_from cur (c ∷ cs) =
    let after = flush cur (elements_from [] cs) in
    let within = elements_from (cur ++ (c ∷ [])) cs in if c == slash then after else within

pub elements : List ℕ → List (List ℕ)
elements path = elements_from [] path

skip_slashes_head : (c : ℕ) (cs : List ℕ) → (c == slash) ≡ false → skip_slashes (c ∷ cs) ≡ c ∷ cs
unfolding skip_slashes
skip_slashes_head c cs e = rw e

elements-skip_slashes : (path : List ℕ) → elements (skip_slashes path) ≡ elements path
unfolding skip_slashes elements elements_from flush
elements-skip_slashes [] = refl
elements-skip_slashes (c ∷ cs) = elim (Bool-cases (c == slash)) [
  | inl e ↦ rw e (elements-skip_slashes cs)
  | inr e ↦ ap (elements_from []) (skip_slashes_head c cs e)
]

-- An element ends before the next slash or with the path.
elements_from-split_element :
    (cur path : List ℕ)
    → elements_from cur path
      ≡ flush (cur ++ (split_element path).0) (elements (split_element path).1)
unfolding split_element elements elements_from flush
elements_from-split_element cur [] = rw (append-nil cur)
elements_from-split_element cur (c ∷ cs) = elim (Bool-cases (c == slash)) [
  | inl e ↦ rw (e, append-nil cur, e)
  | inr e ↦ rw e (
      elements_from-split_element (cur ++ (c ∷ [])) cs
      ∙ ap (λ x. flush x (elements (split_element cs).1))
          (append_assoc cur (c ∷ []) (split_element cs).0))
]

length-split_element : (path : List ℕ) → length (split_element path).1 ≤ length path
unfolding split_element
length-split_element [] = omega arith
length-split_element (c ∷ cs) = ground (arith, length-split_element cs)

length-skip_slashes : (path : List ℕ) → length (skip_slashes path) ≤ length path
unfolding skip_slashes
length-skip_slashes [] = omega arith
length-skip_slashes (c ∷ cs) = ground (arith, length-skip_slashes cs)

-- The path without its first slashes is empty or starts with an element.
pub data Start : List ℕ → Type 0 where
  done : Start []
  element : (c : ℕ) (cs : List ℕ) → (c == slash) ≡ false → Start (c ∷ cs)

skip_slashes-Start : (path : List ℕ) → Start (skip_slashes path)
unfolding skip_slashes
skip_slashes-Start [] = done
skip_slashes-Start (c ∷ cs) = elim (Bool-cases (c == slash)) [
  | inl e ↦ rw e (skip_slashes-Start cs)
  | inr e ↦ rw e (element c cs e)
]

-- What `skipelem` makes of a path: no element is left, or the first element, cut after DIRSIZ bytes,
-- and a shorter path with the other elements, which does not begin with a slash.
abbrev pub Skipped : List ℕ → Option (List ℕ × List ℕ) → Type 0
Skipped path r =
    ((r ≡ none) × (elements path ≡ []))
    ⊎ ((e : List ℕ) × (rest : List ℕ) × (r ≡ some (take dirsiz e, rest))
        × (elements path ≡ e ∷ elements rest)
        × Start rest
        × (length rest < length path))

split_element_head :
    (c : ℕ) (cs : List ℕ)
    → (c == slash) ≡ false
    → split_element (c ∷ cs) ≡ (c ∷ (split_element cs).0, (split_element cs).1)
unfolding split_element
split_element_head c cs e = rw e

elements_head :
    (c : ℕ) (cs : List ℕ)
    → (c == slash) ≡ false
    → elements (c ∷ cs) ≡ (c ∷ (split_element cs).0) ∷ elements (skip_slashes (split_element cs).1)
unfolding elements elements_from flush
elements_head c cs e =
    let inside : elements (c ∷ cs) ≡ elements_from (c ∷ []) cs = rw e in
    inside
    ∙ elements_from-split_element (c ∷ []) cs
    ∙ ap (λ x. (c ∷ (split_element cs).0) ∷ x) (sym (elements-skip_slashes (split_element cs).1))

skip_first-Skipped : {path : List ℕ} → Start path → Skipped path (skip_first path)
unfolding skip_first elements elements_from flush
skip_first-Skipped done = inl (refl, refl)
skip_first-Skipped (element c cs e) = inr (
  c ∷ (split_element cs).0,
  skip_slashes (split_element cs).1,
  ap (λ (q : List ℕ × List ℕ). some (take dirsiz q.0, skip_slashes q.1))
      (split_element_head c cs e),
  elements_head c cs e,
  skip_slashes-Start (split_element cs).1,
  omega (arith, length-skip_slashes (split_element cs).1, length-split_element cs),
)

-- `skipelem` takes the first element off a path, cut after DIRSIZ bytes, whatever slashes stand before
-- and behind it, and leaves a shorter path with the other elements, which does not begin with a slash. It
-- returns 0 exactly when the path has no element.
pub skipelem-Skipped : (path : List ℕ) → Skipped path (skipelem path)
unfolding skipelem
skipelem-Skipped path =
    let back = elements-skip_slashes path in
    elim (skip_first-Skipped (skip_slashes-Start path)) [
      | inl (a, b) ↦ inl (a, sym back ∙ b)
      | inr (e, rest, a, b, f, l) ↦
          inr (e, rest, a, sym back ∙ b, f, omega (arith, l, length-skip_slashes path))
    ]
