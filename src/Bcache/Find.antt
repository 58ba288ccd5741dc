-- ===== src/Bcache/Find.antt =====
-- The searches of bio.c through the list of buffers.
use hyu_3rd_1se.Prelude.{
  ℕ, ◌≡◌, refl, sym, Bool, true, false, Option, none, some, List, [], ◌∷◌, ◌++◌, Bool-cases, inl,
  inr, ◌⊎◌, subst,
}
use hyu_3rd_1se.Bcache.{Buf, find_buf, backwards}

abbrev pub In : ℕ → List ℕ → Type 0
In x [] = ⊥
In x (y ∷ ys) = (x ≡ y) ⊎ In x ys

In-append : (x : ℕ) (xs ys : List ℕ) → In x xs ⊎ In x ys → In x (xs ++ ys)
In-append x [] ys (inl h) = elim h [ ]
In-append x [] ys (inr h) = h
In-append x (z ∷ xs) ys (inl (inl e)) = inl e
In-append x (z ∷ xs) ys (inl (inr h)) = inr (In-append x xs ys (inl h))
In-append x (z ∷ xs) ys (inr h) = inr (In-append x xs ys (inr h))

append-In : (x : ℕ) (xs ys : List ℕ) → In x (xs ++ ys) → In x xs ⊎ In x ys
append-In x [] ys h = inr h
append-In x (z ∷ xs) ys (inl e) = inl (inl e)
append-In x (z ∷ xs) ys (inr h) = elim (append-In x xs ys h) [ inl a ↦ inl (inr a) | inr b ↦ inr b ]

pub In-backwards : (x : ℕ) (xs : List ℕ) → In x xs → In x (backwards xs)
In-backwards x [] h = elim h [ ]
In-backwards x (y ∷ ys) (inl e) = In-append x (backwards ys) (y ∷ []) (inr (inl e))
In-backwards x (y ∷ ys) (inr h) = In-append x (backwards ys) (y ∷ []) (inl (In-backwards x ys h))

pub backwards-In : (x : ℕ) (xs : List ℕ) → In x (backwards xs) → In x xs
backwards-In x [] h = elim h [ ]
backwards-In x (y ∷ ys) h = elim (append-In x (backwards ys) (y ∷ []) h) [
  | inl a ↦ inr (backwards-In x ys a)
  | inr (inl e) ↦ inl e
  | inr (inr z) ↦ absurd z
]

-- A search finds a buffer of the list that passes, or none does.
abbrev pub FoundBuf : (Buf → Bool) → (ℕ → Buf) → List ℕ → Option ℕ → Type 0
FoundBuf test t is r =
    ((r ≡ none) × ((i : ℕ) → In i is → test (t i) ≡ false))
    ⊎ ((i : ℕ) × (r ≡ some i) × In i is × (test (t i) ≡ true))

pub find_buf-FoundBuf :
    (test : Buf → Bool) (t : ℕ → Buf) (is : List ℕ) → FoundBuf test t is (find_buf test t is)
unfolding find_buf
find_buf-FoundBuf test t [] = inl (refl, λ i h. absurd h)
find_buf-FoundBuf test t (j ∷ js) = elim (Bool-cases (test (t j))) [
  | inl a ↦ inr (j, rw a, inl refl, a)
  | inr a ↦ elim (find_buf-FoundBuf test t js) [
    | inl (e, f) ↦ inl (
      rw a e,
      λ i h. elim h [ inl x ↦ subst (λ y. test (t y) ≡ false) (sym x) a | inr y ↦ f i y ],
    )
    | inr (i, e, h, c) ↦ inr (i, rw a e, inr h, c)
  ]
]
