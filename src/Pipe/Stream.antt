-- ===== src/Pipe/Stream.antt =====
-- The buffer of pipe.c as the stream of the bytes that wait in it.
use hyu_3rd_1se.Prelude.{
  ℕ, zero, suc, ◌+◌, ◌%◌, ◌<◌, ◌≤◌, ◌≡◌, refl, ap, ◌∙◌, true, false, ◌&&◌, some, List, [], ◌∷◌,
  ◌++◌, arith, length, get_elem?, length-append, get_elem?-append_last, get_elem?-append_ne,
  append_assoc, append-nil, ◌==◌, Bool-cases, take, drop, take-length, drop-length, subst, inl, inr,
  ◌⊎◌, ok, ◌>>=◌,
}
use hyu_3rd_1se.Proc.{u32}
use hyu_3rd_1se.Pipe.{
  Pipe, PipeState, pipealloc, pipe_full, put_byte, wait_room, wait_data, copy_bytes, pipewrite,
  piperead, wake_on,
}

-- The pipe holds the bytes of the list, oldest first.
pub record Stream (p : Pipe) (xs : List ℕ) : Type 0 where
  pub nread_in : p.nread < 4294967296
  pub counted : p.nwrite ≡ (p.nread + length xs) % 4294967296
  pub fits : length xs ≤ 512
  pub slots : (i : ℕ) → i < length xs → some (p.data_at ((p.nread + i) % 512)) ≡ get_elem? xs i

pub pipealloc-Stream : (p : Pipe) → Stream (pipealloc p) []
unfolding pipealloc
pipealloc-Stream p = record {
  nread_in = omega arith;
  counted = refl;
  fits = omega arith;
  slots = λ i h. elim h [ ];
}

pub Stream-pipe_full :
    {p : Pipe} {xs : List ℕ} → Stream p xs → length xs < 512 → pipe_full p ≡ false
Stream-pipe_full h l = ground (arith, h.counted, h.nread_in)

pub put_byte-Stream :
    {p : Pipe} (xs : List ℕ) (b : ℕ)
    → Stream p xs
    → length xs < 512
    → Stream (put_byte p b) (xs ++ (b ∷ []))
unfolding put_byte
put_byte-Stream {p} xs b h l = record {
  nread_in = h.nread_in;
  counted = omega (arith, h.counted, length-append xs (b ∷ []));
  fits = omega (arith, length-append xs (b ∷ []));
  slots = λ i a. elim (Bool-cases (length xs == i)) [
    | inl e ↦ ground (arith, get_elem?-append_last xs b, h.counted)
    | inr e ↦
        ground (arith, get_elem?-append_ne xs b i, h.counted, h.slots i, length-append xs (b ∷ []))
  ];
}

pub take_byte-Stream :
    {p : Pipe} (x : ℕ) (xs : List ℕ)
    → Stream p (x ∷ xs)
    → Stream (record p { nread = u32 (p.nread + 1) }) xs
take_byte-Stream {p} x xs h = record {
  nread_in = omega arith;
  counted = omega (arith, h.counted);
  fits = omega (arith, h.fits);
  slots = λ i a. ground (arith, h.slots (suc i));
}

copy_bytes-Stream :
    (n : ℕ) {p : Pipe} (xs : List ℕ)
    → Stream p xs
    → ((copy_bytes n p).1 ≡ take n xs) × Stream (copy_bytes n p).0 (drop n xs)
unfolding copy_bytes
copy_bytes-Stream zero xs h = (refl, h)
copy_bytes-Stream (suc n) {p} [] h =
    let empty : (p.nread == p.nwrite) ≡ true = ground (arith, h.counted, h.nread_in) in
    rw empty (refl, h)
copy_bytes-Stream (suc n) {p} (x ∷ xs) h =
    let more : (p.nread == p.nwrite) ≡ false = ground (arith, h.counted, h.nread_in, h.fits) in
    let (a, b) = copy_bytes-Stream n xs (take_byte-Stream x xs h) in
    let first : p.data_at (p.nread % 512) ≡ x = ground (arith, h.slots 0, h.nread_in) in
    rw (more, first, a) (refl, b)

-- `pipewrite` of bytes for which the pipe has room returns without a wait, and they wait in the pipe
-- behind the others.
pub pipewrite-Stream :
    (others : PipeState → PipeState) (rounds : ℕ) (s : PipeState) (xs bs : List ℕ)
    → Stream s.pipe xs
    → length xs + length bs ≤ 512
    → (s' : PipeState) × (pipewrite others (suc rounds) s bs ≡ ok (s', true))
      × Stream s'.pipe (xs ++ bs)
unfolding pipewrite wait_room
pipewrite-Stream others rounds s xs [] h l =
    (wake_on s.pipe.nread_chan s, refl, rw (append-nil xs) h)
pipewrite-Stream others rounds s xs (b ∷ bs) h l =
    let (s', a, c) =
      pipewrite-Stream others rounds (record s { pipe = put_byte s.pipe b }) (xs ++ (b ∷ [])) bs
        (put_byte-Stream xs b h (omega arith)) (omega (arith, length-append xs (b ∷ []))) in
    (s', rw (Stream-pipe_full h (omega arith), a), rw⁻¹ (append_assoc xs (b ∷ []) bs) c)

-- `piperead` of a pipe with bytes in it, or whose writers have closed it, returns without a wait the
-- first `n` of the bytes, or all if there are fewer, and the others stay in the pipe.
pub piperead-Stream :
    (others : PipeState → PipeState) (rounds n : ℕ) (s : PipeState) (xs : List ℕ)
    → Stream s.pipe xs
    → (0 < length xs) ⊎ (s.pipe.writeopen ≡ false)
    → (s' : PipeState) × (piperead others (suc rounds) s n ≡ ok (s', some (take n xs)))
      × Stream s'.pipe (drop n xs)
unfolding piperead wait_data
piperead-Stream others rounds n s xs h o =
    let (a, b) = copy_bytes-Stream n xs h in
    let ready : (s.pipe.nread == s.pipe.nwrite && s.pipe.writeopen) ≡ false = elim o [
      | inl l ↦ ground (arith, h.counted, h.nread_in, h.fits)
      | inr c ↦ ground (arith, c)
    ] in
    (
      wake_on (copy_bytes n s.pipe).0.nwrite_chan (record s { pipe = (copy_bytes n s.pipe).0 }),
      rw (ready, a),
      b,
    )

-- What `pipewrite` puts into an empty pipe, from 1 to 512 bytes, a `piperead` of as many bytes gets
-- back, and the pipe is empty again.
pub piperead-pipewrite :
    (others : PipeState → PipeState) (rounds : ℕ) (s : PipeState) (bs : List ℕ)
    → Stream s.pipe []
    → 0 < length bs
    → length bs ≤ 512
    → (s' : PipeState) × ((pipewrite others (suc rounds) s bs >>= λ r.
          piperead others (suc rounds) r.0 (length bs))
        ≡ ok (s', some bs))
      × Stream s'.pipe []
piperead-pipewrite others rounds s bs h a b =
    let (s1, c, d) = pipewrite-Stream others rounds s [] bs h (omega (arith, b)) in
    let (s', e, f) = piperead-Stream others rounds (length bs) s1 bs d (inl a) in
    (
      s',
      rw c (e ∙ ap (λ r. ok (s', some r)) (take-length bs)),
      subst (Stream s'.pipe) (drop-length bs) f,
    )

Stream-pipe_full_eq : {p : Pipe} {xs : List ℕ} → Stream p xs → length xs ≡ 512 → pipe_full p ≡ true
Stream-pipe_full_eq h l = ground (arith, h.counted, h.nread_in)

-- `pipewrite` of more bytes than fit into the pipe, when the reader has closed it, fills the `m`
-- free slots with the first bytes and returns -1 without a wait.
pub pipewrite_broken :
    (others : PipeState → PipeState) (rounds m : ℕ) (s : PipeState) (xs bs : List ℕ)
    → Stream s.pipe xs
    → s.pipe.readopen ≡ false
    → length xs + m ≡ 512
    → m < length bs
    → (s' : PipeState) × (pipewrite others (suc rounds) s bs ≡ ok (s', false))
      × (s'.kernel ≡ s.kernel)
      × Stream s'.pipe (xs ++ take m bs)
unfolding pipewrite wait_room put_byte
pipewrite_broken others rounds m s xs [] h c e l = absurd (omega (arith, l))
pipewrite_broken others rounds zero s xs (b ∷ bs) h c e l =
    (s, rw (Stream-pipe_full_eq h (omega (arith, e)), c), refl, rw (append-nil xs) h)
pipewrite_broken others rounds (suc m) s xs (b ∷ bs) h c e l =
    let (s', a, k, d) =
      pipewrite_broken others rounds m (record s { pipe = put_byte s.pipe b }) (xs ++ (b ∷ [])) bs
        (put_byte-Stream xs b h (omega (arith, e))) c (omega (arith, e, length-append xs (b ∷ [])))
        (omega (arith, l)) in
    (
      s',
      rw (Stream-pipe_full h (omega (arith, e)), a),
      k,
      rw⁻¹ (append_assoc xs (b ∷ []) (take m bs)) d,
    )
