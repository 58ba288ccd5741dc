-- ===== src/Llc/Frames.antt =====
-- The fields of a frame of llc.c and its CRC.
use hyu_3rd_1se.Prelude.{
  ℕ, zero, suc, ◌+◌, ◌-◌, ◌*◌, ◌/◌, ◌%◌, ◌<◌, ◌≤◌, ◌≡◌, refl, sym, ap, ◌∙◌, Bool, true, ok, ◌>>=◌,
  arith, ==-refl,
}
use hyu_3rd_1se.Llc.{
  Buffer, zeros, move, bytes_of, set_hex_to_string, set_ns, get_ns, set_nr, get_nr, get_length,
  crc_length, crc_place, set_llc_crc, get_llc_crc, Crc, crc_loop, do_crc, same_bytes, llc_crc_check,
}
use hyu_3rd_1se.Prelude.Bits.{bit_or-zero}
use hyu_3rd_1se.Llc.Peers.{Host, seal}

pub moved_inside :
    (at n i : ℕ) (src dst : Buffer) → at ≤ i → i < at + n → move at n src dst i ≡ src (i - at)
moved_inside at n i src dst l m = ground arith

pub moved_before : (at n i : ℕ) (src dst : Buffer) → i < at → move at n src dst i ≡ dst i
moved_before at n i src dst l = ground arith

pub get_ns-set_ns : (b : Buffer) (n : ℕ) → b 16 ≡ 0 → n < 128 → get_ns (set_ns b n) ≡ n
unfolding get_ns set_ns
get_ns-set_ns b n z l =
    rw z (ap (λ x. x / 2 % 128) (bit_or-zero 8 (2 * n % 256) (omega arith)) ∙ omega (arith, l))

crc_loop-below :
    (c : Crc) (a b : Buffer) (n : ℕ)
    → ((i : ℕ) → i < n → a i ≡ b i)
    → crc_loop c a n ≡ crc_loop c b n
unfolding crc_loop
crc_loop-below c a b zero h = refl
crc_loop-below c a b (suc n) h =
    ap (λ x. c.crc32 x (a n)) (crc_loop-below c a b n (λ i l. h i (omega (arith, l))))
    ∙ ap (c.crc32 (crc_loop c b n)) (h n (omega arith))

same_bytes-of_eq : (n : ℕ) (a b : Buffer) → ((i : ℕ) → i < n → a i ≡ b i) → same_bytes n a b ≡ true
unfolding same_bytes
same_bytes-of_eq zero a b h = refl
same_bytes-of_eq (suc n) a b h =
    rw (h 0 (omega arith), ==-refl (b 0))
      (same_bytes-of_eq n (λ i. a (suc i)) (λ i. b (suc i)) (λ i l. h (suc i) (omega (arith, l))))

pub get_nr-set_nr : (b : Buffer) (n : ℕ) → b 17 ≡ 0 → n < 129 → get_nr (set_nr b n) ≡ n % 128
unfolding get_nr set_nr
get_nr-set_nr b n z l =
    rw z (ap (λ x. x / 2 % 128) (bit_or-zero 8 (2 * n % 256) (omega arith)) ∙ omega (arith, l))

-- What sealing a frame gives: the frame up to the CRC stays, and the check of it succeeds.
pub record Sealed (h : Host) (b b' : Buffer) : Type 0 where
  pub sends : seal h b ≡ ok b'
  pub kept : (i : ℕ) → i < get_length b - 4 → b' i ≡ b i
  pub checks : llc_crc_check h.crc 0 b' ≡ ok true

abbrev pub sealed : Host → Buffer → Buffer
sealed h b = move (get_length b - 4) 4 (bytes_of (crc_loop h.crc b (get_length b - 4))) b

sealed-kept : (h : Host) (b : Buffer) (i : ℕ) → i < get_length b - 4 → sealed h b i ≡ b i
sealed-kept h b i l =
    moved_before (get_length b - 4) 4 i (bytes_of (crc_loop h.crc b (get_length b - 4))) b l

crc_place-eq :
    (b : Buffer) → 4 ≤ get_length b → get_length b ≤ 600 → crc_place b ≡ ok (get_length b - 4)
unfolding crc_place
crc_place-eq b l m = ground arith

crc_length-eq : (b : Buffer) → crc_length 0 b ≡ get_length b - 4
crc_length-eq b = ap (λ n. n - 4) (omega arith)

do_crc-eq : (c : Crc) (b : Buffer) (n : ℕ) → n ≤ 600 → do_crc c b n ≡ ok (crc_loop c b n)
unfolding do_crc
do_crc-eq c b n l = ground arith

get_llc_crc-eq :
    (b : Buffer)
    → 4 ≤ get_length b
    → get_length b ≤ 600
    → get_llc_crc b ≡ ok (λ i. b (get_length b - 4 + i))
unfolding get_llc_crc
get_llc_crc-eq b l m = ap (λ r. r >>= λ place. ok (λ i. b (place + i))) (crc_place-eq b l m)

-- The comparison that ends the check.
abbrev compared : ℕ → Buffer → Bool
compared crc = same_bytes 4 (set_hex_to_string zeros crc 4)

crc_check-eq :
    (c : Crc) (b : Buffer)
    → 4 ≤ get_length b
    → get_length b ≤ 600
    → llc_crc_check c 0 b
      ≡ ok (compared (crc_loop c b (get_length b - 4)) (λ i. b (get_length b - 4 + i)))
unfolding llc_crc_check
crc_check-eq c b l m =
    ap (λ n. do_crc c b n >>= λ crc. get_llc_crc b >>= λ at. ok (compared crc at)) (crc_length-eq b)
    ∙ ap (λ r. r >>= λ crc. get_llc_crc b >>= λ at. ok (compared crc at))
        (do_crc-eq c b (get_length b - 4) (omega (arith, m)))
    ∙ ap (λ r. r >>= λ at. ok (compared (crc_loop c b (get_length b - 4)) at))
        (get_llc_crc-eq b l m)

seal_sends :
    (h : Host) (b : Buffer)
    → h.high ≡ 0
    → 4 ≤ get_length b
    → get_length b ≤ 600
    → seal h b ≡ ok (sealed h b)
unfolding set_llc_crc
seal_sends h b z l m =
    ap (λ n. do_crc h.crc b n >>= set_llc_crc b) (ap (λ k. crc_length k b) z ∙ crc_length-eq b)
    ∙ ap (λ r. r >>= set_llc_crc b) (do_crc-eq h.crc b (get_length b - 4) (omega (arith, m)))
    ∙ ap (λ r. r >>= λ place. ok (move place 4 (bytes_of (crc_loop h.crc b (get_length b - 4))) b))
        (crc_place-eq b l m)

sealed-get_length :
    (h : Host) (b : Buffer) → 18 ≤ get_length b → get_length (sealed h b) ≡ get_length b
sealed-get_length h b l =
    ap (λ x. x + 256 * sealed h b 13) (sealed-kept h b 12 (omega (arith, l)))
    ∙ ap (λ x. b 12 + 256 * x) (sealed-kept h b 13 (omega (arith, l)))

sealed-crc :
    (h : Host) (b : Buffer)
    → 18 ≤ get_length b
    → get_length b ≤ 600
    → llc_crc_check h.crc 0 (sealed h b) ≡ ok true
sealed-crc h b l m =
    let same = sealed-get_length h b l in
    let n = get_length b - 4 in
    let crc : crc_loop h.crc (sealed h b) n ≡ crc_loop h.crc b n =
      crc_loop-below h.crc (sealed h b) b n (sealed-kept h b) in
    crc_check-eq h.crc (sealed h b) (omega (arith, same, l)) (omega (arith, same, m))
    ∙ ap (λ k. ok (compared (crc_loop h.crc (sealed h b) (k - 4)) (λ i. sealed h b (k - 4 + i))))
        same
    ∙ ap (λ k. ok (compared k (λ i. sealed h b (n + i)))) crc
    ∙ ap ok (
        same_bytes-of_eq 4 (set_hex_to_string zeros (crc_loop h.crc b n) 4)
          (λ i. sealed h b (n + i))
          (λ i k.
            moved_inside 0 4 i (bytes_of (crc_loop h.crc b n)) zeros (omega arith)
              (omega (arith, k))
            ∙ ap (bytes_of (crc_loop h.crc b n)) (omega arith)
            ∙ sym (
                moved_inside n 4 (n + i) (bytes_of (crc_loop h.crc b n)) b (omega arith)
                  (omega (arith, k)))))

pub seal-Sealed :
    (h : Host) (b : Buffer)
    → h.high ≡ 0
    → 18 ≤ get_length b
    → get_length b ≤ 600
    → Sealed h b (sealed h b)
seal-Sealed h b z l m = record {
  sends = seal_sends h b z (omega (arith, l)) m;
  kept = sealed-kept h b;
  checks = sealed-crc h b l m;
}
