-- ===== src/Llc/Exchange.antt =====
-- A line of data on its way from the client of DT/Proj3_LLC to the server, and the answer.
use hyu_3rd_1se.Prelude.{
  ℕ, ◌+◌, ◌*◌, ◌/◌, ◌%◌, ◌<◌, ◌≤◌, ◌≡◌, refl, sym, ap, ◌∙◌, true, some, update, ok, ◌>>=◌, arith,
}
use hyu_3rd_1se.Prelude.Bits.{bit_or-zero}
use hyu_3rd_1se.Llc.{
  Buffer, Crc, zeros, move, bytes_of, strlen, set_llc, make_llc_from_buff, set_hex_to_string,
  cmp_hex_to_string, set_ns, get_ns, set_nr, get_nr, fig_llc_frame, fig_llc_format, fig_llc_data,
  get_length, llc_crc_check, i_frame, s_rr,
}
use hyu_3rd_1se.Llc.Peers.{
  Host, Client, Server, seal, make_frame, snd_llc_data, server_frame, server_receive,
  client_receive, wait_rr, arrived,
}
use hyu_3rd_1se.Llc.Frames.{get_nr-set_nr, sealed, seal-Sealed}

-- The frame that `MakeLLCFromBuff` puts together for `n` bytes of data.
abbrev made : Buffer → Buffer → Buffer → Buffer → Buffer → Buffer → ℕ → Buffer
made stack buff dest src control content n =
    let llc1 = move 12 2 (bytes_of (n + 22)) (move 6 6 src (move 0 6 dest stack)) in
    let llc2 = move 16 2 control (update (update llc1 14 0) 15 0) in
    update (move 0 518 (move 514 4 zeros (move 18 496 content llc2)) buff) 518 0

make-made :
    (stack buff dest src control : Buffer) (size : ℕ) (content : Buffer) (n : ℕ)
    → strlen size content ≡ ok n
    → make_llc_from_buff stack buff dest src control size content zeros
      ≡ ok (made stack buff dest src control content n)
unfolding make_llc_from_buff set_llc
make-made stack buff dest src control size content n e = rw e refl

made-get_length :
    (stack buff dest src control content : Buffer) (n : ℕ)
    → n ≤ 496
    → get_length (made stack buff dest src control content n) ≡ n + 22
made-get_length stack buff dest src control content n l = omega (arith, l)

made_content :
    (stack buff dest src control content : Buffer) (n i : ℕ)
    → i < 496
    → made stack buff dest src control content n (18 + i) ≡ content i
made_content stack buff dest src control content n i l = ground arith

-- The frame of `SndLLCData` before its CRC.
abbrev counted : Host → Client → Buffer → ℕ → Buffer
counted h c buff n = set_nr (set_ns (made h.stack buff c.dest_mac h.mac zeros buff n) c.nr) c.nr

counted-get_length :
    (h : Host) (c : Client) (buff : Buffer) (n : ℕ)
    → n ≤ 496
    → get_length (counted h c buff n) ≡ n + 22
unfolding set_ns set_nr
counted-get_length h c buff n l = made-get_length h.stack buff c.dest_mac h.mac zeros buff n l

counted_control :
    (h : Host) (c : Client) (buff : Buffer) (n : ℕ)
    → c.nr < 128
    → (counted h c buff n 16 ≡ 2 * c.nr) × (counted h c buff n 17 ≡ 2 * c.nr)
unfolding set_ns set_nr
counted_control h c buff n l =
    let even : 2 * c.nr % 256 ≡ 2 * c.nr = omega (arith, l) in
    let both = bit_or-zero 8 (2 * c.nr % 256) (omega arith) ∙ even in (both, both)

counted_content :
    (h : Host) (c : Client) (buff : Buffer) (n i : ℕ)
    → i < 496
    → counted h c buff n (18 + i) ≡ buff i
unfolding set_ns set_nr
counted_content h c buff n i l =
    ground arith ∙ made_content h.stack buff c.dest_mac h.mac zeros buff n i l

-- What the frame of a line of `n` bytes is for its receiver.
pub record Sent (h : Host) (c : Client) (buff : Buffer) (n : ℕ) (b : Buffer) : Type 0 where
  pub sends : snd_llc_data h c buff ≡ ok b
  pub checks : llc_crc_check h.crc 0 b ≡ ok true
  pub kind : fig_llc_frame b ≡ i_frame
  pub ns : get_ns b ≡ c.nr
  pub nr : get_nr b ≡ c.nr
  pub content : (i : ℕ) → i < n → fig_llc_data b i ≡ buff i

frame_of_even : (b : Buffer) → b 16 % 2 ≡ 0 → fig_llc_frame b ≡ i_frame
unfolding fig_llc_frame cmp_hex_to_string
frame_of_even b e = rw e refl

snd_llc_data-Sent :
    (h : Host) (c : Client) (buff : Buffer) (n : ℕ)
    → h.high ≡ 0
    → strlen 600 buff ≡ ok n
    → n ≤ 496
    → c.nr < 128
    → Sent h c buff n (sealed h (counted h c buff n))
unfolding snd_llc_data get_ns get_nr set_ns set_nr
snd_llc_data-Sent h c buff n z e l m =
    let len = counted-get_length h c buff n l in
    let s = seal-Sealed h (counted h c buff n) z (omega (arith, len)) (omega (arith, len, l)) in
    let control = counted_control h c buff n m in
    let first = s.kept 16 (omega (arith, len)) ∙ control.0 in
    let second = s.kept 17 (omega (arith, len)) ∙ control.1 in
    record {
      sends =
          ap (λ r. r >>= λ b. seal h (set_nr (set_ns b c.nr) c.nr))
            (make-made h.stack buff c.dest_mac h.mac zeros 600 buff n e)
          ∙ s.sends;
      checks = s.checks;
      kind = frame_of_even (sealed h (counted h c buff n)) (omega (arith, first));
      ns = omega (arith, first, m);
      nr = omega (arith, second, m);
      content = λ i k.
          s.kept (18 + i) (omega (arith, len, k))
          ∙ counted_content h c buff n i (omega (arith, k, l));
    }

-- The frame S_RR of the server before its CRC.
abbrev ready : Host → Server → Buffer → Buffer
ready h s buff =
    set_nr (made h.stack buff s.dest_mac h.mac (set_hex_to_string zeros s_rr 1) zeros 0) (s.nr + 1)

ready-get_length : (h : Host) (s : Server) (buff : Buffer) → get_length (ready h s buff) ≡ 22
unfolding set_nr
ready-get_length h s buff =
    made-get_length h.stack buff s.dest_mac h.mac (set_hex_to_string zeros s_rr 1) zeros 0
      (omega arith)

no_content : strlen 496 zeros ≡ ok 0
unfolding strlen
no_content = refl

-- What the answer of the server is for the client.
record Answered (h : Host) (s : Server) (buff b : Buffer) : Type 0 where
  sends : server_frame h s s_rr buff ≡ ok b
  checks : llc_crc_check h.crc 0 b ≡ ok true
  kind : fig_llc_format b ≡ s_rr
  nr : get_nr b ≡ (s.nr + 1) % 128

format_of_rr : (b : Buffer) → b 16 ≡ 1 → fig_llc_format b ≡ s_rr
unfolding fig_llc_format cmp_hex_to_string
format_of_rr b e = rw e refl

server_frame-Answered :
    (h : Host) (s : Server) (buff : Buffer)
    → h.high ≡ 0
    → s.nr < 128
    → Answered h s buff (sealed h (ready h s buff))
unfolding server_frame make_frame get_nr set_nr
server_frame-Answered h s buff z m =
    let len = ready-get_length h s buff in
    let done = seal-Sealed h (ready h s buff) z (omega (arith, len)) (omega (arith, len)) in
    let control = set_hex_to_string zeros s_rr 1 in
    let first : sealed h (ready h s buff) 16 ≡ 1 = done.kept 16 (omega (arith, len)) in
    let second : sealed h (ready h s buff) 17 ≡ ready h s buff 17 =
      done.kept 17 (omega (arith, len)) in
    record {
      sends =
          ap (λ r. r >>= λ b. seal h (set_nr b (s.nr + 1)))
            (make-made h.stack buff s.dest_mac h.mac control 496 zeros 0 no_content)
          ∙ done.sends;
      checks = done.checks;
      kind = format_of_rr (sealed h (ready h s buff)) first;
      nr =
          ap (λ x. x / 2 % 128) second
          ∙ get_nr-set_nr (made h.stack buff s.dest_mac h.mac control zeros 0) (s.nr + 1) refl
              (omega (arith, m));
    }

-- The server after a frame of data.
abbrev after_data : Server → Buffer → Server
after_data s b = record s { dest_mac = move 0 6 (λ i. b (6 + i)) s.dest_mac; nr = get_nr b }

server_receive-data :
    (h : Host) (s : Server) (buff_snd b r : Buffer)
    → llc_crc_check h.crc h.high b ≡ ok true
    → fig_llc_frame b ≡ i_frame
    → server_frame h (after_data s b) s_rr buff_snd ≡ ok r
    → server_receive h s buff_snd b ≡ ok (after_data s b, some r)
unfolding server_receive
server_receive-data h s buff_snd b r e k f = rw (e, k, f) refl

client_receive-rr :
    (h : Host) (c : Client) (r : Buffer)
    → llc_crc_check h.crc h.high r ≡ ok true
    → fig_llc_format r ≡ s_rr
    → client_receive h c r ≡ ok (record c { timeout_cnt = 0; rr_rcv_flag = true; nr = get_nr r })
unfolding client_receive
client_receive-rr h c r e k = rw (e, k) refl

check_at :
    (h : Host) (crc : Crc) (b : Buffer)
    → h.crc ≡ crc
    → h.high ≡ 0
    → llc_crc_check crc 0 b ≡ ok true
    → llc_crc_check h.crc h.high b ≡ ok true
check_at h crc b e z k =
    ap (λ x. llc_crc_check x h.high b) e ∙ ap (λ x. llc_crc_check crc x b) z ∙ k

-- A line of data and its answer, up to where the client goes on.
pub record Exchange (h h' : Host) (c : Client) (s : Server) (buff buff_snd : Buffer) (n : ℕ)
    : Type 0 where
  pub frame : Buffer
  pub answer : Buffer
  pub server : Server
  pub client : Client
  pub sends : snd_llc_data h c buff ≡ ok frame
  pub content : (i : ℕ) → i < n → fig_llc_data frame i ≡ buff i
  pub numbers : (get_ns frame ≡ c.nr) × (get_nr frame ≡ c.nr)
  pub data_frame : fig_llc_frame frame ≡ i_frame
  pub answers : server_receive h' s buff_snd frame ≡ ok (server, some answer)
  pub server_nr : server.nr ≡ c.nr
  pub server_goes_on : server.disc_flag ≡ s.disc_flag
  pub checked :
      (llc_crc_check h'.crc h'.high frame ≡ ok true) × (llc_crc_check h.crc h.high answer ≡ ok true)
  pub ready_frame : (fig_llc_format answer ≡ s_rr) × (get_nr answer ≡ (c.nr + 1) % 128)
  pub receives : client_receive h c answer ≡ ok client
  pub goes_on : (wait_rr client).1 ≡ arrived
  pub counts : client ≡ record c { timeout_cnt = 0; rr_rcv_flag = true; nr = (c.nr + 1) % 128 }

-- A line of n bytes, at most 496, that the client sends goes out in an I frame with the client's number, and
-- the first n bytes of data in the frame are the line. The server takes the number over, keeps running and
-- answers with S_RR and the next number modulo 128. The check of the CRC succeeds for the frame and for the
-- answer. On the answer the client goes on with that next number, and only its number, its count of time
-- outs and the flag of the answer have changed. Both use the same CRC, and the unset upper half of `len` is
-- 0 at both. What stands behind the n bytes is not said.
pub snd_llc_data-Exchange :
    (h h' : Host) (c : Client) (s : Server) (buff buff_snd : Buffer) (n : ℕ)
    → h.high ≡ 0
    → h'.high ≡ 0
    → h'.crc ≡ h.crc
    → strlen 600 buff ≡ ok n
    → n ≤ 496
    → c.nr < 128
    → Exchange h h' c s buff buff_snd n
unfolding wait_rr
snd_llc_data-Exchange h h' c s buff buff_snd n z z' same e l m =
    let b = sealed h (counted h c buff n) in
    let sent = snd_llc_data-Sent h c buff n z e l m in
    let s1 = after_data s b in
    let r = sealed h' (ready h' s1 buff_snd) in
    let answered = server_frame-Answered h' s1 buff_snd z' (omega (arith, sent.nr, m)) in
    record {
      frame = b;
      answer = r;
      server = s1;
      client = record c { timeout_cnt = 0; rr_rcv_flag = true; nr = get_nr r };
      sends = sent.sends;
      content = sent.content;
      numbers = (sent.ns, sent.nr);
      server_nr = sent.nr;
      data_frame = sent.kind;
      ready_frame = (answered.kind, answered.nr ∙ ap (λ x. (x + 1) % 128) sent.nr);
      server_goes_on = refl;
      checked = (
        check_at h' h.crc b same z' sent.checks,
        check_at h h'.crc r (sym same) z answered.checks,
      );
      answers =
          server_receive-data h' s buff_snd b r (check_at h' h.crc b same z' sent.checks) sent.kind
            answered.sends;
      receives =
          client_receive-rr h c r (check_at h h'.crc r (sym same) z answered.checks) answered.kind;
      goes_on = refl;
      counts =
          ap (λ x. record c { timeout_cnt = 0; rr_rcv_flag = true; nr = x })
            (answered.nr ∙ ap (λ x. (x + 1) % 128) sent.nr);
    }
