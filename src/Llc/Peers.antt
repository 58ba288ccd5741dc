-- ===== src/Llc/Peers.antt =====
-- DT/Proj3_LLC/client.c and DT/Proj3_LLC/server.c: what the two programs do with a line typed, a frame
-- received and a time out. The sockets, the threads' start and what is printed are left out.
use hyu_3rd_1se.Prelude.{
  ℕ, suc, ◌+◌, Bool, true, false, not, ◌&&◌, Option, none, some, List, [], ◌∷◌, ◌==◌, if◌then◌else◌,
  Result, ok, ◌>>=◌,
}
use hyu_3rd_1se.Llc.{
  Buffer, Crc, buff_size, zeros, move, set_hex_to_string, make_llc_from_buff, set_ns, set_nr,
  get_nr, fig_llc_frame, fig_llc_format, crc_length, do_crc, set_llc_crc, llc_crc_check, u_frame,
  i_frame, u_sabme, u_disc, u_ua, s_rr,
}

-- Where a program runs: the CRC of zlib, its hardware address that `findMyMac` gives, and what its stack
-- holds where `llc` and the upper half of `len` stand.
pub record Host : Type 0 where
  pub crc : Crc
  pub mac : Buffer
  pub stack : Buffer
  pub high : ℕ

-- The variables `g_...` of client.c.
pub record Client : Type 0 where
  pub dest_mac : Buffer
  pub ua_rcv_flag : Bool
  pub rr_rcv_flag : Bool
  pub waiting_rcv_flag : Bool
  pub timeout_cnt : ℕ
  pub timeoutflag : Bool
  pub connectedflag : Bool
  pub u_sabme_snt : Bool
  pub u_disc_snt : Bool
  pub nr : ℕ

-- The variables `g_...` of server.c.
pub record Server : Type 0 where
  pub dest_mac : Buffer
  pub disc_flag : Bool
  pub nr : ℕ

-- The last step of the sending functions before the socket.
abbrev pub seal : Host → Buffer → Result Buffer
seal h buff = do_crc h.crc buff (crc_length h.high buff) >>= λ crc. set_llc_crc buff crc

-- The first byte of the control field is `frame`; there are no data.
unfoldable pub make_frame : Host → Buffer → ℕ → Buffer → Result Buffer
make_frame h dest frame buff =
    make_llc_from_buff h.stack buff dest h.mac (set_hex_to_string zeros frame 1) 496 zeros zeros

-- `SndLLCFrame` of client.c
unfoldable pub client_frame : Host → Client → ℕ → Buffer → Result Buffer
client_frame h c frame buff = make_frame h c.dest_mac frame buff >>= λ b. seal h b

-- `SndLLCData`, which is called with its buffer as the data.
unfoldable pub snd_llc_data : Host → Client → Buffer → Result Buffer
snd_llc_data h c buff =
    make_llc_from_buff h.stack buff c.dest_mac h.mac zeros buff_size buff zeros >>= λ b.
    seal h (set_nr (set_ns b c.nr) c.nr)

-- `strcmp` with a text, whether it is the same.
unfoldable pub same_text : List ℕ → Buffer → Bool
same_text [] buff = buff 0 == 0
same_text (x ∷ xs) buff = buff 0 == x && same_text xs (λ i. buff (suc i))

-- A line typed in `SndThread`, up to where the thread waits: what it sends.
unfoldable pub client_line : Host → Client → Buffer → Result (Client × Option Buffer)
client_line h c buff =
    let starts = record c { u_sabme_snt = true; waiting_rcv_flag = true } in
    let quits = record c { u_disc_snt = true; waiting_rcv_flag = true } in
    let waits = record c { waiting_rcv_flag = true } in
    if same_text (115 ∷ 116 ∷ 97 ∷ 114 ∷ 116 ∷ []) buff
    then (client_frame h c u_sabme buff >>= λ b. ok (starts, some b))
    else if same_text (113 ∷ 117 ∷ 105 ∷ 116 ∷ []) buff
    then (client_frame h c u_disc buff >>= λ b. ok (quits, some b))
    else if c.connectedflag
    then (snd_llc_data h c buff >>= λ b. ok (waits, some b))
    else ok (c, none)

-- What a thread that waits does next: it sends the frame again, goes on, or looks again.
pub data Waiting : Type 0 where
  resend arrived spin : Waiting

-- The loop of `SndThread` that waits for a U_UA, and what follows.
unfoldable pub wait_ua : Client → Client × Waiting
wait_ua c =
    if c.ua_rcv_flag
    then (record c { ua_rcv_flag = false; waiting_rcv_flag = false; timeoutflag = false }, arrived)
    else if c.timeoutflag
    then (record c { timeoutflag = false }, resend)
    else (c, spin)

-- The loop that waits for an S_RR.
unfoldable pub wait_rr : Client → Client × Waiting
wait_rr c =
    if c.rr_rcv_flag
    then (record c { rr_rcv_flag = false; waiting_rcv_flag = false; timeoutflag = false }, arrived)
    else if c.timeoutflag
    then (record c { timeoutflag = false }, resend)
    else (c, spin)

-- `select` in `RcvThread` has found no frame in time.
unfoldable pub client_timeout : Client → Client
client_timeout c =
    let c1 = record c { timeoutflag = true; timeout_cnt = c.timeout_cnt + 1 } in
    let given_up = record c1 {
      ua_rcv_flag = true;
      rr_rcv_flag = true;
      timeoutflag = false;
      timeout_cnt = 0;
      waiting_rcv_flag = false;
    } in
    if not c.waiting_rcv_flag then c else if c1.timeout_cnt == 5 then given_up else c1

unfoldable pub take_ua : Client → Buffer → Client
take_ua c buff =
    let c1 = record c { ua_rcv_flag = true; dest_mac = move 0 6 (λ i. buff (6 + i)) c.dest_mac } in
    let c2 =
      if c1.u_sabme_snt
      then record c1 { connectedflag = true; u_sabme_snt = false; nr = 0 }
      else c1 in
    if c2.u_disc_snt then record c2 { connectedflag = false; u_disc_snt = false } else c2

-- A frame received in `RcvThread` of the client. What the check of the CRC gives is only printed.
unfoldable pub client_receive : Host → Client → Buffer → Result Client
client_receive h c buff = llc_crc_check h.crc h.high buff >>= λ passed.
    let c1 = record c { timeout_cnt = 0 } in
    let c2 = if fig_llc_format buff == u_ua then take_ua c1 buff else c1 in
    ok (
      if fig_llc_format buff == s_rr
      then record c2 { rr_rcv_flag = true; nr = get_nr buff }
      else c2)

-- `SndLLCFrame` of server.c
unfoldable pub server_frame : Host → Server → ℕ → Buffer → Result Buffer
server_frame h s frame buff = make_frame h s.dest_mac frame buff >>= λ b.
    seal h (if frame == s_rr then set_nr b (s.nr + 1) else b)

-- `RcvThread` of the server: the frame that it sends back. `buff_snd` is not set before.
unfoldable pub server_receive : Host → Server → Buffer → Buffer → Result (Server × Option Buffer)
server_receive h s buff_snd buff =
    let s1 = record s { dest_mac = move 0 6 (λ i. buff (6 + i)) s.dest_mac } in
    let s2 = record s1 { nr = get_nr buff } in
    let acknowledged : Server → Result (Server × Option Buffer) =
      λ end. server_frame h s1 u_ua buff_snd >>= λ b. ok (end, some b) in
    let ready = server_frame h s2 s_rr buff_snd >>= λ b. ok (s2, some b) in
    llc_crc_check h.crc h.high buff >>= λ passed.
    if fig_llc_frame buff == u_frame
    then if fig_llc_format buff == u_sabme
      then acknowledged s1
      else if fig_llc_format buff == u_disc
      then acknowledged (record s1 { disc_flag = true })
      else ok (s1, none)
    else if fig_llc_frame buff == i_frame
    then ready
    else ok (s1, none)
