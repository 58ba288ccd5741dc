-- ===== src/Tests/Frames.antt =====
-- DT/Proj3_LLC with the line "hi".
use hyu_3rd_1se.Prelude.{
  ◌+◌, ◌*◌, ◌%◌, ◌^◌, ◌≡◌, refl, true, false, ok, [], ◌∷◌, ◌==◌, if◌then◌else◌, arith,
}
use hyu_3rd_1se.Llc.{Buffer, zeros, strlen}
use hyu_3rd_1se.Llc.Peers.{Host, Client, Server, client_timeout, wait_rr, arrived}
use hyu_3rd_1se.Llc.Exchange.{Exchange, snd_llc_data-Exchange}
use hyu_3rd_1se.Llc.Timeout.{timed_out, looked, after, wait_rr-ends}

abbrev some_host : Host
some_host = record {
  crc = record { crc32 = λ a b. (31 * a + b) % 2 ^ 32; crc_start = 0 };
  mac = λ i. i + 1;
  stack = λ i. 170;
  high = 0;
}

abbrev hi : Buffer
hi = λ i. if i == 0 then 104 else if i == 1 then 105 else 0

abbrev some_client : Client
some_client = record {
  dest_mac = zeros;
  ua_rcv_flag = false;
  rr_rcv_flag = false;
  waiting_rcv_flag = true;
  timeout_cnt = 1;
  timeoutflag = false;
  connectedflag = true;
  u_sabme_snt = false;
  u_disc_snt = false;
  nr = 127;
}

abbrev some_server : Server
some_server = record { dest_mac = zeros; disc_flag = false; nr = 5 }

hi_length : strlen 600 hi ≡ ok 2
unfolding strlen
hi_length = refl

snd_llc_data-Exchange_example : Exchange some_host some_host some_client some_server hi zeros 2
snd_llc_data-Exchange_example =
    snd_llc_data-Exchange some_host some_host some_client some_server hi zeros 2 refl refl refl
      hi_length (omega arith) (omega arith)

wait_rr-ends_example :
    (wait_rr
      (client_timeout (after (timed_out ∷ looked ∷ timed_out ∷ timed_out ∷ []) some_client))).1
    ≡ arrived
wait_rr-ends_example =
    wait_rr-ends (timed_out ∷ looked ∷ timed_out ∷ timed_out ∷ []) some_client refl refl refl
