-- ===== src/Llc.antt =====
-- DT/Proj3_LLC/llc.c: the frames of logical link control. A frame is a buffer of bytes from 0 to 255, with
-- the fields of `struct LLC` at their offsets: the addresses at 0 and 6, the length at 12, the control field
-- at 16, the data at 18. What `printLLC` and `LLC_CRC_Check` print is left out; `crc32` of zlib is a
-- parameter.
pub mod Peers
pub mod Frames
pub mod Exchange
pub mod Timeout
use hyu_3rd_1se.Prelude.Bits.{bit_or}
use hyu_3rd_1se.Prelude.{
  ℕ, zero, suc, ◌+◌, ◌-◌, ◌*◌, ◌/◌, ◌%◌, ◌^◌, Bool, true, false, ◌&&◌, ◌||◌, ltb, leb, ◌==◌,
  if◌then◌else◌, update, Result, ok, fault, out_of_bounds, ◌>>=◌,
}

abbrev pub Buffer : Type 0
Buffer = ℕ → ℕ

-- The size of a buffer in the two programs.
abbrev pub buff_size : ℕ
buff_size = 600

abbrev pub u_frame : ℕ
u_frame = 3

abbrev pub s_frame : ℕ
s_frame = 2

abbrev pub i_frame : ℕ
i_frame = 0

abbrev pub u_sabme : ℕ
u_sabme = 111

abbrev pub u_disc : ℕ
u_disc = 67

abbrev pub u_ua : ℕ
u_ua = 99

abbrev pub s_rr : ℕ
s_rr = 1

abbrev pub s_rnr : ℕ
s_rnr = 5

abbrev pub zeros : Buffer
zeros = λ i. 0

-- `memmove(&dst[at], src, n)`
abbrev pub move : ℕ → ℕ → Buffer → Buffer → Buffer
move at n src dst = λ i. if leb at i && ltb i (at + n) then src (i - at) else dst i

-- The bytes of a machine integer, the lowest first.
abbrev pub bytes_of : ℕ → Buffer
bytes_of value = λ i. value / 256 ^ i % 256

-- `strlen` on a buffer of n bytes.
unfoldable pub strlen : ℕ → Buffer → Result ℕ
strlen zero s = fault out_of_bounds
strlen (suc n) s =
    let rest = strlen n (λ i. s (suc i)) in if s 0 == 0 then ok 0 else rest >>= λ len. ok (suc len)

-- `SetLLC` on the local variable that `llc` is; the argument `length` is not used. `size` is the size of the
-- array that `content`, its argument `data`, points to.
unfoldable pub set_llc : Buffer → Buffer → Buffer → Buffer → ℕ → Buffer → Buffer → Result Buffer
set_llc llc dest src control size content crc = strlen size content >>= λ n.
    let llc1 = move 6 6 src (move 0 6 dest llc) in
    let llc2 = move 12 2 (bytes_of (n + 22)) llc1 in
    let llc3 = update (update llc2 14 0) 15 0 in
    ok (move 514 4 crc (move 18 496 content (move 16 2 control llc3)))

unfoldable pub make_llc_from_buff :
    Buffer → Buffer → Buffer → Buffer → Buffer → ℕ → Buffer → Buffer → Result Buffer
make_llc_from_buff stack buff dest src control size content crc =
    set_llc stack dest src control size content crc >>= λ llc.
    ok (update (move 0 518 llc buff) 518 0)

abbrev pub set_hex_to_string : Buffer → ℕ → ℕ → Buffer
set_hex_to_string target value n = move 0 n (bytes_of value) target

-- `target` holds characters with a sign, so that a byte from 128 on is never equal.
unfoldable pub cmp_hex_to_string : Buffer → ℕ → ℕ → Bool
cmp_hex_to_string target value zero = true
cmp_hex_to_string target value (suc n) =
    let rest = cmp_hex_to_string target (value / 256) n in
    if ltb (target n) 128 && target n == value % 256 then rest else false

unfoldable pub set_ns : Buffer → ℕ → Buffer
set_ns llc value = update llc 16 (bit_or 8 (llc 16) (2 * value % 256))

unfoldable pub get_ns : Buffer → ℕ
get_ns llc = llc 16 / 2 % 128

unfoldable pub set_nr : Buffer → ℕ → Buffer
set_nr llc value = update llc 17 (bit_or 8 (llc 17) (2 * value % 256))

unfoldable pub get_nr : Buffer → ℕ
get_nr llc = llc 17 / 2 % 128

unfoldable pub fig_llc_frame : Buffer → ℕ
fig_llc_frame buff =
    if cmp_hex_to_string (λ i. buff 16 % 2) i_frame 1
    then i_frame
    else if cmp_hex_to_string (λ i. buff 16 % 4) s_frame 1
    then s_frame
    else if cmp_hex_to_string (λ i. buff 16 % 4) u_frame 1
    then u_frame
    else 0

unfoldable pub fig_llc_format : Buffer → ℕ
fig_llc_format buff =
    let is : ℕ → Bool = λ format. cmp_hex_to_string (λ i. buff 16) format 1 in
    if is u_sabme
    then u_sabme
    else if is u_disc
    then u_disc
    else if is u_ua
    then u_ua
    else if is s_rr
    then s_rr
    else if is s_rnr
    then s_rnr
    else 0

-- `llc->data`
abbrev pub fig_llc_data : Buffer → Buffer
fig_llc_data buff = λ i. buff (18 + i)

-- The field `length` as a short, where it is not negative.
abbrev pub get_length : Buffer → ℕ
get_length llc = llc 12 + 256 * llc 13

-- `len - 4` for the variable `int len` of which only the lower half is set; `high` is what the stack
-- holds in the upper half. A negative number of bytes is no byte.
abbrev pub crc_length : ℕ → Buffer → ℕ
crc_length high llc = if ltb high 32768 then get_length llc + 65536 * high - 4 else 0

-- The place of the CRC, inside the buffer.
unfoldable pub crc_place : Buffer → Result ℕ
crc_place llc =
    if leb 4 (get_length llc) && leb (get_length llc) buff_size
    then ok (get_length llc - 4)
    else fault out_of_bounds

unfoldable pub set_llc_crc : Buffer → ℕ → Result Buffer
set_llc_crc llc value = crc_place llc >>= λ place. ok (move place 4 (bytes_of value) llc)

unfoldable pub get_llc_crc : Buffer → Result Buffer
get_llc_crc llc = crc_place llc >>= λ place. ok (λ i. llc (place + i))

-- `crc32` takes a CRC and one byte more; `crc_start` is `crc32(0L, Z_NULL, 0)`.
pub record Crc : Type 0 where
  pub crc32 : ℕ → ℕ → ℕ
  pub crc_start : ℕ

unfoldable pub crc_loop : Crc → Buffer → ℕ → ℕ
crc_loop c bytes zero = c.crc_start
crc_loop c bytes (suc n) = c.crc32 (crc_loop c bytes n) (bytes n)

unfoldable pub do_crc : Crc → Buffer → ℕ → Result ℕ
do_crc c bytes n = if leb n buff_size then ok (crc_loop c bytes n) else fault out_of_bounds

-- The loop of `LLC_CRC_Check` over the four bytes.
unfoldable pub same_bytes : ℕ → Buffer → Buffer → Bool
same_bytes zero a b = true
same_bytes (suc n) a b =
    let rest = same_bytes n (λ i. a (suc i)) (λ i. b (suc i)) in if a 0 == b 0 then rest else false

unfoldable pub llc_crc_check : Crc → ℕ → Buffer → Result Bool
llc_crc_check c high buff = do_crc c buff (crc_length high buff) >>= λ crc.
    get_llc_crc buff >>= λ llc_crc. ok (same_bytes 4 (set_hex_to_string zeros crc 4) llc_crc)
