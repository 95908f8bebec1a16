-- ===== src/Command/Udp.antt =====
-- command.c, udp_GetRequest: a request in one datagram. The fields that it fills are those of the
-- structure that the repository does not declare; a new one is a parameter.
-- What it reads of the value's length is used nowhere.
use nohost_server.Base.{
  ℕ, zero, suc, ◌+◌, ◌-◌, ◌*◌, ◌/◌, ◌%◌, ◌^◌, ◌≤◌, ◌<◌, ◌≡◌, refl, ap, ◌∙◌, true, false, List, [],
  ◌∷◌, Option, none, some, ltb, leb, if◌then◌else◌, Memory, Holds, length, add32, sub32, add64,
  slt32, int_of_char, arith, slt32-nonneg,
}
use nohost_server.Base.Int.{is_digit, read_digits, all_digits}

pub record Datagram : Type 0 where
  pub fd : ℕ
  pub target_fd : ℕ
  pub kind : ℕ
  pub key : ℕ

-- alloc_dma and make_req.
pub data UdpCall : Type 0 where
  udp_allocated : Datagram → UdpCall
  udp_made : Datagram → UdpCall

-- `str[i] - '0'`, an `int`.
abbrev pub digit_at : Memory → ℕ → ℕ
digit_at str i = sub32 (int_of_char (str i)) 48

-- `new_req->target_fd = str[i] - '0'; new_req->target_fd *= 10;` for 0, 1 and 2, each in place of the
-- one before, and the last digit.
target_of : Memory → ℕ
target_of str = add32 (digit_at str 2 * 10 % 2 ^ 32) (digit_at str 3)

-- Two digits from `i`.
two_digits : Memory → ℕ → ℕ
two_digits str i = sub32 (add32 (digit_at str i * 10) (int_of_char (str (i + 1)))) 48

-- The conversion of an `int` to `uint64_t`.
abbrev pub extended : ℕ → ℕ
extended n = if ltb n (2 ^ 31) then n else n + 2 ^ 64 - 2 ^ 32

-- The loop over the digits of the key.
digit_loop : ℕ → Memory → ℕ → ℕ → ℕ
digit_loop zero str i key = key
digit_loop (suc n) str i key =
    digit_loop n str (i + 1) (add64 key (extended (digit_at str i)) * 10 % 2 ^ 64)

udp_fill : Memory → ℕ → Datagram → Datagram
unfolding target_of two_digits digit_loop
udp_fill str key_len d = record d {
  target_fd = target_of str;
  kind = two_digits str 4;
  key = add64 (digit_loop key_len str (18 - key_len) d.key / 10) 1;
}

-- What is called with the request.
udp_calls : Datagram → List UdpCall
udp_calls d = if slt32 d.kind 3 then udp_allocated d ∷ (udp_made d ∷ []) else udp_made d ∷ []

-- What udp_GetRequest returns on every path: `return (req_t*)0`.
abbrev pub udp_returned : Option Datagram
udp_returned = none

-- `none`: a key of more than 18 digits is read from before the packet. A negative number of digits is
-- none.
unfoldable pub udp_get_request :
    (ℕ → Datagram) → ℕ → Memory → Option Datagram → Option (List UdpCall)
unfolding udp_fill udp_calls two_digits
udp_get_request alloc_req fd str req =
    let d : Datagram = elim req [ none ↦ record (alloc_req fd) { fd = fd } | some d ↦ d ] in
    let key_len = two_digits str 6 in
    if leb (2 ^ 31) key_len
    then some (udp_calls (udp_fill str 0 d))
    else if leb key_len 18
    then some (udp_calls (udp_fill str key_len d))
    else none

read_digits-grows : (a : ℕ) (ds : List ℕ) → a ≤ read_digits a ds
unfolding read_digits
read_digits-grows a [] = omega arith
read_digits-grows a (c ∷ ds) = ground (arith, read_digits-grows (a * 10 + (c - 48)) ds)

digit_loop-reads :
    (ds : List ℕ) (str : Memory) (i a : ℕ)
    → Holds str i ds
    → all_digits ds ≡ true
    → read_digits a ds * 10 < 2 ^ 64
    → digit_loop (length ds) str i (a * 10) ≡ read_digits a ds * 10
unfolding digit_loop read_digits all_digits
digit_loop-reads [] str i a h d small = refl
digit_loop-reads (c ∷ ds) str i a h d small =
    let is : is_digit c ≡ true = ground arith in
    let all : all_digits ds ≡ true = ground arith in
    let b = a * 10 + (c - 48) in
    let small' : read_digits b ds * 10 < 2 ^ 64 = rw (read_digits, is) at small in
    let grows = read_digits-grows b ds in
    let low : 48 ≤ c = ground arith in
    let high : c ≤ 57 = ground arith in
    let e : i + 1 ≡ suc i = omega arith in
    let one : digit_at str i ≡ c - 48 = ground (arith, h.0) in
    let wide : extended (digit_at str i) ≡ c - 48 = ground (arith, one) in
    let step : add64 (a * 10) (extended (digit_at str i)) * 10 % 2 ^ 64 ≡ b * 10 =
      rw wide (omega arith) in
    let whole : read_digits a (c ∷ ds) ≡ read_digits b ds = rw (read_digits, is) refl in
    ap (digit_loop (length ds) str (i + 1)) step
    ∙ rw (e, whole) (digit_loop-reads ds str (suc i) b (h.1) all small')

-- The field of `n` digits, two of them.
abbrev Two : Memory → ℕ → ℕ → Type 0
Two str i n = (str i ≡ 48 + n / 10) × (str (i + 1) ≡ 48 + n % 10)

two_digits-reads : (str : Memory) (i n : ℕ) → n < 100 → Two str i n → two_digits str i ≡ n
unfolding two_digits
two_digits-reads str i n small (tens, ones) =
    let a : digit_at str i ≡ n / 10 = ground (arith, tens) in
    let b : int_of_char (str (i + 1)) ≡ 48 + n % 10 = ground (arith, ones) in
    rw (a, b) (omega arith)

-- A new request (its key is 0) from a datagram whose key has up to 18 digits, of a value whose tenfold
-- fits 64 bits: the request that goes to make_req, behind alloc_dma for a read or a write, has the
-- kind of the datagram and one more than its key; of the four digits of the target only the
-- last two are in it.
pub udp_get_request-reads :
    (alloc_req : ℕ → Datagram) (fd : ℕ) (str : Memory) (kind : ℕ) (ds : List ℕ) (d2 d3 : ℕ)
    → (alloc_req fd).key ≡ 0
    → Two str 4 kind
    → kind < 100
    → Two str 6 (length ds)
    → length ds ≤ 18
    → Holds str (18 - length ds) ds
    → all_digits ds ≡ true
    → read_digits 0 ds * 10 < 2 ^ 64
    → str 2 ≡ 48 + d2
    → str 3 ≡ 48 + d3
    → d2 < 10
    → d3 < 10
    → (d : Datagram) × (udp_get_request alloc_req fd str none
        ≡ some (if ltb kind 3 then udp_allocated d ∷ (udp_made d ∷ []) else udp_made d ∷ []))
      × (d.kind ≡ kind)
      × (d.key ≡ read_digits 0 ds + 1)
      × (d.target_fd ≡ d2 * 10 + d3)
unfolding udp_get_request udp_fill udp_calls target_of
udp_get_request-reads alloc_req fd str kind ds d2 d3 new k ks n ns h digits small s2 s3 l2 l3 =
    let len = two_digits-reads str 6 (length ds) (omega arith) n in
    let kinds = two_digits-reads str 4 kind ks k in
    let key = digit_loop-reads ds str (18 - length ds) 0 h digits small in
    let a2 : digit_at str 2 ≡ d2 = ground (arith, s2) in
    let a3 : digit_at str 3 ≡ d3 = ground (arith, s3) in
    let few : leb (2 ^ 31) (length ds) ≡ false = ground arith in
    let fits : leb (length ds) 18 ≡ true = ground arith in
    let key_is : add64 (digit_loop (length ds) str (18 - length ds) (alloc_req fd).key / 10) 1
        ≡ read_digits 0 ds + 1 =
      rw (new, key) (omega arith) in
    let target : add32 (digit_at str 2 * 10 % 2 ^ 32) (digit_at str 3) ≡ d2 * 10 + d3 =
      rw (a2, a3) (omega arith) in
    let signed : slt32 kind 3 ≡ ltb kind 3 = slt32-nonneg kind 3 (omega arith) (omega arith) in
    (
      record { fd = fd; target_fd = d2 * 10 + d3; kind = kind; key = read_digits 0 ds + 1 },
      rw (len, few, fits, kinds, key_is, target, signed) refl,
      refl,
      refl,
      refl,
    )
