-- ===== src/Command.antt =====
-- command.c: the parser that keeps a request half read between two packets. The Makefile does not
-- build it, and the repository does not declare the structures that it fills: their fields are the
-- ones it names, with `int` lengths as 32-bit patterns and a 64-bit key. What alloc_req, alloc_dma
-- and make_req of that version do is not in the sources: a new request is a parameter, the calls of
-- the others are recorded.
pub mod Length
pub mod Value
pub mod Halves
pub mod Udp
pub mod Send
pub mod Stages
pub mod Progress
mod Tests
use nohost_server.Base.{
  ℕ, zero, suc, ◌+◌, ◌-◌, ◌*◌, ◌%◌, ◌^◌, Bool, true, false, not, ◌&&◌, List, [], ◌∷◌, ◌++◌, Option,
  none, some, leb, ltb, ◌==◌, if◌then◌else◌, codes, Memory, blit, view, add32, sub32, add64, slt32,
  int_of_char,
}
use nohost_server.Base.Int.{is_digit}

-- `len` (`keywordNum` of the keyword), `offset` and `valid` of one of the four parts.
pub record Info : Type 0 where
  pub len : ℕ
  pub offset : ℕ
  pub valid : ℕ

pub record Req : Type 0 where
  pub fd : ℕ
  pub keyword_info : Info
  pub type_info : Info
  pub key_info : Info
  pub value_info : Info
  pub type_str : Memory
  pub kind : ℕ
  pub key : ℕ
  pub value : Memory

-- What a stage does: the next position to process, -1 (all of the packet is read), or a fault: it
-- copies a negative number of bytes, or, in GetKey, its loop counts down from a negative number and
-- reads on behind the packet. C leaves both undefined, and the model stops there.
pub data Stage (A : Type 0) : Type 0 where
  next : ℕ → A → Stage A
  not_yet : A → Stage A
  fault : Stage A

abbrev pub validated : Info → Info
validated p = record p { valid = add32 p.valid 1 }

-- `n * 10 + c - '0'` in `int`.
abbrev pub with_digit : ℕ → ℕ → ℕ
with_digit n c = sub32 (add32 (n * 10) (int_of_char c)) 48

-- The loop of GetLength; the first argument is `len - cur`.
unfoldable pub length_loop : ℕ → Memory → ℕ → ℕ → ℕ × ℕ
length_loop zero str cur added = (cur, added)
length_loop (suc n) str cur added =
    let more = length_loop n str (cur + 1) (with_digit added (str cur)) in
    if str cur == 13 then (cur + 1, added) else more

-- The part `p` is the one that `which` selects.
unfoldable pub get_length : Memory → ℕ → ℕ → ℕ → Info → Stage Info
unfolding length_loop
get_length str cmp len cur p =
    if cur == len
    then not_yet p
    else if str cur == 10
    then next (cur + 1) (validated p)
    else let start = if str cur == cmp then cur + 1 else cur in
      let (stop, added) = length_loop (len - start) str start 0 in
      let read = record p { len = add32 (p.len * 10) added } in
      if start == len
      then not_yet p
      else if ltb stop len && str stop == 10
      then next (stop + 1) (validated read)
      else not_yet read

-- The end of a part's line, at or behind `cur`.
unfoldable pub line_close : Memory → ℕ → ℕ → Option ℕ
line_close str len cur =
    let feed = if str cur == 13 then cur + 1 else cur in
    if cur == len then none else if ltb feed len && str feed == 10 then some (feed + 1) else none

ended : Req → Req → Option ℕ → Stage Req
ended q closed none = not_yet q
ended q closed (some c) = next c closed

-- What GetType, GetKey and GetValue share: up to `left` bytes of the packet are handed to `take`,
-- which is given the request, the position, and how many, and then the line's end is looked for. Where
-- `left` is negative so is their number.
unfoldable pub get_part :
    Memory → ℕ → ℕ → Info → Req → (Req → Info → ℕ → ℕ → Req) → (Req → Info → Req) → Stage Req
unfolding line_close ended
get_part str len cur p r take_bytes close =
    let left = sub32 p.len p.offset in
    let available = if ltb left (len - cur) then left else len - cur in
    let p' = record p { offset = add32 p.offset available } in
    let r' = take_bytes r p' cur available in
    if left == 0
    then ended r (close r (validated p)) (line_close str len cur)
    else if leb (2 ^ 31) left
    then fault
    else ended r' (close r' (validated p')) (line_close str len (cur + available))

-- `strncmp(type_str, text, 4)` for three characters and the NUL.
unfoldable pub type_of : Memory → ℕ → ℕ
type_of s kind =
    let is = λ (a b c : ℕ). s 0 == a && (s 1 == b && (s 2 == c && s 3 == 0)) in
    if is b'S' b'E' b'T'
    then 1
    else if is b'G' b'E' b'T'
    then 2
    else if is b'D' b'E' b'L'
    then 3
    else kind

unfoldable pub get_type : Memory → ℕ → ℕ → Req → Stage Req
unfolding get_part type_of
get_type str len cur r =
    get_part str len cur r.type_info r
      (λ q p c n. record q {
        type_info = p;
        type_str = blit q.type_str (q.type_info.offset) (view str c n);
      })
      (λ q p. record q { type_info = p; kind = type_of q.type_str q.kind })

-- The loop of GetKey, over `available` bytes.
unfoldable pub key_loop : ℕ → Memory → ℕ → ℕ → ℕ
key_loop zero str cur key = key
key_loop (suc n) str cur key =
    key_loop n str (cur + 1)
      (if is_digit (str cur) then (key * 10 + str cur + 2 ^ 64 - 48) % 2 ^ 64 else key)

unfoldable pub get_key : Memory → ℕ → ℕ → Req → Stage Req
unfolding get_part key_loop
get_key str len cur r =
    get_part str len cur r.key_info r
      (λ q p c n. record q { key_info = p; key = key_loop n str c q.key })
      (λ q p. record q { key_info = p })

unfoldable pub get_value : Memory → ℕ → ℕ → Req → Stage Req
unfolding get_part
get_value str len cur r =
    get_part str len cur r.value_info r
      (λ q p c n. record q {
        value_info = p;
        value = blit q.value (q.value_info.offset) (view str c n);
      })
      (λ q p. record q { value_info = p })

-- The calls that the parser makes: write of `+OK`, alloc_dma, make_req or master_make_req.
pub data Call : Type 0 where
  wrote_ok : ℕ → Call
  allocated : Req → Call
  made : Req → Call

-- How the parser is left: with the calls it made and the request it returns (`none` for NULL), by a
-- fault, or when the model's fuel is used up.
pub data Parsed : Type 0 where
  parsed : List Call → Option Req → Parsed
  broken : List Call → Parsed
  out_of_fuel : Parsed

pub after_stage : List Call → (ℕ → Req → Parsed) → Stage Req → Parsed
after_stage calls rest (next cur r) = rest cur r
after_stage calls rest (not_yet r) = parsed calls (some r)
after_stage calls rest fault = broken calls

-- A stage that is taken if `test` holds, and what comes behind it.
pub stage : Bool → Stage Req → ℕ → Req → List Call → (ℕ → Req → Parsed) → Parsed
unfolding after_stage
stage test result cur r calls rest = if test then after_stage calls rest result else rest cur r

-- GetLength of one of the four parts.
pub in_part : (Info → Req) → Stage Info → Stage Req
in_part put s = elim s [ next c p ↦ next c (put p) | not_yet p ↦ not_yet (put p) | fault ↦ fault ]

pub length_of : Memory → ℕ → ℕ → ℕ → Info → (Info → Req) → Stage Req
unfolding in_part
length_of str cmp len cur p put = in_part put (get_length str cmp len cur p)

-- The body of the loop behind the key: `again` is the next round.
after_key : (ℕ → List Call → Parsed) → Memory → ℕ → ℕ → Req → List Call → Parsed
after_key again str len cur r calls =
    let q = record r { key = add64 r.key 1 } in
    let calls1 = if slt32 q.kind 3 then calls ++ allocated q ∷ [] else calls in
    if slt32 1 q.kind
    then again cur (calls1 ++ made q ∷ [])
    else stage (q.value_info.valid == 0)
        (length_of str b'$' len cur q.value_info (λ p. record q { value_info = p })) cur q calls1
        (λ cur1 q1.
          stage (q1.value_info.valid == 1) (get_value str len cur1 q1) cur1 q1 calls1
            (λ cur2 q2. again cur2 (calls1 ++ made q2 ∷ [])))

-- The body of the loop behind the keyword; GetRequest `replies`, master_GetRequest does not.
after_keyword : Bool → (ℕ → List Call → Parsed) → Memory → ℕ → ℕ → Req → List Call → Parsed
unfolding after_key
after_keyword replies again str len cur r calls =
    stage (r.type_info.valid == 0)
      (length_of str b'$' len cur r.type_info (λ p. record r { type_info = p })) cur r calls
      (λ cur2 r2.
        stage (r2.type_info.valid == 1) (get_type str len cur2 r2) cur2 r2 calls (λ cur3 r3.
          let calls3 = if replies && r3.kind == 1 then calls ++ wrote_ok r3.fd ∷ [] else calls in
          stage (r3.key_info.valid == 0)
            (length_of str b'$' len cur3 r3.key_info (λ p. record r3 { key_info = p })) cur3 r3
            calls3
            (λ cur4 r4.
              stage (r4.key_info.valid == 1) (get_key str len cur4 r4) cur4 r4 calls3
                (λ cur5 r5. after_key again str len cur5 r5 calls3))))

-- The body of the loop of GetRequest and of master_GetRequest.
round : Bool → (ℕ → List Call → Parsed) → Memory → ℕ → ℕ → Req → List Call → Parsed
unfolding after_keyword
round replies again str len cur r calls =
    stage (r.keyword_info.valid == 0)
      (length_of str b'*' len cur r.keyword_info (λ p. record r { keyword_info = p })) cur r calls
      (λ cur1 r1. after_keyword replies again str len cur1 r1 calls)

-- The loop, `while (cur < len)`, with fuel; the request that is under way, or a new one.
request_loop : ℕ → Bool → Req → Memory → ℕ → ℕ → Option Req → List Call → Parsed
unfolding round after_keyword after_key
request_loop zero replies fresh str len cur r calls = out_of_fuel
request_loop (suc f) replies fresh str len cur r calls =
    let more =
      round replies (λ cur' calls'. request_loop f replies fresh str len cur' none calls') str len
        cur (elim r [ none ↦ fresh | some q ↦ q ]) calls in
    if ltb cur len then more else parsed calls r

-- A new request is what alloc_req gives, with `fd`.
pub get_request : Bool → (ℕ → Req) → ℕ → Memory → ℕ → Option Req → Parsed
unfolding request_loop round after_keyword after_key
get_request replies alloc_req fd str len r =
    request_loop (len + 2) replies (alloc_req fd) str len 0 r []
