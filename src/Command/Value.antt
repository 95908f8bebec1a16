-- ===== src/Command/Value.antt =====
-- GetRequest on a packet that lies inside the value of a write.
use nohost_server.Base.{
  ℕ, suc, ◌+◌, ◌-◌, ◌^◌, ◌<◌, ◌≡◌, refl, Bool, true, false, [], ◌∷◌, some, arith, ltb, leb, ◌==◌,
  if◌then◌else◌, ==-ne, lt→ltb, ltb-false, Memory, blit, view, ◌++◌, add32, add64, sub32,
}
use nohost_server.Command.{
  Req, not_yet, allocated, wrote_ok, parsed, line_close, get_part, ended, get_value, after_key,
  after_keyword, stage, after_stage, round, request_loop, get_request,
}

-- A write whose key is read and whose value is being read.
abbrev pub half_read : Req → Req
half_read r = record r {
  keyword_info = record (r.keyword_info) { valid = 1 };
  type_info = record (r.type_info) { valid = 2 };
  key_info = record (r.key_info) { valid = 2 };
  value_info = record (r.value_info) { valid = 1 };
  kind = 1;
}

-- A stage that takes all of the packet waits.
get_value-waits :
    (str : Memory) (len : ℕ) (r : Req)
    → 0 < len
    → len < sub32 r.value_info.len r.value_info.offset
    → sub32 r.value_info.len r.value_info.offset < 2 ^ 31
    → (r' : Req) × (get_value str len 0 r ≡ not_yet r')
      × (r'.key ≡ r.key)
      × (r'.value_info.offset ≡ add32 r.value_info.offset len)
unfolding get_value get_part line_close ended
get_value-waits str len r some_bytes more small =
    let left = sub32 r.value_info.len r.value_info.offset in
    let all : ltb left (len - 0) ≡ false = ltb-false left (len - 0) (omega arith) in
    let size : len - 0 ≡ len = omega arith in
    let positive : leb (2 ^ 31) left ≡ false = ground arith in
    let at_end : (0 + len == len) ≡ true = ground arith in
    let r' = record r {
      value_info = record (r.value_info) { offset = add32 r.value_info.offset len };
      value = blit r.value (r.value_info.offset) (view str 0 len);
    } in
    (r', rw (==-ne left 0 (omega arith), positive, all, size, at_end) refl, refl, refl)

-- GetRequest (`replies`) and master_GetRequest (not), with a write whose value is being read and a packet of some bytes
-- that does not reach the value's end: GetRequest writes `+OK` once more, both allocate a block once
-- more, and they return the request with the packet's bytes counted and with the key raised by one.
pub get_request-raises :
    (replies : Bool) (alloc_req : ℕ → Req) (fd : ℕ) (str : Memory) (len : ℕ) (r : Req)
    → 0 < len
    → len < sub32 r.value_info.len r.value_info.offset
    → sub32 r.value_info.len r.value_info.offset < 2 ^ 31
    → (q q' : Req) × (get_request replies alloc_req fd str len (some (half_read r))
        ≡ parsed ((if replies then wrote_ok r.fd ∷ [] else []) ++ allocated q ∷ []) (some q'))
      × (q.key ≡ add64 r.key 1)
      × (q'.key ≡ add64 r.key 1)
      × (q'.value_info.offset ≡ add32 r.value_info.offset len)
unfolding get_request request_loop round after_keyword after_key stage after_stage
get_request-raises true alloc_req fd str len r some_bytes more small =
    let q = record (half_read r) { key = add64 r.key 1 } in
    let (q', waits, key, offset) = get_value-waits str len q some_bytes more small in
    let fuel : len + 2 ≡ suc (len + 1) = omega arith in
    (q, q', rw (fuel, lt→ltb 0 len some_bytes, waits) refl, refl, key, offset)
get_request-raises false alloc_req fd str len r some_bytes more small =
    let q = record (half_read r) { key = add64 r.key 1 } in
    let (q', waits, key, offset) = get_value-waits str len q some_bytes more small in
    let fuel : len + 2 ≡ suc (len + 1) = omega arith in
    (q, q', rw (fuel, lt→ltb 0 len some_bytes, waits) refl, refl, key, offset)
