-- ===== src/Command/Progress.antt =====
-- command.c, GetRequest and master_GetRequest: the end of their loop.
use nohost_server.Base.{
  ℕ, zero, suc, ◌+◌, ◌<◌, ◌≤◌, ◌≡◌, ◌≢◌, Bool, true, false, List, [], Option, none, some, arith,
  ltb, if◌then◌else◌, Memory, Bool-cases, inl, inr, slt32,
}
use nohost_server.Command.{
  Req, Stage, Call, Parsed, parsed, broken, out_of_fuel, stage, after_stage, after_key,
  after_keyword, round, request_loop, get_request,
}
use nohost_server.Command.Stages.{
  Moves, ahead, waits, faults, length_of-Moves, get_type-Moves, get_key-Moves, get_value-Moves,
}

-- The parser is left with a result or by a fault.
data Leaves : Parsed → Type 0 where
  by_result : (calls : List Call) (r : Option Req) → Leaves (parsed calls r)
  by_fault : (calls : List Call) → Leaves (broken calls)

Leaves-if : (b : Bool) {x y : Parsed} → Leaves x → Leaves y → Leaves (if b then x else y)
Leaves-if true hx hy = hx
Leaves-if false hx hy = hy

stage-Leaves :
    (test : Bool) (result : Stage Req) (cur : ℕ) (r : Req) (calls : List Call)
    (rest : ℕ → Req → Parsed)
    → Moves cur result
    → ((c : ℕ) (q : Req) → cur ≤ c → Leaves (rest c q))
    → Leaves (stage test result cur r calls rest)
unfolding stage after_stage
stage-Leaves true result cur r calls rest (ahead c q lt) h = h c q (omega arith)
stage-Leaves true result cur r calls rest (waits q) h = by_result calls (some q)
stage-Leaves true result cur r calls rest faults h = by_fault calls
stage-Leaves false result cur r calls rest m h = h cur r (omega arith)

after_key-Leaves :
    (again : ℕ → List Call → Parsed) (str : Memory) (len cur : ℕ) (r : Req) (calls : List Call)
    → ((c : ℕ) (calls' : List Call) → cur ≤ c → Leaves (again c calls'))
    → Leaves (after_key again str len cur r calls)
unfolding after_key
after_key-Leaves again str len cur r calls h = Leaves-if (slt32 1 r.kind) (h cur _ (omega arith)) (
    stage-Leaves _ _ cur _ _ _ (length_of-Moves str b'$' len cur _ _) (λ c1 q1 le1.
      stage-Leaves _ _ c1 q1 _ _ (get_value-Moves str len c1 q1)
        (λ c2 q2 le2. h c2 _ (omega arith))))

after_keyword-Leaves :
    (replies : Bool) (again : ℕ → List Call → Parsed) (str : Memory) (len cur : ℕ) (r : Req)
    (calls : List Call)
    → ((c : ℕ) (calls' : List Call) → cur ≤ c → Leaves (again c calls'))
    → Leaves (after_keyword replies again str len cur r calls)
unfolding after_keyword
after_keyword-Leaves replies again str len cur r calls h =
    stage-Leaves _ _ cur r calls _ (length_of-Moves str b'$' len cur _ _) (λ c2 r2 le2.
      stage-Leaves _ _ c2 r2 calls _ (get_type-Moves str len c2 r2) (λ c3 r3 le3.
        stage-Leaves _ _ c3 r3 _ _ (length_of-Moves str b'$' len c3 _ _) (λ c4 r4 le4.
          stage-Leaves _ _ c4 r4 _ _ (get_key-Moves str len c4 r4) (λ c5 r5 le5.
            after_key-Leaves again str len c5 r5 _ (λ c cs le. h c cs (omega arith))))))

-- The body, with a request under way; with a new one it takes a byte.
round-Leaves :
    (replies : Bool) (again : ℕ → List Call → Parsed) (str : Memory) (len cur : ℕ) (r : Req)
    (calls : List Call)
    → ((c : ℕ) (calls' : List Call) → cur ≤ c → Leaves (again c calls'))
    → Leaves (round replies again str len cur r calls)
unfolding round
round-Leaves replies again str len cur r calls h =
    stage-Leaves _ _ cur r calls _ (length_of-Moves str b'*' len cur _ _) (λ c1 r1 le1.
      after_keyword-Leaves replies again str len c1 r1 calls (λ c cs le. h c cs (omega arith)))

after_stage-Leaves :
    (calls : List Call) (cur : ℕ) (result : Stage Req) (rest : ℕ → Req → Parsed)
    → Moves cur result
    → ((c : ℕ) (q : Req) → cur < c → Leaves (rest c q))
    → Leaves (after_stage calls rest result)
unfolding after_stage
after_stage-Leaves calls cur result rest (ahead c q lt) h = h c q lt
after_stage-Leaves calls cur result rest (waits q) h = by_result calls (some q)
after_stage-Leaves calls cur result rest faults h = by_fault calls

round_new-Leaves :
    (replies : Bool) (again : ℕ → List Call → Parsed) (str : Memory) (len cur : ℕ) (r : Req)
    (calls : List Call)
    → r.keyword_info.valid ≡ 0
    → ((c : ℕ) (calls' : List Call) → cur < c → Leaves (again c calls'))
    → Leaves (round replies again str len cur r calls)
unfolding round stage
round_new-Leaves replies again str len cur r calls new h = rw new (
    after_stage-Leaves calls cur _ _ (length_of-Moves str b'*' len cur _ _) (λ c1 r1 lt1.
      after_keyword-Leaves replies again str len c1 r1 calls (λ c cs le. h c cs (omega arith))))

loop-Leaves :
    (f : ℕ) (replies : Bool) (fresh : Req) (str : Memory) (len cur : ℕ) (calls : List Call)
    → fresh.keyword_info.valid ≡ 0
    → len < cur + f
    → 0 < f
    → Leaves (request_loop f replies fresh str len cur none calls)
unfolding request_loop
loop-Leaves zero replies fresh str len cur calls new room some_fuel = absurd (omega arith)
loop-Leaves (suc f) replies fresh str len cur calls new room some_fuel =
    elim (Bool-cases (ltb cur len)) [
      | inr over ↦ rw over (by_result calls none)
      | inl inside ↦ rw inside (
          round_new-Leaves replies (λ c cs. request_loop f replies fresh str len c none cs) str len
            cur fresh calls new
            (λ c cs lt. loop-Leaves f replies fresh str len c cs new (omega arith) (ground arith)))
    ]

Leaves-fuel : (p : Parsed) → Leaves p → p ≢ out_of_fuel
Leaves-fuel p (by_result calls r) e = cc
Leaves-fuel p (by_fault calls) e = cc

-- GetRequest and master_GetRequest end on every packet and with every request under way, if a new
-- request's keyword is not marked as read: the fuel, two more than the packet's bytes, is enough.
pub get_request-ends :
    (replies : Bool) (alloc_req : ℕ → Req) (fd : ℕ) (str : Memory) (len : ℕ) (r : Option Req)
    → (alloc_req fd).keyword_info.valid ≡ 0
    → get_request replies alloc_req fd str len r ≢ out_of_fuel
unfolding get_request request_loop
get_request-ends replies alloc_req fd str len none new =
    Leaves-fuel _
      (loop-Leaves (len + 2) replies (alloc_req fd) str len 0 [] new (omega arith) (omega arith))
get_request-ends replies alloc_req fd str len (some q) new =
    let fuel : len + 2 ≡ suc (len + 1) = omega arith in
    rw fuel (
      Leaves-fuel _ (
        Leaves-if (ltb 0 len)
          (round-Leaves replies _ str len 0 q [] (λ c cs le.
            loop-Leaves (len + 1) replies (alloc_req fd) str len c cs new (omega arith)
              (omega arith)))
          (by_result [] (some q))))
