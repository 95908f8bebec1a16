-- ===== src/Command/Stages.antt =====
-- command.c: where the position in the packet goes in each stage of the parser.
use nohost_server.Base.{
  ℕ, zero, suc, ◌+◌, ◌-◌, ◌^◌, ◌<◌, ◌≤◌, ◌≡◌, refl, Bool, true, false, ◌&&◌, Option, none, some,
  arith, ltb, leb, ◌==◌, if◌then◌else◌, Memory, blit, view, Bool-cases, inl, inr, sub32,
}
use nohost_server.Command.{
  Info, Req, Stage, next, not_yet, fault, length_loop, get_length, line_close, ended, get_part,
  get_type, type_of, key_loop, get_key, get_value, in_part, length_of,
}

-- A stage that goes on has taken a byte.
pub data Moves {A : Type 0} (cur : ℕ) : Stage A → Type 0 where
  ahead : (c : ℕ) (a : A) → cur < c → Moves cur (next c a)
  waits : (a : A) → Moves cur (not_yet a)
  faults : Moves cur fault

Moves-if :
    {A : Type 0} (b : Bool) (cur : ℕ) (x y : Stage A)
    → Moves cur x
    → Moves cur y
    → Moves cur (if b then x else y)
Moves-if true cur x y hx hy = hx
Moves-if false cur x y hx hy = hy

length_loop-le : (n : ℕ) (str : Memory) (cur added : ℕ) → cur ≤ (length_loop n str cur added).0
unfolding length_loop
length_loop-le zero str cur added = omega arith
length_loop-le (suc n) str cur added = elim (Bool-cases (str cur == 13)) [
  | inl e ↦ rw e (omega arith)
  | inr e ↦ rw e (omega (arith, length_loop-le n str (cur + 1) _))
]

get_length-Moves :
    (str : Memory) (cmp len cur : ℕ) (p : Info) → Moves cur (get_length str cmp len cur p)
unfolding get_length
get_length-Moves str cmp len cur p =
    let start = if str cur == cmp then cur + 1 else cur in
    let from : cur ≤ start = ground arith in
    let run = length_loop (len - start) str start 0 in
    let to : start ≤ run.0 = length_loop-le (len - start) str start 0 in
    Moves-if (cur == len) cur _ _ (waits _) (
      Moves-if (str cur == 10) cur _ _ (ahead _ _ (omega arith)) (
        Moves-if (start == len) cur _ _ (waits _) (
          Moves-if (ltb run.0 len && str run.0 == 10) cur _ _ (ahead _ _ (omega arith)) (waits _))))

in_part-Moves :
    (put : Info → Req) (cur : ℕ) (s : Stage Info) → Moves cur s → Moves cur (in_part put s)
unfolding in_part
in_part-Moves put cur s (ahead c a h) = ahead c (put a) h
in_part-Moves put cur s (waits a) = waits (put a)
in_part-Moves put cur s faults = faults

pub length_of-Moves :
    (str : Memory) (cmp len cur : ℕ) (p : Info) (put : Info → Req)
    → Moves cur (length_of str cmp len cur p put)
unfolding length_of
length_of-Moves str cmp len cur p put = in_part-Moves put cur _ (get_length-Moves str cmp len cur p)

line_close-lt : (str : Memory) (len cur c : ℕ) → line_close str len cur ≡ some c → cur < c
unfolding line_close
line_close-lt str len cur c e = ground arith

ended-Moves :
    (q closed : Req) (cur : ℕ) (o : Option ℕ)
    → ((c : ℕ) → o ≡ some c → cur < c)
    → Moves cur (ended q closed o)
unfolding ended
ended-Moves q closed cur none h = waits q
ended-Moves q closed cur (some c) h = ahead c closed (h c refl)

get_part-Moves :
    (str : Memory) (len cur : ℕ) (p : Info) (r : Req) (take_bytes : Req → Info → ℕ → ℕ → Req)
    (close : Req → Info → Req)
    → Moves cur (get_part str len cur p r take_bytes close)
unfolding get_part
get_part-Moves str len cur p r take_bytes close =
    Moves-if (sub32 p.len p.offset == 0) cur _ _ (ended-Moves _ _ cur _ (line_close-lt str len cur))
      (Moves-if (leb (2 ^ 31) (sub32 p.len p.offset)) cur _ _ faults
        (ended-Moves _ _ cur _ (λ c e. omega (arith, line_close-lt str len _ c e))))

pub get_type-Moves : (str : Memory) (len cur : ℕ) (r : Req) → Moves cur (get_type str len cur r)
unfolding get_type
get_type-Moves str len cur r =
    get_part-Moves str len cur r.type_info r
      (λ q p c n. record q {
        type_info = p;
        type_str = blit q.type_str (q.type_info.offset) (view str c n);
      })
      (λ q p. record q { type_info = p; kind = type_of q.type_str q.kind })

pub get_key-Moves : (str : Memory) (len cur : ℕ) (r : Req) → Moves cur (get_key str len cur r)
unfolding get_key
get_key-Moves str len cur r =
    get_part-Moves str len cur r.key_info r
      (λ q p c n. record q { key_info = p; key = key_loop n str c q.key })
      (λ q p. record q { key_info = p })

pub get_value-Moves : (str : Memory) (len cur : ℕ) (r : Req) → Moves cur (get_value str len cur r)
unfolding get_value
get_value-Moves str len cur r =
    get_part-Moves str len cur r.value_info r
      (λ q p c n. record q {
        value_info = p;
        value = blit q.value (q.value_info.offset) (view str c n);
      })
      (λ q p. record q { value_info = p })
