-- ===== src/Command/Send/Bulk.antt =====
-- command.c, master_SendBulkValue: the bulk string that it sends, and where it writes.
use nohost_server.Base.{
  ℕ, suc, ◌+◌, ◌≤◌, ◌≡◌, refl, ap, sym, ◌∙◌, true, List, [], ◌∷◌, ◌++◌, some, take, length, Memory,
  blit, view, view-blit, view-blit_end, view-add, view-agree, blit_below, append_assoc, arith,
  store,
}
use mathlib.Core.Path.{ap₂}
use nohost_server.Base.Int.{print_nat}
use nohost_server.Client.{Client, client_write_bulk}
use nohost_server.Client.Output.{pending, pending-client_write_bulk}
use nohost_server.Command.Send.{then_write, written, extent, bulk_writes, master_send_bulk_value}

abbrev line_end : List ℕ
line_end = 13 ∷ 10 ∷ []

abbrev first_line : List ℕ
first_line = b'$' ∷ print_nat 8192 ++ line_end

-- A run of bytes that a later write leaves.
pub view-later :
    (m : Memory) (p n q : ℕ) (bs : List ℕ) → p + n ≤ q → view (blit m q bs) p n ≡ view m p n
view-later m p n q bs le =
    view-agree (blit m q bs) m p n (λ r a c. blit_below m q bs r (omega arith))

blit-append :
    (m : Memory) (p : ℕ) (xs ys : List ℕ)
    → blit m p (xs ++ ys) ≡ blit (blit m (p + length xs) ys) p xs
unfolding blit
blit-append m p [] ys = let start : p + 0 ≡ p = omega arith in rw start refl
blit-append m p (x ∷ xs) ys =
    let next_place : suc p + length xs ≡ p + suc (length xs) = omega arith in
    ap (λ b. store b p x)
      (blit-append m (suc p) xs ys ∙ ap (λ q. blit (blit m q ys) (suc p) xs) next_place)

-- The first bytes of a write.
pub view-prefix :
    (m : Memory) (p : ℕ) (xs ys : List ℕ) → view (blit m p (xs ++ ys)) p (length xs) ≡ xs
view-prefix m p xs ys =
    ap (λ b. view b p (length xs)) (blit-append m p xs ys)
    ∙ view-blit (blit m (p + length xs) ys) p xs

-- The bytes of a bulk string of 8192.
abbrev pub bulk : List ℕ → List ℕ
bulk value = (first_line ++ value) ++ line_end

header-bulk :
    (header : Memory) (value : List ℕ)
    → length value ≡ 8192
    → view (written header (bulk_writes value)) 0 8201 ≡ bulk value
unfolding bulk_writes print_nat
header-bulk header value size =
    let one = blit header 0 (first_line ++ 0 ∷ []) in
    let two = blit one 7 value in
    let all = blit two 8199 (13 ∷ (10 ∷ (0 ∷ []))) in
    let line = view-prefix header 0 first_line (0 ∷ []) in
    let value_there : view two 0 8199 ≡ first_line ++ value =
      rw size at (view-blit_end one 0 7 7 value refl) ∙ ap (λ t. t ++ value) line in
    view-add all 0 8199 2 8199 refl
    ∙ ap₂ ◌++◌ (view-later two 0 8199 8199 (13 ∷ (10 ∷ (0 ∷ []))) (omega arith) ∙ value_there)
        (view-prefix two 8199 (13 ∷ (10 ∷ [])) (0 ∷ []))

bulk-parts : (value : List ℕ) → bulk value ≡ b'$' ∷ print_nat 8192 ++ line_end ++ value ++ line_end
bulk-parts value = simp append_assoc

bulk_writes-extent : (value : List ℕ) → length value ≡ 8192 → extent (bulk_writes value) ≡ 8202
unfolding bulk_writes print_nat
bulk_writes-extent value size = rw size refl

-- For a value of 8192 bytes, whatever the array held: if write takes `n` bytes, master_SendBulkValue
-- returns 0 and the client has got the first `n` of the bytes that client_write_bulk of client.cc
-- puts at the end of the output for the same value; and the function writes 8202 bytes to its array
-- of 8201.
pub master_send_bulk_value-sends :
    (n : ℕ) (header : Memory) (value : List ℕ) (c : Client)
    → length value ≡ 8192
    → ((master_send_bulk_value (some n) header value).ok ≡ true)
      × ((master_send_bulk_value (some n) header value).sent ≡ take n (bulk value))
      × (pending (client_write_bulk c value 8192) ≡ pending c ++ bulk value)
      × (extent (bulk_writes value) ≡ 8202)
unfolding master_send_bulk_value then_write
master_send_bulk_value-sends n header value c size = (
  refl,
  ap (take n) (header-bulk header value size),
  rw size at (pending-client_write_bulk c value)
      ∙ ap (λ t. pending c ++ t) (sym (bulk-parts value)),
  bulk_writes-extent value size,
)
