-- ===== src/Command/Send/Fields.antt =====
-- command.c, udp_SendOkCommand and udp_SendBulkValue: the fields of the datagrams that they send.
use nohost_server.Base.{
  ℕ, ◌<◌, ◌≡◌, refl, ap, sym, ◌∙◌, true, List, [], ◌∷◌, ◌++◌, length, length-append, Memory, blit,
  view, view-blit_end, arith, append-nil, append_assoc,
}
use nohost_server.Base.Int.{pos, atoi}
use nohost_server.Base.Int.Padded.{padded, length-padded, atoi-padded}
use nohost_server.Command.Send.{
  send_datagram, extent, ok_writes, udp_send_ok_command, udp_bulk_writes, udp_send_bulk_value,
}
use nohost_server.Command.Send.Bulk.{view-prefix}

abbrev pub fields : ℕ → ℕ → List ℕ
fields target_fd kind = padded 4 target_fd ++ padded 2 kind

length-fields :
    (target_fd kind : ℕ) → target_fd < 10000 → kind < 100 → length (fields target_fd kind) ≡ 6
length-fields target_fd kind small few =
    let a = length-padded 3 target_fd (omega arith) in
    let b = length-padded 1 kind (omega arith) in
    let both = length-append (padded 4 target_fd) (padded 2 kind) in omega (arith, a, b, both)

-- The start of an array of that many bytes.
view-start :
    (m : Memory) (n : ℕ) (xs ys : List ℕ) → length xs ≡ n → view (blit m 0 (xs ++ ys)) 0 n ≡ xs
view-start m n xs ys e = ap (view (blit m 0 (xs ++ ys)) 0) (sym e) ∙ view-prefix m 0 xs ys

-- What a client gets in a datagram: two fields of four and of two bytes that atoi reads as the
-- numbers, and what is behind them.
pub record Fields (target_fd kind : ℕ) (rest : List ℕ) (sent : List ℕ) : Type 0 where
  pub target_text : List ℕ
  pub kind_text : List ℕ
  pub whole : sent ≡ (target_text ++ kind_text) ++ rest
  pub four : length target_text ≡ 4
  pub two : length kind_text ≡ 2
  pub target_read : atoi target_text ≡ pos target_fd
  pub kind_read : atoi kind_text ≡ pos kind

as_Fields :
    (target_fd kind : ℕ) (rest sent : List ℕ)
    → target_fd < 10000
    → kind < 100
    → sent ≡ fields target_fd kind ++ rest
    → Fields target_fd kind rest sent
as_Fields target_fd kind rest sent small few e = record {
  target_text = padded 4 target_fd;
  kind_text = padded 2 kind;
  whole = e;
  four = length-padded 3 target_fd (omega arith);
  two = length-padded 1 kind (omega arith);
  target_read = atoi-padded 4 target_fd;
  kind_read = atoi-padded 2 kind;
}

ok-whole :
    (buf : Memory) (target_fd kind : ℕ)
    → target_fd < 10000
    → kind < 100
    → (udp_send_ok_command true buf target_fd kind).sent ≡ fields target_fd kind
unfolding udp_send_ok_command send_datagram ok_writes
ok-whole buf target_fd kind small few =
    view-start buf 6 (fields target_fd kind) (0 ∷ []) (length-fields target_fd kind small few)

ok_writes-extent :
    (target_fd kind : ℕ) → target_fd < 10000 → kind < 100 → extent (ok_writes target_fd kind) ≡ 7
unfolding ok_writes
ok_writes-extent target_fd kind small few =
    let size : length (fields target_fd kind ++ 0 ∷ []) ≡ 7 =
      let six = length-fields target_fd kind small few in
      let both = length-append (fields target_fd kind) (0 ∷ []) in omega (arith, six, both) in
    rw size refl

bulk-whole :
    (header : Memory) (target_fd kind : ℕ) (value : List ℕ)
    → target_fd < 10000
    → kind < 100
    → length value ≡ 8192
    → (udp_send_bulk_value true header target_fd kind value).sent
      ≡ (fields target_fd kind ++ padded 4 8192) ++ value
unfolding udp_send_bulk_value send_datagram udp_bulk_writes
bulk-whole header target_fd kind value small few size =
    let text = fields target_fd kind ++ padded 4 8192 in
    let one = blit header 0 (text ++ 0 ∷ []) in
    let two = blit one 0 (text ++ 0 ∷ []) in
    let ten : length text ≡ 10 =
      let a = length-fields target_fd kind small few in
      let b = length-padded 3 8192 (omega arith) in
      let both = length-append (fields target_fd kind) (padded 4 8192) in
      omega (arith, a, b, both) in
    rw size at (view-blit_end two 0 10 10 value refl)
    ∙ ap (λ t. t ++ value) (view-start one 10 text (0 ∷ []) ten)

-- For a target below 10000, a kind below 100 and a value of 8192 bytes, whatever the arrays held, if
-- sendto takes the datagrams: udp_SendOkCommand sends the target in four bytes and the kind in two,
-- from which atoi reads both, and nothing else; udp_SendBulkValue sends the same, the length 8192 in
-- four bytes, and the value. udp_SendOkCommand writes seven bytes to its array of six.
pub udp_send-Fields :
    (buf header : Memory) (target_fd kind : ℕ) (value : List ℕ)
    → target_fd < 10000
    → kind < 100
    → length value ≡ 8192
    → Fields target_fd kind [] (udp_send_ok_command true buf target_fd kind).sent
      × Fields target_fd kind
          (padded 4 8192 ++ value)
          (udp_send_bulk_value true header target_fd kind value).sent
      × (extent (ok_writes target_fd kind) ≡ 7)
udp_send-Fields buf header target_fd kind value small few size = (
  as_Fields target_fd kind [] _ small few
      (ok-whole buf target_fd kind small few ∙ sym (append-nil (fields target_fd kind))),
  as_Fields target_fd kind (padded 4 8192 ++ value) _ small few (
      bulk-whole header target_fd kind value small few size
      ∙ append_assoc (fields target_fd kind) (padded 4 8192) value),
  ok_writes-extent target_fd kind small few,
)
