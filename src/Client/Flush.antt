-- ===== src/Client/Flush.antt =====
-- client_flush_offset: what reaches the socket.
use nohost_server.Base.{
  Bool-cases, if◌then◌else◌, inl, inr, ltb, ℕ, ◌+◌, ◌-◌, ◌^◌, ◌≤◌, ◌<◌, ◌≡◌, refl, List, [], ◌∷◌,
  ◌++◌, append_assoc, append-nil, arith, view, view-add, Memory, lt→ltb, ltb-false, add32, add64,
}
use nohost_server.Client.{
  Client, Answer, wrote, would_block, failed, returned, flush_loop, client_flush_offset,
}

-- Answers that take what is left of `size` bytes, in parts.
abbrev pub Takes : List Answer → ℕ → Type 0
Takes [] size = size ≡ 0
Takes (wrote n ∷ rest) size = (1 ≤ n) × (n ≤ size) × Takes rest (size - n)
Takes (would_block ∷ rest) size = ⊥
Takes (failed ∷ rest) size = ⊥

flush_loop-Takes :
    (answers : List Answer) (output : Memory) (len offset sent size : ℕ) (wire : List ℕ)
    → sent ≤ size
    → size < 2 ^ 31
    → offset + (size - sent) < 2 ^ 31
    → Takes answers (size - sent)
    → flush_loop answers output len offset sent size wire
      ≡ returned (wire ++ view output offset (size - sent))
unfolding flush_loop view
flush_loop-Takes [] output len offset sent size wire le small fits t =
    rw (ltb-false sent size (omega arith), t, append-nil) refl
flush_loop-Takes (wrote n ∷ rest) output len offset sent size wire le small fits t =
    let next = add32 offset n in
    let moved : next ≡ offset + n = omega arith in
    let counted : add64 sent n ≡ sent + n = omega arith in
    let left : size - (sent + n) ≡ size - sent - n = omega arith in
    let whole : n + (size - sent - n) ≡ size - sent = omega arith in
    let ih =
      flush_loop-Takes rest output len (offset + n) (sent + n) size (wire ++ view output offset n)
        (omega arith) small (omega arith) (rw left (t.2)) in
    let split = rw whole at (view-add output offset n (size - sent - n) (offset + n) refl) in
    rw (lt→ltb sent size (omega arith), moved, counted, ih, left, split, append_assoc) refl
flush_loop-Takes (would_block ∷ rest) output len offset sent size wire le small fits t = absurd t
flush_loop-Takes (failed ∷ rest) output len offset sent size wire le small fits t = absurd t

flush_cases :
    (answers : List Answer) (c : Client) (offset : ℕ)
    → offset ≤ c.output_len
    → c.output_len < 2 ^ 31
    → Takes answers (c.output_len - offset)
    → (c.output_len ≡ offset → client_flush_offset answers c offset ≡ (c, returned []))
      × (offset < c.output_len
          → client_flush_offset answers c offset ≡ (
            record c { output_len = 0 },
            returned (view c.output offset (c.output_len - offset)),
          ))
unfolding client_flush_offset
flush_cases answers c offset le small t = (
  λ e. ground arith,
  λ lt.
      let size = c.output_len - offset in
      let whole : size - 0 ≡ size = omega arith in
      let run =
        flush_loop-Takes answers c.output c.output_len offset 0 size [] (omega arith) (omega arith)
          (omega arith) (rw whole t) in
      ground (arith, rw whole at run),
)

-- If the system takes what is written in one part or more, client_flush_offset sends the output
-- from `offset` on, all of it and in order, returns, and empties the output, unless there was
-- nothing to send.
pub client_flush_offset-sends :
    (answers : List Answer) (c : Client) (offset : ℕ)
    → offset ≤ c.output_len
    → c.output_len < 2 ^ 31
    → Takes answers (c.output_len - offset)
    → client_flush_offset answers c offset ≡ (
      record c { output_len = if ltb offset c.output_len then 0 else c.output_len },
      returned (view c.output offset (c.output_len - offset)),
    )
unfolding view
client_flush_offset-sends answers c offset le small t =
    let (done, sent) = flush_cases answers c offset le small t in
    elim (Bool-cases (ltb offset c.output_len)) [
      | inl lt ↦ rw lt (sent (ground arith))
      | inr ge ↦
          let e : c.output_len ≡ offset = ground arith in
          let nothing : c.output_len - offset ≡ 0 = omega arith in rw (ge, nothing) (done e)
    ]

flush_loop-done :
    (answers : List Answer) (output : Memory) (len offset sent size : ℕ) (wire : List ℕ)
    → size ≤ sent
    → flush_loop answers output len offset sent size wire ≡ returned wire
unfolding flush_loop
flush_loop-done [] output len offset sent size wire h = rw (ltb-false sent size h)
flush_loop-done (wrote n ∷ rest) output len offset sent size wire h = rw (ltb-false sent size h)
flush_loop-done (would_block ∷ rest) output len offset sent size wire h = rw (ltb-false sent size h)
flush_loop-done (failed ∷ rest) output len offset sent size wire h = rw (ltb-false sent size h)

-- If the first answer is EWOULDBLOCK, the -1 makes the unsigned count of sent bytes larger than any
-- size: client_flush_offset returns with nothing sent, and the output is emptied all the same.
pub client_flush_offset-drops :
    (rest : List Answer) (c : Client) (offset : ℕ)
    → offset < c.output_len
    → c.output_len < 2 ^ 31
    → client_flush_offset (would_block ∷ rest) c offset ≡ (record c { output_len = 0 }, returned [])
unfolding client_flush_offset
client_flush_offset-drops rest c offset lt small =
    let size = c.output_len - offset in
    let done =
      flush_loop-done rest c.output c.output_len (add32 offset (2 ^ 32 - 1)) (add64 0 (2 ^ 64 - 1))
        size [] (omega arith) in
    let loop : flush_loop (would_block ∷ rest) c.output c.output_len offset 0 size []
        ≡ returned [] =
      rw (flush_loop, lt→ltb 0 size (omega arith), done) refl in
    ground (arith, loop)

-- If EWOULDBLOCK comes after `n` bytes were taken, the -1 moves the offset back: the last of these
-- bytes is sent once more before the rest.
pub client_flush_offset-repeats :
    (c : Client) (offset n : ℕ)
    → c.output_len < 2 ^ 31
    → 1 ≤ n
    → offset + n < c.output_len
    → client_flush_offset
        (wrote n ∷ would_block ∷ wrote (c.output_len - offset - n + 1) ∷ [])
        c
        offset
      ≡ (
        record c { output_len = 0 },
        returned (
            view c.output offset n
            ++ view c.output (offset + n - 1) (c.output_len - offset - n + 1)),
      )
unfolding client_flush_offset
client_flush_offset-repeats c offset n small pos lt =
    let size = c.output_len - offset in
    let back : add32 (add32 offset n) (2 ^ 32 - 1) ≡ offset + n - 1 = omega arith in
    let count : add64 (add64 0 n) (2 ^ 64 - 1) ≡ n - 1 = omega arith in
    let last : add64 (n - 1) (size - n + 1) ≡ size = omega arith in
    let loop : flush_loop (wrote n ∷ would_block ∷ wrote (size - n + 1) ∷ []) c.output c.output_len
          offset 0 size []
        ≡ returned (view c.output offset n ++ view c.output (offset + n - 1) (size - n + 1)) =
      rw
        (
          flush_loop,
          lt→ltb 0 size (omega arith),
          lt→ltb (add64 0 n) size (omega arith),
          back,
          count,
          lt→ltb (n - 1) size (omega arith),
          last,
          ltb-false size size (omega arith),
        )
        refl in
    ground (arith, loop)
