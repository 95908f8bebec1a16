-- ===== src/Client/Output.antt =====
-- What the writing functions put at the end of the output, and what a flush sends of it.
use nohost_server.Base.{
  ℕ, ◌≡◌, refl, ap, ◌∙◌, List, [], ◌∷◌, ◌++◌, append_assoc, arith, length, take, codes, blit, view,
  view-blit_end,
}
use nohost_server.Base.Int.{ℤ, print_int, print_nat}
use nohost_server.Client.{
  Client, Error, text, line_end, write_header, client_write, client_write_byte, client_write_bulk,
  client_write_multibulk, client_write_int, client_write_error, up_to_nul,
}

-- The bytes that wait to be sent.
abbrev pub pending : Client → List ℕ
pending c = view c.output 0 c.output_len

take-length {ℓ} : {A : Type ℓ} (xs : List A) → take (length xs) xs ≡ xs
take-length [] = refl
take-length (x ∷ xs) = ap (◌∷◌ x) (take-length xs)

pub pending-client_write :
    (c : Client) (bytes : List ℕ)
    → pending (client_write c bytes (length bytes)) ≡ pending c ++ bytes
unfolding client_write
pending-client_write c bytes =
    rw take-length (view-blit_end c.output 0 c.output_len c.output_len bytes (omega arith))

pub pending-client_write_byte :
    (c : Client) (b : ℕ) → pending (client_write_byte c b) ≡ pending c ++ b ∷ []
unfolding client_write_byte blit
pending-client_write_byte c b =
    view-blit_end c.output 0 c.output_len c.output_len (b ∷ []) (omega arith)

pending-write_header :
    (c : Client) (first : ℕ) (digits : List ℕ)
    → pending (write_header c first digits) ≡ pending c ++ (first ∷ digits ++ line_end)
unfolding write_header
pending-write_header c first digits = pending-client_write c (first ∷ digits ++ line_end)

-- client_write_bulk of all of a block appends a bulk string of the protocol: `$`, the length in
-- decimal, a line end, the block, a line end.
pub pending-client_write_bulk :
    (c : Client) (bytes : List ℕ)
    → pending (client_write_bulk c bytes (length bytes))
      ≡ pending c ++ (b'$' ∷ print_nat (length bytes) ++ line_end ++ bytes ++ line_end)
unfolding client_write_bulk
pending-client_write_bulk c bytes =
    simp (pending-client_write_byte, pending-client_write, append_assoc)

-- client_write_multibulk appends the header of an array, client_write_int an integer reply.
pub pending-client_write_number :
    (c : Client) (n : ℤ)
    → (pending (client_write_multibulk c n) ≡ pending c ++ (b'*' ∷ print_int n ++ line_end))
      × (pending (client_write_int c n) ≡ pending c ++ (b':' ∷ print_int n ++ line_end))
unfolding client_write_multibulk client_write_int
pending-client_write_number c n =
    (pending-write_header c b'*' (print_int n), pending-write_header c b':' (print_int n))

-- client_write_error appends an error line with the text of the error before its first NUL.
pub pending-client_write_error :
    (c : Client) (e : Error)
    → pending (client_write_error c e)
      ≡ pending c ++ (codes "-ERR " ++ up_to_nul (text e) ++ line_end)
unfolding client_write_error
pending-client_write_error c e =
    let prefix = pending-client_write c (codes "-ERR ") in
    let c1 = client_write c (codes "-ERR ") 5 in
    simp (pending-client_write_byte, pending-client_write, prefix, append_assoc)

-- What a write to the output leaves of a connection: the input, the mark of output that is to be sent, and the
-- descriptor.
pub record Undisturbed (c after : Client) : Type 0 where
  pub buf : after.buf ≡ c.buf
  pub buf_len : after.buf_len ≡ c.buf_len
  pub buf_idx : after.buf_idx ≡ c.buf_idx
  pub marked : after.output_valid ≡ c.output_valid
  pub fd : after.fd ≡ c.fd

pub Undisturbed-trans : (c d e : Client) → Undisturbed c d → Undisturbed d e → Undisturbed c e
Undisturbed-trans c d e k m = record {
  buf = m.buf ∙ k.buf;
  buf_len = m.buf_len ∙ k.buf_len;
  buf_idx = m.buf_idx ∙ k.buf_idx;
  marked = m.marked ∙ k.marked;
  fd = m.fd ∙ k.fd;
}

pub write-Undisturbed :
    (c : Client) (bytes : List ℕ) (n : ℕ) → Undisturbed c (client_write c bytes n)
unfolding client_write
write-Undisturbed c bytes n = record {
  buf = refl;
  buf_len = refl;
  buf_idx = refl;
  marked = refl;
  fd = refl;
}

pub bulk-Undisturbed :
    (c : Client) (bytes : List ℕ) (n : ℕ) → Undisturbed c (client_write_bulk c bytes n)
unfolding client_write_bulk write_header client_write client_write_byte
bulk-Undisturbed c bytes n = record {
  buf = refl;
  buf_len = refl;
  buf_idx = refl;
  marked = refl;
  fd = refl;
}
