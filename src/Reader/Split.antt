-- ===== src/Reader/Split.antt =====
-- client_read_command on a buffer that ends inside the length line of the last bulk string.
use nohost_server.Base.{
  ℕ, zero, suc, ◌+◌, ◌-◌, ◌≡◌, refl, ap, sym, ◌∙◌, false, List, [], ◌∷◌, ◌++◌, none, arith, length,
  length-append, Memory, Holds, Holds-append, view-Holds, leb, ==-ne, append-nil, append_assoc,
}
use nohost_server.Base.Int.{ℤ, print_nat, Lacks}
use nohost_server.Client.{Client, Arg, at, client_append_arg, arg_texts}
use nohost_server.Scan.{find_byte, consume}
use nohost_server.Reader.{go_on, bulk_line, bulk_round, bulk_next, bulk_loop, client_read_command}
use nohost_server.Reader.Lines.{crlf}
use nohost_server.Reader.Stands.{arg_texts-append}
use nohost_server.Reader.RoundTrip.{encode_bulk, encode_bulks, bulk_round-encoded, array_header}

find_byte-Lacks :
    (part : List ℕ) (n : ℕ) (m : Memory) (i : ℕ)
    → length part ≡ n
    → Holds m i part
    → Lacks 10 part
    → find_byte n 10 m i ≡ none
unfolding find_byte
find_byte-Lacks [] zero m i e h l = refl
find_byte-Lacks [] (suc n) m i e h l = absurd (omega arith)
find_byte-Lacks (b ∷ part) zero m i e h l = absurd (omega arith)
find_byte-Lacks (b ∷ part) (suc n) m i e h l =
    rw (h.0, ==-ne b 10 (omega arith)) (find_byte-Lacks part n m (suc i) (omega arith) (h.1) (l.1))

-- The round on the part of a length line takes all of it and appends nothing.
bulk_round-part :
    (c : Client) (i z : ℕ) (part : List ℕ)
    → Holds c.buf i (b'$' ∷ part)
    → Lacks 10 part
    → i + 1 + length part ≡ z
    → bulk_round c false i z ≡ go_on c false z
unfolding bulk_round bulk_line
bulk_round-part c i z part h l e =
    let inside : leb z i ≡ false = ground arith in
    let e1 : i + 1 ≡ suc i = omega arith in
    let missing = find_byte-Lacks part (z - suc i) c.buf (suc i) (omega arith) (h.1) l in
    rw (inside, h.0, e1, missing) refl

record Cut (c : Client) (i z : ℕ) (args : List (List ℕ)) : Type 0 where
  found : List Arg
  cap : ℕ
  run :
      bulk_loop (suc (length args)) c false i z
      ≡ (consume (record c { args = found; args_cap = cap }) z, none)
  texts : arg_texts c.buf found ≡ arg_texts c.buf c.args ++ args

bulk_loop-Cut :
    (args : List (List ℕ)) (part : List ℕ) (c : Client) (i k z : ℕ)
    → Holds c.buf i (encode_bulks args)
    → i + length (encode_bulks args) ≡ k
    → Holds c.buf k (b'$' ∷ part)
    → Lacks 10 part
    → k + 1 + length part ≡ z
    → Cut c i z args
unfolding bulk_loop bulk_next client_append_arg arg_texts
bulk_loop-Cut [] part c i k z h at_k h' l e =
    let here : i ≡ k = omega arith in
    record {
      found = c.args;
      cap = c.args_cap;
      run = rw (here, bulk_round-part c k z part h' l e) refl;
      texts = sym (append-nil (arg_texts c.buf c.args));
    }
bulk_loop-Cut (x ∷ xs) part c i k z h at_k h' l e =
    let (first, rest) = Holds-append c.buf i (encode_bulk x) (encode_bulks xs) h in
    let sum = length-append {0} (encode_bulk x) (encode_bulks xs) in
    let (p, one, bytes, ends) = bulk_round-encoded c i z x first (omega (arith, sum, e)) in
    let text = (Holds-append c.buf p x crlf bytes).0 in
    let j = i + length (encode_bulk x) in
    let c1 = client_append_arg c (at p) (length x) in
    let more = bulk_loop-Cut xs part c1 j k z rest (omega (arith, sum)) h' l e in
    record {
      found = more.found;
      cap = more.cap;
      run = rw one (more.run);
      texts =
          more.texts
          ∙ ap (λ t. t ++ xs)
              (arg_texts-append c.buf c.args (record { pointer = at p; size = length x } ∷ [])
                ∙ ap (λ t. arg_texts c.buf c.args ++ t ∷ []) (view-Holds c.buf p x text))
          ∙ append_assoc (arg_texts c.buf c.args) (x ∷ []) xs;
    }

-- A command of one argument more than `xs`, as a client sends it, up to a point inside the length line
-- of its last argument.
abbrev pub encode_cut : List (List ℕ) → List ℕ → List ℕ
encode_cut xs part =
    b'*' ∷ (print_nat (suc (length xs)) ++ (crlf ++ (encode_bulks xs ++ b'$' ∷ part)))

-- On a buffer that holds a command up to a point inside the length line of its last argument (no byte
-- of that line there is a line feed or before it), client_read_command does not wait for the rest:
-- it returns without an error the arguments before, and leaves the buffer empty.
pub client_read_command-cut :
    (garbage : ℤ) (c : Client) (xs : List (List ℕ)) (part : List ℕ)
    → Holds c.buf c.buf_idx (encode_cut xs part)
    → Lacks 10 part
    → c.buf_len ≡ length (encode_cut xs part)
    → (args : List Arg) × (cap : ℕ) × (client_read_command garbage c
        ≡ (record c { args = args; args_cap = cap; buf_len = 0; buf_idx = 0 }, none))
      × (arg_texts c.buf args ≡ xs)
unfolding consume arg_texts
client_read_command-cut garbage c xs part h l size =
    let rest = encode_bulks xs ++ b'$' ∷ part in
    let digits = print_nat (suc (length xs)) in
    let total : length (encode_cut xs part)
        ≡ length digits + 4 + length (encode_bulks xs) + length part =
      omega (
        arith,
        length-append {0} digits (crlf ++ rest),
        length-append {0} (encode_bulks xs) (b'$' ∷ part),
      ) in
    let z = c.buf_idx + c.buf_len in
    let (start, behind) = array_header garbage c (length xs) rest h (omega (arith, total)) in
    let from = c.buf_idx + length digits + 3 in
    let (bulks, last) = Holds-append c.buf from (encode_bulks xs) (b'$' ∷ part) behind in
    let loop =
      bulk_loop-Cut xs part (record c { args = [] }) from _ z bulks refl last l
        (omega (arith, total)) in
    let none_left : c.buf_len - (z - c.buf_idx) ≡ 0 = omega arith in
    (loop.found, loop.cap, start ∙ loop.run ∙ rw none_left refl, loop.texts)
