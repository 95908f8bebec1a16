-- ===== src/Reader/RoundTrip.antt =====
-- client.cc, client_read_command, on arrays of bulk strings as clients encode them.
use nohost_server.Base.{
  ℕ, zero, suc, ◌+◌, ◌-◌, ◌≤◌, ◌<◌, ◌≡◌, refl, ◌∙◌, false, List, [], ◌∷◌, ◌++◌, none, some, arith,
  length, length-append, Holds, Holds-append, leb, ◌==◌, true, if◌then◌else◌, ltb-false, append-nil,
  append_assoc,
}
use nohost_server.Base.Int.{ℤ, pos, print_nat}
use nohost_server.Client.{Client, Arg, incomplete, at, client_append_arg, arg_texts}
use nohost_server.Scan.{find_byte, consume}
use nohost_server.Reader.{
  go_on, bulk_data, bulk_size, bulk_line, bulk_round, bulk_next, bulk_loop, read_bulks, array_size,
  array_line, client_read_command,
}
use nohost_server.Reader.Lines.{crlf, Line-split, Line-find, Line-atoi}
use nohost_server.Reader.Stands.{Stands, Standing, all_done, one_more, arg_texts-Standing}

abbrev pub encode_bulk : List ℕ → List ℕ
encode_bulk bytes = b'$' ∷ (print_nat (length bytes) ++ (crlf ++ (bytes ++ crlf)))

abbrev pub encode_bulks : List (List ℕ) → List ℕ
encode_bulks [] = []
encode_bulks (x ∷ xs) = encode_bulk x ++ encode_bulks xs

-- A command as a client sends it.
abbrev pub encode : List (List ℕ) → List ℕ
encode args = b'*' ∷ (print_nat (length args) ++ (crlf ++ encode_bulks args))

-- What stands behind the length line is taken as the data.
bulk_data-encoded :
    (c : Client) (p z n : ℕ)
    → p + n + 2 ≤ z
    → c.buf (p + n) ≡ 13
    → c.buf (p + n + 1) ≡ 10
    → bulk_data c false p z n ≡ go_on (client_append_arg c (at p) n) false (p + n + 2)
unfolding bulk_data
bulk_data-encoded c p z n room cr lf = rw (ltb-false (z - p) (n + 2) (omega arith), cr, lf) refl

bulk_size-encoded :
    (c : Client) (s i z n : ℕ)
    → (n ≡ 0 → i - s ≡ 2)
    → bulk_size c (pos n) false s i z ≡ bulk_data c false (i + 1) z n
unfolding bulk_size
bulk_size-encoded c s i z zero two = rw (two refl) refl
bulk_size-encoded c s i z (suc n) two = refl

length-print_zero : (n : ℕ) → n ≡ 0 → length (print_nat n) ≡ 1
unfolding print_nat
length-print_zero n e = rw e refl

-- One round of the loop reads one bulk string.
pub bulk_round-encoded :
    (c : Client) (i z : ℕ) (bytes : List ℕ)
    → Holds c.buf i (encode_bulk bytes)
    → i + length (encode_bulk bytes) ≤ z
    → (p : ℕ) × (bulk_round c false i z
        ≡ go_on (client_append_arg c (at p) (length bytes)) false (i + length (encode_bulk bytes)))
      × Holds c.buf p (bytes ++ crlf)
      × (p + length bytes + 2 ≡ i + length (encode_bulk bytes))
unfolding bulk_round bulk_line
bulk_round-encoded c i z bytes h room =
    let n = length bytes in
    let d = length (print_nat n) in
    let (l, behind) = Line-split c.buf (suc i) n (bytes ++ crlf) (h.1) in
    let q = suc i + d in
    let p = q + 2 in
    let end_here = (Holds-append c.buf p bytes crlf behind).1 in
    let total : length (encode_bulk bytes) ≡ d + n + 5 = omega (
      arith,
      length-append {0} (print_nat n) (crlf ++ (bytes ++ crlf)),
      length-append {0} bytes crlf,
    ) in
    let e1 : i + 1 ≡ suc i = omega arith in
    let e2 : suc q - 1 ≡ q = omega arith in
    let e3 : p + n + 1 ≡ suc (p + n) = omega arith in
    let e4 : p + n + 2 ≡ i + length (encode_bulk bytes) = omega (arith, total) in
    let inside : leb z i ≡ false = ground (arith, total) in
    let found = rw (← e1) at (Line-find l (z - (i + 1)) (omega (arith, total))) in
    let after : suc q + 1 ≡ p = omega arith in
    let sized =
      rw after at
        (bulk_size-encoded c (suc i) (suc q) z n (λ e. omega (arith, length-print_zero n e))) in
    let read =
      bulk_data-encoded c p z n (omega (arith, total)) (end_here.0) (rw e3 (end_here.1.0)) in
    (p, rw (inside, h.0, found, e1, e2, l.return, Line-atoi l, sized, read, e4) refl, behind, e4)

-- The loop, run on the encoding of `args`, appends them and stops behind it.
record Looped (c : Client) (i z : ℕ) (args : List (List ℕ)) : Type 0 where
  fresh : List Arg
  cap : ℕ
  run : bulk_loop (length args) c false i z ≡ (
    consume (record c { args = c.args ++ fresh; args_cap = cap }) (i + length (encode_bulks args)),
    none,
  )
  stand : Standing c.buf z fresh args

bulk_loop-encoded :
    (args : List (List ℕ)) (c : Client) (i z : ℕ)
    → Holds c.buf i (encode_bulks args)
    → i + length (encode_bulks args) ≤ z
    → Looped c i z args
unfolding bulk_loop bulk_next client_append_arg
bulk_loop-encoded [] c i z h room = record {
  fresh = [];
  cap = c.args_cap;
  run = let e : i + 0 ≡ i = omega arith in rw (e, append-nil c.args) refl;
  stand = all_done;
}
bulk_loop-encoded (x ∷ xs) c i z h room =
    let (first, rest) = Holds-append c.buf i (encode_bulk x) (encode_bulks xs) h in
    let sum = length-append {0} (encode_bulk x) (encode_bulks xs) in
    let (p, one, bytes, ends) = bulk_round-encoded c i z x first (omega (arith, sum)) in
    let j = i + length (encode_bulk x) in
    let c1 = client_append_arg c (at p) (length x) in
    let more = bulk_loop-encoded xs c1 j z rest (omega (arith, sum)) in
    let e : j + length (encode_bulks xs) ≡ i + length (encode_bulks (x ∷ xs)) =
      omega (arith, sum) in
    let a : Arg = record { pointer = at p; size = length x } in
    let standing : Stands c.buf z a x = record {
      place = p;
      is = refl;
      bytes = bytes;
      fits = omega (arith, sum, ends);
    } in
    record {
      fresh = a ∷ more.fresh;
      cap = more.cap;
      run = rw one (more.run ∙ rw (e, append_assoc c.args (a ∷ []) more.fresh) refl);
      stand = one_more standing more.stand;
    }

-- The length line of an array of one element or more leads to the loop over them.
pub array_header :
    (garbage : ℤ) (c : Client) (m : ℕ) (rest : List ℕ)
    → Holds c.buf c.buf_idx (b'*' ∷ (print_nat (suc m) ++ (crlf ++ rest)))
    → length (print_nat (suc m)) + 3 < c.buf_len
    → (client_read_command garbage c
        ≡ bulk_loop
            (suc m)
            (record c { args = [] })
            false
            (c.buf_idx + length (print_nat (suc m)) + 3)
            (c.buf_idx + c.buf_len))
      × Holds c.buf (c.buf_idx + length (print_nat (suc m)) + 3) rest
unfolding client_read_command read_bulks array_size array_line
array_header garbage c m rest h room =
    let n = suc m in
    let z = c.buf_idx + c.buf_len in
    let (l, behind) = Line-split c.buf (suc c.buf_idx) n rest (h.1) in
    let q = suc c.buf_idx + length (print_nat n) in
    let e1 : c.buf_idx + 1 ≡ suc c.buf_idx = omega arith in
    let e2 : suc q - 1 ≡ q = omega arith in
    let e3 : suc q + 1 ≡ c.buf_idx + length (print_nat n) + 3 = omega arith in
    let e4 : q + 2 ≡ c.buf_idx + length (print_nat n) + 3 = omega arith in
    let inside : leb z c.buf_idx ≡ false = ground arith in
    let more : leb z (c.buf_idx + length (print_nat n) + 3) ≡ false = ground arith in
    let found : find_byte (z - (c.buf_idx + 1)) 10 c.buf (c.buf_idx + 1) ≡ some (suc q) =
      rw e1 (Line-find l (z - suc c.buf_idx) (omega arith)) in
    (
      rw (client_read_command, inside, h.0, found, e2, l.return, e1, Line-atoi l, e3, more) refl,
      rw e4 at behind,
    )

-- What client_read_command leaves of the buffer when it has taken `n` bytes.
abbrev pub taken_off : Client → ℕ → List Arg → ℕ → Client
taken_off c n args cap = record c {
  args = args;
  args_cap = cap;
  buf_len = c.buf_len - n;
  buf_idx = if c.buf_len - n == 0 then 0 else c.buf_idx + n;
}

-- The arguments lie in the buffer, in the bytes that were taken.
pub client_read_command-stands :
    (garbage : ℤ) (c : Client) (x : List ℕ) (xs : List (List ℕ))
    → Holds c.buf c.buf_idx (encode (x ∷ xs))
    → length (encode (x ∷ xs)) ≤ c.buf_len
    → (args : List Arg) × (cap : ℕ) × (client_read_command garbage c
        ≡ (taken_off c (length (encode (x ∷ xs))) args cap, none))
      × Standing c.buf (c.buf_idx + c.buf_len) args (x ∷ xs)
unfolding consume
client_read_command-stands garbage c x xs h room =
    let args = x ∷ xs in
    let c0 = record c { args = [] } in
    let z = c.buf_idx + c.buf_len in
    let first = c.buf_idx + length (print_nat (length args)) + 3 in
    let total : length (encode args)
        ≡ length (print_nat (length args)) + 3 + length (encode_bulks args) =
      omega (arith, length-append {0} (print_nat (length args)) (crlf ++ encode_bulks args)) in
    let (start, behind) =
      array_header garbage c (length xs) (encode_bulks args) h (omega (arith, total)) in
    let loop = bulk_loop-encoded args c0 first z behind (omega (arith, total)) in
    let e4 : first + length (encode_bulks args) ≡ c.buf_idx + length (encode args) =
      omega (arith, total) in
    let e5 : c.buf_idx + length (encode args) - c.buf_idx ≡ length (encode args) = omega arith in
    (loop.fresh, loop.cap, start ∙ loop.run ∙ rw (e4, e5) refl, loop.stand)

-- client_read_command on a buffer that begins with the encoding of one argument or more, whatever
-- follows it, returns without an error, with exactly these arguments, and takes exactly the bytes of
-- the encoding off the buffer; of the client only the arguments and the place in the buffer change.
pub client_read_command-encode :
    (garbage : ℤ) (c : Client) (x : List ℕ) (xs : List (List ℕ))
    → Holds c.buf c.buf_idx (encode (x ∷ xs))
    → length (encode (x ∷ xs)) ≤ c.buf_len
    → (args : List Arg) × (cap : ℕ) × (client_read_command garbage c
        ≡ (taken_off c (length (encode (x ∷ xs))) args cap, none))
      × (arg_texts c.buf args ≡ x ∷ xs)
client_read_command-encode garbage c x xs h room =
    let (args, cap, run, stand) = client_read_command-stands garbage c x xs h room in
    (args, cap, run, arg_texts-Standing c.buf (c.buf_idx + c.buf_len) args (x ∷ xs) stand)

-- On an empty buffer there is no command.
pub client_read_command-empty :
    (garbage : ℤ) (c : Client)
    → c.buf_len ≡ 0
    → client_read_command garbage c ≡ (record c { args = [] }, some incomplete)
unfolding client_read_command
client_read_command-empty garbage c e =
    let over : leb (c.buf_idx + c.buf_len) c.buf_idx ≡ true = ground arith in rw over refl
