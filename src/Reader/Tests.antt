-- ===== src/Reader/Tests.antt =====
-- A buffer with one command.
use nohost_server.Base.{
  ℕ, ◌≡◌, refl, List, [], ◌∷◌, none, arith, length, blit, codes, Memory, if◌then◌else◌, ◌==◌, Holds,
}
use nohost_server.Base.Int.{pos, print_nat}
use nohost_server.Client.{Client, Arg, client_new, arg_texts}
use nohost_server.Reader.{client_read_command}
use nohost_server.Reader.RoundTrip.{encode, client_read_command-encode}
use nohost_server.Reader.Split.{encode_cut, client_read_command-cut}

-- `*2\r\n$3\r\nGET\r\n$1\r\n7\r\n`, and more behind it.
abbrev get_7 : Memory
get_7 =
    blit (λ _. 42) 0
      (b'*'
        ∷ (50
            ∷ (13
                ∷ (10
                    ∷ (b'$'
                        ∷ (51
                            ∷ (13
                                ∷ (10
                                    ∷ (71
                                        ∷ (69
                                            ∷ (84
                                                ∷ (13
                                                    ∷ (10
                                                        ∷ (b'$'
                                                            ∷ (49
                                                            ∷ (13
                                                            ∷ (10
                                                            ∷ (55
                                                            ∷ (13 ∷ (10 ∷ []))))))))))))))))))))

abbrev waiting : Client
waiting = record (client_new get_7 (λ _. 0)) { buf_len = 30 }

shorter : length (encode (codes "GET" ∷ (codes "7" ∷ []))) ≡ 20
unfolding print_nat
shorter = refl

client_read_command-encode_example :
    (args : List Arg) × (cap : ℕ) × (client_read_command (pos 0) waiting ≡ (
      record waiting {
        args = args;
        args_cap = cap;
        buf_len = 10;
        buf_idx = if 10 == 0 then 0 else 20;
      },
      none,
    ))
    × (arg_texts get_7 args ≡ codes "GET" ∷ (codes "7" ∷ []))
unfolding client_new print_nat blit
client_read_command-encode_example =
    client_read_command-encode (pos 0) waiting (codes "GET") (codes "7" ∷ [])
      (
        refl,
        (
          refl,
          (
            refl,
            (
              refl,
              (
                refl,
                (
                  refl,
                  (
                    refl,
                    (
                      refl,
                      (
                        refl,
                        (
                          refl,
                          (
                            refl,
                            (
                              refl,
                              (refl, (refl, (refl, (refl, (refl, (refl, (refl, (refl, tt)))))))),
                            ),
                          ),
                        ),
                      ),
                    ),
                  ),
                ),
              ),
            ),
          ),
        ),
      )
      (omega (arith, shorter))

-- The first 16 bytes, up to the carriage return of the last length line.
abbrev cut_short : Client
cut_short = record waiting { buf_len = 16 }

cut_size : length (encode_cut (codes "GET" ∷ []) (49 ∷ (13 ∷ []))) ≡ 16
unfolding print_nat
cut_size = refl

cut-Holds : Holds get_7 0 (encode_cut (codes "GET" ∷ []) (49 ∷ (13 ∷ [])))
unfolding print_nat blit
cut-Holds = (
  refl,
  (
    refl,
    (
      refl,
      (
        refl,
        (
          refl,
          (
            refl,
            (refl, (refl, (refl, (refl, (refl, (refl, (refl, (refl, (refl, (refl, tt)))))))))),
          ),
        ),
      ),
    ),
  ),
)

client_read_command-cut_example :
    (args : List Arg) × (cap : ℕ) × (client_read_command (pos 0) cut_short
      ≡ (record cut_short { args = args; args_cap = cap; buf_len = 0; buf_idx = 0 }, none))
    × (arg_texts get_7 args ≡ codes "GET" ∷ [])
unfolding client_new
client_read_command-cut_example =
    client_read_command-cut (pos 0) cut_short (codes "GET" ∷ []) (49 ∷ (13 ∷ [])) cut-Holds
      (omega arith, (omega arith, tt)) (omega (arith, cut_size))
