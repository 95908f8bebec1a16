-- ===== src/Command/Tests.antt =====
-- The length line `$10`, whole and in two packets.
use nohost_server.Base.{codes, none, ◌≡◌, refl, [], ◌∷◌, ◌++◌, arith, Memory, blit, Holds, some}
use nohost_server.Command.{next, Info, get_length, Req}
use nohost_server.Command.Udp.{
  Datagram, udp_allocated, udp_made, udp_get_request, udp_get_request-reads,
}
use nohost_server.Base.Int.{print_nat, all_digits, read_digits}
use nohost_server.Command.Length.{get_length-whole}

abbrev fresh : Info
fresh = record { len = 0; offset = 0; valid = 0 }

abbrev whole : Memory
whole = blit (λ _. 0) 2 (b'$' ∷ (49 ∷ (48 ∷ (13 ∷ (10 ∷ [])))))

abbrev rest : Memory
rest = blit (λ _. 0) 0 (13 ∷ (10 ∷ []))

whole-Holds : Holds whole 2 (b'$' ∷ (print_nat 10 ++ 13 ∷ 10 ∷ []))
unfolding print_nat blit
whole-Holds = (refl, (refl, (refl, (refl, (refl, tt)))))

get_length-whole_example :
    get_length whole b'$' 9 2 fresh ≡ next 7 (record { len = 10; offset = 0; valid = 1 })
unfolding print_nat
get_length-whole_example = get_length-whole whole 9 2 10 fresh refl whole-Holds (omega arith)

start-Holds : Holds whole 2 (b'$' ∷ print_nat 10)
unfolding print_nat blit
start-Holds = (refl, (refl, (refl, tt)))

end-Holds : Holds rest 0 (13 ∷ (10 ∷ []))
unfolding blit
end-Holds = (refl, (refl, tt))

-- A write of a value of 100 bytes, and a packet of 40.
abbrev waiting : Req
waiting = record {
  fd = 6;
  keyword_info = fresh;
  type_info = fresh;
  key_info = fresh;
  value_info = record fresh { len = 100 };
  type_str = λ _. 0;
  kind = 0;
  key = 5;
  value = λ _. 0;
}

-- A write of a value of 5 bytes.
abbrev short : Req
short = record waiting { value_info = record fresh { len = 5 } }

abbrev first_part : Memory
first_part = blit (λ _. 0) 2 (codes "ab")

abbrev last_part : Memory
last_part = blit (λ _. 0) 0 (codes "cde" ++ (13 ∷ (10 ∷ [])))

abbrev one_packet : Memory
one_packet = blit (λ _. 0) 3 ((codes "ab" ++ codes "cde") ++ (13 ∷ (10 ∷ [])))

-- For target 12, a write of the key 123.
abbrev datagram : Memory
datagram = blit (λ _. 48) 0 (codes "001201030000000123")

udp_get_request-reads_example :
    (d : Datagram) × (udp_get_request
        (λ fd. record { fd = fd; target_fd = 0; kind = 0; key = 0 })
        6
        datagram
        none
      ≡ some (udp_allocated d ∷ (udp_made d ∷ [])))
    × (d.kind ≡ 1)
    × (d.key ≡ 124)
    × (d.target_fd ≡ 12)
unfolding blit all_digits read_digits
udp_get_request-reads_example =
    udp_get_request-reads (λ fd. record { fd = fd; target_fd = 0; kind = 0; key = 0 }) 6 datagram 1
      (codes "123") 1 2 refl (refl, refl) (omega arith) (refl, refl) (omega arith)
      (refl, (refl, (refl, tt))) refl (omega arith) refl refl (omega arith) (omega arith)
