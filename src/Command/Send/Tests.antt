-- ===== src/Command/Send/Tests.antt =====
-- A block of 8192 letters, and the reply to target 12 for a read.
use nohost_server.Base.{
  ℕ, ◌≡◌, true, some, List, [], ◌++◌, take, replicate, length-replicate, arith,
}
use nohost_server.Base.Int.Padded.{padded}
use nohost_server.Client.{client_new, client_write_bulk}
use nohost_server.Client.Output.{pending}
use nohost_server.Command.Send.{
  extent, bulk_writes, master_send_bulk_value, ok_writes, udp_send_ok_command, udp_send_bulk_value,
}
use nohost_server.Command.Send.Bulk.{bulk, master_send_bulk_value-sends}
use nohost_server.Command.Send.Fields.{Fields, udp_send-Fields}

abbrev letters : List ℕ
letters = replicate 8192 b'v'

master_send_bulk_value-sends_example :
    ((master_send_bulk_value (some 8201) (λ _. 0) letters).ok ≡ true)
    × ((master_send_bulk_value (some 8201) (λ _. 0) letters).sent ≡ take 8201 (bulk letters))
    × (pending (client_write_bulk (client_new (λ _. 0) (λ _. 0)) letters 8192)
        ≡ pending (client_new (λ _. 0) (λ _. 0)) ++ bulk letters)
    × (extent (bulk_writes letters) ≡ 8202)
master_send_bulk_value-sends_example =
    master_send_bulk_value-sends 8201 (λ _. 0) letters (client_new (λ _. 0) (λ _. 0))
      (length-replicate {A = ℕ} 8192 b'v')

udp_send-Fields_example :
    Fields 12 2 [] (udp_send_ok_command true (λ _. 0) 12 2).sent
    × Fields 12 2 (padded 4 8192 ++ letters) (udp_send_bulk_value true (λ _. 0) 12 2 letters).sent
    × (extent (ok_writes 12 2) ≡ 7)
udp_send-Fields_example =
    udp_send-Fields (λ _. 0) (λ _. 0) 12 2 letters (omega arith) (omega arith)
      (length-replicate {A = ℕ} 8192 b'v')
