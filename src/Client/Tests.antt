-- ===== src/Client/Tests.antt =====
-- A connection with three bytes of output.
use nohost_server.Base.{ℕ, ◌+◌, ◌≡◌, List, [], ◌∷◌, arith, view, ltb, if◌then◌else◌}
use nohost_server.Client.{Client, client_new, client_flush_offset, wrote, returned}
use nohost_server.Client.Flush.{client_flush_offset-sends}

abbrev c : Client
c = record (client_new (λ _. 0) (λ i. 65 + i)) { output_len = 3 }

abbrev block : List ℕ
block = 1 ∷ (2 ∷ [])

client_flush_offset-sends_example :
    client_flush_offset (wrote 1 ∷ (wrote 1 ∷ [])) c 1
    ≡ (record c { output_len = if ltb 1 3 then 0 else 3 }, returned (view c.output 1 2))
client_flush_offset-sends_example =
    client_flush_offset-sends (wrote 1 ∷ (wrote 1 ∷ [])) c 1 (omega arith) (omega arith)
      (ground arith)
