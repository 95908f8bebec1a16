-- ===== src/HashMap/Tests.antt =====
-- A map with one key, whose value is that of another key's hash.
use nohost_server.Base.{ℕ, [], ◌∷◌}
use nohost_server.HashMap.{Table}

abbrev one : Table
one = record { entries = (3, 3) ∷ []; values = 3 ∷ [] }

abbrev same : ℕ → ℕ
same k = k
