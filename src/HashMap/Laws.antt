-- ===== src/HashMap/Laws.antt =====
-- Inserting a key: what it returns, and when it does not return.
use nohost_server.Base.{
  ℕ, zero, suc, ◌%◌, ◌^◌, ◌≡◌, ◌≢◌, refl, ap, true, false, List, ◌∷◌, none, some, ==-refl, ==-ne,
  sym,
}
use nohost_server.HashMap.{
  Table, find, holds, probe, added, inserted, value_or, hash_map_insert, hash_map_find,
}

probe-stuck :
    (f : ℕ) (hash : ℕ → ℕ) (values : List ℕ) (key : ℕ)
    → holds values (hash key % 2 ^ 32) ≡ true
    → probe f hash values key ≡ none
unfolding probe
probe-stuck zero hash values key h = refl
probe-stuck (suc f) hash values key h = rw h (probe-stuck f hash values key h)

find_first : (key v : ℕ) (entries : List (ℕ × ℕ)) → find ((key, v) ∷ entries) key ≡ some v
unfolding find
find_first key v entries = rw (==-refl key) refl

find_other :
    (key v : ℕ) (entries : List (ℕ × ℕ)) (k : ℕ)
    → k ≢ key
    → find ((key, v) ∷ entries) k ≡ find entries k
unfolding find
find_other key v entries k ne = rw (==-ne key k (λ e. ne (sym e))) refl

-- hashMapInsert of a key that is not in the map, where the hash's low 32 bits are no key's value,
-- returns them after one test; the key is found with them afterwards, and every other key as before.
pub hash_map_insert-hash_map_find :
    (hash : ℕ → ℕ) (t : Table) (key f : ℕ)
    → find t.entries key ≡ none
    → holds t.values (hash key % 2 ^ 32) ≡ false
    → (t' : Table) × (hash_map_insert (suc f) hash t key ≡ some (hash key % 2 ^ 32, t'))
      × (hash_map_find t' key ≡ hash key % 2 ^ 32)
      × ((k : ℕ) → k ≢ key → hash_map_find t' k ≡ hash_map_find t k)
unfolding hash_map_insert hash_map_find inserted added value_or
hash_map_insert-hash_map_find hash t key f e free =
    let v = hash key % 2 ^ 32 in
    let probed : probe (suc f) hash t.values key ≡ some v = rw (probe, free) refl in
    (
      record { entries = (key, v) ∷ t.entries; values = v ∷ t.values },
      rw (e, probed) refl,
      ap value_or (find_first key v t.entries),
      λ k ne. ap value_or (find_other key v t.entries k ne),
    )

-- hashMapInsert of a key that is not in the map, where the hash's low 32 bits are another key's value,
-- never returns: no fuel is enough.
pub hash_map_insert_stuck :
    (hash : ℕ → ℕ) (t : Table) (key f : ℕ)
    → find t.entries key ≡ none
    → holds t.values (hash key % 2 ^ 32) ≡ true
    → hash_map_insert f hash t key ≡ none
unfolding hash_map_insert inserted added
hash_map_insert_stuck hash t key f e taken = rw (e, probe-stuck f hash t.values key taken) refl
