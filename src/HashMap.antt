-- ===== src/HashMap.antt =====
-- hashMap.cc: keys and the 32-bit values that stand for them. The std::map is an association list, the
-- std::set a list; std::hash is not in the sources and is the parameter `hash`.
pub mod Laws
mod Tests
use nohost_server.Base.{
  ℕ, zero, suc, ◌%◌, ◌^◌, ◌-◌, Bool, true, false, List, [], ◌∷◌, Option, none, some, ◌==◌,
  if◌then◌else◌,
}

pub record Table : Type 0 where
  pub entries : List (ℕ × ℕ)
  pub values : List ℕ

-- `hashMap->find(orgKey)`
unfoldable pub find : List (ℕ × ℕ) → ℕ → Option ℕ
find [] key = none
find ((k, v) ∷ entries) key = let rest = find entries key in if k == key then some v else rest

-- `hashValues->find(hashValue) != hashValues->end()`
unfoldable pub holds : List ℕ → ℕ → Bool
holds [] v = false
holds (w ∷ values) v = let rest = holds values v in if w == v then true else rest

-- The `while`, with fuel: its body computes the same value again.
probe : ℕ → (ℕ → ℕ) → List ℕ → ℕ → Option ℕ
probe zero hash values key = none
probe (suc f) hash values key =
    let again = probe f hash values key in
    if holds values (hash key % 2 ^ 32) then again else some (hash key % 2 ^ 32)

added : Table → ℕ → Option ℕ → Option (ℕ × Table)
added t key none = none
added t key (some v) = some (v, record { entries = (key, v) ∷ t.entries; values = v ∷ t.values })

inserted : Table → ℕ → Option ℕ → Option ℕ → Option (ℕ × Table)
unfolding added
inserted t key probed none = added t key probed
inserted t key probed (some v) = some (v, t)

-- `none`: the fuel is used up. The argument isSet has no effect.
pub hash_map_insert : ℕ → (ℕ → ℕ) → Table → ℕ → Option (ℕ × Table)
unfolding probe inserted added
hash_map_insert f hash t key = inserted t key (probe f hash t.values key) (find t.entries key)

-- `return -1` as an `unsigned int`.
value_or : Option ℕ → ℕ
value_or none = 2 ^ 32 - 1
value_or (some v) = v

pub hash_map_find : Table → ℕ → ℕ
unfolding value_or
hash_map_find t key = value_or (find t.entries key)
