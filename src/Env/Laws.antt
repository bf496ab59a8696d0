-- ===== src/Env/Laws.antt =====
-- What the program relies on of the containers and parsers: the behaviour that sdk/util/*.h
-- documents, over the containers' contents.
use netemul.Base.{
  ℕ, ◌+◌, ◌<◌, ◌≡◌, ◌≢◌, Bool, true, List, [], ◌∷◌, ◌++◌, Option, none, some, length, has,
  if◌then◌else◌, ◌==◌, ltb, same, decimal,
}
use netemul.Node.{Ptr, Name}
use netemul.Env.{Env, Fifo, Cache, MacTableEntity, NameMap}

-- A FIFO holds at most `size - 1` elements, `fifo_capacity`.
abbrev pub has_room : Fifo → Bool
has_room q = ltb (length q.items + 1) q.size

abbrev pub pushed : Fifo → Ptr → Fifo
pushed q p = record q { items = q.items ++ p ∷ [] }

abbrev pub popped : Fifo → List Ptr → Option (Ptr × Fifo)
popped q [] = none
popped q (p ∷ ps) = some (p, record q { items = ps })

pub record FifoLaws (e : Env) : Type 0 where
  pub create_empty : (n : ℕ) (q : Fifo) → e.fifo_create n ≡ some q → (q.items ≡ []) × (q.size ≡ n)
  pub push_lem :
      (q : Fifo) (p : Ptr) → e.fifo_push q p ≡ (if has_room q then some (pushed q p) else none)
  pub pop_lem : (q : Fifo) → e.fifo_pop q ≡ popped q q.items

-- The list without the first occurrence of an element.
abbrev pub erase : ℕ → List ℕ → List ℕ
erase x [] = []
erase x (y ∷ ys) = if x == y then ys else y ∷ erase x ys

pub record ListLaws (e : Env) : Type 0 where
  pub add_lem : (xs ys : List ℕ) (x : ℕ) → e.list_add xs x ≡ some ys → ys ≡ xs ++ x ∷ []
  pub remove_lem :
      (xs : List ℕ) (x : ℕ)
      → e.list_remove_data xs x ≡ (if has x xs then some (erase x xs) else none)

-- What a map holds under a name.
abbrev pub lookup : NameMap → Name → Option Ptr
lookup [] k = none
lookup ((j, p) ∷ m) k = if same j k then some p else lookup m k

pub record MapLaws (e : Env) : Type 0 where
  pub get_lem : (m : NameMap) (k : Name) → e.map_get m k ≡ lookup m k
  pub put_lem :
      (m m' : NameMap) (k : Name) (p : Ptr)
      → e.map_put m k p ≡ some m'
      → (j : Name) → lookup m' j ≡ (if same k j then some p else lookup m j)
  pub removed_lem : (m : NameMap) (k : Name) → (e.map_remove m k).0 ≡ lookup m k
  pub remove_lem :
      (m : NameMap) (k j : Name)
      → lookup (e.map_remove m k).1 j ≡ (if same k j then none else lookup m j)

-- What a cache holds under a key.
abbrev pub entry : List (ℕ × MacTableEntity) → ℕ → Option MacTableEntity
entry [] k = none
entry ((j, v) ∷ es) k = if j == k then some v else entry es k

-- Every entry stands under its own address, once.
abbrev pub Keyed : List (ℕ × MacTableEntity) → Type 0
Keyed [] = Unit
Keyed ((k, v) ∷ es) = (v.mac ≡ k) × (entry es k ≡ none) × Keyed es

-- A lookup may reorder the entries; a write puts one in, and may push out others.
pub record CacheLaws (e : Env) : Type 0 where
  pub get_lem : (c : Cache) (k : ℕ) → (e.cache_get c k).0 ≡ entry c.entries k
  pub kept_lem : (c : Cache) (k j : ℕ) → entry (e.cache_get c k).1.entries j ≡ entry c.entries j
  pub set_lem :
      (c c' : Cache) (k : ℕ) (v : MacTableEntity)
      → e.cache_set c k v ≡ some c'
      → entry c'.entries k ≡ some v
  pub remove_lem :
      (c c' : Cache) (k j : ℕ)
      → e.cache_remove c k ≡ some c'
      → entry c'.entries j ≡ (if j == k then none else entry c.entries j)
  pub set_others :
      (c c' : Cache) (k j : ℕ) (v u : MacTableEntity)
      → e.cache_set c k v ≡ some c'
      → j ≢ k
      → entry c'.entries j ≡ some u
      → entry c.entries j ≡ some u
  -- No call makes up an entry, doubles one, or moves one to another key.
  pub get_keyed : (c : Cache) (k : ℕ) → Keyed c.entries → Keyed (e.cache_get c k).1.entries
  pub set_keyed :
      (c c' : Cache) (k : ℕ) (v : MacTableEntity)
      → e.cache_set c k v ≡ some c'
      → v.mac ≡ k
      → Keyed c.entries
      → Keyed c'.entries
  pub remove_keyed :
      (c c' : Cache) (k : ℕ) → e.cache_remove c k ≡ some c' → Keyed c.entries → Keyed c'.entries

-- The number of a port fits eight bits, and is read as it was printed.
pub record ParseLaws (e : Env) : Type 0 where
  pub uint8_lem : (n : ℕ) → n < 256 → e.is_uint8 (decimal n) ≡ true
  pub parse_lem : (n : ℕ) → n < 256 → e.parse_uint8 (decimal n) ≡ n
