-- ===== src/Env/Model.antt =====
-- A concrete environment, which meets the laws: bounded queues, association lists, decimal
-- numbers, an allocator that never fails and clocks that advance by one at a reading.
use netemul.Base.{
  ℕ, zero, suc, ◌+◌, ◌-◌, ◌*◌, ◌/◌, ◌%◌, ◌<◌, ◌≡◌, refl, subst, true, false, List, [], ◌∷◌, ◌++◌,
  none, some, if◌then◌else◌, ◌==◌, ltb, leb, same, digits, decimal, has, arith, Bool-cases, inl,
  inr,
}
use netemul.Node.{Name}
use netemul.Env.{Env, Cache, MacTableEntity, NameMap}
use netemul.Env.Laws.{
  has_room, pushed, popped, FifoLaws, erase, ListLaws, lookup, MapLaws, entry, Keyed, CacheLaws,
  ParseLaws,
}

unfoldable pub drop_name : NameMap → Name → NameMap
drop_name [] k = []
drop_name ((j, p) ∷ m) k = let rest = drop_name m k in if same j k then rest else (j, p) ∷ rest

unfoldable pub drop_key : List (ℕ × MacTableEntity) → ℕ → List (ℕ × MacTableEntity)
drop_key [] k = []
drop_key ((j, v) ∷ es) k = let rest = drop_key es k in if j == k then rest else (j, v) ∷ rest

-- The value of decimal digits behind a number that is read already.
unfoldable pub value : ℕ → Name → ℕ
value a [] = a
value a (c ∷ s) = value (10 * a + (c - b'0')) s

unfoldable pub example_env : Env
unfolding drop_name drop_key value
example_env = record {
  malloc_ok = λ p. true;
  buffer_address = λ p. p * 65536;
  fifo_create = λ n. some (record { size = n; items = [] });
  fifo_push = λ q p. if has_room q then some (pushed q p) else none;
  fifo_pop = λ q. popped q q.items;
  list_create = some [];
  list_add = λ xs x. some (xs ++ x ∷ []);
  list_remove_data = λ xs x. if has x xs then some (erase x xs) else none;
  map_create = λ n. some [];
  map_put = λ m k p. some ((k, p) ∷ m);
  map_get = lookup;
  map_remove = λ m k. (lookup m k, drop_name m k);
  cache_create = λ n. some (record { capacity = n; entries = [] });
  cache_get = λ c k. (entry c.entries k, c);
  cache_set = λ c k v. some (record c { entries = (k, v) ∷ drop_key c.entries k });
  cache_remove = λ c k. some (record c { entries = drop_key c.entries k });
  is_uint8 = λ s. ltb (value 0 s) 256;
  parse_uint8 = value 0;
  is_uint32 = λ s. ltb (value 0 s) 4294967296;
  parse_uint32 = value 0;
  is_uint64 = λ s. ltb (value 0 s) 18446744073709551616;
  parse_uint64 = value 0;
  strtod = λ s. (value 0 s, []);
  double_nonzero = λ d. ltb 0 d;
  le_double = leb;
  add_wire_time = λ base bandwidth size. base + 8000000 * size / bandwidth;
  noise = λ reading latency jitter. latency;
  round_double = λ n. n;
  clock = λ n. n;
  timer_frequency = λ n. 1000;
  timer_ms = λ n. n;
  tap_create = λ n name. some (n + 3);
  raw_create = λ n name. some (n + 3);
  send_socket = λ n name. some (n + 3);
}

pub example_env-FifoLaws : FifoLaws example_env
unfolding example_env
example_env-FifoLaws = record {
  create_empty = λ n q h. ground arith;
  push_lem = λ q p. refl;
  pop_lem = λ q. refl;
}

pub example_env-ListLaws : ListLaws example_env
unfolding example_env
example_env-ListLaws = record { add_lem = λ xs ys x h. ground arith; remove_lem = λ xs x. refl }

-- Equal texts are the same.
same→≡ : (s t : Name) → same s t ≡ true → s ≡ t
same→≡ [] [] h = refl
same→≡ [] (y ∷ t) h = ground arith
same→≡ (x ∷ s) [] h = ground arith
same→≡ (x ∷ s) (y ∷ t) h = ground (arith, same→≡ s t)

pub same_refl : (s : Name) → same s s ≡ true
same_refl [] = refl
same_refl (x ∷ s) = ground (arith, same_refl s)

same-split : (i k j : Name) → same i k ≡ false → same i j ≡ true → same k j ≡ false
same-split i k j h t = elim (Bool-cases (same k j)) [
  | inr f ↦ f
  | inl u ↦ ground (arith, same→≡ i j t, same→≡ k j u, same_refl j)
]

lookup-drop_name :
    (m : NameMap) (k j : Name) → lookup (drop_name m k) j ≡ (if same k j then none else lookup m j)
unfolding drop_name
lookup-drop_name [] k j = ground arith
lookup-drop_name ((i, p) ∷ m) k j = elim (Bool-cases (same i k)) [
  | inl t ↦ ground (arith, same→≡ i k t, lookup-drop_name m k j)
  | inr f ↦ ground (arith, same-split i k j f, lookup-drop_name m k j)
]

pub example_env-MapLaws : MapLaws example_env
unfolding example_env
example_env-MapLaws = record {
  get_lem = λ m k. refl;
  put_lem = λ m m' k p h j. ground arith;
  removed_lem = λ m k. refl;
  remove_lem = lookup-drop_name;
}

entry-drop_key :
    (es : List (ℕ × MacTableEntity)) (k j : ℕ)
    → entry (drop_key es k) j ≡ (if j == k then none else entry es j)
unfolding drop_key
entry-drop_key [] k j = ground arith
entry-drop_key ((i, v) ∷ es) k j = ground (arith, entry-drop_key es k j)

drop_key-Keyed : (es : List (ℕ × MacTableEntity)) (k : ℕ) → Keyed es → Keyed (drop_key es k)
unfolding drop_key
drop_key-Keyed [] k h = tt
drop_key-Keyed ((i, v) ∷ es) k (h, fresh, hs) =
    ground (arith, drop_key-Keyed es k hs, entry-drop_key es k i)

some_inj : (a b : Cache) → some a ≡ some b → a ≡ b
some_inj a b h = cc

pub example_env-CacheLaws : CacheLaws example_env
unfolding example_env
example_env-CacheLaws = record {
  get_lem = λ c k. refl;
  kept_lem = λ c k j. refl;
  set_lem = λ c c' k v h. ground arith;
  remove_lem = λ c c' k j h. ground (arith, entry-drop_key c.entries k j);
  set_others = λ c c' k j v u q n h. ground (arith, entry-drop_key c.entries k j);
  get_keyed = λ c k h. h;
  set_keyed = λ c c' k v h m ks.
      subst (λ x. Keyed x.entries) (some_inj _ _ h)
        (m, ground (arith, entry-drop_key c.entries k k), drop_key-Keyed c.entries k ks);
  remove_keyed =
      λ c c' k h ks. subst (λ x. Keyed x.entries) (some_inj _ _ h) (drop_key-Keyed c.entries k ks);
}

value-append : (a : ℕ) (s : Name) (c : ℕ) → value a (s ++ c ∷ []) ≡ 10 * value a s + (c - b'0')
unfolding value
value-append a [] c = refl
value-append a (d ∷ s) c = value-append (10 * a + (d - b'0')) s c

value-digits : (f n : ℕ) → n < f → value 0 (digits f n) ≡ n
unfolding digits value
value-digits zero n h = ground arith
value-digits (suc f) n h =
    ground (arith, value-digits f (n / 10), value-append 0 (digits f (n / 10)) (b'0' + n % 10))

pub example_env-ParseLaws : ParseLaws example_env
unfolding example_env decimal
example_env-ParseLaws = record {
  uint8_lem = λ n h. ground (arith, value-digits (suc n) n);
  parse_lem = λ n h. value-digits (suc n) n (omega arith);
}
