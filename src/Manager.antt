-- ===== src/Manager.antt =====
-- src/manager.c, as its branch `origin/v2` has it (the file holds the marks of a merge): the
-- registration of composites and their components by name, and the descriptors that are polled.
-- The interfaces of src/ni.c hang on it.
pub mod Names
pub mod Lookup
pub mod Poll
pub mod Register
pub mod Find
pub mod Unregister
use netemul.Base.{
  ℕ, ◌+◌, ◌-◌, Bool, true, false, Option, none, some, List, [], ◌∷◌, ◌++◌, if◌then◌else◌, ltb, leb,
  ◌==◌, decimal, length, get_elem?,
}
use netemul.Node.{Ptr, Name, max_name_len}
use netemul.Env.{Env}
use netemul.World.{Manager}
use netemul.World.Run.{
  Cmd, pure, ◌>>=◌, ◌>>◌, fails, deref, found, world, load, load_composite, update, malloc,
  set_manager, children,
}

-- A `Node*`: the source casts it, and tells the two apart by `is_composite`.
pub data NodeRef : Type 0 where
  component : Ptr → NodeRef
  composite : Ptr → NodeRef

-- The bytes of "." and of a number behind a node's name.
abbrev pub dot : ℕ
dot = b'.'

unfoldable pub port_name : Name → ℕ → Name
port_name name i = name ++ dot ∷ decimal i

-- `sprintf` into the eight bytes of a name; a longer text runs over its end.
abbrev pub fits_name : Name → Bool
fits_name s = ltb (length s) max_name_len

-- `strtok(temp, ".")`: the text before the first dot, leading dots kept, and what is behind it.
unfoldable pub split_dot : Name → Name × Name
split_dot [] = ([], [])
split_dot (c ∷ s) = elim (c == dot) [
  | true ↦ ([], s)
  | false ↦ (let (a, b) = split_dot s in (c ∷ a, b))
]

unfoldable pub skip_dots : Name → Name × Name
skip_dots [] = ([], [])
skip_dots (c ∷ s) = elim (c == dot) [
  | true ↦ (let (a, b) = skip_dots s in (c ∷ a, b))
  | false ↦ ([], c ∷ s)
]

-- A token, if there is one.
abbrev pub optional : Name → Option Name
optional [] = none
optional (c ∷ s) = some (c ∷ s)

-- The C string that `temp` holds after the first `strtok`, and the second token if there is one.
unfoldable pub tokens : Name → Name × Option Name
unfolding split_dot skip_dots
tokens name =
    let (dots, body) = skip_dots name in
    let (first, rest) = split_dot body in
    let (_, tail) = skip_dots rest in
    let (second, _) = split_dot tail in (dots ++ first, optional second)

module _ (e : Env) where
  -- The loop of `node_register`: each component is named and listed.
  unfoldable pub register_nodes : Name → ℕ → List (Option Ptr) → Cmd Bool
  unfolding port_name update load
  register_nodes name i [] = pure true
  register_nodes name i (n ∷ ns) = do
    p ← deref n
    if fits_name (port_name name i) then pure tt else fails
    update p (λ c. record c { name = port_name name i })
    w ← world
    elim (e.list_add w.manager.components p) [
      | none ↦ pure false
      | some cs ↦ (do
        set_manager (λ m. record m { components = cs })
        register_nodes name (i + 1) ns)
    ]

  -- `node_register`
  unfoldable pub node_register : Ptr → Name → Cmd Bool
  unfolding load_composite children register_nodes malloc
  node_register node name = do
    c ← load_composite node
    ns ← children node
    listed ← register_nodes c.name 0 ns
    if listed
        then (do
          key ← malloc e
          deref key
          w ← world
          elim (e.map_put w.manager.nodes name node) [
            | none ↦ pure false
            | some ms ↦ (do set_manager (λ m. record m { nodes = ms }); pure true)
          ])
        else pure false

  -- The loop of `node_unregister`; the results of `list_remove_data` are not read.
  unfoldable pub unlist : List (Option Ptr) → List Ptr → List Ptr
  unlist [] cs = cs
  unlist (none ∷ ns) cs = unlist ns cs
  unlist (some p ∷ ns) cs =
      unlist ns (elim (e.list_remove_data cs p) [ none ↦ cs | some cs' ↦ cs' ])

  -- `node_unregister`
  unfoldable pub node_unregister : Name → Cmd (Unit {0})
  unfolding children unlist
  node_unregister name = do
    w ← world
    let (removed, ms) = e.map_remove w.manager.nodes name
    set_manager (λ m. record m { nodes = ms })
    node ← deref removed
    ns ← children node
    set_manager (λ m. record m { components = unlist ns m.components })

  abbrev pub as_component : Option Ptr → Option NodeRef
  as_component none = none
  as_component (some p) = some (component p)

  -- A component of a composite by its index
  unfoldable pub get_component : Ptr → Name → Cmd (Option NodeRef)
  unfolding load_composite
  get_component p index_str = do
    c ← load_composite p
    if leb c.node_count (e.parse_uint8 index_str)
        then pure none
        else (do n ← found (get_elem? c.nodes (e.parse_uint8 index_str)); pure (as_component n))

  -- What `map_get` and a port's number lead to.
  unfoldable pub in_composite : Name → Option Ptr → Cmd (Option NodeRef)
  unfolding get_component
  in_composite index_str none = pure none
  in_composite index_str (some p) = get_component p index_str

  abbrev pub as_composite : Option Ptr → Option NodeRef
  as_composite none = none
  as_composite (some p) = some (composite p)

  -- `get_node` behind the two calls of `strtok`
  unfoldable pub find_node : Name × Option Name → Cmd (Option NodeRef)
  unfolding in_composite
  find_node (temp, none) = do w ← world; pure (as_composite (e.map_get w.manager.nodes temp))
  find_node (temp, some index_str) = do
    w ← world
    if e.is_uint8 index_str
        then in_composite index_str (e.map_get w.manager.nodes temp)
        else pure none

  -- `get_node`; the name is copied to eight bytes.
  unfoldable pub get_node : Name → Cmd (Option NodeRef)
  unfolding tokens find_node
  get_node name = do if fits_name name then pure tt else fails; find_node (tokens name)

-- `list_get_last`, which is `NULL` for the empty list
unfoldable pub get_last : List ℕ → ℕ
get_last [] = 0
get_last (x ∷ []) = x
get_last (x ∷ y ∷ xs) = get_last (y ∷ xs)

-- `update_fd_info`
unfoldable pub update_fd_info : Manager → Manager
unfolding get_last
update_fd_info m = record m { nfds = get_last m.fds + 1; read_fds = m.fds }

module _ (e : Env) where
  unfoldable pub fd_add : ℕ → Cmd Bool
  unfolding update_fd_info
  fd_add fd = do
    w ← world
    elim (e.list_add w.manager.fds fd) [
      | none ↦ pure false
      | some fds ↦ (do
        set_manager (λ m. update_fd_info (record m { fds = fds; fd_count = m.fd_count + 1 }))
        pure true)
    ]

  unfoldable pub fd_remove : ℕ → Cmd Bool
  unfolding update_fd_info
  fd_remove fd = do
    w ← world
    elim (e.list_remove_data w.manager.fds fd) [
      | none ↦ pure false
      | some fds ↦ (do
        set_manager (λ m. update_fd_info (record m { fds = fds; fd_count = m.fd_count - 1 }))
        pure true)
    ]
