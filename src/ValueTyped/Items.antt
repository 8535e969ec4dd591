-- ===== src/ValueTyped/Items.antt =====
-- The lists and maps inside a value, the kind of a value, and the box of a value
-- (loro-c-api/src/value_typed.rs). A map is a Rust hash map: keys occur once, order means nothing.
use loro_c.Base.{ℕ, zero, suc, same, if◌then◌else◌, Option, none, some, List, [], ◌∷◌}
use loro_c.World.{Loro, Obj, LoroValue, Values, Entries, nil, cons, end, entry, value}
use loro_c.World.{LoroValue}

pub data LoroValueType : Type 0 where
  loro_value_null loro_value_bool loro_value_double loro_value_i64 : LoroValueType
  loro_value_binary loro_value_string loro_value_list loro_value_map : LoroValueType
  loro_value_container : LoroValueType

abbrev pub as_value : (loro : Loro) → Obj loro → Option (LoroValue loro.ContainerId)
as_value loro (value v) = some v
as_value loro _ = none

module _ {C : Type 0} where
  unfoldable pub kind : LoroValue C → LoroValueType
  kind LoroValue.null = loro_value_null
  kind (LoroValue.bool _) = loro_value_bool
  kind (LoroValue.double _) = loro_value_double
  kind (LoroValue.i64 _) = loro_value_i64
  kind (LoroValue.binary _) = loro_value_binary
  kind (LoroValue.string _) = loro_value_string
  kind (LoroValue.list _) = loro_value_list
  kind (LoroValue.map _) = loro_value_map
  kind (LoroValue.container _) = loro_value_container

  -- `Vec::push`, `len` and `get`.
  unfoldable pub push : Values C → LoroValue C → Values C
  push nil v = cons v nil
  push (cons x xs) v = cons x (push xs v)

  unfoldable pub len : Values C → ℕ
  len nil = 0
  len (cons x xs) = suc (len xs)

  unfoldable pub get : Values C → ℕ → Option (LoroValue C)
  get nil i = none
  get (cons x xs) zero = some x
  get (cons x xs) (suc i) = get xs i

  -- `HashMap::insert`, `len`, `get` and `keys`.
  unfoldable pub insert : Entries C → List ℕ → LoroValue C → Entries C
  insert end k v = entry k v end
  insert (entry j w m) k v = if same j k then entry j v m else entry j w (insert m k v)

  unfoldable pub map_len : Entries C → ℕ
  map_len end = 0
  map_len (entry k v m) = suc (map_len m)

  unfoldable pub lookup : Entries C → List ℕ → Option (LoroValue C)
  lookup end k = none
  lookup (entry j w m) k = if same j k then some w else lookup m k

  unfoldable pub keys : Entries C → List (List ℕ)
  keys end = []
  keys (entry k v m) = k ∷ keys m
