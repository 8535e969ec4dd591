-- ===== src/World/Types.antt =====
-- loro::LoroValue as loro-c-api/src/value_typed.rs takes it apart (the match of
-- `loro_value_get_type` is exhaustive), and the ids and spans that cross the boundary.
-- An f64 is carried as its bit pattern, a string as its UTF-8 bytes, a hash map as its entries.
use loro_c.Base.{ℕ, Bool, List}
use loro_c.Base.Int.{ℤ}

mutual
  pub data LoroValue (C : Type 0) : Type 0 where
    null : LoroValue C
    bool : Bool → LoroValue C
    double : ℕ → LoroValue C
    i64 : ℤ → LoroValue C
    binary : List ℕ → LoroValue C
    string : List ℕ → LoroValue C
    list : Values C → LoroValue C
    map : Entries C → LoroValue C
    container : C → LoroValue C

  pub data Values (C : Type 0) : Type 0 where
    nil : Values C
    cons : LoroValue C → Values C → Values C

  pub data Entries (C : Type 0) : Type 0 where
    end : Entries C
    entry : List ℕ → LoroValue C → Entries C → Entries C

-- std::vec::Vec<u8>: its bytes and the capacity of its allocation.
pub record ByteVec : Type 0 where
  pub items : List ℕ
  pub capacity : ℕ

-- loro::ID and its C mirror.
pub record OpId : Type 0 where
  pub peer : ℕ
  pub counter : ℤ

pub record LoroId : Type 0 where
  pub peer : ℕ
  pub counter : ℤ

-- loro::CounterSpan and its C mirror.
pub record CounterSpan : Type 0 where
  pub start : ℤ
  pub end : ℤ

pub record LoroCounterSpan : Type 0 where
  pub start : ℤ
  pub end : ℤ

-- loro::IdSpan and its C mirror.
pub record IdSpan : Type 0 where
  pub peer : ℕ
  pub counter : CounterSpan

pub record LoroIdSpan : Type 0 where
  pub peer : ℕ
  pub counter_start : ℤ
  pub counter_end : ℤ

-- loro::LoroError, as far as `record_loro_error` tells its variants apart.
pub data LoroError : Type 0 where
  decode_version_vector_error decode_data_corruption_error : LoroError
  decode_checksum_mismatch_error : LoroError
  decode_error incompatible_future_encoding_error not_found_error : List ℕ → LoroError
  frontiers_not_found arg_err out_of_bound other_error : List ℕ → LoroError

-- loro::LoroEncodeError, as far as `record_encode_error` tells its variants apart.
pub data LoroEncodeError : Type 0 where
  encode_decode_error other_encode_error : List ℕ → LoroEncodeError

-- serde_json::Value, as far as the library builds it. An object is the sequence of insertions that
-- make it; in what order serde_json writes its keys is left to the functions that serialize.
mutual
  pub data JsonValue : Type 0 where
    null_json : JsonValue
    bool_json : Bool → JsonValue
    text_json : List ℕ → JsonValue
    double_json : ℕ → JsonValue
    number : ℤ → JsonValue
    array : JsonItems → JsonValue
    object : JsonFields → JsonValue

  pub data JsonItems : Type 0 where
    nil_json : JsonItems
    cons_json : JsonValue → JsonItems → JsonItems

  pub data JsonFields : Type 0 where
    end_json : JsonFields
    field_json : List ℕ → JsonValue → JsonFields → JsonFields

-- loro::cursor::Side and its C mirror.
pub data Side : Type 0 where
  left middle right : Side

pub data LoroSide : Type 0 where
  loro_side_left loro_side_middle loro_side_right : LoroSide

-- loro::TreeID.
pub record TreeId : Type 0 where
  pub peer : ℕ
  pub counter : ℤ

-- loro::TreeParentId.
pub data TreeParentId : Type 0 where
  node : TreeId → TreeParentId
  root deleted unexist : TreeParentId

-- loro::Index.
pub data Index : Type 0 where
  key : List ℕ → Index
  seq : ℕ → Index
  node_index : TreeId → Index
