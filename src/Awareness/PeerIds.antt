-- ===== src/Awareness/PeerIds.antt =====
-- loro-c-api/src/awareness.rs: peer ids as bytes (`u64s_to_le_bytes`) and as decimal text.
pub mod Laws
use loro_c.Base.{
  ℕ, zero, suc, ◌+◌, ◌*◌, ◌/◌, ◌%◌, ◌^◌, ◌<◌, ◌≤◌, ◌==◌, if◌then◌else◌, List, [], ◌∷◌, ◌++◌, length,
}
use loro_c.World.{ByteVec}

-- `u64::to_le_bytes`: eight bytes, the lowest first.
unfoldable pub le_bytes : ℕ → ℕ → List ℕ
le_bytes zero id = []
le_bytes (suc n) id = id % 256 ∷ le_bytes n (id / 256)

abbrev pub to_le_bytes : ℕ → List ℕ
to_le_bytes id = le_bytes 8 id

pub u64s_to_le_bytes : List ℕ → List ℕ
u64s_to_le_bytes [] = []
u64s_to_le_bytes (id ∷ ids) = to_le_bytes id ++ u64s_to_le_bytes ids

-- `Vec::with_capacity(ids.len() * 8)`, which holds just the bytes written.
unfoldable pub packed : List ℕ → ByteVec
packed ids = record { items = u64s_to_le_bytes ids; capacity = length ids * 8 }

-- `u64::to_string`; twenty digits are enough for a u64.
unfoldable pub digits : ℕ → ℕ → List ℕ → List ℕ
digits zero n acc = acc
digits (suc fuel) n acc =
    let rest = digits fuel (n / 10) ((48 + n % 10) ∷ acc) in
    if n / 10 == 0 then (48 + n % 10) ∷ acc else rest

unfoldable pub decimal : ℕ → List ℕ
decimal n = digits 20 n []
