-- ===== src/Awareness/PeerIds/Laws.antt =====
-- The byte form of peer ids: how long it is, that it is made of bytes, and how to read it back.
use loro_c.Base.{
  ℕ, zero, suc, ◌+◌, ◌*◌, ◌/◌, ◌^◌, ◌<◌, ◌≡◌, refl, ap, sym, ◌∙◌, List, [], ◌∷◌, ◌++◌, length,
  arith, take, length-append,
}
use loro_c.Value.{to_vec}
use loro_c.Awareness.PeerIds.{le_bytes, to_le_bytes, u64s_to_le_bytes, packed}

-- A list of u64.
abbrev pub AreU64 : List ℕ → Type 0
AreU64 [] = Unit
AreU64 (id ∷ ids) = (id < 2 ^ 64) × AreU64 ids

-- A list of bytes.
abbrev pub AreBytes : List ℕ → Type 0
AreBytes [] = Unit
AreBytes (b ∷ bs) = (b < 256) × AreBytes bs

-- The reader's side: little-endian bytes as a number, and a buffer in words of eight bytes.
abbrev pub le_value : List ℕ → ℕ
le_value [] = 0
le_value (b ∷ bs) = b + 256 * le_value bs

abbrev pub drop : ℕ → List ℕ → List ℕ
drop zero bs = bs
drop (suc n) [] = []
drop (suc n) (b ∷ bs) = drop n bs

abbrev pub read_u64s : ℕ → List ℕ → List ℕ
read_u64s zero bs = []
read_u64s (suc n) bs = le_value (take 8 bs) ∷ read_u64s n (drop 8 bs)

-- `256 ^ n`.
limit : ℕ → ℕ
limit zero = 1
limit (suc n) = 256 * limit n

length-le_bytes : (n id : ℕ) → length (le_bytes n id) ≡ n
unfolding le_bytes
length-le_bytes zero id = refl
length-le_bytes (suc n) id = ap suc (length-le_bytes n (id / 256))

le_bytes-AreBytes : (n id : ℕ) → AreBytes (le_bytes n id)
unfolding le_bytes
le_bytes-AreBytes zero id = tt
le_bytes-AreBytes (suc n) id = (omega arith, le_bytes-AreBytes n (id / 256))

le_value-le_bytes : (n id : ℕ) → id < limit n → le_value (le_bytes n id) ≡ id
unfolding le_bytes limit
le_value-le_bytes zero id h = omega arith
le_value-le_bytes (suc n) id h = omega (arith, le_value-le_bytes n (id / 256) (smaller (limit n) h))
  where
    smaller : (k : ℕ) → id < 256 * k → id / 256 < k
    smaller k h = omega arith

append-AreBytes : (xs ys : List ℕ) → AreBytes xs → AreBytes ys → AreBytes (xs ++ ys)
append-AreBytes [] ys h k = k
append-AreBytes (x ∷ xs) ys h k = (h.0, append-AreBytes xs ys h.1 k)

take-append : (xs ys : List ℕ) → take (length xs) (xs ++ ys) ≡ xs
take-append [] ys = refl
take-append (x ∷ xs) ys = ap (◌∷◌ x) (take-append xs ys)

drop-append : (xs ys : List ℕ) → drop (length xs) (xs ++ ys) ≡ ys
drop-append [] ys = refl
drop-append (x ∷ xs) ys = drop-append xs ys

length-u64s : (ids : List ℕ) → length (u64s_to_le_bytes ids) ≡ length ids * 8
unfolding u64s_to_le_bytes
length-u64s [] = refl
length-u64s (id ∷ ids) = omega (
  arith,
  length-append (to_le_bytes id) (u64s_to_le_bytes ids),
  length-le_bytes 8 id,
  length-u64s ids,
)

u64s-AreBytes : (ids : List ℕ) → AreBytes (u64s_to_le_bytes ids)
unfolding u64s_to_le_bytes
u64s-AreBytes [] = tt
u64s-AreBytes (id ∷ ids) = append-AreBytes _ _ (le_bytes-AreBytes 8 id) (u64s-AreBytes ids)

-- The buffer of a list of peer ids has eight bytes for each, all of them below 256, and fills the
-- capacity that was reserved for it.
pub u64s_to_le_bytes-AreBytes :
    (ids : List ℕ)
    → (length (u64s_to_le_bytes ids) ≡ length ids * 8)
      × AreBytes (u64s_to_le_bytes ids)
      × (packed ids ≡ to_vec (u64s_to_le_bytes ids))
unfolding packed
u64s_to_le_bytes-AreBytes ids = (length-u64s ids, u64s-AreBytes ids, exact (length-u64s ids))
  where
    exact :
        {k : ℕ}
        → length (u64s_to_le_bytes ids) ≡ k
        → record { items = u64s_to_le_bytes ids; capacity = k } ≡ to_vec (u64s_to_le_bytes ids)
    exact e = ap (λ k. record { items = u64s_to_le_bytes ids; capacity = k }) (sym e)

-- Peer ids that fit in 64 bits are read back, in their order, from the buffer that is made of them:
-- as many little-endian words of eight bytes as there were ids.
pub read_u64s-u64s_to_le_bytes :
    (ids : List ℕ) → AreU64 ids → read_u64s (length ids) (u64s_to_le_bytes ids) ≡ ids
unfolding u64s_to_le_bytes limit
read_u64s-u64s_to_le_bytes [] h = refl
read_u64s-u64s_to_le_bytes (id ∷ ids) h =
    rw (first, rest)
      (rw (le_value-le_bytes 8 id h.0) (ap (◌∷◌ id) (read_u64s-u64s_to_le_bytes ids h.1)))
  where
    first : take 8 (to_le_bytes id ++ u64s_to_le_bytes ids) ≡ to_le_bytes id
    first =
        ap (λ n. take n (to_le_bytes id ++ u64s_to_le_bytes ids)) (sym (length-le_bytes 8 id))
        ∙ take-append (to_le_bytes id) _

    rest : drop 8 (to_le_bytes id ++ u64s_to_le_bytes ids) ≡ u64s_to_le_bytes ids
    rest =
        ap (λ n. drop n (to_le_bytes id ++ u64s_to_le_bytes ids)) (sym (length-le_bytes 8 id))
        ∙ drop-append (to_le_bytes id) _
