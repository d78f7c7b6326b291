-- ===== src/Klib/HashMap.antt =====
-- src/klib/hashmap.hpp: an open-addressing table with linear probing and tombstones.
-- An entry's key is the copied string (`strdup` is taken to succeed). `m_size * 100` and
-- `m_capacity * 2` could wrap only past 2 ^ 57 slots, more than memory holds.
pub mod Slots
pub mod Probe
pub mod Place
pub mod Grow
pub mod Insert
pub mod Erase
pub mod Map
mod Tests
use Prim.Native.Nat.{bit_xor}
use fish_os.Base.{
  ℕ, zero, suc, ◌+◌, ◌-◌, ◌*◌, ◌/◌, ◌%◌, ◌^◌, Bool, true, false, List, [], ◌∷◌, Option, none, some,
  ◌==◌, leb, ltb, if◌then◌else◌, length, get_or, set, replicate,
}
use fish_os.Klib.Cstring.{CString}
use fish_os.Klib.Cstring.Compare.{equal}

-- `char` is signed: a byte over 127 becomes a negative `int` before the exclusive or
unfoldable pub sign_extend : ℕ → ℕ
sign_extend c = if ltb c 128 then c else c + 2 ^ 32 - 256

unfoldable pub hash_from : ℕ → CString → ℕ
hash_from h [] = h
hash_from h (c ∷ cs) =
    let rest = hash_from (bit_xor ((h * 2 ^ 5 + h) % 2 ^ 32) (sign_extend c)) cs in
    if c == 0 then h else rest

-- djb2a
unfoldable pub hash : CString → ℕ
hash str = hash_from 5381 str

-- what an element of `m_array` points to: null, `HASHMAP_DELETED_ENTRY` or an entry
pub data Slot {ℓ} (V : Type ℓ) : Type ℓ where
  null : Slot V
  deleted : Slot V
  entry : CString → V → Slot V

pub record HashMap {ℓ} (V : Type ℓ) : Type ℓ where
  pub array : List (Slot V)
  pub capacity : ℕ
  pub size : ℕ

-- `(m_size * 100) / m_capacity`
pub load_percentage : ℕ → ℕ → ℕ
load_percentage size capacity = (size * 100) / capacity

-- the index that round `i` tries
abbrev pub attempt : ℕ → ℕ → ℕ → ℕ
attempt capacity first i = (i + first) % capacity

module _ {ℓ} {V : Type ℓ} where
  -- the constructor, with `calloc`ed slots
  unfoldable pub new : ℕ → HashMap V
  new initial_capacity = record {
    array = replicate initial_capacity null;
    capacity = initial_capacity;
    size = 0;
  }

  -- the value of the slot if it holds an entry under the key
  unfoldable pub match : CString → Slot V → Option V
  match key null = none
  match key deleted = none
  match key (entry k v) = if equal k key then some v else none

  unfoldable pub is_null : Slot V → Bool
  is_null null = true
  is_null _ = false

  abbrev pub slot_at : List (Slot V) → ℕ → Slot V
  slot_at array index = get_or array index null

  -- the loop of `get` from round `i` on
  unfoldable pub get_loop : ℕ → ℕ → (ℕ → ℕ) → List (Slot V) → CString → Option V
  get_loop zero i index array key = none
  get_loop (suc rounds) i index array key = elim (match key (slot_at array (index i))) [
    | some v ↦ some v
    | none ↦ get_loop rounds (i + 1) index array key
  ]

  unfoldable pub get : CString → HashMap V → Option V
  get key m = get_loop m.capacity 0 (attempt m.capacity (hash key % m.capacity)) m.array key

  -- the loop of `insert`: a tombstone is passed over, the first null slot is taken
  unfoldable pub insert_loop : ℕ → ℕ → (ℕ → ℕ) → CString → V → List (Slot V) → List (Slot V)
  insert_loop zero i index key value array = array
  insert_loop (suc rounds) i index key value array = elim (is_null (slot_at array (index i))) [
    | true ↦ set array (index i) (entry key value)
    | false ↦ insert_loop rounds (i + 1) index key value array
  ]

  unfoldable pub place : CString → V → HashMap V → HashMap V
  place key value m = record m {
    array = insert_loop m.capacity 0 (attempt m.capacity (hash key % m.capacity)) key value m.array;
  }

  -- the loop of `grow` over the old array, `ins` being the nested call of `insert`
  pub reinsert :
      (CString → V → HashMap V → Option (HashMap V))
      → List (Slot V)
      → HashMap V
      → Option (HashMap V)
  reinsert ins [] m = some m
  reinsert ins (null ∷ slots) m = reinsert ins slots m
  reinsert ins (deleted ∷ slots) m = reinsert ins slots m
  reinsert ins (entry k v ∷ slots) m = elim (ins k v m) [
    | none ↦ none
    | some m' ↦ reinsert ins slots m'
  ]

  pub grow : (CString → V → HashMap V → Option (HashMap V)) → HashMap V → Option (HashMap V)
  grow ins m = reinsert ins m.array (new (m.capacity * 2))

  -- `insert` and `grow` call one another: the fuel bounds how deep, and `none` says that it ran out
  pub insert_nested : ℕ → CString → V → HashMap V → Option (HashMap V)
  insert_nested zero key value m = none
  insert_nested (suc fuel) key value m =
      let m' : HashMap V = record m { size = m.size + 1 } in
      elim (leb 75 (load_percentage m'.size m'.capacity)) [
        | false ↦ some (place key value m')
        | true ↦ elim (grow (insert_nested fuel) m') [
          | none ↦ none
          | some g ↦ some (place key value g)
        ]
      ]

  -- the nested calls of `insert` do not grow the table again, so two levels are enough
  pub insert : CString → V → HashMap V → Option (HashMap V)
  insert = insert_nested 2

  -- the loop of `erase`: it goes on behind a match, and the size is kept
  pub erase_loop : ℕ → ℕ → (ℕ → ℕ) → CString → List (Slot V) → List (Slot V)
  erase_loop zero i index key array = array
  erase_loop (suc rounds) i index key array =
      erase_loop rounds (i + 1) index key (elim (match key (slot_at array (index i))) [
        | none ↦ array
        | some _ ↦ set array (index i) deleted
      ])

  pub erase : CString → HashMap V → HashMap V
  erase key m = record m {
    array = erase_loop m.capacity 0 (attempt m.capacity (hash key % m.capacity)) key m.array;
  }

  -- the entries that `for_each` visits, in order
  pub entries : List (Slot V) → List (CString × V)
  entries [] = []
  entries (null ∷ slots) = entries slots
  entries (deleted ∷ slots) = entries slots
  entries (entry k v ∷ slots) = (k, v) ∷ entries slots
