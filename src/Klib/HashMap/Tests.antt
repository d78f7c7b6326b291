-- ===== src/Klib/HashMap/Tests.antt =====
-- The table on two keys.
use fish_os.Base.{ℕ, ◌≡◌, refl, [], ◌∷◌, none, some, arith, if◌then◌else◌}
use fish_os.Klib.Cstring.{CString, strcmp}
use fish_os.Klib.Cstring.Compare.{equal}
use fish_os.Klib.HashMap.{
  HashMap, null, entry, sign_extend, hash_from, hash, load_percentage, new, match, is_null,
  get_loop, get, insert_loop, place, reinsert, grow, insert_nested, insert, erase_loop, erase,
}
use fish_os.Klib.HashMap.Insert.{IsValid}
use fish_os.Klib.HashMap.Map.{new-IsValid, get-insert, get-erase}

-- "bin"
abbrev bin : CString
bin = b'b' ∷ b'i' ∷ b'n' ∷ []

-- "."
abbrev dot : CString
dot = b'.' ∷ []

evaluate : Unit {0}
unfolding strcmp equal sign_extend hash_from hash load_percentage new match is_null get_loop get
    insert_loop place reinsert grow insert_nested insert erase_loop erase
evaluate = tt

-- djb2a of "bin"
djb2a_of_bin : hash bin ≡ 193415392
unfolding evaluate
djb2a_of_bin = refl

abbrev empty : HashMap ℕ
empty = new 2

-- the second insertion grows the table, and the size then counts one entry less than there are
two_keys :
    elim (insert bin 1 empty) [ none ↦ none | some m ↦ insert dot 2 m ]
    ≡ some (record { array = entry bin 1 ∷ null ∷ null ∷ entry dot 2 ∷ []; capacity = 4; size = 1 })
unfolding evaluate
two_keys = refl

new-IsValid_example : IsValid {V = ℕ} (new 16) × ((q : CString) → get {V = ℕ} q (new 16) ≡ none)
new-IsValid_example = new-IsValid 16 (omega arith)

abbrev table : HashMap ℕ
table = new 16

get-insert_example :
    (r : HashMap ℕ) × (insert bin 1 table ≡ some r)
    × IsValid r
    × ((q : CString) → get q r ≡ (if equal bin q then some 1 else get q table))
get-insert_example =
    get-insert bin 1 table (new-IsValid 16 (omega arith)).0 (unfold evaluate in refl)

-- the table that holds 1 under "bin"
abbrev filled : HashMap ℕ
filled = get-insert_example.0

get-erase_example :
    IsValid (erase bin filled)
    × ((q : CString) → get q (erase bin filled) ≡ (if equal bin q then none else get q filled))
get-erase_example = get-erase bin filled get-insert_example.2
