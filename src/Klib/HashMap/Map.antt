-- ===== src/Klib/HashMap/Map.antt =====
-- src/klib/hashmap.hpp: the table as a map from strings, through `get`.
use mathlib.Core.Path.{subst}
use fish_os.Base.{ℕ, ◌%◌, ◌<◌, ◌≡◌, sym, ap, ◌∙◌, none, some, if◌then◌else◌, arith, length}
use fish_os.Klib.Cstring.{CString}
use fish_os.Klib.Cstring.Compare.{equal}
use fish_os.Klib.HashMap.{HashMap, hash, attempt, get_loop, get, insert, erase, new}
use fish_os.Klib.HashMap.Slots.{find}
use fish_os.Klib.HashMap.Probe.{Covers, attempt-Covers, get_loop-find}
use fish_os.Klib.HashMap.Place.{IsTable}
use fish_os.Klib.HashMap.Grow.{find-null, new-IsTable, occupied-null}
use fish_os.Klib.HashMap.Insert.{IsValid, insert-Inserted}
use fish_os.Klib.HashMap.Erase.{erase-Removed}

module _ {ℓ} {V : Type ℓ} where
  -- On a table without duplicates `get`, which probes from the hash on, finds what a search of the
  -- whole array finds.
  pub get-find : (key : CString) (m : HashMap V) → IsTable m → get key m ≡ find key m.array
  unfolding get
  get-find key m t =
      let index = attempt m.capacity (hash key % m.capacity) in
      let c : Covers index (length m.array) =
        subst (Covers index) t.width (attempt-Covers m.capacity (hash key) t.pos) in
      ap (λ n. get_loop n 0 index m.array key) t.width ∙ get_loop-find index m.array key c t.unique

  -- A new table of positive capacity is valid and has nothing under any key.
  pub new-IsValid :
      (n : ℕ) → 0 < n → IsValid {V = V} (new n) × ((q : CString) → get {V = V} q (new n) ≡ none)
  unfolding new
  new-IsValid n pos =
      let t = new-IsTable V n pos in
      (
        record { table = t; filled = omega (arith, occupied-null V n); light = omega arith },
        λ q. get-find q (new n) t ∙ find-null V q n,
      )

  -- On a valid table `insert` of a key that `get` does not find succeeds within two levels of
  -- nesting, whether or not the table grows; the result is valid, has the value under every string
  -- equal to the key, and what it had under every other.
  pub get-insert :
      (key : CString) (v : V) (m : HashMap V)
      → IsValid m
      → get key m ≡ none
      → (r : HashMap V) × (insert key v m ≡ some r)
        × IsValid r
        × ((q : CString) → get q r ≡ (if equal key q then some v else get q m))
  get-insert key v m w f =
      let (r, run, i) = insert-Inserted key v m w (sym (get-find key m w.table) ∙ f) in
      (r, run, i.valid, λ q. rw (get-find q r i.valid.table, get-find q m w.table) (i.reads q))

  -- On a valid table `erase` leaves a valid table that has nothing under any string equal to the key
  -- and what it had under every other.
  pub get-erase :
      (key : CString) (m : HashMap V)
      → IsValid m
      → IsValid (erase key m)
        × ((q : CString) → get q (erase key m) ≡ (if equal key q then none else get q m))
  get-erase key m w =
      let e = erase-Removed key m w in
      (e.valid, λ q. rw (get-find q (erase key m) e.valid.table, get-find q m w.table) (e.reads q))
