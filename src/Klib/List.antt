-- ===== src/Klib/List.antt =====
-- src/klib/list.hpp: circular doubly linked lists, on the memory that holds their links.
-- A pointer is an address, 0 the null pointer. `none` is a store through the null pointer.
pub mod Ring
pub mod Change
pub mod Entries
pub mod Removal
use fish_os.Base.{ℕ, Bool, Option, none, some, ◌==◌, if◌then◌else◌}

pub record ListHead : Type 0 where
  pub next : ℕ
  pub prev : ℕ

abbrev pub Links : Type 0
Links = ℕ → ListHead

unfoldable pub store : ℕ → ListHead → Links → Links
store p l h a = if a == p then l else h a

-- `p->next = v`
unfoldable pub set_next : ℕ → ℕ → Links → Option Links
set_next p v h = if p == 0 then none else some (store p (record (h p) { next = v }) h)

-- `p->prev = v`
unfoldable pub set_prev : ℕ → ℕ → Links → Option Links
set_prev p v h = if p == 0 then none else some (store p (record (h p) { prev = v }) h)

infixl 5 ◌>>=◌
abbrev pub ◌>>=◌ : Option Links → (Links → Option Links) → Option Links
none >>= f = none
some h >>= f = f h

unfoldable pub init : ℕ → Links → Option Links
init this h = do h1 ← set_next this this h; set_prev this this h1

unfoldable pub add : ℕ → ℕ → Links → Option Links
add this entry h = do
  h1 ← set_prev (h this).next entry h
  h2 ← set_next entry (h1 this).next h1
  h3 ← set_prev entry this h2
  set_next this entry h3

unfoldable pub add_before : ℕ → ℕ → Links → Option Links
add_before this entry h = do
  h1 ← set_next (h this).prev entry h
  h2 ← set_prev entry (h1 this).prev h1
  h3 ← set_next entry this h2
  set_prev this entry h3

unfoldable pub remove : ℕ → Links → Option Links
remove this h = do
  h1 ← set_prev (h this).next (h this).prev h
  h2 ← set_next (h1 this).prev (h1 this).next h1
  h3 ← set_next this 0 h2
  set_prev this 0 h3

unfoldable pub empty : ℕ → Links → Bool
empty this h = (h this).next == this
