-- ===== src/Fs/Path/Components.antt =====
-- src/fs/vfs.cpp: the components of a path, and how the loop of `path_to_node` cuts them off.
use fish_os.Base.{
  ℕ, zero, suc, ◌+◌, ◌≡◌, refl, sym, ap, ◌∙◌, Bool, true, false, Bool-cases, inl, inr, List, [],
  ◌∷◌, none, some, ◌==◌, if◌then◌else◌, length, take, drop, arith, Option-cases,
}
use fish_os.Klib.Cstring.{CString, strlen, strchr}
use fish_os.Fs.Path.{entry_name_len, is_last}

unfoldable pub is_nil {ℓ} : {A : Type ℓ} → List A → Bool
is_nil [] = true
is_nil (x ∷ xs) = false

unfoldable pub prepend : ℕ → List CString → List CString
prepend c [] = (c ∷ []) ∷ []
prepend c (name ∷ names) = (c ∷ name) ∷ names

-- the names between the slashes; a slash at the end starts no further one
unfoldable pub components : CString → List CString
components [] = [] ∷ []
components (c ∷ cs) =
    let rest = components cs in
    if c == 47 then (if is_nil cs then [] ∷ [] else [] ∷ rest) else prepend c rest

-- a string without a NUL among its bytes
unfoldable pub IsPlain : CString → Type 0
IsPlain path = strlen path ≡ length path

pub tail-IsPlain : (c : ℕ) (cs : CString) → IsPlain (c ∷ cs) → IsPlain cs
unfolding IsPlain strlen
tail-IsPlain c cs h = ground (arith, h)

head_ne : (c : ℕ) (cs : CString) → IsPlain (c ∷ cs) → (c == 0) ≡ false
unfolding IsPlain strlen
head_ne c cs h = ground (arith, h)

pub drop-IsPlain : (n : ℕ) (path : CString) → IsPlain path → IsPlain (drop n path)
drop-IsPlain zero path h = h
drop-IsPlain (suc n) [] h = h
drop-IsPlain (suc n) (c ∷ cs) h = drop-IsPlain n cs (tail-IsPlain c cs h)

-- the components behind the first
unfoldable pub later : CString → List CString
later path =
    if is_last path (length path)
    then []
    else components (drop (entry_name_len path (length path) + 1) path)

take_all : (cs : CString) → take (length cs) cs ≡ cs
take_all [] = refl
take_all (c ∷ cs) = ap (λ l. c ∷ l) (take_all cs)

-- what the loop makes of a path
unfoldable pub cut : CString → List CString
cut path = take (entry_name_len path (length path)) path ∷ later path

pub is_last-none : (path : CString) (len : ℕ) → strchr path 47 ≡ none → is_last path len ≡ true
unfolding is_last
is_last-none path len end = rw (is_last, end) refl

pub is_last-some :
    (n : ℕ) (path : CString) (len : ℕ) → strchr path 47 ≡ some n → is_last path len ≡ (n + 1 == len)
unfolding is_last
is_last-some n path len found = rw (is_last, found) refl

entry_name_len-none :
    (path : CString) (len : ℕ) → strchr path 47 ≡ none → entry_name_len path len ≡ len
unfolding entry_name_len
entry_name_len-none path len end = rw (entry_name_len, end) refl

pub entry_name_len-some :
    (n : ℕ) (path : CString) (len : ℕ) → strchr path 47 ≡ some n → entry_name_len path len ≡ n
unfolding entry_name_len
entry_name_len-some n path len found = rw (entry_name_len, found) refl

cut-none : (path : CString) → strchr path 47 ≡ none → cut path ≡ path ∷ []
unfolding cut later
cut-none path end =
    rw (is_last-none path (length path) end, entry_name_len-none path (length path) end)
      (ap (λ l. l ∷ []) (take_all path))

-- the components when the next slash stands at `n`
behind : ℕ → CString → List CString
behind n path = if n + 1 == length path then [] else components (drop (n + 1) path)

cut-some :
    (n : ℕ) (path : CString) → strchr path 47 ≡ some n → cut path ≡ take n path ∷ behind n path
unfolding cut later behind
cut-some n path found =
    rw (is_last-some n path (length path) found, entry_name_len-some n path (length path) found)
      refl

strchr-slash : (c : ℕ) (cs : CString) → (c == 47) ≡ true → strchr (c ∷ cs) 47 ≡ some 0
unfolding strchr
strchr-slash c cs slash = rw slash refl

strchr-char :
    (c : ℕ) (cs : CString)
    → (c == 47) ≡ false
    → (c == 0) ≡ false
    → strchr (c ∷ cs) 47 ≡ elim (strchr cs 47) [ none ↦ none | some n ↦ some (n + 1) ]
unfolding strchr
strchr-char c cs char byte = rw (char, byte) refl

components-slash :
    (c : ℕ) (cs : CString) → (c == 47) ≡ true → components (c ∷ cs) ≡ [] ∷ behind 0 (c ∷ cs)
unfolding components behind is_nil
components-slash c [] slash = rw slash refl
components-slash c (d ∷ ds) slash =
    let e : (1 == suc (suc (length ds))) ≡ false = ground arith in rw (slash, behind, e) refl

components-char :
    (c : ℕ) (cs : CString) → (c == 47) ≡ false → components (c ∷ cs) ≡ prepend c (components cs)
unfolding components
components-char c cs char = rw char refl

behind-suc : (n c : ℕ) (cs : CString) → behind (n + 1) (c ∷ cs) ≡ behind n cs
unfolding behind
behind-suc n c cs =
    let e : n + 1 + 1 ≡ suc (n + 1) = omega arith in
    rw e (elim (Bool-cases (n + 1 == length cs)) [
      | inl end ↦
          let e' : (suc (n + 1) == suc (length cs)) ≡ true = ground arith in rw (end, e') refl
      | inr more ↦
          let e' : (suc (n + 1) == suc (length cs)) ≡ false = ground arith in rw (more, e') refl
    ])

-- The loop cuts off the first component.
pub components_cons : (path : CString) → IsPlain path → components path ≡ cut path
unfolding prepend components cut later entry_name_len is_last strchr
components_cons [] h = refl
components_cons (c ∷ cs) h = elim (Bool-cases (c == 47)) [
  | inl slash ↦ components-slash c cs slash ∙ sym (cut-some 0 (c ∷ cs) (strchr-slash c cs slash))
  | inr char ↦
      let byte = head_ne c cs h in
      let next = strchr-char c cs char byte in
      let rest = components_cons cs (tail-IsPlain c cs h) in
      components-char c cs char ∙ ap (prepend c) rest ∙ elim (Option-cases (strchr cs 47)) [
        | inl end ↦ ap (prepend c) (cut-none cs end) ∙ sym (cut-none (c ∷ cs) (next ∙ rw end refl))
        | inr (n, found) ↦
            let e : suc n ≡ n + 1 = omega arith in
            ap (prepend c) (cut-some n cs found)
            ∙ ap (λ l. (c ∷ take n cs) ∷ l) (sym (behind-suc n c cs))
            ∙ ap (λ k. take k (c ∷ cs) ∷ behind (n + 1) (c ∷ cs)) e
            ∙ sym (cut-some (n + 1) (c ∷ cs) (next ∙ rw found refl))
      ]
]

components-is_nil : (path : CString) → IsPlain path → is_nil (components path) ≡ false
unfolding cut is_nil
components-is_nil path h = ap is_nil (components_cons path h)

pub later-is_nil :
    (path : CString) → IsPlain path → is_nil (later path) ≡ is_last path (length path)
unfolding later is_nil
later-is_nil path h = elim (Bool-cases (is_last path (length path))) [
  | inl last ↦ rw last refl
  | inr more ↦ rw more (
      components-is_nil (drop (entry_name_len path (length path) + 1) path)
        (drop-IsPlain (entry_name_len path (length path) + 1) path h))
]

pub components-one :
    (path : CString) → IsPlain path → strchr path 47 ≡ none → components path ≡ path ∷ []
components-one path h one = components_cons path h ∙ cut-none path one
