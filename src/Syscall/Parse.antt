-- ===== src/Syscall/Parse.antt =====
-- `check_command` of student-distrib/syscall.c on whole command lines.
use unix_like_os.Base.{
  ℕ, zero, suc, ◌+◌, ◌<◌, ◌≤◌, ◌≡◌, ◌≢◌, ◌⊎◌, inl, inr, ap, ap₂, refl, sym, ◌∙◌, true, false, some,
  [], ◌∷◌, ◌++◌, append_assoc, arith, Bytes, ◌==◌, ltb, ◌||◌, All, length, set, replicate,
  length-append, ==_ne, ltb-true,
}
use unix_like_os.Klib.Text.{name_of, store}
use unix_like_os.Syscall.Command.{
  space, copy_name, skip_spaces, copy_args, leading_space, check_command,
}

-- a name: no NUL and no space
abbrev pub IsWord : Bytes → Type 0
IsWord = All (λ c. (c ≢ 0) × (c ≢ space))

-- the arguments: no NUL
abbrev pub IsArgs : Bytes → Type 0
IsArgs = All (λ c. c ≢ 0)

set-append :
    (pre : Bytes) (x : ℕ) (d : Bytes) (c : ℕ) → set (pre ++ (x ∷ d)) (length pre) c ≡ pre ++ (c ∷ d)
set-append [] x d c = refl
set-append (p ∷ pre) x d c = ap (λ (l : Bytes). p ∷ l) (set-append pre x d c)

-- A write behind `pre` in a field that has room.
store-append :
    (pre : Bytes) (x : ℕ) (d : Bytes) (i c : ℕ)
    → i ≡ length pre
    → store (pre ++ (x ∷ d)) i c ≡ some (pre ++ (c ∷ d))
unfolding store
store-append pre x d i c e =
    let t : ltb i (length (pre ++ (x ∷ d))) ≡ true =
      ltb-true _ _ (omega (arith, length-append pre (x ∷ d))) in
    rw (t, e, set-append pre x d c)

abbrev StartsEnd : Bytes → Type 0
StartsEnd [] = ⊥
StartsEnd (c ∷ cs) = (c ≡ space) ⊎ (c ≡ 0)

copy_name-word :
    (word tail pre d : Bytes) (i : ℕ)
    → IsWord word
    → StartsEnd tail
    → length word ≤ length d
    → i ≡ length pre
    → (d' : Bytes) × (copy_name (word ++ tail) i (pre ++ d)
        ≡ some (tail, i + length word, pre ++ (word ++ d')))
      × (length word + length d' ≡ length d)
unfolding copy_name
copy_name-word [] [] pre d i h s le e = absurd s
copy_name-word [] (t ∷ tail) pre d i h s le e =
    let z : ((t == space) || (t == 0)) ≡ true = ground arith in
    (d, rw z (ap (λ n. some (t ∷ tail, n, pre ++ d)) (omega arith)), omega arith)
copy_name-word (c ∷ word) tail pre [] i h s le e = absurd (omega arith)
copy_name-word (c ∷ word) tail pre (x ∷ d) i h s le e =
    let z : ((c == space) || (c == 0)) ≡ false = ground arith in
    let (d', r, len) =
      copy_name-word word tail (pre ++ (c ∷ [])) d (i + 1) h.1 s (omega arith)
        (omega (arith, length-append pre (c ∷ []))) in
    let a : (pre ++ (c ∷ [])) ++ d ≡ pre ++ (c ∷ d) = append_assoc pre (c ∷ []) d in
    let b : (pre ++ (c ∷ [])) ++ (word ++ d') ≡ pre ++ (c ∷ (word ++ d')) =
      append_assoc pre (c ∷ []) (word ++ d') in
    (
      d',
      rw (z, store-append pre x d i c e)
          (ap (λ l. copy_name (word ++ tail) (i + 1) l) (sym a)
            ∙ r
            ∙ ap₂ (λ n l. some (tail, n, l)) (omega arith) b),
      omega (arith, len),
    )

copy_args-text :
    (text rest pre d : Bytes) (j : ℕ)
    → IsArgs text
    → length text < length d
    → j ≡ length pre
    → (d' : Bytes) × (copy_args (text ++ (0 ∷ rest)) j (pre ++ d)
        ≡ some (pre ++ (text ++ (0 ∷ d'))))
      × (length text + suc (length d') ≡ length d)
unfolding copy_args
copy_args-text [] rest pre [] j h lt e = absurd (omega arith)
copy_args-text [] rest pre (x ∷ d) j h lt e = (d, store-append pre x d j 0 e, omega arith)
copy_args-text (c ∷ text) rest pre [] j h lt e = absurd (omega arith)
copy_args-text (c ∷ text) rest pre (x ∷ d) j h lt e =
    let z : (c == 0) ≡ false = ground arith in
    let (d', r, len) =
      copy_args-text text rest (pre ++ (c ∷ [])) d (j + 1) h.1 (omega arith)
        (omega (arith, length-append pre (c ∷ []))) in
    let a : (pre ++ (c ∷ [])) ++ d ≡ pre ++ (c ∷ d) = append_assoc pre (c ∷ []) d in
    let b : (pre ++ (c ∷ [])) ++ (text ++ (0 ∷ d')) ≡ pre ++ (c ∷ (text ++ (0 ∷ d'))) =
      append_assoc pre (c ∷ []) (text ++ (0 ∷ d')) in
    (
      d',
      rw (z, store-append pre x d j c e)
          (ap (λ l. copy_args (text ++ (0 ∷ rest)) (j + 1) l) (sym a) ∙ r ∙ ap some b),
      omega (arith, len),
    )

-- the arguments do not begin with a space
abbrev pub NoSpaceFirst : Bytes → Type 0
NoSpaceFirst [] = Unit
NoSpaceFirst (c ∷ cs) = c ≢ space

skip_spaces-replicate :
    (n : ℕ) (args rest : Bytes)
    → NoSpaceFirst args
    → skip_spaces (replicate n space ++ (args ++ (0 ∷ rest))) ≡ some (args ++ (0 ∷ rest))
unfolding skip_spaces
skip_spaces-replicate zero [] rest h = refl
skip_spaces-replicate zero (c ∷ args) rest h = rw (==_ne c space h)
skip_spaces-replicate (suc n) args rest h = skip_spaces-replicate n args rest h

-- What a field of `n` bytes that holds a text and a NUL names.
name_of-text :
    (n : ℕ) (text d : Bytes) → IsArgs text → length text < n → name_of n (text ++ (0 ∷ d)) ≡ text
unfolding name_of
name_of-text zero text d h lt = absurd (omega arith)
name_of-text (suc n) [] d h lt = refl
name_of-text (suc n) (c ∷ text) d h lt =
    rw (==_ne c 0 h.0) (ap (λ (l : Bytes). c ∷ l) (name_of-text n text d h.1 (omega arith)))

IsWord-IsArgs : (word : Bytes) → IsWord word → IsArgs word
IsWord-IsArgs [] h = tt
IsWord-IsArgs (c ∷ word) h = (h.0.0, IsWord-IsArgs word h.1)

-- A name, at least one space before any arguments, the arguments, and the NUL.
abbrev pub command_line : Bytes → ℕ → Bytes → Bytes → Bytes
command_line word n args rest = word ++ (replicate n space ++ (args ++ (0 ∷ rest)))

StartsEnd-tail :
    (n : ℕ) (args rest : Bytes)
    → (1 ≤ n) ⊎ (args ≡ [])
    → StartsEnd (replicate n space ++ (args ++ (0 ∷ rest)))
StartsEnd-tail (suc n) args rest h = inl refl
StartsEnd-tail zero [] rest h = inr refl
StartsEnd-tail zero (c ∷ args) rest (inl h) = absurd (omega arith)
StartsEnd-tail zero (c ∷ args) rest (inr h) = cc

-- the NUL behind a name that leaves room for it
store-end :
    (word d : Bytes) (i : ℕ)
    → i ≡ length word
    → 1 ≤ length d
    → (d' : Bytes) × (store (word ++ d) i 0 ≡ some (word ++ (0 ∷ d')))
      × (length d ≡ suc (length d'))
store-end word [] i e h = absurd (omega arith)
store-end word (x ∷ d) i e h = (d, store-append word x d i 0 e, refl)

no_leading_space :
    (word tail : Bytes) → IsWord word → word ≢ [] → leading_space (word ++ tail) ≡ false
no_leading_space [] tail h ne = absurd (ne refl)
no_leading_space (c ∷ word) tail h ne = ==_ne c space h.0.1

-- A command line of a non-empty name and arguments that do not begin with a space, each shorter than
-- its field of 128 bytes, with any spaces between them (at least one if there are arguments), is
-- accepted without a fault: the fields then hold exactly the name and the arguments.
pub check_command-split :
    (word args rest name0 args0 : Bytes) (n : ℕ)
    → IsWord word
    → word ≢ []
    → IsArgs args
    → NoSpaceFirst args
    → (1 ≤ n) ⊎ (args ≡ [])
    → length name0 ≡ 128
    → length args0 ≡ 128
    → length word < 128
    → length args < 128
    → (name' : Bytes) × (args' : Bytes) × (check_command
          (some (command_line word n args rest))
          name0
          args0
        ≡ some (0, name', args'))
      × (name_of 128 name' ≡ word)
      × (name_of 128 args' ≡ args)
      × (length name' ≡ 128)
      × (length args' ≡ 128)
unfolding check_command
check_command-split word args rest name0 args0 n w ne a first gap ln la sw sa =
    let tail = replicate n space ++ (args ++ (0 ∷ rest)) in
    let (d, named, left) =
      copy_name-word word tail [] name0 0 w (StartsEnd-tail n args rest gap) (omega arith) refl in
    let (d', ended, room) = store-end word d (0 + length word) (omega arith) (omega arith) in
    let (d'', copied, left') = copy_args-text args rest [] args0 0 a (omega arith) refl in
    (
      word ++ (0 ∷ d'),
      args ++ (0 ∷ d''),
      rw (
        no_leading_space word tail w ne,
        named,
        ended,
        skip_spaces-replicate n args rest first,
        copied,
      ),
      name_of-text 128 word d' (IsWord-IsArgs word w) sw,
      name_of-text 128 args d'' a sa,
      omega (arith, length-append word (0 ∷ d')),
      omega (arith, length-append args (0 ∷ d'')),
    )
