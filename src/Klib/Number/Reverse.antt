-- ===== src/Klib/Number/Reverse.antt =====
-- `strrev` of student-distrib/lib.c on a text.
use unix_like_os.Base.{
  ℕ, zero, suc, ◌+◌, ◌^◌, ◌<◌, ◌≡◌, ap, refl, sym, ◌∙◌, true, false, some, [], ◌∷◌, ◌++◌, reverse,
  append_assoc, arith, Bytes, ltb, sub32, slt, length, get_elem?, set, length-append, ltb-true,
  ltb-false,
}
use unix_like_os.Klib.Text.{store, IsText, strlen-text}
use unix_like_os.Klib.Number.{rev_from, strrev}
use mathlib.Core.List.{reverse-append, reverse-cons}

get_elem?-append :
    (pre : Bytes) (x : ℕ) (s : Bytes) (i : ℕ)
    → i ≡ length pre
    → get_elem? (pre ++ (x ∷ s)) i ≡ some x
get_elem?-append [] x s zero e = refl
get_elem?-append [] x s (suc i) e = absurd (omega (arith, e))
get_elem?-append (y ∷ pre) x s zero e = absurd (omega (arith, e))
get_elem?-append (y ∷ pre) x s (suc i) e = get_elem?-append pre x s i (omega arith)

set-append :
    (pre : Bytes) (x y : ℕ) (s : Bytes) (i : ℕ)
    → i ≡ length pre
    → set (pre ++ (x ∷ s)) i y ≡ pre ++ (y ∷ s)
set-append [] x y s zero e = refl
set-append [] x y s (suc i) e = absurd (omega (arith, e))
set-append (z ∷ pre) x y s zero e = absurd (omega (arith, e))
set-append (z ∷ pre) x y s (suc i) e = ap (λ l. z ∷ l) (set-append pre x y s i (omega arith))

pub store-append :
    (pre : Bytes) (x y : ℕ) (s : Bytes) (i : ℕ)
    → i ≡ length pre
    → store (pre ++ (x ∷ s)) i y ≡ some (pre ++ (y ∷ s))
unfolding store
store-append pre x y s i e =
    let at : ltb i (length (pre ++ (x ∷ s))) ≡ true =
      ltb-true i _ (omega (arith, e, length-append pre (x ∷ s))) in
    rw (at, set-append pre x y s i e) refl

-- a list by its last element
abbrev Snoc : Bytes → Type 0
Snoc l = (m : Bytes) × (b : ℕ) × (l ≡ m ++ (b ∷ []))

snoc : (x : ℕ) (xs : Bytes) → Snoc (x ∷ xs)
snoc x [] = ([], x, refl)
snoc x (y ∷ xs) = let (m, b, e) = snoc y xs in (x ∷ m, b, ap (λ l. x ∷ l) e)

reverse_ends : (a b : ℕ) (m : Bytes) → reverse (a ∷ (m ++ (b ∷ []))) ≡ b ∷ (reverse m ++ (a ∷ []))
reverse_ends a b m =
    reverse-cons a (m ++ (b ∷ [])) ∙ ap (λ l. l ++ (a ∷ [])) (reverse-append m (b ∷ []))

rev_from-reverse :
    (rounds beg end : ℕ) (pre mid post : Bytes)
    → beg ≡ length pre
    → end ≡ sub32 (length pre + length mid) 1
    → length pre + length mid < 2 ^ 31
    → length mid < rounds
    → rev_from rounds beg end (pre ++ (mid ++ post)) ≡ some (pre ++ (reverse mid ++ post))
unfolding rev_from
rev_from-reverse zero beg end pre mid post e f h k = absurd (omega (arith, k))
rev_from-reverse (suc rounds) beg end pre [] post e f h k =
    let stop : slt beg end ≡ false = ltb-false _ _ (omega arith) in rw stop refl
rev_from-reverse (suc rounds) beg end pre (a ∷ []) post e f h k =
    let stop : slt beg end ≡ false = ltb-false _ _ (omega arith) in rw stop refl
rev_from-reverse (suc rounds) beg end pre (a ∷ (y ∷ ys)) post e f h k =
    let (m, b, ends) = snoc y ys in
    let len : suc (length ys) ≡ length m + 1 = ap length ends ∙ length-append m (b ∷ []) in
    let more : slt beg end ≡ true = ltb-true _ _ (omega arith) in
    let last : end ≡ length (pre ++ (a ∷ m)) = omega (arith, length-append pre (a ∷ m)) in
    let here : pre ++ ((a ∷ (y ∷ ys)) ++ post) ≡ pre ++ (a ∷ (m ++ (b ∷ post))) =
      ap (λ l. pre ++ (a ∷ l)) (ap (λ l. l ++ post) ends ∙ append_assoc m (b ∷ []) post) in
    let there : (c : ℕ) → pre ++ (a ∷ (m ++ (c ∷ post))) ≡ (pre ++ (a ∷ m)) ++ (c ∷ post) =
      λ c. sym (append_assoc pre (a ∷ m) (c ∷ post)) in
    let move : (c : ℕ) (l : Bytes) → pre ++ (c ∷ l) ≡ (pre ++ (c ∷ [])) ++ l =
      λ c l. sym (append_assoc pre (c ∷ []) l) in
    let first = get_elem?-append pre a (m ++ (b ∷ post)) beg e in
    let at_end =
      ap (λ l. get_elem? l end) (there b) ∙ get_elem?-append (pre ++ (a ∷ m)) b post end last in
    let put_end =
      ap (λ l. store l end a) (there b)
      ∙ store-append (pre ++ (a ∷ m)) b a post end last
      ∙ ap some (sym (there a)) in
    let put_beg = store-append pre a b (m ++ (a ∷ post)) beg e in
    let longer = length-append pre (b ∷ []) in
    let ih =
      rev_from-reverse rounds (beg + 1) (sub32 end 1) (pre ++ (b ∷ [])) m (a ∷ post)
        (omega (arith, longer)) (omega (arith, longer)) (omega (arith, longer)) (omega arith) in
    let mid : reverse (a ∷ (y ∷ ys)) ≡ b ∷ (reverse m ++ (a ∷ [])) =
      ap (λ l. reverse (a ∷ l)) ends ∙ reverse_ends a b m in
    rw
      (
        more,
        here,
        at_end,
        first,
        put_end,
        put_beg,
        move b (m ++ (a ∷ post)),
        ih,
        mid,
        append_assoc pre (b ∷ []),
        append_assoc (reverse m) (a ∷ []),
      )
      refl

pub strrev-reverse :
    (text rest : Bytes)
    → IsText text
    → length text < 2 ^ 31
    → strrev (text ++ (0 ∷ rest)) ≡ some (reverse text ++ (0 ∷ rest))
unfolding strrev
strrev-reverse text rest h k = rw (strlen-text text rest h) (
    rev_from-reverse (length text + 1) 0 _ [] text (0 ∷ rest) refl (omega arith) (omega arith)
      (omega arith))
