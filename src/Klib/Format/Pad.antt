-- ===== src/Klib/Format/Pad.antt =====
-- `%#x` of `printf` of student-distrib/lib.c: the zeros in front of a numeral.
use unix_like_os.Base.{
  ℕ, zero, suc, ◌+◌, ◌-◌, ◌≤◌, ◌≡◌, ap, refl, sym, ◌∙◌, some, [], ◌∷◌, ◌++◌, append_assoc, arith,
  Bytes, ◌>>=◌, length, replicate, length-append,
}
use unix_like_os.Terminal.{Terminal}
use unix_like_os.Klib.Console.{puts}
use unix_like_os.Klib.Text.{IsText}
use unix_like_os.Klib.Number.Reverse.{store-append}
use unix_like_os.Klib.Format.{skip, first_of, pad_zeros}
use unix_like_os.Klib.Format.Emit.{emit, puts-text}

pad_zeros-replicate :
    (mid pre s : Bytes) (r i : ℕ)
    → i ≡ length pre
    → r ≡ length mid
    → pad_zeros r i (pre ++ (mid ++ s)) ≡ some (pre ++ (replicate r 48 ++ s))
unfolding pad_zeros
pad_zeros-replicate [] pre s zero i e k = refl
pad_zeros-replicate [] pre s (suc r) i e k = absurd (omega (arith, k))
pad_zeros-replicate (x ∷ mid) pre s zero i e k = absurd (omega (arith, k))
pad_zeros-replicate (x ∷ mid) pre s (suc r) i e k =
    rw (store-append pre x 48 (mid ++ s) i e, sym (append_assoc pre (48 ∷ []) (mid ++ s)))
      (pad_zeros-replicate mid (pre ++ (48 ∷ [])) s r (i + 1)
          (omega (arith, e, length-append pre (48 ∷ []))) (omega (arith, k))
        ∙ ap some (append_assoc pre (48 ∷ []) (replicate r 48 ++ s)))

pub first_of-append-skip :
    (n : ℕ) (s : Bytes)
    → n ≤ length s
    → (first_of n s ++ skip n s ≡ s)
      × (length (first_of n s) ≡ n)
      × (length (skip n s) ≡ length s - n)
unfolding first_of skip
first_of-append-skip zero s h = (refl, refl, omega arith)
first_of-append-skip (suc n) [] h = absurd (omega (arith, h))
first_of-append-skip (suc n) (c ∷ s) h =
    let (e, k, l) = first_of-append-skip n s (omega (arith, h)) in
    (ap (λ r. c ∷ r) e, omega (arith, k), omega (arith, l))

skip-append : (n : ℕ) (pre s : Bytes) → length pre ≡ n → skip n (pre ++ s) ≡ s
unfolding skip
skip-append zero [] s e = refl
skip-append zero (c ∷ pre) s e = absurd (omega (arith, e))
skip-append (suc n) [] s e = absurd (omega (arith, e))
skip-append (suc n) (c ∷ pre) s e = skip-append n pre s (omega (arith, e))

replicate-IsText : (n : ℕ) (text : Bytes) → IsText text → IsText (replicate n 48 ++ text)
replicate-IsText zero text h = h
replicate-IsText (suc n) text h = ((omega arith, omega arith), replicate-IsText n text h)

pub pad_shows :
    (front text rest : Bytes) (t : Terminal)
    → length front ≡ 8
    → length text ≤ 8
    → IsText text
    → (pad_zeros (8 - length text) (length text) (front ++ (text ++ (0 ∷ rest))) >>= λ padded.
        puts (skip (length text) padded) t)
      ≡ some (
        length (replicate (8 - length text) 48 ++ text),
        emit (replicate (8 - length text) 48 ++ text) t,
      )
pad_shows front text rest t eight h is =
    let n = length text in
    let zeros : Bytes = replicate (8 - n) 48 in
    let (whole, len, behind) = first_of-append-skip n front (omega (arith, eight)) in
    let pre = first_of n front in
    let mid = skip n front in
    let cut : front ++ (text ++ (0 ∷ rest)) ≡ pre ++ (mid ++ (text ++ (0 ∷ rest))) =
      ap (λ l. l ++ (text ++ (0 ∷ rest))) (sym whole) ∙ append_assoc pre mid (text ++ (0 ∷ rest)) in
    let padded =
      ap (pad_zeros (8 - n) n) cut
      ∙ pad_zeros-replicate mid pre (text ++ (0 ∷ rest)) (8 - n) n (sym len)
          (omega (arith, behind, eight)) in
    ap (λ r. r >>= λ padded. puts (skip n padded) t) padded
    ∙ ap (λ l. puts l t)
        (skip-append n pre (zeros ++ (text ++ (0 ∷ rest))) len
          ∙ sym (append_assoc zeros text (0 ∷ rest)))
    ∙ puts-text (zeros ++ text) rest t (replicate-IsText (8 - n) text is)
