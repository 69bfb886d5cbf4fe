-- ===== src/Klib/Format/Check.antt =====
-- Tests of formats of `printf` of student-distrib/lib.c.
use unix_like_os.Base.{
  ℕ, ◌≡◌, inl, inr, sym, subst, Bool, true, false, [], ◌∷◌, ◌++◌, arith, Bytes, ◌==◌, if◌then◌else◌,
  ◌&&◌, not, Bool-cases, ==_iff,
}
use unix_like_os.Klib.Format.{Frame, Mode, plain, conv}
use unix_like_os.Klib.Format.Emit.{other}
use unix_like_os.Klib.Format.Output.{Complete, done, literal, begin, hash, conversion}

-- a literal that `printf` writes as it stands: no NUL and no `%`
abbrev pub is_literal : Bytes → Bool
is_literal [] = true
is_literal (c ∷ s) = not (c == 0) && not (c == 37) && is_literal s

-- a format that does not end inside a conversion and has no `%s`
abbrev pub is_complete : Mode → Bytes → Bool
is_complete plain [] = true
is_complete plain (c ∷ s) =
    not (c == 0) && (if c == 37 then is_complete (conv false) s else is_complete plain s)
is_complete (conv a) [] = false
is_complete (conv a) (c ∷ s) =
    if c == 35 then is_complete (conv true) s else (not (c == 115) && is_complete plain s)

pub is_complete-Complete :
    (f : Frame) (m : Mode) (s : Bytes) (esp : ℕ) → is_complete m s ≡ true → Complete f m s esp
is_complete-Complete f plain [] esp h = done esp
is_complete-Complete f plain (c ∷ s) esp h = elim (Bool-cases (c == 37)) [
  | inl e ↦
      subst (λ k. Complete f plain (k ∷ s) esp) (sym ((==_iff c 37).0 e))
        (begin s esp (is_complete-Complete f (conv false) s esp (ground (arith, h, e))))
  | inr e ↦
      literal c s esp (ground (arith, h)) (ground (arith, e))
        (is_complete-Complete f plain s esp (ground (arith, h, e)))
]
is_complete-Complete f (conv a) [] esp h = ground (arith, h)
is_complete-Complete f (conv a) (c ∷ s) esp h = elim (Bool-cases (c == 35)) [
  | inl e ↦
      subst (λ k. Complete f (conv a) (k ∷ s) esp) (sym ((==_iff c 35).0 e))
        (hash a s esp (is_complete-Complete f (conv true) s esp (ground (arith, h, e))))
  | inr e ↦
      conversion a c s esp (ground (arith, e)) (other c _ (ground (arith, h, e)))
        (is_complete-Complete f plain s _ (ground (arith, h, e)))
]

pub append-Complete :
    (f : Frame) (l s : Bytes) (esp : ℕ)
    → is_literal l ≡ true
    → Complete f plain s esp
    → Complete f plain (l ++ s) esp
append-Complete f [] s esp h c = c
append-Complete f (x ∷ l) s esp h c =
    literal x (l ++ s) esp (ground (arith, h)) (ground (arith, h))
      (append-Complete f l s esp (ground (arith, h)) c)
