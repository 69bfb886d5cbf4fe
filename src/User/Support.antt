-- ===== src/User/Support.antt =====
-- The strings of syscalls/ece391support.c that student-distrib/lib.c does not have too.
use unix_like_os.Base.{
  ℕ, ◌≡◌, inl, inr, ap₂, refl, sym, Option, none, some, [], ◌∷◌, ◌++◌, arith, Bytes, ◌==◌,
  if◌then◌else◌, sub32, Bool-cases, ==_iff, ==_ne,
}
use unix_like_os.Klib.Text.{IsText}

-- `ece391_strcmp`: the bytes are unsigned, and the list is what may be read from a pointer on
unfoldable pub strcmp : Bytes → Bytes → Option ℕ
strcmp [] s2 = none
strcmp (a ∷ s1) [] = none
strcmp (a ∷ s1) (b ∷ s2) =
    let rest = strcmp s1 s2 in
    if a == b then (if a == 0 then some 0 else rest) else some (sub32 a b)

-- The comparison of two texts.
pub record Compares (a b : Bytes) (r : Option ℕ) : Type 0 where
  pub value : ℕ
  pub returned : r ≡ some value
  pub same : value ≡ 0 → a ≡ b
  pub zero_of_same : a ≡ b → value ≡ 0

-- `ece391_strcmp` of two texts does not run past their NULs, and is 0 exactly if they are equal.
pub strcmp_lem :
    (a b rest1 rest2 : Bytes)
    → IsText a
    → IsText b
    → Compares a b (strcmp (a ++ (0 ∷ rest1)) (b ++ (0 ∷ rest2)))
unfolding strcmp
strcmp_lem [] [] rest1 rest2 h k = record {
  value = 0;
  returned = refl;
  same = λ _. refl;
  zero_of_same = λ _. refl;
}
strcmp_lem [] (y ∷ b) rest1 rest2 h (y_ok, k) = record {
  value = sub32 0 y;
  returned = rw (==_ne 0 y (λ e. y_ok.0 (sym e))) refl;
  same = λ e. absurd (omega (arith, e, y_ok.0, y_ok.1));
  zero_of_same = λ e. cc e;
}
strcmp_lem (x ∷ a) [] rest1 rest2 (x_ok, h) k = record {
  value = sub32 x 0;
  returned = rw (==_ne x 0 x_ok.0) refl;
  same = λ e. absurd (omega (arith, e, x_ok.0, x_ok.1));
  zero_of_same = λ e. cc e;
}
strcmp_lem (x ∷ a) (y ∷ b) rest1 rest2 (x_ok, h) (y_ok, k) = elim (Bool-cases (x == y)) [
  | inl e ↦
      let same = (==_iff x y).0 e in
      let ih = strcmp_lem a b rest1 rest2 h k in
      record {
        value = ih.value;
        returned = rw (e, ==_ne x 0 x_ok.0) ih.returned;
        same = λ z. ap₂ ◌∷◌ same (ih.same z);
        zero_of_same = λ z. ih.zero_of_same (cc z);
      }
  | inr d ↦ record {
    value = sub32 x y;
    returned = rw d refl;
    same = λ z. absurd (ground (arith, z, d, x_ok.1, y_ok.1));
    zero_of_same = λ z. ground (arith, z, d);
  }
]
