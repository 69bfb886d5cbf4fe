-- ===== src/Boot/Report/Prints.antt =====
-- The calls of `printf` in student-distrib/kernel.c return.
use unix_like_os.Base.{
  ℕ, zero, suc, ◌+◌, ◌%◌, ◌^◌, ◌≡◌, inl, inr, ap, refl, ◌∙◌, true, false, Option, some, List, [],
  ◌∷◌, ◌++◌, arith, Bytes, ◌>>=◌, Bool-cases, get_or,
}
use unix_like_os.Base.Strings.{chars}
use unix_like_os.Terminal.{Terminal}
use unix_like_os.Klib.Text.{IsText}
use unix_like_os.Klib.Format.{Frame, plain}
use unix_like_os.Klib.Format.Emit.{FrameOk, string}
use unix_like_os.Klib.Format.Output.{Complete, done, begin, conversion, literal, printf-Formatted}
use unix_like_os.Klib.Format.Check.{is_literal, is_complete, is_complete-Complete, append-Complete}
use unix_like_os.Boot.Report.{
  MultibootInfo, Module, early_putch, early_text, print, print_bytes, print_module, when_flag,
  check_flag,
}

-- A call that returns, with what holds of its value.
abbrev pub Gives {ℓ} : {A : Type ℓ} → (A → Type 0) → Option A → Type ℓ
Gives {A = A} P m = (x : A) × (m ≡ some x) × P x

pub Gives-bind :
    {A B : Type 0} (P : A → Type 0) (Q : B → Type 0) (m : Option A) (k : A → Option B)
    → Gives P m
    → ((x : A) → P x → Gives Q (k x))
    → Gives Q (m >>= k)
Gives-bind P Q m k (x, e, p) next = let (y, e', q) = next x p in (y, ap (λ r. r >>= k) e ∙ e', q)

-- The screen is that of `t`.
abbrev pub Dark : Terminal → Terminal → Type 0
Dark t t1 = t1.video ≡ t.video

early_putch-Dark : (c : ℕ) (t : Terminal) → Dark t (early_putch c t)
unfolding early_putch
early_putch-Dark c t = ground arith

early_text-Dark : (text : Bytes) (t : Terminal) → Dark t (early_text text t)
unfolding early_text
early_text-Dark [] t = refl
early_text-Dark (c ∷ text) t = early_text-Dark text (early_putch c t) ∙ early_putch-Dark c t

-- One step that leaves the screen, and then another.
pub Gives-then :
    (t : Terminal) (m : Option Terminal) (k : Terminal → Option Terminal)
    → Gives (Dark t) m
    → ((t1 : Terminal) → Gives (Dark t1) (k t1))
    → Gives (Dark t) (m >>= k)
Gives-then t m k g next =
    Gives-bind (Dark t) (Dark t) m k g
      (λ t1 same. let (t2, e, same2) = next t1 in (t2, e, same2 ∙ same))

module _ (f : Frame) (ok : FrameOk f) where
  with_args : List ℕ → Frame
  with_args args = record f { args = λ k. get_or args k (f.args k) % 2 ^ 32 }

  with_args-FrameOk : (args : List ℕ) → FrameOk (with_args args)
  unfolding with_args
  with_args-FrameOk args = record {
    words = λ k. omega arith;
    hex_size = ok.hex_size;
    dec_size = ok.dec_size;
  }

  print-Complete :
      (args : List ℕ) (text : Bytes) (t : Terminal)
      → Complete (with_args args) plain text 0
      → Gives (Dark t) (print f args text t)
  unfolding print with_args
  print-Complete args text t c =
      let r = printf-Formatted (with_args args) text [] t (with_args-FrameOk args) c in
      (_, ap (λ r. r >>= λ _. some (early_text text t)) r.result, early_text-Dark text t)

  pub print-Gives :
      (args : List ℕ) (text : Bytes) (t : Terminal)
      → is_complete plain text ≡ true
      → Gives (Dark t) (print f args text t)
  print-Gives args text t h = print-Complete args text t (is_complete-Complete _ plain text 0 h)

  -- `printf` of a text, `%s` and an end of line
  pub print_string-Gives :
      (w : ℕ) (l text rest : Bytes) (t : Terminal)
      → is_literal l ≡ true
      → IsText text
      → f.bytes_at (w % 2 ^ 32) ≡ text ++ (0 ∷ rest)
      → Gives (Dark t) (print f (w ∷ []) (l ++ (37 ∷ 115 ∷ 10 ∷ [])) t)
  unfolding with_args
  print_string-Gives w l text rest t h is at =
      print-Complete (w ∷ []) (l ++ (37 ∷ 115 ∷ 10 ∷ [])) t (
        append-Complete _ l (37 ∷ 115 ∷ 10 ∷ []) 0 h (
          begin _ 0 (
            conversion false 115 _ 0 (omega arith) (string _ text rest is at)
              (literal 10 [] _ (omega arith) (omega arith) (done _)))))

  pub print_bytes-Gives :
      (rounds i : ℕ) (memory : ℕ → ℕ) (start : ℕ) (t : Terminal)
      → Gives (Dark t) (print_bytes rounds i f memory start t)
  unfolding print_bytes
  print_bytes-Gives zero i memory start t = (t, refl, refl)
  print_bytes-Gives (suc rounds) i memory start t =
      Gives-then t _ _ (print-Gives _ (chars "0x%x ") t refl)
        (λ t1. print_bytes-Gives rounds (i + 1) memory start t1)

  pub print_module-Gives :
      (memory : ℕ → ℕ) (n : ℕ) (m : Module) (t : Terminal)
      → Gives (Dark t) (print_module f memory n m t)
  unfolding print_module
  print_module-Gives memory n m t = Gives-then t _ _ (print-Gives _ _ t refl) (λ t1.
      Gives-then t1 _ _ (print-Gives _ _ t1 refl) (λ t2.
        Gives-then t2 _ _ (print-Gives _ _ t2 refl) (λ t3.
          Gives-then t3 _ _ (print_bytes-Gives 16 0 memory m.mod_start t3)
            (λ t4. print-Gives _ _ t4 refl))))

  pub when_flag-Gives :
      (info : MultibootInfo) (bit : ℕ) (step : Option Terminal) (t : Terminal)
      → Gives (Dark t) step
      → Gives (Dark t) (when_flag info bit step t)
  when_flag-Gives info bit step t g = elim (Bool-cases (check_flag info.flags bit)) [
    | inl e ↦ rw e g
    | inr e ↦ rw e (t, refl, refl)
  ]
