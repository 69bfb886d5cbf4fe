-- ===== src/Idt/Exceptions/Faults.antt =====
-- What the handlers of student-distrib/idt.c leave on the screen.
use unix_like_os.Base.{
  ℕ, ◌+◌, ◌<◌, ◌≡◌, ap, refl, sym, ◌∙◌, Bool, true, false, some, List, [], ◌∷◌, ◌++◌, arith, Bytes,
  ◌==◌, ◌>>=◌, ◌&&◌, length, get_or, all_below, all_below_sound,
}
use unix_like_os.Terminal.{Terminal, putch}
use unix_like_os.Terminal.Inv.{InScreen, SameBounds-InScreen}
use unix_like_os.Terminal.Putch.{putch-InScreen}
use unix_like_os.Klib.Format.{Frame, printf, plain, printf_from}
use unix_like_os.Klib.Format.Emit.{emit, emit-append}
use unix_like_os.Klib.Format.Check.{is_literal}
use unix_like_os.Idt.{exceptions}
use unix_like_os.Idt.Exceptions.{print_lines, messages, skull, print_skull, cli, exception}

abbrev pub all_literal : List Bytes → Bool
all_literal [] = true
all_literal (s ∷ l) = is_literal s && all_literal l

printf_from-literal :
    (f : Frame) (s rest : Bytes) (at esp : ℕ) (t : Terminal)
    → is_literal s ≡ true
    → printf_from f (s ++ (0 ∷ rest)) plain at esp t ≡ some (at + length s, emit s t)
unfolding printf_from emit
printf_from-literal f [] rest at esp t h = ap (λ n. some (n, t)) (omega arith)
printf_from-literal f (c ∷ s) rest at esp t h =
    let ih = printf_from-literal f s rest (at + 1) esp (putch c t) (ground (arith, h)) in
    let nz : c == 0 ≡ false = ground (arith, h) in
    let np : c == 37 ≡ false = ground (arith, h) in
    rw (nz, np, ih) (ap (λ n. some (n, emit s (putch c t))) (omega arith))

-- all the lines as one text
abbrev pub joined : List Bytes → Bytes
joined [] = []
joined (s ∷ l) = s ++ joined l

pub print_lines-emit :
    (f : Frame) (l : List Bytes) (t : Terminal)
    → all_literal l ≡ true
    → print_lines f l t ≡ some (emit (joined l) t)
unfolding print_lines printf emit
print_lines-emit f [] t h = refl
print_lines-emit f (s ∷ l) t h =
    rw (printf_from-literal f s [] 0 0 t (ground (arith, h)), emit-append s (joined l) t)
      (print_lines-emit f l (emit s t) (ground (arith, h)))

pub printf_line :
    (f : Frame) (s : Bytes) (t : Terminal)
    → is_literal s ≡ true
    → print_lines f (s ∷ []) t ≡ some (emit s t)
unfolding print_lines printf
printf_line f s t h = rw (printf_from-literal f s [] 0 0 t h) refl

pub emit-InScreen : (s : Bytes) (t : Terminal) → InScreen t → InScreen (emit s t)
unfolding emit
emit-InScreen [] t v = v
emit-InScreen (c ∷ s) t v = emit-InScreen s (putch c t) (putch-InScreen c t v)

messages_literal : all_below 19 (λ n. is_literal (get_or messages n [])) ≡ true
unfolding all_below
messages_literal = refl

skull_literal : all_literal skull ≡ true
skull_literal = refl

-- Each handler of an exception writes its message and the picture on the terminal, character by
-- character, with the interrupts off, and keeps every cursor on the screen.
pub exception_lem :
    (f : Frame) (n : ℕ) (t : Terminal)
    → n < exceptions
    → InScreen t
    → (t1 : Terminal) × (exception f n t ≡ some t1)
      × InScreen t1
      × (t1 ≡ emit (get_or messages n [] ++ joined skull) (record t { interrupts = false }))
unfolding exception print_skull cli
exception_lem f n t h v =
    let text = get_or messages n [] in
    let quiet : Terminal = record t { interrupts = false } in
    let here : InScreen quiet =
      SameBounds-InScreen t quiet (refl, refl, refl, refl, refl, refl) v in
    let lit : is_literal text ≡ true =
      all_below_sound 19 (λ n. is_literal (get_or messages n [])) n messages_literal h in
    let first = printf_line f text quiet lit in
    let rest = print_lines-emit f skull (emit text quiet) skull_literal in
    (
      emit (text ++ joined skull) quiet,
      ap (λ r. r >>= λ t1. print_lines f skull t1) first
          ∙ rest
          ∙ ap some (sym (emit-append text (joined skull) quiet)),
      emit-InScreen (text ++ joined skull) quiet here,
      refl,
    )
