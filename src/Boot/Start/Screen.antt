-- ===== src/Boot/Start/Screen.antt =====
-- The boot screen of student-distrib/kernel.c.
use unix_like_os.Base.{
  ℕ, zero, suc, ◌+◌, ◌%◌, ◌<◌, ◌≤◌, ◌≡◌, refl, ◌∙◌, true, false, Option, some, List, [], ◌∷◌, arith,
  Bytes, ◌==◌, replicate, for_range, ==_ne,
}
use unix_like_os.Base.Strings.{chars}
use unix_like_os.Terminal.{Terminal, clear_screen}
use unix_like_os.Terminal.Inv.{InScreen, SameBounds-InScreen}
use unix_like_os.Terminal.Bounds.{clear_screen-InScreen}
use unix_like_os.Klib.Format.{Frame}
use unix_like_os.Klib.Format.Emit.{emit, emit-append}
use unix_like_os.Idt.Exceptions.Faults.{all_literal, joined, print_lines-emit, emit-InScreen}
use unix_like_os.Boot.Start.{boot_delay, boot_height, logo, arrow_step, arrow_row, boot_screen}

abbrev pub arrow : Bytes
arrow = chars "=> "

-- the question for the colour
abbrev pub question : List Bytes
question =
    chars "choose your text color:\n"
    ∷ chars "Press 1:White  2:Red  3:Cyan  4:Yellow  5:Blue  6:Green\n"
    ∷ []

logo_literal : all_literal logo ≡ true
logo_literal = refl

arrow_step-idle :
    (f : Frame) (rounds j : ℕ) (t : Option Terminal)
    → 0 < j
    → j + rounds ≤ boot_delay
    → for_range rounds j (arrow_step f) t ≡ t
unfolding for_range arrow_step
arrow_step-idle f zero j t lo hi = refl
arrow_step-idle f (suc rounds) j t lo hi =
    let skip : (j % boot_delay == 0) ≡ false = ==_ne _ 0 (λ e. omega (arith, e)) in
    rw skip (arrow_step-idle f rounds (j + 1) t (omega arith) (omega arith))

arrow_step-arrow : (f : Frame) (t : Terminal) → arrow_step f 0 (some t) ≡ some (emit arrow t)
unfolding arrow_step
arrow_step-arrow f t = print_lines-emit f (arrow ∷ []) t refl

arrow_step-first :
    (f : Frame) (rounds : ℕ) (t : Terminal)
    → suc rounds ≤ boot_delay
    → for_range (suc rounds) 0 (arrow_step f) (some t) ≡ some (emit arrow t)
unfolding for_range
arrow_step-first f rounds t h =
    arrow_step-idle f rounds 1 (arrow_step f 0 (some t)) (omega arith) (omega arith)
    ∙ arrow_step-arrow f t

arrow_row-emit : (f : Frame) (t : Terminal) → arrow_row f (some t) ≡ some (emit arrow t)
unfolding arrow_row
arrow_row-emit f t = arrow_step-first f 1999999 t (omega arith)

rows-emit :
    (f : Frame) (n i : ℕ) (t : Terminal)
    → for_range n i (λ _. arrow_row f) (some t) ≡ some (emit (joined (replicate n arrow)) t)
unfolding for_range emit
rows-emit f zero i t = refl
rows-emit f (suc n) i t =
    rw (arrow_row-emit f t, emit-append arrow (joined (replicate n arrow)) t)
      (rows-emit f n (i + 1) (emit arrow t))

-- The boot screen is written, character by character: the logo and the 27 arrows, each of them once for the two
-- million rounds of its inner loop, then, on a cleared screen, the welcome, and, with the interrupts on, the
-- question for the colour. Every cursor stays on the screen.
pub boot_screen_lem :
    (f : Frame) (t : Terminal)
    → InScreen t
    → let t2 = clear_screen (emit (joined (replicate boot_height arrow)) (emit (joined logo) t)) in
      let t3 = emit (chars "Welcome to kudOS v.5!\n") t2 in
      let t4 = emit (joined question) (record t3 { interrupts = true }) in
      (boot_screen f t ≡ some t4) × InScreen t4
unfolding boot_screen
boot_screen_lem f t v =
    let t1 = emit (joined logo) t in
    let t2 = emit (joined (replicate boot_height arrow)) t1 in
    let t3 = emit (chars "Welcome to kudOS v.5!\n") (clear_screen t2) in
    let on : Terminal = record t3 { interrupts = true } in
    let v1 = emit-InScreen (joined logo) t v in
    let v2 = emit-InScreen (joined (replicate boot_height arrow)) t1 v1 in
    let v3 =
      emit-InScreen (chars "Welcome to kudOS v.5!\n") (clear_screen t2)
        (clear_screen-InScreen t2 v2) in
    let von : InScreen on = SameBounds-InScreen t3 on (refl, refl, refl, refl, refl, refl) v3 in
    (
      rw (print_lines-emit f logo t logo_literal, rows-emit f boot_height 0 t1)
          (rw (print_lines-emit f (chars "Welcome to kudOS v.5!\n" ∷ []) (clear_screen t2) refl)
            (print_lines-emit f question on refl)),
      emit-InScreen (joined question) on von,
    )
