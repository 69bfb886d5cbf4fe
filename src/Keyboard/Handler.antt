-- ===== src/Keyboard/Handler.antt =====
-- What `keyboard_handler` of student-distrib/keyboard.c does to the control key and to the screen.
use unix_like_os.Base.{
  ℕ, ◌<◌, ◌≡◌, ◌≢◌, inl, inr, ap, refl, sym, ◌∙◌, Bool, true, false, List, [], ◌∷◌, arith, ◌==◌,
  leb, if◌then◌else◌, ◌||◌, ◌&&◌, not, Bool-cases, ==_iff, ==_ne,
}
use native.Mathlib.Decide.{ℕ_discrete}
use unix_like_os.Keyboard.{
  Keyboard, Handled, done, halts, switches, keyboard_handler, press, key_pressed, key_released,
}
use unix_like_os.Terminal.{
  Terminal, swap_screen, newline, add_to_buffer, backspace, print_buffer, clear_screen,
}
use unix_like_os.Terminal.Inv.{InScreen}
use unix_like_os.Terminal.Bounds.{
  swap_screen-InScreen, add_to_buffer-InScreen, print_buffer-InScreen, clear_screen-InScreen,
}

-- the flags and the terminals up to a call of `halt` or `switch_terminal`
abbrev pub left_by : Handled → Keyboard
left_by (done k) = k
left_by (halts k) = k
left_by (switches _ k) = k

-- The terminals behind the handler: with the screens that `switch_terminal` changes, if it is called for another
-- terminal, and as `halt` finds them, if that is called.
abbrev pub screen_after : Handled → Terminal
screen_after (done k) = k.terminal
screen_after (halts k) = k.terminal
screen_after (switches t k) =
    if t == k.terminal.curr_terminal then k.terminal else swap_screen t k.terminal

-- a sequence of interrupts of the keyboard, each with its scan code
unfoldable pub handle_all : (ℕ → ℕ) → List ℕ → Keyboard → Keyboard
unfolding keyboard_handler
handle_all past [] k = k
handle_all past (c ∷ codes) k = handle_all past codes (left_by (keyboard_handler past c k))

-- whether the control key is down after scan codes: as the last of its codes says
abbrev pub held : List ℕ → Bool → Bool
held [] down = down
held (c ∷ codes) down = held codes (if c == 0x1D then true else if c == 0x9D then false else down)

if_cases :
    {A : Type 0} (P : A → Type 0) (b : Bool) {x y : A}
    → (b ≡ true → P x)
    → (b ≡ false → P y)
    → P (if b then x else y)
if_cases P true f g = f refl
if_cases P false f g = g refl

-- What holds of each of the handler's ends for a key that is pressed, holds of what it comes to.
press_rule :
    (P : Handled → Type 0) (key cap_key c : ℕ) (k : Keyboard)
    → P (done (record k { enter_flag = true; terminal = add_to_buffer newline k.terminal }))
    → (c ≡ 0x0E → P (done (record k { terminal = print_buffer (backspace k.terminal) })))
    → (c ≡ 0x1D → P (done (record k { ctrl_flag = true })))
    → P (done (record k { alt_flag = true }))
    → ((t : ℕ) → t < 3 → P (switches t k))
    → P (done (record k { terminal = print_buffer (clear_screen k.terminal) }))
    → P (halts k)
    → P (done (record k { cap_flag = not k.cap_flag }))
    → ((x : ℕ) → P (done (record k { terminal = print_buffer (add_to_buffer x k.terminal) })))
    → P (press key cap_key c k)
unfolding press
press_rule P key cap_key c k enter back ctrl alt to clear stop cap typed =
    if_cases P (key == newline) (λ _. enter)
      (λ _.
        if_cases P (c == 0x0E) (λ e. back ((==_iff _ _).0 e))
          (λ _.
            if_cases P (c == 0x1D) (λ e. ctrl ((==_iff _ _).0 e))
              (λ _.
                if_cases P (c == 0x38) (λ _. alt)
                  (λ _.
                    if_cases P (k.alt_flag && (c == 0x3B)) (λ _. to 0 (omega arith))
                      (λ _.
                        if_cases P (k.alt_flag && (c == 0x3C)) (λ _. to 1 (omega arith))
                          (λ _.
                            if_cases P (k.alt_flag && (c == 0x3D)) (λ _. to 2 (omega arith))
                              (λ _.
                                if_cases P (k.ctrl_flag && (c == 0x26)) (λ _. clear)
                                  (λ _.
                                    if_cases P (k.ctrl_flag && (c == 0x2E)) (λ _. stop)
                                      (λ _.
                                        if_cases P ((c == 0x2A) || (c == 0x36)) (λ _. cap)
                                          (λ _.
                                            if_cases P (c == 0x3A) (λ _. cap)
                                              (λ _.
                                                if_cases P k.cap_flag (λ _. typed cap_key)
                                                  (λ _. typed key))))))))))))

other_pressed :
    (key cap_key c : ℕ) (k : Keyboard)
    → c ≢ 0x1D
    → (left_by (press key cap_key c k)).ctrl_flag ≡ k.ctrl_flag
other_pressed key cap_key c k d =
    press_rule (λ h. (left_by h).ctrl_flag ≡ k.ctrl_flag) key cap_key c k refl (λ _. refl)
      (λ e. absurd (d e)) refl (λ _ _. refl) refl refl refl (λ _. refl)

other_released :
    (c : ℕ) (k : Keyboard)
    → (key_released c k).ctrl_flag ≡ (if c == 0x9D then false else k.ctrl_flag)
unfolding key_released
other_released c k = ground arith

one_code :
    (past : ℕ → ℕ) (c : ℕ) (k : Keyboard)
    → (left_by (keyboard_handler past c k)).ctrl_flag
      ≡ (if c == 0x1D then true else if c == 0x9D then false else k.ctrl_flag)
unfolding keyboard_handler key_pressed key_released
one_code past c k = elim (ℕ_discrete c 0x1D) [
  | yes e ↦ rw e refl
  | no d ↦ elim (Bool-cases (leb c 0x80)) [
    | inl low ↦
        let r : (if c == 0x1D then true else if c == 0x9D then false else k.ctrl_flag)
            ≡ k.ctrl_flag =
          ground (arith, low, d) in
        rw (keyboard_handler, low) (other_pressed _ _ c k d ∙ sym r)
    | inr high ↦ rw (keyboard_handler, high, ==_ne c 0x1D d) (other_released c k)
  ]
]

-- Behind any sequence of scan codes, whatever stands behind the tables, the control flag says whether
-- the last code of the control key was the one for "pressed"; with none it is as before.
pub ctrl_flag_lem :
    (past : ℕ → ℕ) (codes : List ℕ) (k : Keyboard)
    → (handle_all past codes k).ctrl_flag ≡ held codes k.ctrl_flag
unfolding handle_all
ctrl_flag_lem past [] k = refl
ctrl_flag_lem past (c ∷ codes) k =
    ctrl_flag_lem past codes (left_by (keyboard_handler past c k))
    ∙ ap (λ b. held codes b) (one_code past c k)

switched-InScreen :
    (t : ℕ) (s : Terminal)
    → t < 3
    → InScreen s
    → InScreen (if t == s.curr_terminal then s else swap_screen t s)
switched-InScreen t s h v =
    if_cases InScreen (t == s.curr_terminal) (λ _. v) (λ _. swap_screen-InScreen t s h v)

pressed-InScreen :
    (key cap_key c : ℕ) (k : Keyboard)
    → c ≢ 0x0E
    → InScreen k.terminal
    → InScreen (screen_after (press key cap_key c k))
pressed-InScreen key cap_key c k d v =
    press_rule (λ h. InScreen (screen_after h)) key cap_key c k
      (add_to_buffer-InScreen newline k.terminal v) (λ e. absurd (d e)) (λ _. v) v
      (λ t h. switched-InScreen t k.terminal h v)
      (print_buffer-InScreen _ (clear_screen-InScreen k.terminal v)) v v
      (λ x. print_buffer-InScreen _ (add_to_buffer-InScreen x k.terminal v))

released-InScreen :
    (c : ℕ) (k : Keyboard) → InScreen k.terminal → InScreen (key_released c k).terminal
unfolding key_released
released-InScreen c k v = ground arith

-- But for the backspace key, the handler keeps cursor, line and buffer of the terminals in their bounds, whatever
-- stands behind the tables of keys: when it is done, behind the change of screens of its call of `switch_terminal` for
-- Alt and F1 to F3, and up to its call of `halt` for Ctrl and C, which is not followed.
pub keyboard_handler-InScreen :
    (past : ℕ → ℕ) (c : ℕ) (k : Keyboard)
    → c ≢ 0x0E
    → InScreen k.terminal
    → InScreen (screen_after (keyboard_handler past c k))
unfolding keyboard_handler key_pressed
keyboard_handler-InScreen past c k d v = elim (Bool-cases (leb c 0x80)) [
  | inl low ↦ rw (keyboard_handler, low) (pressed-InScreen _ _ c k d v)
  | inr high ↦ rw (keyboard_handler, high) (released-InScreen c k v)
]
