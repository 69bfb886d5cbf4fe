-- ===== src/Tests/Screen.antt =====
-- The theorems on the terminals and the keyboard at concrete screens.
use unix_like_os.Base.{
  ℕ, ◌+◌, ◌*◌, ◌<◌, ◌≤◌, ◌≡◌, ap, refl, true, inl, inr, List, ◌++◌, false, some, [], ◌∷◌, arith,
  Bytes, get_or,
}
use unix_like_os.Terminal.{Terminal, here, blank, newline, scroll, terminal_write, read_line}
use unix_like_os.Terminal.Inv.{InScreen}
use unix_like_os.Terminal.Scroll.{scroll_lem}
use unix_like_os.Terminal.Write.{terminal_write-Shown}
use unix_like_os.Klib.Console.{Console}
use unix_like_os.Keyboard.{Keyboard, keyboard_handler}
use unix_like_os.Keyboard.Handler.{screen_after, handle_all, keyboard_handler-InScreen}
use unix_like_os.Keyboard.Typing.{IsKey, Typing, nothing, typed_key, erase, shift, release}
use unix_like_os.Keyboard.Line.{read_line-typed}
use unix_like_os.Tests.Data.{screen, screen-InScreen, zeroed}

-- "hi", and a buffer that holds it
abbrev text : Bytes
text = 104 ∷ 105 ∷ []

abbrev buffer : ℕ → ℕ
buffer k = get_or text k 0

terminal_write-Shown_example :
    let (r, s) = terminal_write (some buffer) 2 screen in
    (r ≡ 2)
    × ((k : ℕ) → k < 2 → s.video (5 + k) ≡ get_or text k 0 + 15 * 256)
    × ((k : ℕ) → k < 5 → s.video k ≡ 0)
    × ((k : ℕ) → 7 ≤ k → s.video k ≡ 0)
    × (here s.csr_x s ≡ 7)
    × (here s.csr_y s ≡ 0)
    × (here s.line_beginning s ≡ 7)
    × (here s.line_y s ≡ 0)
terminal_write-Shown_example =
    terminal_write-Shown text buffer screen
      ((omega arith, omega arith), ((omega arith, omega arith), tt))
      (λ k h. ap buffer (omega arith)) (omega arith) (omega arith) (omega arith)

-- the cursor behind the last row
abbrev full : Terminal
full = record screen { csr_y = λ _. 25 }

scroll_lem_example :
    let s = scroll full in
    ((row col : ℕ) → row < 24 → col < 80 → s.video (row * 80 + col) ≡ 0)
    × ((col : ℕ) → col < 80 → s.video (24 * 80 + col) ≡ blank full)
    × ((k : ℕ) → 2000 ≤ k → s.video k ≡ 0)
    × (here s.csr_y s ≡ 24)
    × (here s.csr_x s ≡ 0)
scroll_lem_example = scroll_lem full (omega arith)

abbrev keyboard : Keyboard
keyboard = record {
  enter_flag = false;
  ctrl_flag = false;
  alt_flag = false;
  cap_flag = false;
  terminal = screen;
}

-- the keys "h" and "i"
abbrev h_code : ℕ
h_code = 0x23

abbrev i_code : ℕ
i_code = 0x17

-- shift down, "h", shift up, "h" up, "i", "i", backspace: the text "Hi"
codes : List ℕ
codes = 0x2A ∷ h_code ∷ 0xAA ∷ 0xA3 ∷ i_code ∷ i_code ∷ 0x0E ∷ []

h_code-IsKey : IsKey zeroed true h_code 72
h_code-IsKey = record {
  pressed = omega arith;
  printed = refl;
  visible = omega arith;
  not_enter = omega arith;
  not_backspace = omega arith;
  not_ctrl = omega arith;
  not_alt = omega arith;
  not_left = omega arith;
  not_right = omega arith;
  not_lock = omega arith;
}

i_code-IsKey : IsKey zeroed false i_code 105
i_code-IsKey = record {
  pressed = omega arith;
  printed = refl;
  visible = omega arith;
  not_enter = omega arith;
  not_backspace = omega arith;
  not_ctrl = omega arith;
  not_alt = omega arith;
  not_left = omega arith;
  not_right = omega arith;
  not_lock = omega arith;
}

codes-Typing : Typing zeroed false codes [] (105 ∷ 72 ∷ [])
unfolding codes
codes-Typing = shift (inl refl) (
    typed_key h_code-IsKey (omega arith) (
      shift (inr (inr (inr (inl refl)))) (
        release (omega arith) (omega arith) (omega arith) (omega arith) (omega arith) (
          typed_key i_code-IsKey (omega arith)
            (typed_key i_code-IsKey (omega arith) (erase refl nothing))))))

read_line-typed_example :
    let k = handle_all zeroed (codes ++ (0x1C ∷ [])) keyboard in
    let (r, out, s) = read_line 1 zeroed k.terminal in
    (k.enter_flag ≡ true)
    × (r ≡ 2)
    × ((j : ℕ) → j < 1 → out j ≡ get_or (72 ∷ 105 ∷ []) j 0)
    × (out 1 ≡ newline)
    × ((j : ℕ) → 1 < j → out j ≡ 0)
    × (here s.buffer_len s ≡ 0)
read_line-typed_example =
    read_line-typed zeroed false codes (105 ∷ 72 ∷ []) keyboard 1 zeroed codes-Typing
      (record { no_ctrl = refl; no_alt = refl; capitals = refl }) refl (omega arith)

keyboard_handler-InScreen_example : InScreen (screen_after (keyboard_handler zeroed 30 keyboard))
keyboard_handler-InScreen_example =
    keyboard_handler-InScreen zeroed 30 keyboard (omega arith) screen-InScreen

-- the last column of a row
abbrev console : Console
console = record { screen_x = 79; screen_y = 3; video_mem = zeroed }
