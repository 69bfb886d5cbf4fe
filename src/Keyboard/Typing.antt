-- ===== src/Keyboard/Typing.antt =====
-- Scan codes that type a text, and what `keyboard_handler` of student-distrib/keyboard.c does with each.
use unix_like_os.Base.{
  ℕ, ◌<◌, ◌≤◌, ◌≡◌, ◌≢◌, ◌⊎◌, inl, inr, ap, refl, sym, ◌∙◌, Bool, true, false, List, [], ◌∷◌, arith,
  Bytes, length, leb, if◌then◌else◌, not, Bool-cases, ==_ne,
}
use unix_like_os.Terminal.{newline, print_buffer, add_to_buffer, backspace}
use unix_like_os.Keyboard.{
  Keyboard, done, keys, cap_keys, key_at, press, key_pressed, key_released, keyboard_handler,
}
use unix_like_os.Keyboard.Handler.{left_by}

-- A key with its character, by the table that the flag selects: on the table, and none of the keys that do
-- something else.
pub record IsKey (past : ℕ → ℕ) (caps : Bool) (code char : ℕ) : Type 0 where
  pub pressed : code ≤ 0x80
  pub printed : key_at past (if caps then cap_keys else keys) code ≡ char
  pub visible : 32 ≤ char
  pub not_enter : key_at past keys code ≢ newline
  pub not_backspace : code ≢ 0x0E
  pub not_ctrl : code ≢ 0x1D
  pub not_alt : code ≢ 0x38
  pub not_left : code ≢ 0x2A
  pub not_right : code ≢ 0x36
  pub not_lock : code ≢ 0x3A

-- Scan codes that change a line, with capital letters on or off at first. The line before and after is the list of
-- its characters, the last one first: a key adds its character, if there is room for an end of line behind it, the
-- backspace key takes the last one away, and the shift keys, the lock of the capitals, and the release of any key but
-- control and alt leave it as it is.
pub data Typing (past : ℕ → ℕ) : Bool → List ℕ → Bytes → Bytes → Type 0 where
  nothing : {caps : Bool} {text : Bytes} → Typing past caps [] text text
  typed_key :
      {caps : Bool} {code char : ℕ} {codes : List ℕ} {text last : Bytes}
      → IsKey past caps code char
      → length text < 127
      → Typing past caps codes (char ∷ text) last
      → Typing past caps (code ∷ codes) text last
  erase :
      {caps : Bool} {code char : ℕ} {codes : List ℕ} {text last : Bytes}
      → code ≡ 0x0E
      → Typing past caps codes text last
      → Typing past caps (code ∷ codes) (char ∷ text) last
  erase_none :
      {caps : Bool} {code : ℕ} {codes : List ℕ} {last : Bytes}
      → code ≡ 0x0E
      → Typing past caps codes [] last
      → Typing past caps (code ∷ codes) [] last
  shift :
      {caps : Bool} {code : ℕ} {codes : List ℕ} {text last : Bytes}
      → (code ≡ 0x2A) ⊎ (code ≡ 0x36) ⊎ (code ≡ 0x3A) ⊎ (code ≡ 0xAA) ⊎ (code ≡ 0xB6)
      → Typing past (not caps) codes text last
      → Typing past caps (code ∷ codes) text last
  release :
      {caps : Bool} {code : ℕ} {codes : List ℕ} {text last : Bytes}
      → 0x80 < code
      → code ≢ 0x9D
      → code ≢ 0xAA
      → code ≢ 0xB6
      → code ≢ 0xB8
      → Typing past caps codes text last
      → Typing past caps (code ∷ codes) text last

-- Neither control nor alt is held.
pub record Idle (caps : Bool) (k : Keyboard) : Type 0 where
  pub no_ctrl : k.ctrl_flag ≡ false
  pub no_alt : k.alt_flag ≡ false
  pub capitals : k.cap_flag ≡ caps

press_types :
    (key cap_key code : ℕ) (k : Keyboard)
    → key ≢ newline
    → code ≢ 0x0E
    → code ≢ 0x1D
    → code ≢ 0x38
    → code ≢ 0x2A
    → code ≢ 0x36
    → code ≢ 0x3A
    → k.ctrl_flag ≡ false
    → k.alt_flag ≡ false
    → press key cap_key code k
      ≡ done (record k {
        terminal = print_buffer (add_to_buffer (if k.cap_flag then cap_key else key) k.terminal);
      })
unfolding press
press_types key cap_key code k a b c d e f g no_ctrl no_alt =
    rw
      (
        ==_ne key newline a,
        ==_ne code 0x0E b,
        ==_ne code 0x1D c,
        ==_ne code 0x38 d,
        no_alt,
        no_ctrl,
        ==_ne code 0x2A e,
        ==_ne code 0x36 f,
        ==_ne code 0x3A g,
      )
      (elim (Bool-cases k.cap_flag) [ inl on ↦ rw on refl | inr off ↦ rw off refl ])

abbrev pub IsShift : ℕ → Type 0
IsShift code = (code ≡ 0x2A) ⊎ (code ≡ 0x36) ⊎ (code ≡ 0x3A) ⊎ (code ≡ 0xAA) ⊎ (code ≡ 0xB6)

module _ (past : ℕ → ℕ) where
  printed_by :
      (b : Bool) (code : ℕ)
      → key_at past (if b then cap_keys else keys) code
        ≡ (if b then key_at past cap_keys code else key_at past keys code)
  printed_by true code = refl
  printed_by false code = refl

  pub handler-key :
      (caps : Bool) (code char : ℕ) (k : Keyboard)
      → IsKey past caps code char
      → Idle caps k
      → left_by (keyboard_handler past code k)
        ≡ record k { terminal = print_buffer (add_to_buffer char k.terminal) }
  unfolding keyboard_handler key_pressed
  handler-key caps code char k h idle =
      let low : leb code 0x80 ≡ true = ground (arith, h.pressed) in
      let typed =
        press_types (key_at past keys code) (key_at past cap_keys code) code k h.not_enter
          h.not_backspace h.not_ctrl h.not_alt h.not_left h.not_right h.not_lock idle.no_ctrl
          idle.no_alt in
      let char_of = λ (b : Bool). if b then key_at past cap_keys code else key_at past keys code in
      let it : char_of k.cap_flag ≡ char =
        ap char_of idle.capitals ∙ sym (printed_by caps code) ∙ h.printed in
      rw (keyboard_handler, low, key_pressed, typed)
        (ap (λ c. record k { terminal = print_buffer (add_to_buffer c k.terminal) }) it)

  pub handler-shift :
      (code : ℕ) (k : Keyboard)
      → IsShift code
      → k.ctrl_flag ≡ false
      → k.alt_flag ≡ false
      → keyboard_handler past code k ≡ done (record k { cap_flag = not k.cap_flag })
  unfolding keyboard_handler key_pressed key_released press
  handler-shift code k (inl e) no_ctrl no_alt = rw (e, no_ctrl, no_alt) refl
  handler-shift code k (inr (inl e)) no_ctrl no_alt = rw (e, no_ctrl, no_alt) refl
  handler-shift code k (inr (inr (inl e))) no_ctrl no_alt = rw (e, no_ctrl, no_alt) refl
  handler-shift code k (inr (inr (inr (inl e)))) no_ctrl no_alt = rw e refl
  handler-shift code k (inr (inr (inr (inr e)))) no_ctrl no_alt = rw e refl

  pub handler-release :
      (code : ℕ) (k : Keyboard)
      → 0x80 < code
      → code ≢ 0x9D
      → code ≢ 0xAA
      → code ≢ 0xB6
      → code ≢ 0xB8
      → keyboard_handler past code k ≡ done k
  unfolding keyboard_handler key_released
  handler-release code k high a b c d = ground (arith, high)

  pub handler-erase :
      (code : ℕ) (k : Keyboard)
      → code ≡ 0x0E
      → keyboard_handler past code k
        ≡ done (record k { terminal = print_buffer (backspace k.terminal) })
  unfolding keyboard_handler key_pressed press
  handler-erase code k e = rw e refl

  -- the enter key
  pub handler-enter :
      (k : Keyboard)
      → keyboard_handler past 0x1C k
        ≡ done (record k { enter_flag = true; terminal = add_to_buffer newline k.terminal })
  unfolding keyboard_handler key_pressed press
  handler-enter k = refl
