-- ===== src/Keyboard.antt =====
-- The keyboard of student-distrib/keyboard.c: the two tables of keys, the flags, and the handler of its
-- interrupt. `past` is what memory holds behind the tables, which the handler reads for the scan codes
-- from 0x3B to 0x80.
pub mod Tables
pub mod Handler
pub mod Typing
pub mod Line
use unix_like_os.Base.{
  ℕ, zero, suc, ◌+◌, ◌-◌, ◌*◌, ◌/◌, ◌%◌, ◌^◌, ◌<◌, ◌≤◌, min, ◌≡◌, ◌≢◌, ◌⊎◌, ◌↔◌, inl, inr, ap, ap₂,
  refl, sym, ◌∙◌, fun_ext, subst, Bool, true, false, Option, none, some, List, [], ◌∷◌, ◌++◌, map,
  reverse, append-nil, append_assoc, arith, Bytes, ◌==◌, ltb, leb, if◌then◌else◌, ◌>>=◌, add32,
  sub32, minus_one, slt, sext8, ◌||◌, ◌&&◌, not, Bool-cases, All, length, get_elem?, get_or, set,
  replicate, update, update_self, update-ne, length-append, length-set, get_elem?-eq-get_or,
  get_or-set_self, get_or-set_ne, get_or_ext, for_range, for_range_inv, for_range-update,
  bit_or-zero, bit_or_disjoint, all_below, all_below_sound, ==_iff, ==_refl, ==_ne, ltb-true,
  ltb-false,
}
use unix_like_os.Pic.{Pic, enable_irq, send_eoi}
use unix_like_os.Terminal.{Terminal, newline, add_to_buffer, backspace, print_buffer, clear_screen}

-- a table of keys from its four rows of printing keys
abbrev layout : Bytes → Bytes → Bytes → Bytes → Bytes
layout digits upper home lower =
    (0 ∷ 0 ∷ digits)
    ++ ((0 ∷ 0 ∷ upper) ++ ((newline ∷ 0 ∷ home) ++ ((0 ∷ lower) ++ (0 ∷ 0 ∷ 0 ∷ 32 ∷ 0 ∷ []))))

abbrev pub keys : Bytes
keys =
    layout (49 ∷ 50 ∷ 51 ∷ 52 ∷ 53 ∷ 54 ∷ 55 ∷ 56 ∷ 57 ∷ 48 ∷ 45 ∷ 61 ∷ [])
      (113 ∷ 119 ∷ 101 ∷ 114 ∷ 116 ∷ 121 ∷ 117 ∷ 105 ∷ 111 ∷ 112 ∷ 91 ∷ 93 ∷ [])
      (97 ∷ 115 ∷ 100 ∷ 102 ∷ 103 ∷ 104 ∷ 106 ∷ 107 ∷ 108 ∷ 59 ∷ 39 ∷ 96 ∷ [])
      (92 ∷ 122 ∷ 120 ∷ 99 ∷ 118 ∷ 98 ∷ 110 ∷ 109 ∷ 44 ∷ 46 ∷ 47 ∷ [])

abbrev pub cap_keys : Bytes
cap_keys =
    layout (33 ∷ 64 ∷ 35 ∷ 36 ∷ 37 ∷ 94 ∷ 38 ∷ 42 ∷ 40 ∷ 41 ∷ 95 ∷ 43 ∷ [])
      (81 ∷ 87 ∷ 69 ∷ 82 ∷ 84 ∷ 89 ∷ 85 ∷ 73 ∷ 79 ∷ 80 ∷ 123 ∷ 125 ∷ [])
      (65 ∷ 83 ∷ 68 ∷ 70 ∷ 71 ∷ 72 ∷ 74 ∷ 75 ∷ 76 ∷ 58 ∷ 34 ∷ 126 ∷ [])
      (124 ∷ 90 ∷ 88 ∷ 67 ∷ 86 ∷ 66 ∷ 78 ∷ 77 ∷ 60 ∷ 62 ∷ 63 ∷ [])

-- `table[i]`
abbrev pub key_at : (ℕ → ℕ) → Bytes → ℕ → ℕ
key_at past table i = if ltb i (length table) then get_or table i 0 else past i

-- the flags, and what they belong to
pub record Keyboard : Type 0 where
  pub enter_flag : Bool
  pub ctrl_flag : Bool
  pub alt_flag : Bool
  pub cap_flag : Bool
  pub terminal : Terminal

-- `keyboard_init`
unfoldable pub keyboard_init : (ℕ → ℕ) → Keyboard → Pic → Keyboard × Pic
unfolding enable_irq
keyboard_init inb k p = (
  record k { enter_flag = false; ctrl_flag = false; alt_flag = false; cap_flag = false },
  enable_irq inb 1 p,
)

-- What the handler comes to: its end, or a call of `halt` or `switch_terminal`.
pub data Handled : Type 0 where
  done : Keyboard → Handled
  halts : Keyboard → Handled
  switches : ℕ → Keyboard → Handled

-- `add_to_buffer(c); print_buffer();`
abbrev pub type_key : ℕ → Keyboard → Handled
unfolding add_to_buffer print_buffer
type_key c k = done (record k { terminal = print_buffer (add_to_buffer c k.terminal) })

-- the handler for a key that is pressed, with its entries in the two tables
unfoldable pub press : ℕ → ℕ → ℕ → Keyboard → Handled
unfolding type_key backspace clear_screen
press key cap_key scan_code k =
    if key == newline
    then done (record k { enter_flag = true; terminal = add_to_buffer newline k.terminal })
    else if scan_code == 0x0E
    then done (record k { terminal = print_buffer (backspace k.terminal) })
    else if scan_code == 0x1D
    then done (record k { ctrl_flag = true })
    else if scan_code == 0x38
    then done (record k { alt_flag = true })
    else if k.alt_flag && (scan_code == 0x3B)
    then switches 0 k
    else if k.alt_flag && (scan_code == 0x3C)
    then switches 1 k
    else if k.alt_flag && (scan_code == 0x3D)
    then switches 2 k
    else if k.ctrl_flag && (scan_code == 0x26)
    then done (record k { terminal = print_buffer (clear_screen k.terminal) })
    else if k.ctrl_flag && (scan_code == 0x2E)
    then halts k
    else if (scan_code == 0x2A) || (scan_code == 0x36)
    then done (record k { cap_flag = not k.cap_flag })
    else if scan_code == 0x3A
    then done (record k { cap_flag = not k.cap_flag })
    else if k.cap_flag
    then type_key cap_key k
    else type_key key k

unfoldable pub key_pressed : (ℕ → ℕ) → ℕ → Keyboard → Handled
unfolding press
key_pressed past scan_code k =
    press (key_at past keys scan_code) (key_at past cap_keys scan_code) scan_code k

-- the handler for a key that is released
unfoldable pub key_released : ℕ → Keyboard → Keyboard
key_released scan_code k =
    if scan_code == 0x9D
    then record k { ctrl_flag = false }
    else if (scan_code == 0xAA) || (scan_code == 0xB6)
    then record k { cap_flag = not k.cap_flag }
    else if scan_code == 0xB8
    then record k { alt_flag = not k.alt_flag }
    else k

-- `keyboard_handler`, with the scan code that it reads, up to its last `send_eoi` and `sti`
unfoldable pub keyboard_handler : (ℕ → ℕ) → ℕ → Keyboard → Handled
unfolding key_pressed key_released
keyboard_handler past scan_code k =
    if leb scan_code 0x80 then key_pressed past scan_code k else done (key_released scan_code k)
