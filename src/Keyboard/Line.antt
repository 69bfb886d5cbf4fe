-- ===== src/Keyboard/Line.antt =====
-- From the scan codes of a line to the line buffer and the caller of `terminal_read`: student-distrib/keyboard.c and
-- terminal.c together.
use unix_like_os.Base.{
  ℕ, ◌+◌, ◌^◌, ◌<◌, ◌≤◌, min, ◌≡◌, inl, inr, ap, refl, sym, ◌∙◌, Bool, true, List, [], ◌∷◌, ◌++◌,
  reverse, arith, Bytes, not, length, get_or, update, update_self, update-ne,
}
use native.Mathlib.Decide.{dec_lt}
use unix_like_os.Terminal.{
  Terminal, newline, buff_len, here, print_buffer, add_to_buffer, backspace, read_from, read_line,
}
use unix_like_os.Terminal.Line.{new_line_empties, line, read_from_lem, add_to_buffer_lem}
use unix_like_os.Terminal.Editing.{
  Holds-get_or, Holds-showable, LineIs, print_buffer-LineIs, add_to_buffer-LineIs, backspace-LineIs,
  backspace-none,
}
use unix_like_os.Keyboard.{Keyboard, keyboard_handler}
use unix_like_os.Keyboard.Handler.{left_by, handle_all}
use unix_like_os.Keyboard.Typing.{
  Typing, nothing, typed_key, erase, erase_none, shift, release, Idle, handler-key, handler-shift,
  handler-release, handler-erase, handler-enter,
}

module _ (past : ℕ → ℕ) where
  handle_all-nil : (k : Keyboard) → handle_all past [] k ≡ k
  unfolding handle_all
  handle_all-nil k = refl

  handle_all_step :
      (c : ℕ) (codes : List ℕ) (k k1 : Keyboard)
      → left_by (keyboard_handler past c k) ≡ k1
      → handle_all past (c ∷ codes) k ≡ handle_all past codes k1
  unfolding handle_all
  handle_all_step c codes k k1 e = ap (handle_all past codes) e

  handle_all-append :
      (a b : List ℕ) (k : Keyboard)
      → handle_all past (a ++ b) k ≡ handle_all past b (handle_all past a k)
  unfolding handle_all
  handle_all-append [] b k = refl
  handle_all-append (c ∷ a) b k = handle_all-append a b (left_by (keyboard_handler past c k))

  -- The line buffer follows the keys.
  handle_all-LineIs :
      {caps : Bool} {codes : List ℕ} {text last : Bytes} (k : Keyboard)
      → Typing past caps codes text last
      → Idle caps k
      → length text < 128
      → LineIs text k.terminal
      → LineIs last (handle_all past codes k).terminal × (length last < 128)
  handle_all-LineIs k nothing idle short h = (rw (handle_all-nil k) h, short)
  handle_all-LineIs {caps} k (typed_key {code = c} {char = x} {codes = l} {text = text} key room t)
        idle short h =
      let k1 : Keyboard = record k { terminal = print_buffer (add_to_buffer x k.terminal) } in
      let h1 =
        print_buffer-LineIs (x ∷ text) (add_to_buffer x k.terminal)
          (add_to_buffer-LineIs x text k.terminal key.visible short h) in
      let idle1 : Idle caps k1 = record {
        no_ctrl = idle.no_ctrl;
        no_alt = idle.no_alt;
        capitals = idle.capitals;
      } in
      rw (handle_all_step c l k k1 (handler-key past caps c x k key idle))
        (handle_all-LineIs k1 t idle1 (omega (arith, room)) h1)
  handle_all-LineIs {caps} k (erase {code = c} {char = x} {codes = l} {text = text} e t) idle short
        h =
      let k1 : Keyboard = record k { terminal = print_buffer (backspace k.terminal) } in
      let less : length text < 128 = omega (arith, short) in
      let h1 =
        print_buffer-LineIs text (backspace k.terminal)
          (backspace-LineIs x text k.terminal less h) in
      let idle1 : Idle caps k1 = record {
        no_ctrl = idle.no_ctrl;
        no_alt = idle.no_alt;
        capitals = idle.capitals;
      } in
      rw (handle_all_step c l k k1 (ap left_by (handler-erase past c k e)))
        (handle_all-LineIs k1 t idle1 less h1)
  handle_all-LineIs {caps} k (erase_none {code = c} {codes = l} e t) idle short h =
      let k1 : Keyboard = record k { terminal = print_buffer (backspace k.terminal) } in
      let h1 : LineIs [] k1.terminal =
        rw (backspace-none k.terminal h) (print_buffer-LineIs [] k.terminal h) in
      let idle1 : Idle caps k1 = record {
        no_ctrl = idle.no_ctrl;
        no_alt = idle.no_alt;
        capitals = idle.capitals;
      } in
      rw (handle_all_step c l k k1 (ap left_by (handler-erase past c k e)))
        (handle_all-LineIs k1 t idle1 short h1)
  handle_all-LineIs {caps} k (shift {code = c} {codes = l} key t) idle short h =
      let k1 : Keyboard = record k { cap_flag = not k.cap_flag } in
      let idle1 : Idle (not caps) k1 = record {
        no_ctrl = idle.no_ctrl;
        no_alt = idle.no_alt;
        capitals = ap not idle.capitals;
      } in
      rw
        (handle_all_step c l k k1
          (ap left_by (handler-shift past c k key idle.no_ctrl idle.no_alt)))
        (handle_all-LineIs k1 t idle1 short h)
  handle_all-LineIs k (release {code = c} {codes = l} high a b d e t) idle short h =
      rw (handle_all_step c l k k (ap left_by (handler-release past c k high a b d e)))
        (handle_all-LineIs k t idle short h)

  -- the line buffer when the enter key has added its end of line
  record Entered (last : Bytes) (s : Terminal) : Type 0 where
    chars : (j : ℕ) → j < length last → (line s j ≡ get_or (reverse last) j 0) × (32 ≤ line s j)
    ends : line s (length last) ≡ newline

  Entered-line :
      (last : Bytes) (s : Terminal)
      → length last < 128
      → LineIs last s
      → Entered last (add_to_buffer newline s)
  Entered-line last s short h =
      let (same, one, put) = add_to_buffer_lem newline s (omega (arith, short, h.len)) in
      let f = line s in
      let n = here s.buffer_len s in
      record {
        chars = λ j lt.
            let it =
              ap (λ (g : ℕ → ℕ). g j) put
              ∙ update-ne f n j newline (λ e. omega (arith, e, lt, h.len)) in
            (
              it ∙ Holds-get_or f last j h.chars lt,
              omega (arith, it, Holds-showable f last j h.chars lt),
            );
        ends =
            ap (λ (g : ℕ → ℕ). g (length last)) put
            ∙ ap (update f n newline) (sym h.len)
            ∙ update_self f n newline;
      }

  -- A line typed on the keyboard comes to the program that reads it. From a keyboard with neither control nor alt held
  -- and an empty line buffer, the scan codes may be those of keys with a character, of the backspace key, which takes
  -- the last character away if there is one, of the shift keys and the lock of the capitals, and releases of keys, as
  -- long as the line keeps fewer than 128 characters, and then the enter key. The handler of the keyboard then sets
  -- `enter_flag`, on which `terminal_read` waits, and `terminal_read` gives as many characters of the line that is
  -- left as `count` allows, in order, and an end of line, which lies at index `count` if the line is at least as long;
  -- what stands behind it in the caller's buffer is left alone, and the line buffer is empty again.
  pub read_line-typed :
      (caps : Bool) (codes : List ℕ) (last : Bytes) (k : Keyboard) (count : ℕ) (buf : ℕ → ℕ)
      → Typing past caps codes [] last
      → Idle caps k
      → here k.terminal.buffer_len k.terminal ≡ 0
      → count < 2 ^ 31
      → let k' = handle_all past (codes ++ (0x1C ∷ [])) k in
        let (r, out, s') = read_line count buf k'.terminal in
        let m = min count (length last) in
        (k'.enter_flag ≡ true)
        × (r ≡ m + 1)
        × ((j : ℕ) → j < m → out j ≡ get_or (reverse last) j 0)
        × (out m ≡ newline)
        × ((j : ℕ) → m < j → out j ≡ buf j)
        × (here s'.buffer_len s' ≡ 0)
  unfolding read_line
  read_line-typed caps codes last k count buf t idle empty small =
      let k1 = handle_all past codes k in
      let (h, short) =
        handle_all-LineIs k t idle (omega arith) (record { len = empty; chars = tt }) in
      let k' : Keyboard = record k1 {
        enter_flag = true;
        terminal = add_to_buffer newline k1.terminal;
      } in
      let all : handle_all past (codes ++ (0x1C ∷ [])) k ≡ k' =
        handle_all-append codes (0x1C ∷ []) k
        ∙ handle_all_step 0x1C [] k1 k' (ap left_by (handler-enter past k1))
        ∙ handle_all-nil k' in
      let m = min count (length last) in
      let e = Entered-line last k1.terminal short h in
      let f = line k'.terminal in
      let (stop, new, old, behind) =
        read_from_lem f count m 128 0 buf small
          (λ j lt.
            let vis = (e.chars j (omega (arith, lt))).1 in
            (λ z. omega (arith, z, vis), λ z. omega (arith, z, vis)))
          (elim (dec_lt (length last) count) [
            | yes p ↦ inr (omega arith, ap f (omega arith) ∙ e.ends)
            | no p ↦ inl (omega arith)
          ])
          (omega arith) (omega (arith, short)) in
      let mid = (read_from f buff_len count 0 buf).1 in
      rw (all, stop)
        (
          refl,
          omega arith,
          λ j lt.
              update-ne mid m j newline (λ z. omega (arith, z, lt))
              ∙ new j (omega arith) lt
              ∙ (e.chars j (omega (arith, lt))).0,
          update_self mid m newline,
          λ j lt.
              update-ne mid m j newline (λ z. omega (arith, z, lt)) ∙ behind j (omega (arith, lt)),
          (new_line_empties k'.terminal).1,
        )
