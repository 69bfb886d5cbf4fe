-- ===== src/Klib/Format.antt =====
-- `printf` of student-distrib/lib.c. Its arguments are the words on the stack behind `format`, and a
-- pointer to characters is the list of the bytes from it on.
pub mod Emit
pub mod Pad
pub mod Convert
pub mod Output
pub mod Check
use unix_like_os.Base.{
  ℕ, zero, suc, ◌+◌, ◌-◌, ◌*◌, ◌/◌, ◌%◌, ◌^◌, ◌<◌, ◌≤◌, min, ◌≡◌, ◌≢◌, ◌⊎◌, ◌↔◌, inl, inr, ap, ap₂,
  refl, sym, ◌∙◌, fun_ext, subst, Bool, true, false, Option, none, some, List, [], ◌∷◌, ◌++◌, map,
  reverse, append-nil, append_assoc, arith, Bytes, ◌==◌, ltb, leb, if◌then◌else◌, ◌>>=◌, add32,
  sub32, minus_one, slt, sext8, ◌||◌, ◌&&◌, not, Bool-cases, All, length, get_elem?, get_or, set,
  replicate, update, update_self, update-ne, length-append, length-set, get_elem?-eq-get_or,
  get_or-set_self, get_or-set_ne, get_or_ext, for_range, for_range_inv, for_range-update,
  bit_or-zero, bit_or_disjoint, all_below, all_below_sound, ==_iff, ==_refl, ==_ne, ltb-true,
  ltb-false,
}
use unix_like_os.Terminal.{Terminal, putch}
use unix_like_os.Klib.Console.{puts}
use unix_like_os.Klib.Text.{store, strlen}
use unix_like_os.Klib.Number.{itoa}

-- what `printf` finds: the words behind `format`, the characters at an address, and what is in a local
-- array of a size before it is written
pub record Frame : Type 0 where
  pub args : ℕ → ℕ
  pub bytes_at : ℕ → Bytes
  pub conv_buf : ℕ → Bytes

-- `&s[n]`
unfoldable pub skip : ℕ → Bytes → Bytes
skip zero s = s
skip (suc n) [] = []
skip (suc n) (c ∷ s) = skip n s

-- the array `s` up to `s[n]`
unfoldable pub first_of : ℕ → Bytes → Bytes
first_of zero s = []
first_of (suc n) [] = []
first_of (suc n) (c ∷ s) = c ∷ first_of n s

-- `while(i < 8) { conv_buf[i] = '0'; i++; }`: the rounds that are left are `8 - i`
unfoldable pub pad_zeros : ℕ → ℕ → Bytes → Option Bytes
unfolding store
pad_zeros zero i s = some s
pad_zeros (suc rounds) i s = store s i 48 >>= λ s1. pad_zeros rounds (i + 1) s1

-- `case 'x'`
unfoldable pub show_hex : Frame → Bool → ℕ → Terminal → Option (ℕ × Terminal)
unfolding pad_zeros skip first_of
show_hex f alternate arg t =
    let conv_buf = f.conv_buf 64 in
    if alternate
    then (itoa arg (skip 8 conv_buf) 16 >>= λ digits. strlen digits >>= λ starting_index.
        pad_zeros (8 - starting_index) starting_index (first_of 8 conv_buf ++ digits) >>= λ padded.
        puts (skip starting_index padded) t)
    else (itoa arg conv_buf 16 >>= λ digits. puts digits t)

-- `case 'u'`
unfoldable pub show_unsigned : Frame → ℕ → Terminal → Option (ℕ × Terminal)
show_unsigned f value t = itoa value (f.conv_buf 36) 10 >>= λ digits. puts digits t

-- `case 'd'`
unfoldable pub show_signed : Frame → ℕ → Terminal → Option (ℕ × Terminal)
unfolding store skip first_of
show_signed f value t =
    let conv_buf = f.conv_buf 36 in
    if slt value 0
    then (store conv_buf 0 45 >>= λ buf1.
        itoa (sub32 0 value) (skip 1 buf1) 10 >>= λ digits. puts (first_of 1 buf1 ++ digits) t)
    else (itoa value conv_buf 10 >>= λ digits. puts digits t)

-- the conversions that take a word of the stack
unfoldable pub takes_arg : ℕ → Bool
takes_arg c = (c == 120) || (c == 117) || (c == 100) || (c == 99) || (c == 115)

-- a conversion character, `#` aside: `arg` is the word at `esp`
unfoldable pub convert : Frame → Bool → ℕ → ℕ → Terminal → Option Terminal
convert f alternate c arg t =
    if c == 37
    then some (putch 37 t)
    else if c == 120
    then (show_hex f alternate arg t >>= λ (n, t1). some t1)
    else if c == 117
    then (show_unsigned f arg t >>= λ (n, t1). some t1)
    else if c == 100
    then (show_signed f arg t >>= λ (n, t1). some t1)
    else if c == 99
    then some (putch (arg % 256) t)
    else if c == 115
    then (puts (f.bytes_at arg) t >>= λ (n, t1). some t1)
    else some t

-- whether `buf` stands in the text or behind a `%`, and then whether a `#` was read
pub data Mode : Type 0 where
  plain : Mode
  conv : (alternate : Bool) → Mode

-- the loop: what is left from `buf` on, `buf - format`, `esp` and the terminal
unfoldable pub printf_from : Frame → Bytes → Mode → ℕ → ℕ → Terminal → Option (ℕ × Terminal)
printf_from f [] m at esp t = none
printf_from f (c ∷ buf) plain at esp t =
    if c == 0
    then some (at, t)
    else if c == 37
    then printf_from f buf (conv false) (at + 1) esp t
    else printf_from f buf plain (at + 1) esp (putch c t)
printf_from f (c ∷ buf) (conv alternate) at esp t =
    if c == 35
    then printf_from f buf (conv true) (at + 1) esp t
    else (convert f alternate c (f.args esp) t >>= λ t1.
        printf_from f buf plain (at + 1) (if takes_arg c then esp + 1 else esp) t1)

unfoldable pub printf : Frame → Bytes → Terminal → Option (ℕ × Terminal)
unfolding printf_from convert show_hex show_unsigned show_signed takes_arg
printf f format t = printf_from f format plain 0 0 t
