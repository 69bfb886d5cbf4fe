-- ===== src/Klib/Format/Emit.antt =====
-- What a conversion of `printf` of student-distrib/lib.c shows of a word.
use unix_like_os.Base.{
  ℕ, ◌+◌, ◌-◌, ◌%◌, ◌^◌, ◌<◌, ◌≤◌, ◌≡◌, ◌≢◌, ap, refl, ◌∙◌, Bool, true, false, Option, some, [],
  ◌∷◌, ◌++◌, arith, Bytes, if◌then◌else◌, length, replicate, ==_ne,
}
use unix_like_os.Terminal.{Terminal, putch}
use unix_like_os.Klib.Console.{puts, puts_from}
use unix_like_os.Klib.Text.{IsText}
use unix_like_os.Klib.Number.Digits.{Numeral}
use unix_like_os.Klib.Format.{Frame, takes_arg}

-- the characters of a text one after the other on the terminal
unfoldable pub emit : Bytes → Terminal → Terminal
emit [] t = t
emit (c ∷ out) t = emit out (putch c t)

pub emit-append : (a b : Bytes) (t : Terminal) → emit (a ++ b) t ≡ emit b (emit a t)
unfolding emit
emit-append [] b t = refl
emit-append (c ∷ a) b t = emit-append a b (putch c t)

puts_from-text :
    (text rest : Bytes) (i : ℕ) (t : Terminal)
    → IsText text
    → puts_from (text ++ (0 ∷ rest)) i t ≡ some (i + length text, emit text t)
unfolding puts_from emit
puts_from-text [] rest i t h = ap (λ n. some (n, t)) (omega arith)
puts_from-text (c ∷ text) rest i t h =
    ap (λ b. if b then some (i, t) else puts_from (text ++ (0 ∷ rest)) (i + 1) (putch c t))
      (==_ne c 0 h.0.0)
    ∙ puts_from-text text rest (i + 1) (putch c t) h.1
    ∙ ap (λ n. some (n, emit text (putch c t))) (omega arith)

pub puts-text :
    (text rest : Bytes) (t : Terminal)
    → IsText text
    → puts (text ++ (0 ∷ rest)) t ≡ some (length text, emit text t)
unfolding puts
puts-text text rest t h =
    puts_from-text text rest 0 t h ∙ ap (λ n. some (n, emit text t)) (omega arith)

-- The stack holds words, and the local arrays have their sizes.
pub record FrameOk (f : Frame) : Type 0 where
  pub words : (k : ℕ) → f.args k < 2 ^ 32
  pub hex_size : length (f.conv_buf 64) ≡ 64
  pub dec_size : length (f.conv_buf 36) ≡ 36

-- What a conversion shows of a word: the numeral of the word in radix 16 or 10, with `#` filled up to 8
-- digits, with a `-` and negated when the word is negative, its low byte, or the text at that address;
-- `%%` shows a `%`, and any other character nothing.
pub data Shows (f : Frame) : Bool → ℕ → ℕ → Bytes → Type 0 where
  percent : (a : Bool) (w : ℕ) → Shows f a 37 w (37 ∷ [])
  hex : (w : ℕ) (text : Bytes) → Numeral 16 w text → Shows f false 120 w text
  wide_hex :
      (w : ℕ) (text : Bytes)
      → Numeral 16 w text
      → length text ≤ 8
      → Shows f true 120 w (replicate (8 - length text) 48 ++ text)
  unsigned : (a : Bool) (w : ℕ) (text : Bytes) → Numeral 10 w text → Shows f a 117 w text
  positive :
      (a : Bool) (w : ℕ) (text : Bytes) → w < 2 ^ 31 → Numeral 10 w text → Shows f a 100 w text
  negative :
      (a : Bool) (w : ℕ) (text : Bytes)
      → 2 ^ 31 ≤ w
      → Numeral 10 (2 ^ 32 - w) text
      → Shows f a 100 w (45 ∷ text)
  char : (a : Bool) (w : ℕ) → Shows f a 99 w ((w % 256) ∷ [])
  string :
      (a : Bool) (w : ℕ) (text rest : Bytes)
      → IsText text
      → f.bytes_at w ≡ text ++ (0 ∷ rest)
      → Shows f a 115 w text
  other : (a : Bool) (c w : ℕ) → takes_arg c ≡ false → c ≢ 37 → Shows f a c w []

-- Each `%s` has an address with a NUL behind its text.
pub data Accepts (f : Frame) : ℕ → ℕ → Type 0 where
  string :
      (w : ℕ) (text rest : Bytes)
      → IsText text
      → f.bytes_at w ≡ text ++ (0 ∷ rest)
      → Accepts f 115 w
  other : (c w : ℕ) → c ≢ 115 → Accepts f c w

-- what a conversion has put on the terminal
pub record Shown (f : Frame) (a : Bool) (c w : ℕ) (t : Terminal) (r : Option Terminal)
    : Type 0 where
  pub text : Bytes
  pub shows : Shows f a c w text
  pub result : r ≡ some (emit text t)
