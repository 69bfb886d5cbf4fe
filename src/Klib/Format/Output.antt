-- ===== src/Klib/Format/Output.antt =====
-- `printf` of student-distrib/lib.c against what each conversion shows.
use unix_like_os.Base.{
  ℕ, ◌+◌, ◌≡◌, ◌≢◌, ap, ◌∙◌, Bool, true, false, Option, some, [], ◌∷◌, ◌++◌, arith, Bytes,
  if◌then◌else◌, length, ==_ne,
}
use unix_like_os.Terminal.{Terminal, putch}
use unix_like_os.Klib.Format.{Frame, takes_arg, Mode, plain, conv, printf_from, printf}
use unix_like_os.Klib.Format.Emit.{emit, emit-append, FrameOk, Shows, Accepts}
use unix_like_os.Klib.Format.Convert.{convert-Shown}

-- The text that a format shows, the text before its NUL: a character that is no `%` stands for itself, and a
-- conversion for what it shows of the next word, if it takes one.
pub data Output (f : Frame) : Mode → Bytes → ℕ → Bytes → Type 0 where
  done : (esp : ℕ) → Output f plain [] esp []
  literal :
      (c : ℕ) (s : Bytes) (esp : ℕ) (out : Bytes)
      → c ≢ 37
      → Output f plain s esp out
      → Output f plain (c ∷ s) esp (c ∷ out)
  begin :
      (s : Bytes) (esp : ℕ) (out : Bytes)
      → Output f (conv false) s esp out
      → Output f plain (37 ∷ s) esp out
  hash :
      (a : Bool) (s : Bytes) (esp : ℕ) (out : Bytes)
      → Output f (conv true) s esp out
      → Output f (conv a) (35 ∷ s) esp out
  conversion :
      (a : Bool) (c : ℕ) (s : Bytes) (esp : ℕ) (shown out : Bytes)
      → c ≢ 35
      → Shows f a c (f.args esp) shown
      → Output f plain s (if takes_arg c then esp + 1 else esp) out
      → Output f (conv a) (c ∷ s) esp (shown ++ out)

-- A format that does not end inside a conversion, each of whose strings has a NUL.
pub data Complete (f : Frame) : Mode → Bytes → ℕ → Type 0 where
  done : (esp : ℕ) → Complete f plain [] esp
  literal :
      (c : ℕ) (s : Bytes) (esp : ℕ)
      → c ≢ 0
      → c ≢ 37
      → Complete f plain s esp
      → Complete f plain (c ∷ s) esp
  begin : (s : Bytes) (esp : ℕ) → Complete f (conv false) s esp → Complete f plain (37 ∷ s) esp
  hash :
      (a : Bool) (s : Bytes) (esp : ℕ)
      → Complete f (conv true) s esp
      → Complete f (conv a) (35 ∷ s) esp
  conversion :
      (a : Bool) (c : ℕ) (s : Bytes) (esp : ℕ)
      → c ≢ 35
      → Accepts f c (f.args esp)
      → Complete f plain s (if takes_arg c then esp + 1 else esp)
      → Complete f (conv a) (c ∷ s) esp

-- what `printf` has put on the terminal and returns
pub record Formatted (f : Frame) (m : Mode) (s : Bytes) (at esp : ℕ) (t : Terminal)
    (r : Option (ℕ × Terminal)) : Type 0 where
  pub out : Bytes
  pub output : Output f m s esp out
  pub result : r ≡ some (at + length s, emit out t)

printf_from-Formatted :
    (f : Frame) (m : Mode) (s rest : Bytes) (esp at : ℕ) (t : Terminal)
    → FrameOk f
    → Complete f m s esp
    → Formatted f m s at esp t (printf_from f (s ++ (0 ∷ rest)) m at esp t)
unfolding printf_from emit
printf_from-Formatted f _ _ rest _ at t ok (done esp) = record {
  out = [];
  output = done esp;
  result = ap (λ n. some (n, t)) (omega arith);
}
printf_from-Formatted f _ _ rest _ at t ok (literal c s esp nz np more) =
    let ih = printf_from-Formatted f plain s rest esp (at + 1) (putch c t) ok more in
    record {
      out = c ∷ ih.out;
      output = literal c s esp ih.out np ih.output;
      result =
          rw (==_ne c 0 nz, ==_ne c 37 np, ih.result)
            (ap (λ n. some (n, emit ih.out (putch c t))) (omega arith));
    }
printf_from-Formatted f _ _ rest _ at t ok (begin s esp more) =
    let ih = printf_from-Formatted f (conv false) s rest esp (at + 1) t ok more in
    record {
      out = ih.out;
      output = begin s esp ih.out ih.output;
      result = ih.result ∙ ap (λ n. some (n, emit ih.out t)) (omega arith);
    }
printf_from-Formatted f _ _ rest _ at t ok (hash a s esp more) =
    let ih = printf_from-Formatted f (conv true) s rest esp (at + 1) t ok more in
    record {
      out = ih.out;
      output = hash a s esp ih.out ih.output;
      result = ih.result ∙ ap (λ n. some (n, emit ih.out t)) (omega arith);
    }
printf_from-Formatted f _ _ rest _ at t ok (conversion a c s esp nh accepts more) =
    let w = convert-Shown f ok t a c (f.args esp) (ok.words esp) accepts in
    let next = if takes_arg c then esp + 1 else esp in
    let ih = printf_from-Formatted f plain s rest next (at + 1) (emit w.text t) ok more in
    record {
      out = w.text ++ ih.out;
      output = conversion a c s esp w.text ih.out nh w.shows ih.output;
      result =
          rw (==_ne c 35 nh, w.result, ih.result, emit-append w.text ih.out t)
            (ap (λ n. some (n, emit ih.out (emit w.text t))) (omega arith));
    }

-- `printf` of a text that does not end inside a conversion returns the length of the text and puts on the
-- terminal, character by character, what the text shows with the words behind it, when each string has a NUL.
pub printf-Formatted :
    (f : Frame) (s rest : Bytes) (t : Terminal)
    → FrameOk f
    → Complete f plain s 0
    → Formatted f plain s 0 0 t (printf f (s ++ (0 ∷ rest)) t)
unfolding printf
printf-Formatted f s rest t ok h = printf_from-Formatted f plain s rest 0 0 t ok h
