-- ===== src/Tests/Library.antt =====
-- The theorems on the kernel library at concrete buffers and formats.
use unix_like_os.Base.{
  ℕ, ◌-◌, ◌%◌, ◌^◌, ◌≡◌, inl, refl, true, false, [], ◌∷◌, ◌++◌, arith, Bytes, ◌==◌, if◌then◌else◌,
  replicate, some,
}
use unix_like_os.Klib.Memory.{memset, memcpy, memmove}
use unix_like_os.Klib.Memory.Set.{Filled, memset-Filled}
use unix_like_os.Klib.Memory.Region.{Copied}
use unix_like_os.Klib.Memory.Move.{memcpy-Copied, memmove-Copied}
use unix_like_os.Base.Strings.{chars}
use unix_like_os.Klib.Number.{itoa, print_digits, itoa_from, strrev}
use unix_like_os.Klib.Number.Digits.{Printed, itoa-Printed}
use unix_like_os.Klib.Format.{Frame, plain, printf}
use unix_like_os.Klib.Format.Emit.{FrameOk, other}
use unix_like_os.Klib.Format.Output.{
  Complete, done, literal, begin, hash, conversion, Formatted, printf-Formatted,
}
use unix_like_os.Tests.Data.{zeroed, screen}

memset-Filled_example : Filled (263 % 256) 1001 9 zeroed (memset 1001 263 9 zeroed)
memset-Filled_example = memset-Filled 1001 263 9 zeroed (omega arith)

-- every byte is the low byte of its address
abbrev counting : ℕ → ℕ
counting k = k % 256

memcpy-Copied_example : Copied 1001 1003 11 counting (memcpy 1001 1003 11 counting)
memcpy-Copied_example =
    memcpy-Copied 1001 1003 11 counting (omega arith, omega arith) (inl (omega arith))

memmove-Copied_example :
    let (flag, mem) = memmove 1003 1001 11 counting in
    Copied 1003 1001 11 counting mem × (flag ≡ true)
memmove-Copied_example = memmove-Copied 1003 1001 11 counting (omega arith, omega arith)

itoa-Printed_example : Printed 16 48879 8 (replicate 12 0) (itoa 48879 (replicate 12 0) 16)
itoa-Printed_example =
    itoa-Printed 48879 16 8 (replicate 12 0) (omega arith) (omega arith) (omega arith) (omega arith)
      (omega arith) (omega arith)

-- one word on the stack, -5
abbrev frame : Frame
frame = record {
  args = λ k. if k == 0 then 2 ^ 32 - 5 else 0;
  bytes_at = λ _. 0 ∷ [];
  conv_buf = λ n. replicate n 0;
}

frame-FrameOk : FrameOk frame
frame-FrameOk = record { words = λ k. ground arith; hex_size = refl; dec_size = refl }

-- "n=%#d"
abbrev format : Bytes
format = 110 ∷ 61 ∷ 37 ∷ 35 ∷ 100 ∷ []

format-Complete : Complete frame plain format 0
format-Complete = literal 110 _ 0 (omega arith) (omega arith) (
    literal 61 _ 0 (omega arith) (omega arith) (
      begin _ 0 (
        hash false _ 0
          (conversion true 100 [] 0 (omega arith) (other 100 _ (omega arith)) (done _)))))

printf-Formatted_example :
    Formatted frame plain format 0 0 screen (printf frame (format ++ (0 ∷ [])) screen)
printf-Formatted_example = printf-Formatted frame format [] screen frame-FrameOk format-Complete

itoa_run : itoa 48879 (replicate 8 0) 16 ≡ some (chars "BEEF" ++ replicate 4 0)
unfolding itoa print_digits itoa_from strrev
itoa_run = refl

memcpy_run : memcpy 1001 1003 11 counting 1006 ≡ 1008 % 256
unfolding memcpy
memcpy_run = refl

memmove_run : (memmove 1003 1001 11 counting).1 1009 ≡ 1007 % 256
unfolding memmove
memmove_run = refl
