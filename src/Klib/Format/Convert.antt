-- ===== src/Klib/Format/Convert.antt =====
-- The conversions of `printf` of student-distrib/lib.c.
use unix_like_os.Base.{
  ℕ, suc, ◌-◌, ◌%◌, ◌^◌, ◌<◌, ◌≤◌, ◌≡◌, ◌≢◌, inl, inr, ap, refl, sym, ◌∙◌, subst, Bool, true, false,
  some, [], ◌∷◌, ◌++◌, arith, Bytes, ◌>>=◌, sub32, slt, Bool-cases, length, replicate, ==_ne,
}
use unix_like_os.Base.{ℕ_discrete}
use unix_like_os.Terminal.{Terminal}
use unix_like_os.Klib.Console.{puts}
use unix_like_os.Klib.Text.{store, strlen-text}
use unix_like_os.Klib.Number.{itoa}
use unix_like_os.Klib.Number.Reverse.{store-append}
use unix_like_os.Klib.Number.Value.{All-IsText}
use unix_like_os.Klib.Number.Digits.{Numeral, itoa-Printed}
use unix_like_os.Klib.Format.{
  Frame, skip, first_of, show_hex, show_unsigned, show_signed, takes_arg, convert,
}
use unix_like_os.Klib.Format.Emit.{
  emit, puts-text, FrameOk, percent, hex, wide_hex, unsigned, positive, negative, char, string,
  other, Accepts, Shown,
}
use unix_like_os.Klib.Format.Pad.{first_of-append-skip, pad_shows}

module _ (f : Frame) (ok : FrameOk f) (t : Terminal) where
  show_number :
      (w radix n : ℕ) (buf : Bytes)
      → 1 < radix
      → radix ≤ 36
      → 0 < n
      → n ≤ 32
      → w < radix ^ n
      → n < length buf
      → (text : Bytes) × Numeral radix w text
        × ((itoa w buf radix >>= λ digits. puts digits t) ≡ some (length text, emit text t))
  show_number w radix n buf lo hi some_digit few lt room =
      let p = itoa-Printed w radix n buf lo hi some_digit few lt room in
      (
        p.text,
        p.numeral,
        ap (λ r. r >>= λ digits. puts digits t) p.result
            ∙ puts-text p.text p.rest t (All-IsText radix p.text p.numeral.digits),
      )

  convert_unsigned : (a : Bool) (w : ℕ) → w < 2 ^ 32 → Shown f a 117 w t (convert f a 117 w t)
  unfolding convert show_unsigned
  convert_unsigned a w lt =
      let (text, numeral, shown) =
        show_number w 10 10 (f.conv_buf 36) (omega arith) (omega arith) (omega arith) (omega arith)
          (omega arith) (omega (arith, ok.dec_size)) in
      record { text = text; shows = unsigned a w text numeral; result = rw shown refl }

  show_negative :
      (w : ℕ) (buf : Bytes)
      → 2 ^ 31 ≤ w
      → w < 2 ^ 32
      → length buf ≡ 36
      → (text : Bytes) × Numeral 10 (2 ^ 32 - w) text
        × ((store buf 0 45 >>= λ buf1.
              itoa (sub32 0 w) (skip 1 buf1) 10 >>= λ digits. puts (first_of 1 buf1 ++ digits) t)
            ≡ some (suc (length text), emit (45 ∷ text) t))
  unfolding skip first_of
  show_negative w [] lo hi size = absurd (omega (arith, size))
  show_negative w (c ∷ buf) lo hi size =
      let v : sub32 0 w ≡ 2 ^ 32 - w = omega arith in
      let p =
        itoa-Printed (sub32 0 w) 10 10 buf (omega arith) (omega arith) (omega arith) (omega arith)
          (omega arith) (omega (arith, size)) in
      let text = All-IsText 10 p.text p.numeral.digits in
      (
        p.text,
        subst (λ x. Numeral 10 x p.text) v p.numeral,
        rw (store-append [] c 45 buf 0 refl, p.result)
            (puts-text (45 ∷ p.text) p.rest t ((omega arith, omega arith), text)),
      )

  convert_signed : (a : Bool) (w : ℕ) → w < 2 ^ 32 → Shown f a 100 w t (convert f a 100 w t)
  unfolding convert show_signed
  convert_signed a w lt = elim (Bool-cases (slt w 0)) [
    | inl e ↦
        let (text, numeral, shown) =
          show_negative w (f.conv_buf 36) (ground (arith, e)) lt ok.dec_size in
        record {
          text = 45 ∷ text;
          shows = negative a w text (ground (arith, e)) numeral;
          result = rw (e, shown) refl;
        }
    | inr e ↦
        let (text, numeral, shown) =
          show_number w 10 10 (f.conv_buf 36) (omega arith) (omega arith) (omega arith)
            (omega arith) (omega arith) (omega (arith, ok.dec_size)) in
        record {
          text = text;
          shows = positive a w text (ground (arith, e)) numeral;
          result = rw (e, shown) refl;
        }
  ]

  convert_hex : (w : ℕ) → w < 2 ^ 32 → Shown f false 120 w t (convert f false 120 w t)
  unfolding convert show_hex
  convert_hex w lt =
      let (text, numeral, shown) =
        show_number w 16 8 (f.conv_buf 64) (omega arith) (omega arith) (omega arith) (omega arith)
          (omega arith) (omega (arith, ok.hex_size)) in
      record { text = text; shows = hex w text numeral; result = rw shown refl }

  convert_wide : (w : ℕ) → w < 2 ^ 32 → Shown f true 120 w t (convert f true 120 w t)
  unfolding convert show_hex
  convert_wide w lt =
      let buf = f.conv_buf 64 in
      let (whole, eight, left) = first_of-append-skip 8 buf (omega (arith, ok.hex_size)) in
      let p =
        itoa-Printed w 16 8 (skip 8 buf) (omega arith) (omega arith) (omega arith) (omega arith)
          (omega arith) (omega (arith, ok.hex_size, left)) in
      let text = All-IsText 16 p.text p.numeral.digits in
      let padded = pad_shows (first_of 8 buf) p.text p.rest t eight p.short text in
      record {
        text = replicate (8 - length p.text) 48 ++ p.text;
        shows = wide_hex w p.text p.numeral p.short;
        result = rw (p.result, strlen-text p.text p.rest text, padded) refl;
      }

  convert_percent : (a : Bool) (w : ℕ) → Shown f a 37 w t (convert f a 37 w t)
  unfolding convert emit
  convert_percent a w = record { text = 37 ∷ []; shows = percent a w; result = refl }

  convert_char : (a : Bool) (w : ℕ) → Shown f a 99 w t (convert f a 99 w t)
  unfolding convert emit
  convert_char a w = record { text = (w % 256) ∷ []; shows = char a w; result = refl }

  convert_x : (a : Bool) (w : ℕ) → w < 2 ^ 32 → Shown f a 120 w t (convert f a 120 w t)
  convert_x true w lt = convert_wide w lt
  convert_x false w lt = convert_hex w lt

  convert_string :
      (a : Bool) (c w : ℕ) → c ≡ 115 → Accepts f c w → Shown f a 115 w t (convert f a 115 w t)
  unfolding convert
  convert_string a _ _ e (string w text rest is at) = record {
    text = text;
    shows = string a w text rest is at;
    result = rw (at, puts-text text rest t is) refl;
  }
  convert_string a _ _ e (other c w ne) = absurd (ne e)

  convert_other :
      (a : Bool) (c w : ℕ)
      → c ≢ 37
      → c ≢ 120
      → c ≢ 117
      → c ≢ 100
      → c ≢ 99
      → c ≢ 115
      → Shown f a c w t (convert f a c w t)
  unfolding convert emit takes_arg
  convert_other a c w p x u d q s =
      let no_arg : takes_arg c ≡ false =
        rw (==_ne c 120 x, ==_ne c 117 u, ==_ne c 100 d, ==_ne c 99 q, ==_ne c 115 s) refl in
      record {
        text = [];
        shows = other a c w no_arg p;
        result =
            rw
              (
                ==_ne c 37 p,
                ==_ne c 120 x,
                ==_ne c 117 u,
                ==_ne c 100 d,
                ==_ne c 99 q,
                ==_ne c 115 s,
              )
              refl;
      }

  pub convert-Shown :
      (a : Bool) (c w : ℕ) → w < 2 ^ 32 → Accepts f c w → Shown f a c w t (convert f a c w t)
  convert-Shown a c w lt accepts =
      let by = λ (k : ℕ) (e : c ≡ k). subst (λ k. Shown f a k w t (convert f a k w t)) (sym e) in
      elim (ℕ_discrete c 37) [
        | yes e ↦ by 37 e (convert_percent a w)
        | no p ↦ elim (ℕ_discrete c 120) [
          | yes e ↦ by 120 e (convert_x a w lt)
          | no x ↦ elim (ℕ_discrete c 117) [
            | yes e ↦ by 117 e (convert_unsigned a w lt)
            | no u ↦ elim (ℕ_discrete c 100) [
              | yes e ↦ by 100 e (convert_signed a w lt)
              | no d ↦ elim (ℕ_discrete c 99) [
                | yes e ↦ by 99 e (convert_char a w)
                | no q ↦ elim (ℕ_discrete c 115) [
                  | yes e ↦ by 115 e (convert_string a c w e accepts)
                  | no s ↦ convert_other a c w p x u d q s
                ]
              ]
            ]
          ]
        ]
      ]
