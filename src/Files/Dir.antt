-- ===== src/Files/Dir.antt =====
-- `read_dir` of student-distrib/filesystem.c on one entry.
use unix_like_os.Base.{
  ℕ, zero, suc, ◌+◌, ◌^◌, ◌<◌, ◌≤◌, ◌≡◌, ◌≢◌, ap, refl, sym, ◌∙◌, some, [], ◌∷◌, ◌++◌, append_assoc,
  arith, Bytes, add32, length, get_or, update, update_self, length-append, ltb-true, ltb-false,
}
use unix_like_os.Klib.Text.{IsText, strlen-text}
use unix_like_os.Fs.{Image, copy_to}
use unix_like_os.Proc.{Pcb, Descriptor}
use unix_like_os.Files.{entry_bytes, word_bytes, read_dir}

get_or-append : (xs ys : Bytes) (k : ℕ) → k < length xs → get_or (xs ++ ys) k 0 ≡ get_or xs k 0
get_or-append [] ys k h = absurd (omega arith)
get_or-append (x ∷ xs) ys zero h = refl
get_or-append (x ∷ xs) ys (suc k) h = get_or-append xs ys k (omega arith)

module _ (img : Image) (fd : ℕ) (buf : ℕ → ℕ) (pcb : Pcb) (text rest : Bytes) where
  abbrev pos : ℕ
  pos = (pcb.file_array fd).file_position

  -- A read of the directory at position `pos` before its end, where the entry's bytes are a text and
  -- a NUL: it returns the length of the text, copies the text and no NUL behind it, leaves the rest
  -- of the buffer alone, and goes on to the next entry.
  pub read_dir_entry :
      pos < img.num_dir_entries
      → img.num_dir_entries < 2 ^ 31
      → IsText text
      → entry_bytes (img.dir_entries pos) ≡ text ++ (0 ∷ rest)
      → (pcb' : Pcb) × (out : ℕ → ℕ) × (read_dir img fd buf pcb ≡ some (length text, pcb', out))
        × ((k : ℕ) → k < length text → out k ≡ get_or text k 0)
        × ((k : ℕ) → length text ≤ k → out k ≡ buf k)
        × ((pcb'.file_array fd).file_position ≡ pos + 1)
  unfolding read_dir
  read_dir_entry lt small ok e =
      let d = pcb.file_array fd in
      let next = record d { file_position = add32 d.file_position 1 } in
      let pcb' = record pcb { file_array = update pcb.file_array fd next } in
      let bytes = entry_bytes (img.dir_entries pos) in
      (
        pcb',
        copy_to buf 0 (λ k. get_or bytes k 0) (length text),
        rw (ltb-true _ _ lt, e, strlen-text text rest ok),
        λ k h. ground (arith, ap (λ b. get_or b k 0) e, get_or-append text (0 ∷ rest) k h),
        λ k h. ground arith,
        ap (λ (x : Descriptor). x.file_position) (update_self pcb.file_array fd next) ∙ omega arith,
      )

-- Behind the last entry a read returns 0 and changes nothing.
pub read_dir_end :
    (img : Image) (fd : ℕ) (buf : ℕ → ℕ) (pcb : Pcb)
    → img.num_dir_entries ≤ (pcb.file_array fd).file_position
    → read_dir img fd buf pcb ≡ some (0, pcb, buf)
unfolding read_dir
read_dir_end img fd buf pcb h = rw (ltb-false _ _ h)

IsText-snoc : (xs : Bytes) (c : ℕ) → IsText xs → c ≢ 0 → c < 256 → IsText (xs ++ (c ∷ []))
IsText-snoc [] c h ne lt = ((ne, lt), tt)
IsText-snoc (x ∷ xs) c h ne lt = (h.0, IsText-snoc xs c h.1 ne lt)

get_or-snoc : (xs : Bytes) (c : ℕ) → get_or (xs ++ (c ∷ [])) (length xs) 0 ≡ c
get_or-snoc [] c = refl
get_or-snoc (x ∷ xs) c = get_or-snoc xs c

-- A name that fills its 32 bytes has no NUL, so `read_dir` runs on into the entry's type: for a
-- regular file it returns 33, and the byte behind the name is 2.
pub read_dir_full_name :
    (img : Image) (fd : ℕ) (buf : ℕ → ℕ) (pcb : Pcb)
    → let e = img.dir_entries (pcb.file_array fd).file_position in
      (pcb.file_array fd).file_position < img.num_dir_entries
      → img.num_dir_entries < 2 ^ 31
      → IsText e.fname
      → length e.fname ≡ 32
      → e.ftype ≡ 2
      → (pcb' : Pcb) × (out : ℕ → ℕ) × (read_dir img fd buf pcb ≡ some (33, pcb', out))
        × (out 32 ≡ 2)
read_dir_full_name img fd buf pcb lt small text full kind =
    let e = img.dir_entries (pcb.file_array fd).file_position in
    let longer = e.fname ++ (2 ∷ []) in
    let rest = 0 ∷ 0 ∷ (word_bytes e.inode ++ e.reserved) in
    let bytes : entry_bytes e ≡ longer ++ (0 ∷ rest) =
      ap (λ t. e.fname ++ (word_bytes t ++ (word_bytes e.inode ++ e.reserved))) kind
      ∙ sym (append_assoc e.fname (2 ∷ []) (0 ∷ rest)) in
    let len : length longer ≡ 33 = omega (arith, length-append e.fname (2 ∷ []), full) in
    let (pcb', out, r, copied, _, _) =
      read_dir_entry img fd buf pcb longer rest lt small
        (IsText-snoc e.fname 2 text (omega arith) (omega arith)) bytes in
    (
      pcb',
      out,
      r ∙ ap (λ n. some (n, pcb', out)) len,
      copied 32 (omega (arith, len))
          ∙ ap (λ n. get_or longer n 0) (sym full)
          ∙ get_or-snoc e.fname 2,
    )
