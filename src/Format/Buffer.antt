-- ===== src/Format/Buffer.antt =====
-- libc/stdio/vsprintf.c and sprintf.c: the output to a string.
use condor_fos.Base.{ℕ, ◌+◌, Option, some, List, [], ◌∷◌, ltb, if◌then◌else◌, Memory, write}
use condor_fos.Base.Options.{◌>>=◌}
use condor_fos.Format.{format_loop, initial}

-- The destination of `vsprintf`, with `*offset`.
pub record Dest : Type 0 where
  pub offset : ℕ
  pub memory : Memory

-- `for(size_t i = *offset; i < data_length; i++, (*offset)++) dest[i] = data[i];`, at `i`.
unfoldable pub print_from : (dest i : ℕ) → List ℕ → Dest → Dest
print_from dest i [] d = d
print_from dest i (c ∷ cs) d =
    print_from dest (i + 1) cs (
      if ltb i d.offset then d else record { offset = i + 1; memory = write d.memory (dest + i) c })

-- `print` of vsprintf.c.
unfoldable pub print_into : (dest : ℕ) → List ℕ → Dest → Dest
print_into dest cs d = print_from dest 0 cs d

module _ (outside : ℕ → ℕ) (m : Memory) (args : ℕ → ℕ) (no_amount no_number : ℕ) (buffer : Memory)
    (fuel : ℕ) where
  -- `to` is the memory of the destination, which the strings lie outside of.
  unfoldable pub vsprintf : (dest format : ℕ) → (to : Memory) → Option (ℕ × Memory)
  vsprintf dest format to = do
    st ←
        format_loop (print_into dest) outside m args no_number fuel fuel format
          (initial no_amount buffer (record { offset = 0; memory = to }))
    some (st.written, (print_into dest (0 ∷ []) st.sink).memory)

  unfoldable pub sprintf : (dest format : ℕ) → (to : Memory) → Option (ℕ × Memory)
  sprintf dest format to = vsprintf dest format to
