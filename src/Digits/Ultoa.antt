-- ===== src/Digits/Ultoa.antt =====
-- `ultoa` and `itoa` against reading the string back.
use condor_fos.Base.{
  ℕ, suc, ◌+◌, ◌-◌, ◌^◌, ◌≤◌, ◌<◌, ◌≡◌, ◌≢◌, refl, arith, false, ◌&&◌, ◌||◌, leb, ltb, ◌==◌,
  if◌then◌else◌, Bool-cases, inl, inr, Memory, write, ◌∙◌, some, negsuc,
}
use condor_fos.Bytes.Compare.{IsLength}
use condor_fos.Digits.{reverse, finish, emit, ultoa, itoa, write_zero}
use condor_fos.Digits.Emit.{IsVisible, read_number, Emitted, emit_lem}
use condor_fos.Digits.Reverse.{mirrored, reverse_lem, read_number-reversed}

-- `m'` differs from `m` on the string of `len` characters and its final 0 only, at byte `a`.
abbrev pub OutsideKept : (m m' : Memory) (str len a : ℕ) → Type 0
OutsideKept m m' str len a = m' a ≡ (if leb str a && leb a (str + len) then m' a else m a)

-- The string that is left when the digits are written from `begin` on and reversed.
module _ (m : Memory) (str base value begin : ℕ) (more : value ≢ 0)
    (e : Emitted 32 m str base value begin) where
  abbrev index : ℕ
  index = begin + e.len

  abbrev pub reversed : Memory
  reversed = reverse index (write e.memory (str + index) 0) str begin (index - 1)

  at_reversed :
      (a : ℕ)
      → reversed a ≡ mirrored (write e.memory (str + index) 0) (str + begin) (str + (index - 1)) a
  at_reversed a = reverse_lem index _ str begin (index - 1) a (omega arith)

  pub finish-eq : finish str begin (emit 32 m str base value begin) ≡ some (str, reversed)
  unfolding finish
  finish-eq = rw e.ends refl

  pub reversed-end : reversed (str + begin + e.len) ≡ 0
  reversed-end = ground (arith, at_reversed (str + begin + e.len), e.some_digit more)

  IsVisible-reversed : (i : ℕ) → i < e.len → IsVisible (reversed (str + begin + i))
  IsVisible-reversed i h =
      let mirror : str + begin + (str + (index - 1)) - (str + begin + i)
          ≡ str + begin + (e.len - 1 - i) =
        omega (arith, h) in
      ground
        (arith, at_reversed (str + begin + i), e.visible (e.len - 1 - i) (omega (arith, h)), mirror)

  pub reversed-IsLength : IsLength reversed (str + begin) e.len
  reversed-IsLength =
      (reversed-end, λ i h zero_byte. absurd (omega (arith, (IsVisible-reversed i h).0, zero_byte)))

  pub reversed-reads : read_number e.len reversed base (str + begin) 0 ≡ value
  reversed-reads =
      read_number-reversed e.len reversed e.memory base (str + begin) (str + begin) 0
        (λ i h. ground (arith, at_reversed (str + begin + i)))
      ∙ e.reads

  pub reversed-outside : (a : ℕ) → OutsideKept m reversed (str + begin) e.len a
  reversed-outside a = ground (arith, at_reversed a, e.keeps a, e.some_digit more)

bases : (base : ℕ) → 2 ≤ base → base ≤ 36 → (ltb base 2 || ltb 36 base) ≡ false
bases base two small = ground arith

zero_reads : (m : Memory) (str base : ℕ) → read_number 1 (write_zero m str) base str 0 ≡ 0
unfolding read_number
zero_reads m str base = ground arith

zero_IsLength : (m : Memory) (str : ℕ) → IsLength (write_zero m str) str 1
zero_IsLength m str = (ground arith, λ i h. ground arith)

-- For a base from 2 to 36 and a 32-bit number, `ultoa` ends and returns `str`, which then holds 1 to
-- 32 characters between 0 and Z, and then a 0. Read back in the base they give the number, and no
-- other byte changes.
pub ultoa_lem :
    (m : Memory) (value str base a : ℕ)
    → 2 ≤ base
    → base ≤ 36
    → value < 2 ^ 32
    → (len : ℕ) × (m' : Memory) × (ultoa m value str base ≡ some (str, m'))
      × (0 < len)
      × (len ≤ 32)
      × IsLength m' str len
      × ((i : ℕ) → i < len → IsVisible (m' (str + i)))
      × (read_number len m' base str 0 ≡ value)
      × OutsideKept m m' str len a
unfolding ultoa
ultoa_lem m value str base a two small fits = elim (Bool-cases (value == 0)) [
  | inl zero_value ↦
      rw (bases base two small, zero_value)
        (
          1,
          write_zero m str,
          refl,
          omega arith,
          omega arith,
          zero_IsLength m str,
          λ i h. (ground arith, ground arith),
          zero_reads m str base ∙ ground arith,
          ground arith,
        )
  | inr more ↦
      let nonzero : value ≢ 0 = ground arith in
      let start : str + 0 ≡ str = omega arith in
      let e = emit_lem 32 m str base value 0 two small fits in
      rw (bases base two small, more)
        (
          e.len,
          reversed m str base value 0 nonzero e,
          finish-eq m str base value 0 nonzero e,
          e.some_digit nonzero,
          e.short,
          (rw start at (reversed-IsLength m str base value 0 nonzero e)),
          λ i h. rw start at (IsVisible-reversed m str base value 0 nonzero e i h),
          (rw start at (reversed-reads m str base value 0 nonzero e)),
          (rw start at (reversed-outside m str base value 0 nonzero e a)),
        )
]

-- A sign and digits are a string.
signed-IsLength :
    (m : Memory) (str len : ℕ)
    → m str ≡ 45
    → m (str + 1 + len) ≡ 0
    → ((i : ℕ) → i < len → IsVisible (m (str + 1 + i)))
    → IsLength m str (suc len)
signed-IsLength m str len sign end visible = (
  (let at : str + 1 + len ≡ str + suc len = omega arith in rw (← at) end),
  λ i h. elim (Bool-cases (i == 0)) [
    | inl first ↦
        let at : str + i ≡ str = ground arith in rw at (λ z. absurd (omega (arith, sign, z)))
    | inr later ↦
        let at : str + 1 + (i - 1) ≡ str + i = ground arith in
        rw (← at) (λ z. absurd (omega (arith, visible (i - 1) (ground arith), z)))
  ],
)

-- For a base from 2 to 36 and a negative number above -2 ^ 31, `itoa` ends and returns `str`, which
-- then holds a minus sign, 1 to 32 characters between 0 and Z and a 0. The digits read back give the magnitude, and no
-- other byte changes.
pub itoa-negsuc :
    (m : Memory) (n str base a : ℕ)
    → 2 ≤ base
    → base ≤ 36
    → n + 1 < 2 ^ 31
    → (len : ℕ) × (m' : Memory) × (itoa m (negsuc n) str base ≡ some (str, m'))
      × (0 < len)
      × (len ≤ 32)
      × (m' str ≡ 45)
      × IsLength m' str (suc len)
      × ((i : ℕ) → i < len → IsVisible (m' (str + 1 + i)))
      × (read_number len m' base (str + 1) 0 ≡ n + 1)
      × OutsideKept m m' str (1 + len) a
unfolding itoa
itoa-negsuc m n str base a two small fits =
    let signed = write m str 45 in
    let nonzero : n + 1 ≢ 0 = λ h. absurd (omega arith) in
    let e = emit_lem 32 signed str base (n + 1) 1 two small (omega arith) in
    let kept = reversed-outside signed str base (n + 1) 1 nonzero e in
    rw (bases base two small) (
      e.len,
      reversed signed str base (n + 1) 1 nonzero e,
      finish-eq signed str base (n + 1) 1 nonzero e,
      e.some_digit nonzero,
      e.short,
      ground (arith, kept str),
      signed-IsLength (reversed signed str base (n + 1) 1 nonzero e) str e.len
          (ground (arith, kept str)) (reversed-end signed str base (n + 1) 1 nonzero e)
          (IsVisible-reversed signed str base (n + 1) 1 nonzero e),
      IsVisible-reversed signed str base (n + 1) 1 nonzero e,
      reversed-reads signed str base (n + 1) 1 nonzero e,
      ground (arith, kept a),
    )
