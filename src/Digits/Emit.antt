-- ===== src/Digits/Emit.antt =====
-- The digits that `emit` writes, from the lowest one on.
use native.Mathlib.Nat.{mul-le-mul_left, div-mul-le_self, mod-lt, mod-add-div', pow-suc}
use condor_fos.Base.{
  ℕ, zero, suc, ◌+◌, ◌-◌, ◌*◌, ◌/◌, ◌%◌, ◌^◌, ◌≤◌, ◌<◌, ◌≡◌, ◌≢◌, refl, arith, Bool, true, false,
  ◌&&◌, ltb, leb, ◌==◌, if◌then◌else◌, Bool-cases, inl, inr, ◌⊎◌, Memory, write, some, ap, sym, ◌∙◌,
}
use condor_fos.Digits.{digit_char, emit}

-- The number that a digit character stands for.
abbrev pub char_value : ℕ → ℕ
char_value c = if ltb c 58 then c - 48 else c - 55

-- The number in the `n` characters from `p` on, the highest digit first, behind `acc`.
unfoldable pub read_number : ℕ → Memory → (base p acc : ℕ) → ℕ
read_number zero m base p acc = acc
read_number (suc n) m base p acc = read_number n m base (p + 1) (acc * base + char_value (m p))

-- The same with the highest digit last.
unfoldable pub read_reversed : ℕ → Memory → (base p acc : ℕ) → ℕ
read_reversed zero m base p acc = acc
read_reversed (suc n) m base p acc = read_reversed n m base p (acc * base + char_value (m (p + n)))

read_reversed-suc :
    (n : ℕ) (m : Memory) (base p acc : ℕ)
    → read_reversed (suc n) m base p acc
      ≡ read_reversed n m base (p + 1) acc * base + char_value (m p)
unfolding read_reversed
read_reversed-suc zero m base p acc = ground arith
read_reversed-suc (suc n) m base p acc =
    let next : p + suc n ≡ p + 1 + n = omega arith in
    read_reversed-suc n m base p (acc * base + char_value (m (p + suc n)))
    ∙ ap
        (λ x.
          read_reversed n m base (p + 1) (acc * base + char_value (m x)) * base + char_value (m p))
        next

-- Every digit below `n` is read back.
abbrev all_round : ℕ → Bool
all_round zero = true
all_round (suc n) = (char_value (digit_char n) == n) && all_round n

all_round-holds : (n d : ℕ) → d < n → all_round n ≡ true → (char_value (digit_char d) == d) ≡ true
all_round-holds zero d h all = absurd (omega arith)
all_round-holds (suc n) d h all = elim (Bool-cases (d == n)) [
  | inl last ↦ let e : d ≡ n = ground arith in rw e (ground arith)
  | inr before ↦ all_round-holds n d (ground arith) (ground arith)
]

char_value-digit_char : (d : ℕ) → d < 36 → char_value (digit_char d) ≡ d
unfolding digit_char
char_value-digit_char d h = ground (arith, all_round-holds 36 d h refl)

-- The characters of the digits lie between 0 and Z.
abbrev pub IsVisible : ℕ → Type 0
IsVisible c = (48 ≤ c) × (c ≤ 90)

abbrev all_visible : ℕ → Bool
all_visible zero = true
all_visible (suc n) = leb 48 (digit_char n) && leb (digit_char n) 90 && all_visible n

all_visible_lem : (n d : ℕ) → d < n → all_visible n ≡ true → IsVisible (digit_char d)
all_visible_lem zero d h all = absurd (omega arith)
all_visible_lem (suc n) d h all = elim (Bool-cases (d == n)) [
  | inl last ↦ let e : d ≡ n = ground arith in rw e (ground arith, ground arith)
  | inr before ↦ all_visible_lem n d (ground arith) (ground arith)
]

IsVisible-digit_char : (d : ℕ) → d < 36 → IsVisible (digit_char d)
unfolding digit_char
IsVisible-digit_char d h = all_visible_lem 36 d h refl

-- A memory that agrees on the digits reads the same.
read_reversed-cong :
    (n : ℕ) (m m' : Memory) (base p acc : ℕ)
    → ((i : ℕ) → i < n → m (p + i) ≡ m' (p + i))
    → read_reversed n m base p acc ≡ read_reversed n m' base p acc
unfolding read_reversed
read_reversed-cong zero m m' base p acc same = refl
read_reversed-cong (suc n) m m' base p acc same =
    rw (same n (omega arith)) (read_reversed-cong n m m' base p _ (λ i h. same i (omega arith)))

div-halves : (base value : ℕ) → 2 ≤ base → value / base ≤ value / 2
div-halves base value two =
    let twice = mul-le-mul_left (value / base) two in
    omega (arith, twice, div-mul-le_self value base)

-- What `emit` has done: it has ended, and the characters from `index` on read back as the value.
pub record Emitted (fuel : ℕ) (m : Memory) (str base value index : ℕ) : Type 0 where
  pub len : ℕ
  pub memory : Memory
  pub ends : emit fuel m str base value index ≡ some (index + len, memory)
  pub short : len ≤ fuel
  pub some_digit : value ≢ 0 → 0 < len
  pub visible : (i : ℕ) → i < len → IsVisible (memory (str + index + i))
  pub reads : read_reversed len memory base (str + index) 0 ≡ value
  pub keeps : (a : ℕ) → (a < str + index) ⊎ (str + index + len ≤ a) → memory a ≡ m a

nothing_left :
    (fuel : ℕ) (m : Memory) (str base value index : ℕ)
    → value ≡ 0
    → Emitted fuel m str base value index
unfolding emit read_reversed
nothing_left zero m str base value index z = record {
  len = 0;
  memory = m;
  ends = ground arith;
  short = omega arith;
  some_digit = λ more. absurd (more z);
  visible = λ i h. absurd (omega arith);
  reads = sym z;
  keeps = λ a h. refl;
}
nothing_left (suc fuel) m str base value index z = record {
  len = 0;
  memory = m;
  ends = ground arith;
  short = omega arith;
  some_digit = λ more. absurd (more z);
  visible = λ i h. absurd (omega arith);
  reads = sym z;
  keeps = λ a h. refl;
}

module _ (fuel : ℕ) (m : Memory) (str base value index : ℕ) (two : 2 ≤ base) (small : base ≤ 36)
    (more : value ≢ 0) where
  abbrev written : Memory
  written = write m (str + index) (digit_char (value % base))

  one_more :
      Emitted fuel written str base (value / base) (index + 1)
      → Emitted (suc fuel) m str base value index
  unfolding emit
  one_more rest =
      let base_pos : 0 < base = omega arith in
      let low : value % base < 36 = omega (arith, mod-lt value base_pos) in
      let shift : str + (index + 1) ≡ str + index + 1 = omega arith in
      record {
        len = suc rest.len;
        memory = rest.memory;
        ends =
            let go : (value == 0) ≡ false = ground arith in
            let end : index + 1 + rest.len ≡ index + suc rest.len = omega arith in
            rw go (rest.ends ∙ ap (λ (i : ℕ). some (i, rest.memory)) end);
        short = omega (arith, rest.short);
        some_digit = λ h. omega arith;
        visible = λ i h. elim (Bool-cases (i == 0)) [
          | inl first ↦ ground (
            arith,
            rest.keeps (str + index) (inl (omega arith)),
            IsVisible-digit_char (value % base) low,
          )
          | inr later ↦
              let at : str + (index + 1) + (i - 1) ≡ str + index + i = ground arith in
              rw (← at) (rest.visible (i - 1) (ground arith))
        ];
        reads =
            let quotient : read_reversed rest.len rest.memory base (str + index + 1) 0
                ≡ value / base =
              ap (λ (p : ℕ). read_reversed rest.len rest.memory base p 0) (sym shift)
              ∙ rest.reads in
            let here : rest.memory (str + index) ≡ digit_char (value % base) =
              ground (arith, rest.keeps (str + index) (inl (omega arith))) in
            let digit : char_value (rest.memory (str + index)) ≡ value % base =
              ap char_value here ∙ char_value-digit_char (value % base) low in
            read_reversed-suc rest.len rest.memory base (str + index) 0
            ∙ rw (quotient, digit) (omega (arith, mod-add-div' value base));
        keeps = λ a h. ground (arith, rest.keeps a (ground arith));
      }

-- `emit` ends once the fuel has as many rounds as the value has bits.
pub emit_lem :
    (fuel : ℕ) (m : Memory) (str base value index : ℕ)
    → 2 ≤ base
    → base ≤ 36
    → value < 2 ^ fuel
    → Emitted fuel m str base value index
emit_lem zero m str base value index two small fits =
    nothing_left zero m str base value index (omega arith)
emit_lem (suc fuel) m str base value index two small fits = elim (Bool-cases (value == 0)) [
  | inl none_left ↦ nothing_left (suc fuel) m str base value index (ground arith)
  | inr more ↦
      let less : value / base < 2 ^ fuel =
        omega (arith, pow-suc 2 fuel, div-halves base value two, fits) in
      one_more fuel m str base value index two small (ground arith)
        (emit_lem fuel _ str base (value / base) (index + 1) two small less)
]
