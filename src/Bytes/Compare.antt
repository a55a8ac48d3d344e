-- ===== src/Bytes/Compare.antt =====
-- The comparisons: when they give 0. And the length of a string.
use condor_fos.Base.{
  ℕ, zero, suc, ◌+◌, ◌≤◌, ◌<◌, ◌≡◌, ◌≢◌, ◌⊎◌, ◌↔◌, inl, inr, refl, true, false, arith, ltb, ◌==◌,
  Memory, Bool-cases, some, ℤ, pos, max, sym, ap, ◌∙◌,
}
use condor_fos.Bytes.{char_diff, compare_bytes, strncmp, count, strlen, strcmp}

abbrev pub AreBytes : Memory → Type 0
AreBytes m = (a : ℕ) → m a < 256

-- The string at `str` ends at its first 0, `len` bytes further.
abbrev pub IsLength : Memory → (str len : ℕ) → Type 0
IsLength m str len = (m (str + len) ≡ 0) × ((i : ℕ) → i < len → m (str + i) ≢ 0)

-- The first `n` bytes agree, up to and with the first 0.
abbrev pub Agree : ℕ → Memory → (p q : ℕ) → Type 0
Agree n m p q = (i : ℕ) → i < n → ((j : ℕ) → j < i → m (p + j) ≢ 0) → m (p + i) ≡ m (q + i)

char_diff_lem : (a b : ℕ) → a < 256 → b < 256 → (char_diff a b ≡ pos 0) ↔ (a ≡ b)
unfolding char_diff
char_diff_lem a b ha hb = ground arith

Agree-one : (m : Memory) (p q : ℕ) → Agree 1 m p q ↔ (m p ≡ m q)
Agree-one m p q = (
  λ agree. ground (arith, agree 0 (omega arith) (λ j h. absurd (omega arith))),
  λ same i h before. ground arith,
)

module _ (m : Memory) (p : ℕ) (more : m p ≢ 0) where
  nonzero-suc :
      (i : ℕ) → ((j : ℕ) → j < i → m (p + 1 + j) ≢ 0) → (j : ℕ) → j < suc i → m (p + j) ≢ 0
  nonzero-suc i before zero h e = more (ground arith)
  nonzero-suc i before (suc j) h e = before j (omega arith) (ground arith)

  module _ (n q : ℕ) (same : m p ≡ m q) where
    Agree-tail : Agree (suc n) m p q → Agree n m (p + 1) (q + 1)
    Agree-tail agree i h before = ground (arith, agree (suc i) (omega arith) (nonzero-suc i before))

    Agree-cons : Agree n m (p + 1) (q + 1) → Agree (suc n) m p q
    Agree-cons agree zero h before = ground arith
    Agree-cons agree (suc i) h before =
        let later : (j : ℕ) → j < i → m (p + 1 + j) ≢ 0 =
          λ j hj e. before (suc j) (omega arith) (ground arith) in
        ground (arith, agree i (omega arith) later)

Agree-stop : (n : ℕ) (m : Memory) (p q : ℕ) → m p ≡ 0 → m p ≡ m q → Agree n m p q
Agree-stop n m p q stop same zero h before = ground arith
Agree-stop n m p q stop same (suc i) h before = absurd (before 0 (omega arith) (ground arith))

module _ (m : Memory) (bytes : AreBytes m) where
  head : (p q : ℕ) → (char_diff (m p) (m q) ≡ pos 0) ↔ (m p ≡ m q)
  head p q = char_diff_lem (m p) (m q) (bytes p) (bytes q)

  -- One round that goes on, and one that ends with equal bytes.
  going_on :
      (n p q : ℕ)
      → m p ≡ m q
      → m p ≢ 0
      → compare_bytes (suc (suc n)) m p q ≡ compare_bytes (suc n) m (p + 1) (q + 1)
  unfolding compare_bytes
  going_on n p q same more =
      let e : (m p == m q) ≡ true = ground arith in
      let np : (m p == 0) ≡ false = ground arith in
      let nq : (m q == 0) ≡ false = ground arith in
      let left : ltb 1 (suc (suc n)) ≡ true = ground arith in rw (e, np, nq, left) refl

  ending :
      (n p q : ℕ) → (m p ≢ m q) ⊎ (m p ≡ 0) → compare_bytes (suc n) m p q ≡ char_diff (m p) (m q)
  unfolding compare_bytes
  ending n p q (inl differ) = let e : (m p == m q) ≡ false = ground arith in rw e refl
  ending n p q (inr stop) = elim (Bool-cases (m p == m q)) [
    | inl same ↦ elim (Bool-cases (ltb 1 (suc n))) [
      | inl more ↦ let z : (m p == 0) ≡ true = ground arith in rw (same, more, z) refl
      | inr last ↦ rw (same, last) refl
    ]
    | inr differ ↦ rw differ refl
  ]

  compare_bytes_iff : (n p q : ℕ) → (compare_bytes (suc n) m p q ≡ pos 0) ↔ Agree (suc n) m p q
  unfolding compare_bytes
  compare_bytes_iff zero p q = elim (Bool-cases (m p == m q)) [
    | inl same ↦
        (λ e. (Agree-one m p q).1 (ground arith), λ a. rw same ((head p q).1 (ground arith)))
    | inr differ ↦ (
      λ e. absurd (ground (arith, (head p q).0 (rw differ at e))),
      λ a. absurd (ground (arith, (Agree-one m p q).0 a)),
    )
  ]
  compare_bytes_iff (suc n) p q = elim (Bool-cases (m p == m q)) [
    | inl same ↦ elim (Bool-cases (m p == 0)) [
      | inl stop ↦ (
        λ e. Agree-stop (suc (suc n)) m p q (ground arith) (ground arith),
        λ a. ending (suc n) p q (inr (ground arith)) ∙ (head p q).1 (ground arith),
      )
      | inr more ↦
          let next = compare_bytes_iff n (p + 1) (q + 1) in
          let path = going_on n p q (ground arith) (ground arith) in
          (
            λ e. Agree-cons m p (ground arith) (suc n) q (ground arith) (next.0 (sym path ∙ e)),
            λ a. path ∙ next.1 (Agree-tail m p (ground arith) (suc n) q (ground arith) a),
          )
    ]
    | inr differ ↦
        let path = ending (suc n) p q (inl (ground arith)) in
        (
          λ e. absurd (ground (arith, (head p q).0 (sym path ∙ e))),
          λ a. absurd (ground (arith, a 0 (omega arith) (λ j h. absurd (omega arith)))),
        )
  ]

  any_count : (num p q : ℕ) → (compare_bytes num m p q ≡ pos 0) ↔ Agree (max num 1) m p q
  unfolding compare_bytes
  any_count zero p q =
      (λ e. (Agree-one m p q).1 ((head p q).0 e), λ a. (head p q).1 ((Agree-one m p q).0 a))
  any_count (suc num) p q =
      let top : max (suc num) 1 ≡ suc num = omega arith in rw top (compare_bytes_iff num p q)

  -- For bytes, `strncmp` of two different pointers gives 0 exactly if the first `num` bytes agree, up
  -- to and with the first 0; it looks at one byte when `num` is 0.
  strncmp-zero : (p q num : ℕ) → p ≢ q → (strncmp m p q num ≡ pos 0) ↔ Agree (max num 1) m p q
  unfolding strncmp
  strncmp-zero p q num apart = let d : (p == q) ≡ false = ground arith in rw d (any_count num p q)

  strcmp-compare_bytes :
      (fuel p q k : ℕ)
      → IsLength m p k
      → k < fuel
      → strcmp fuel m p q ≡ some (compare_bytes (suc k) m p q)
  unfolding strcmp
  strcmp-compare_bytes zero p q k l enough = absurd (omega arith)
  strcmp-compare_bytes (suc fuel) p q zero (end, before) enough =
      let z : (m p == 0) ≡ true = ground arith in
      rw (ending 0 p q (inr (ground arith)), z) (ground arith)
  strcmp-compare_bytes (suc fuel) p q (suc k) (end, before) enough =
      let more : m p ≢ 0 = λ e. before 0 (omega arith) (ground arith) in
      let np : (m p == 0) ≡ false = ground arith in
      elim (Bool-cases (m p == m q)) [
        | inl same ↦
            let nq : (m q == 0) ≡ false = ground arith in
            rw (same, np, nq, going_on k p q (ground arith) more)
              (strcmp-compare_bytes fuel (p + 1) (q + 1) k
                (ground arith, λ i h e. before (suc i) (omega arith) (ground arith)) (omega arith))
        | inr differ ↦ rw (differ, ending (suc k) p q (inl (ground arith))) refl
      ]

  -- For bytes and a first string of length `k`, `strcmp` ends once the fuel is larger than `k`, and
  -- gives 0 exactly if the two strings agree up to and with the first 0.
  strcmp-zero :
      (fuel p q k : ℕ)
      → IsLength m p k
      → k < fuel
      → (r : ℤ) × (strcmp fuel m p q ≡ some r) × ((r ≡ pos 0) ↔ Agree (suc k) m p q)
  strcmp-zero fuel p q k l enough = (
    compare_bytes (suc k) m p q,
    strcmp-compare_bytes fuel p q k l enough,
    compare_bytes_iff k p q,
  )

strlen-count :
    (fuel : ℕ) (m : Memory) (str len k : ℕ)
    → IsLength m str k
    → len ≤ k
    → k < len + fuel
    → count fuel m str len ≡ some k
unfolding count
strlen-count zero m str len k l before enough = absurd (omega arith)
strlen-count (suc fuel) m str len k l before enough = elim (Bool-cases (len == k)) [
  | inl here ↦
      let z : (m (str + len) == 0) ≡ true = let end = l.0 in ground arith in
      let same : len ≡ k = ground arith in rw z (ap some same)
  | inr further ↦
      let nz : (m (str + len) == 0) ≡ false = let more = l.1 len (ground arith) in ground arith in
      rw nz (strlen-count fuel m str (len + 1) k l (ground arith) (omega arith))
]

-- `strlen` ends at the first 0 of the string, and gives its index, once the fuel is larger.
pub strlen_lem :
    (fuel : ℕ) (m : Memory) (str k : ℕ) → IsLength m str k → k < fuel → strlen fuel m str ≡ some k
unfolding strlen
strlen_lem fuel m str k l enough = strlen-count fuel m str 0 k l (omega arith) (omega arith)
