-- ===== src/Tty/Strings.antt =====
-- The loops of kernel/arch/i386/tty.c over the characters of a string.
use condor_fos.Base.{
  length, ℕ, zero, suc, ◌+◌, ◌-◌, ◌%◌, ◌^◌, ◌<◌, ◌≡◌, ◌≢◌, refl, arith, ◌∙◌, some, true, false,
  List, [], ◌∷◌, ltb, ◌==◌, Memory, inl, inr, Bool-cases,
}
use condor_fos.Bytes.Compare.{IsLength, strlen_lem}
use condor_fos.Tty.{Terminal, put_one, put_all, show_cursor, terminal_puts_color}

-- The characters stand at `p`, with a 0 behind them and none among them.
abbrev pub HasText : Memory → (p : ℕ) → List ℕ → Type 0
HasText m p [] = m p ≡ 0
HasText m p (c ∷ cs) = (m p ≡ c) × (c ≢ 0) × HasText m (p + 1) cs

pub HasText-IsLength :
    (m : Memory) (p : ℕ) (cs : List ℕ) → HasText m p cs → IsLength m p (length cs)
HasText-IsLength m p [] end =
    let at : p + 0 ≡ p = omega arith in (rw at end, λ i h. absurd (omega arith))
HasText-IsLength m p (c ∷ cs) (here, nonzero, rest) =
    let (end, inside) = HasText-IsLength m (p + 1) cs rest in
    (
      (let at : p + 1 + length cs ≡ p + suc (length cs) = omega arith in rw (← at) end),
      λ i h. elim (Bool-cases (i == 0)) [
        | inl first ↦ let at : p + i ≡ p = ground arith in rw (at, here) nonzero
        | inr later ↦
            let at : p + 1 + (i - 1) ≡ p + i = ground arith in
            rw (← at) (inside (i - 1) (ground arith))
      ],
    )

-- What the characters make of the screen, one after the other, and the cursor shown behind them.
abbrev pub put_each : Terminal → List ℕ → (color : ℕ) → Terminal
put_each t [] color = t
put_each t (c ∷ cs) color = put_each (put_one t c color) cs color

abbrev pub printed : Terminal → List ℕ → (color : ℕ) → Terminal
printed t cs color = show_cursor (put_each t cs color)

module _ (m : Memory) (color : ℕ) where
  put_all-more :
      (fuel len : ℕ) (t : Terminal) (string i c : ℕ)
      → m (string + i) ≡ c
      → i < len
      → len < 2 ^ 16
      → put_all (suc fuel) len t m string i color
        ≡ put_all fuel len (put_one t c color) m string (i + 1) color
  unfolding put_all
  put_all-more fuel len t string i c here inside short =
      let more : ltb i len ≡ true = ground arith in
      let wrap : (i + 1) % 2 ^ 16 ≡ i + 1 = omega arith in rw (more, wrap, here) refl

  put_all-HasText :
      (cs : List ℕ) (fuel len : ℕ) (t : Terminal) (string i : ℕ)
      → HasText m (string + i) cs
      → i + length cs ≡ len
      → len < 2 ^ 16
      → length cs < fuel
      → put_all fuel len t m string i color ≡ some (put_each t cs color)
  unfolding put_all
  put_all-HasText cs zero len t string i has at short enough = absurd (omega arith)
  put_all-HasText [] (suc fuel) len t string i has at short enough =
      let stop : ltb i len ≡ false = ground arith in rw stop refl
  put_all-HasText (c ∷ cs) (suc fuel) len t string i (here, nonzero, rest) at short enough =
      let next : string + i + 1 ≡ string + (i + 1) = omega arith in
      put_all-more fuel len t string i c here (omega arith) short
      ∙ put_all-HasText cs fuel len (put_one t c color) string (i + 1) (rw (← next) rest)
          (omega arith) short (omega arith)

pub terminal_puts_color-HasText :
    (fuel : ℕ) (m : Memory) (t : Terminal) (string color : ℕ) (cs : List ℕ)
    → HasText m string cs
    → length cs < 2 ^ 16
    → length cs < fuel
    → terminal_puts_color fuel t m string color ≡ some (printed t cs color)
unfolding terminal_puts_color
terminal_puts_color-HasText fuel m t string color cs has short enough =
    let start : string + 0 ≡ string = omega arith in
    rw
      (
        strlen_lem fuel m string (length cs) (HasText-IsLength m string cs has) enough,
        put_all-HasText m color cs fuel (length cs) t string 0 (rw start has) (omega arith) short
            enough,
      )
      refl
