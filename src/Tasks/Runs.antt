-- ===== src/Tasks/Runs.antt =====
-- Runs that may panic, as kernel/kernel/tasks.c has them: what they end in.
use condor_fos.Pmm.Stack.{Run, ok, panic}
use condor_fos.Pmm.Alloc.{◌>>=◌}

abbrev pub Outcome : {A : Type 0} → Type 0 → (A → Type 0) → Run A → Type 0
Outcome Why P (ok a) = P a
Outcome Why P panic = Why

-- A run that ends in `P`, or in a panic for the reason `Why`.
pub record Gives {A : Type 0} (Why : Type 0) (P : A → Type 0) (r : Run A) : Type 0 where
  pub run : Outcome Why P r

module _ {A B : Type 0} (Why : Type 0) (P : A → Type 0) (Q : B → Type 0) where
  bind_outcome :
      (r : Run A) (f : A → Run B)
      → Outcome Why P r
      → ((a : A) → P a → Outcome Why Q (f a))
      → Outcome Why Q (r >>= f)
  bind_outcome (ok a) f p k = k a p
  bind_outcome panic f p k = p

pub Gives-bind :
    {A B : Type 0} {Why : Type 0} {P : A → Type 0} {Q : B → Type 0} (r : Run A) (f : A → Run B)
    → Gives Why P r
    → ((a : A) → P a → Gives Why Q (f a))
    → Gives Why Q (r >>= f)
Gives-bind r f p k = record { run = bind_outcome _ _ _ r f p.run (λ a q. (k a q).run) }

weaken_outcome :
    {A : Type 0} (Why Why' : Type 0) (P : A → Type 0) (r : Run A)
    → (Why → Why')
    → Outcome Why P r
    → Outcome Why' P r
weaken_outcome Why Why' P (ok a) weaken p = p
weaken_outcome Why Why' P panic weaken p = weaken p

pub Gives-weaken :
    {A : Type 0} {Why Why' : Type 0} {P : A → Type 0} (r : Run A)
    → (Why → Why')
    → Gives Why P r
    → Gives Why' P r
Gives-weaken r weaken g = record { run = weaken_outcome _ _ _ r weaken g.run }

mono_outcome :
    {A : Type 0} (Why : Type 0) (P Q : A → Type 0) (r : Run A)
    → Outcome Why P r
    → ((a : A) → P a → Q a)
    → Outcome Why Q r
mono_outcome Why P Q (ok a) p weaken = weaken a p
mono_outcome Why P Q panic p weaken = p

pub Gives-mono :
    {A : Type 0} {Why : Type 0} {P Q : A → Type 0} (r : Run A)
    → Gives Why P r
    → ((a : A) → P a → Q a)
    → Gives Why Q r
Gives-mono r g weaken = record { run = mono_outcome _ _ _ r g.run weaken }

pub any_outcome :
    {A : Type 0} {Why : Type 0} (r : Run A) → Why → Outcome Why (λ (a : A). Unit {0}) r
any_outcome (ok a) why = tt
any_outcome panic why = why
