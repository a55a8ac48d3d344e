-- ===== src/Machine/Takes.antt =====
-- What a run of a C function does to a predicate on the state: it never goes through a bad pointer.
use condor_fos.Base.{◌≡◌, refl, Bool, true, false, if◌then◌else◌}
use condor_fos.Machine.{Run, done, fault, spinning, Action, pure, gets, ◌>>=◌}

-- The run has not gone through a bad pointer; `Stuck` tells what is allowed in a loop without end.
abbrev pub Ends : {A : Type 0} → Type 0 → (A → Type 0) → Run A → Type 0
Ends Stuck P (done a) = P a
Ends Stuck P fault = ⊥
Ends Stuck P spinning = Stuck

pub record Takes {S A : Type 0} (Stuck : Type 0) (P : S → Type 0) (Q : A → S → Type 0)
    (m : Action S A) : Type 0 where
  pub at : (s : S) → P s → Ends Stuck (λ r. Q r.0 r.1) (m s)

abbrev pub Keeps : {S A : Type 0} → Type 0 → (S → Type 0) → Action S A → Type 0
Keeps Stuck P m = Takes Stuck P (λ _. P) m

module _ {S A : Type 0} {Stuck : Type 0} {P : S → Type 0} where
  pub Takes-pure : {Q : A → S → Type 0} (a : A) → ((s : S) → P s → Q a s) → Takes Stuck P Q (pure a)
  unfolding pure
  Takes-pure a weaken = record { at = weaken }

  pub Keeps-pure : (a : A) → Keeps Stuck P (pure a)
  unfolding pure
  Keeps-pure a = record { at = λ s p. p }

  pub Keeps-gets : (f : S → A) → Keeps Stuck P (gets f)
  unfolding gets
  Keeps-gets f = record { at = λ s p. p }

  pub Takes-if :
      {Q : A → S → Type 0} (b : Bool) (m n : Action S A)
      → (b ≡ true → Takes Stuck P Q m)
      → (b ≡ false → Takes Stuck P Q n)
      → Takes Stuck P Q (if b then m else n)
  Takes-if true m n km kn = km refl
  Takes-if false m n km kn = kn refl

module _ {S A : Type 0} (Stuck : Type 0) (Q R : A → S → Type 0) where
  mono_run :
      (r : Run (A × S))
      → ((a : A) (s : S) → Q a s → R a s)
      → Ends Stuck (λ r. Q r.0 r.1) r
      → Ends Stuck (λ r. R r.0 r.1) r
  mono_run (done (a, s)) weaken q = weaken a s q
  mono_run fault weaken q = q
  mono_run spinning weaken q = q

module _ {S A : Type 0} {Stuck : Type 0} {Q R : A → S → Type 0} where
  pub mono :
      {P : S → Type 0} (m : Action S A)
      → Takes Stuck P Q m
      → ((a : A) (s : S) → Q a s → R a s)
      → Takes Stuck P R m
  mono m t weaken = record { at = λ s p. mono_run Stuck Q R (m s) weaken (t.at s p) }

module _ {S A B : Type 0} {Stuck : Type 0} {Q : A → S → Type 0} {R : B → S → Type 0} where
  bind_run :
      (r : Run (A × S)) (f : A → Action S B)
      → Ends Stuck (λ r. Q r.0 r.1) r
      → ((a : A) → Takes Stuck (Q a) R (f a))
      → Ends Stuck
          (λ r. R r.0 r.1)
          (elim r [ done (a, s') ↦ f a s' | fault ↦ fault | spinning ↦ spinning ])
  bind_run (done (a, s)) f q k = (k a).at s q
  bind_run fault f q k = q
  bind_run spinning f q k = q

  pub Takes-bind :
      {P : S → Type 0} (m : Action S A) (f : A → Action S B)
      → Takes Stuck P Q m
      → ((a : A) → Takes Stuck (Q a) R (f a))
      → Takes Stuck P R (m >>= f)
  unfolding ◌>>=◌
  Takes-bind m f t k = record { at = λ s p. bind_run (m s) f (t.at s p) k }

module _ {S A B : Type 0} {Stuck : Type 0} {P : S → Type 0} where
  pub Keeps-bind :
      (m : Action S A) (f : A → Action S B)
      → Keeps Stuck P m
      → ((a : A) → Keeps Stuck P (f a))
      → Keeps Stuck P (m >>= f)
  Keeps-bind m f t k = Takes-bind m f t k

pub ruleset keeps_rules = (Keeps-pure, Keeps-gets, Takes-if, Keeps-bind)

-- What the state before is known to satisfy may be used.
pub Takes-known :
    {S A : Type 0} {Stuck : Type 0} {K : Type 0} {P : S → Type 0} {Q : A → S → Type 0}
    (m : Action S A)
    → (K → Takes Stuck P Q m)
    → Takes Stuck (λ s. K × P s) Q m
Takes-known m t = record { at = λ s (k, p). (t k).at s p }

pub Takes-weaken :
    {S A : Type 0} {Stuck : Type 0} {P P' : S → Type 0} {Q : A → S → Type 0} (m : Action S A)
    → ((s : S) → P s → P' s)
    → Takes Stuck P' Q m
    → Takes Stuck P Q m
Takes-weaken m weaken t = record { at = λ s p. t.at s (weaken s p) }
