-- ===== src/Scheduler/Queue.antt =====
-- The scheduler implements a queue: `schedule_process` appends, `scheduler_preempt` rotates.
use condor_fos.Base.{
  ℕ, ◌≡◌, ◌≢◌, refl, sym, ap, ◌∙◌, false, ◌==◌, if◌then◌else◌, List, [], ◌∷◌, ◌++◌, arith,
  Bool-cases, inl, inr,
}
use condor_fos.Pmm.Alloc.{poison_null}
use condor_fos.Scheduler.{Process, Scheduler, update, set_next, schedule_process}

abbrev pub next_of : Scheduler → ℕ → ℕ
next_of s p = (s.heap p).next

-- The processes from `x` on are those of the list, and the last one has no next.
abbrev pub Linked : (ℕ → ℕ) → ℕ → List ℕ → Type 0
Linked n x [] = n x ≡ poison_null
Linked n x (y ∷ ys) = (n x ≡ y) × Linked n y ys

abbrev pub NotIn : ℕ → List ℕ → Type 0
NotIn a [] = Unit {0}
NotIn a (x ∷ xs) = (a ≢ x) × NotIn a xs

abbrev pub IsDistinct : List ℕ → Type 0
IsDistinct [] = Unit {0}
IsDistinct (x ∷ xs) = NotIn x xs × IsDistinct xs

abbrev pub last_of : ℕ → List ℕ → ℕ
last_of x [] = x
last_of x (y ∷ ys) = last_of y ys

-- `p_last` is set once there are two processes.
abbrev pub last_pointer : ℕ → List ℕ → ℕ
last_pointer x [] = poison_null
last_pointer x (y ∷ ys) = last_of y ys

-- The state holds the queue `xs`, the current process first.
abbrev pub IsQueue : Scheduler → List ℕ → Type 0
IsQueue s [] = (s.p_current ≡ poison_null) × (s.p_last ≡ poison_null)
IsQueue s (x ∷ xs) =
    (s.p_current ≡ x)
    × (s.p_last ≡ last_pointer x xs)
    × Linked (next_of s) x xs
    × IsDistinct (x ∷ xs)
    × NotIn poison_null (x ∷ xs)

pub NotIn-last_of : (a x : ℕ) (xs : List ℕ) → NotIn a (x ∷ xs) → a ≢ last_of x xs
NotIn-last_of a x [] h = h.0
NotIn-last_of a x (y ∷ ys) h = NotIn-last_of a y ys h.1

pub NotIn-append : (a p : ℕ) (xs : List ℕ) → NotIn a xs → a ≢ p → NotIn a (xs ++ p ∷ [])
NotIn-append a p [] h ne = (ne, tt)
NotIn-append a p (x ∷ xs) h ne = (h.0, NotIn-append a p xs h.1 ne)

pub IsDistinct-append :
    (p : ℕ) (xs : List ℕ) → IsDistinct xs → NotIn p xs → IsDistinct (xs ++ p ∷ [])
IsDistinct-append p [] d h = (tt, tt)
IsDistinct-append p (x ∷ xs) d h =
    (NotIn-append x p xs d.0 (λ e. h.0 (sym e)), IsDistinct-append p xs d.1 h.1)

last_of-append : (x p : ℕ) (xs : List ℕ) → last_of x (xs ++ p ∷ []) ≡ p
last_of-append x p [] = refl
last_of-append x p (y ∷ ys) = last_of-append y p ys

pub last_pointer-append : (x p : ℕ) (xs : List ℕ) → last_pointer x (xs ++ p ∷ []) ≡ p
last_pointer-append x p [] = refl
last_pointer-append x p (y ∷ ys) = last_of-append y p ys

-- `p` is hung behind the last process.
pub Linked-append :
    (n n' : ℕ → ℕ) (p x : ℕ) (xs : List ℕ)
    → Linked n x xs
    → IsDistinct (x ∷ xs)
    → NotIn p (x ∷ xs)
    → n' p ≡ poison_null
    → n' (last_of x xs) ≡ p
    → ((a : ℕ) → a ≢ p → a ≢ last_of x xs → n' a ≡ n a)
    → Linked n' x (xs ++ p ∷ [])
Linked-append n n' p x [] linked d fresh end hung same = (hung, end)
Linked-append n n' p x (y ∷ ys) linked d fresh end hung same = (
  same x (λ e. fresh.0 (sym e)) (NotIn-last_of x y ys d.0) ∙ linked.0,
  Linked-append n n' p y ys linked.1 d.1 fresh.1 end hung same,
)

-- A field of a process on the heap after a write.
pub update-field :
    {B : Type 0} (f : Process → B) (heap : ℕ → Process) (p : ℕ) (new : Process) (a : ℕ)
    → f (update heap p new a) ≡ (if p == a then f new else f (heap a))
update-field f heap p new a = elim (Bool-cases (p == a)) [
  | inl here ↦ rw here refl
  | inr other ↦ rw other refl
]

pub next_of-set_next :
    (s : Scheduler) (l p a : ℕ) → next_of (set_next s l p) a ≡ (if l == a then p else next_of s a)
next_of-set_next s l p a = update-field (λ q. q.next) s.heap l _ a

-- What `schedule_process` makes of a queue that is not empty.
abbrev hung : Scheduler → (last p : ℕ) → Scheduler
hung s last p = record (set_next s last p) { p_last = p; is_schedueling_proc = false }

module _ (s : Scheduler) (x p : ℕ) (xs : List ℕ) (q : IsQueue s (x ∷ xs)) (fresh : NotIn p (x ∷ xs))
    (real : p ≢ poison_null) (end : next_of s p ≡ poison_null) where
  hung-IsQueue : IsQueue (hung s (last_of x xs) p) (x ∷ xs ++ p ∷ [])
  hung-IsQueue =
      let last = last_of x xs in
      let apart = NotIn-last_of p x xs fresh in
      let next = next_of-set_next s last p in
      (
        q.0,
        sym (last_pointer-append x p xs),
        Linked-append (next_of s) (next_of (hung s last p)) p x xs q.2 q.3 fresh
            (ground (arith, next p)) (ground (arith, next last))
            (λ a np nl. ground (arith, next a)),
        IsDistinct-append p (x ∷ xs) q.3 fresh,
        NotIn-append poison_null p (x ∷ xs) q.4 (λ e. real (sym e)),
      )

schedule_process-hung :
    (s : Scheduler) (x p : ℕ) (xs : List ℕ)
    → IsQueue s (x ∷ xs)
    → schedule_process s p ≡ hung s (last_of x xs) p
unfolding schedule_process
schedule_process-hung s x p [] q =
    let some_process : (s.p_current == poison_null) ≡ false = ground (arith, q.0, q.4.0) in
    rw some_process (rw q.1 (ap (λ c. hung s c p) q.0))
schedule_process-hung s x p (y ∷ ys) q =
    let some_process : (s.p_current == poison_null) ≡ false = ground (arith, q.0, q.4.0) in
    let some_last : (s.p_last == poison_null) ≡ false =
      ground (arith, q.1, NotIn-last_of poison_null y ys q.4.1) in
    rw (some_process, some_last) (ap (λ l. hung s l p) q.1)

-- A fresh process without a next goes to the end of the queue.
pub schedule_process-IsQueue :
    (s : Scheduler) (xs : List ℕ) (p : ℕ)
    → IsQueue s xs
    → NotIn p xs
    → p ≢ poison_null
    → next_of s p ≡ poison_null
    → IsQueue (schedule_process s p) (xs ++ p ∷ [])
unfolding schedule_process
schedule_process-IsQueue s [] p q fresh real end =
    rw q.0 (refl, q.1, end, (tt, tt), (λ e. real (sym e), tt))
schedule_process-IsQueue s (x ∷ xs) p q fresh real end =
    rw (schedule_process-hung s x p xs q) (hung-IsQueue s x p xs q fresh real end)
