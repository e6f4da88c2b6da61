-- ===== src/Sys/Rules.antt =====
-- Rules for what holds of a run: of its result and the kernel where it returns; it fails no assert.
use sancus_core.Base.{ℕ, List, [], ◌∷◌, ◌≡◌, refl}
use sancus_core.Base.Outcome.{Outcome, ok, fault, abort}
use sancus_core.Fd.{Answer, done, fail}
use sancus_core.Sys.{Kernel, Result, returns, waits, aborts, Sys, lift, Call, syscall, answered}

abbrev pub Ensures : {A : Type 0} → (A → Kernel → Type 0) → Result A → Type 0
Ensures P (returns a k) = P a k
Ensures P waits = Unit
Ensures P aborts = ⊥

pub >>=-Ensures :
    {A B : Type 0} (P : A → Kernel → Type 0) (Q : B → Kernel → Type 0) (r : Result A)
    (f : A → Sys B)
    → Ensures P r
    → ((a : A) (k : Kernel) → P a k → Ensures Q (f a k))
    → Ensures Q (elim r [ returns a k' ↦ f a k' | waits ↦ waits | aborts ↦ aborts ])
>>=-Ensures P Q (returns a k) f h g = g a k h
>>=-Ensures P Q waits f h g = h
>>=-Ensures P Q aborts f h g = h

pub Ensures-map :
    {A : Type 0} (P Q : A → Kernel → Type 0) (r : Result A)
    → Ensures P r
    → ((a : A) (k : Kernel) → P a k → Q a k)
    → Ensures Q r
Ensures-map P Q (returns a k) h g = g a k h
Ensures-map P Q waits h g = h
Ensures-map P Q aborts h g = h

-- The weaker claim, of runs that may fail an assert.
abbrev pub Partially : {A : Type 0} → (A → Kernel → Type 0) → Result A → Type 0
Partially P (returns a k) = P a k
Partially P waits = Unit
Partially P aborts = Unit

pub Ensures-Partially :
    {A : Type 0} (P : A → Kernel → Type 0) (r : Result A) → Ensures P r → Partially P r
Ensures-Partially P (returns a k) h = h
Ensures-Partially P waits h = tt
Ensures-Partially P aborts h = tt

pub >>=-Partially :
    {A B : Type 0} (P : A → Kernel → Type 0) (Q : B → Kernel → Type 0) (r : Result A)
    (f : A → Sys B)
    → Partially P r
    → ((a : A) (k : Kernel) → P a k → Partially Q (f a k))
    → Partially Q (elim r [ returns a k' ↦ f a k' | waits ↦ waits | aborts ↦ aborts ])
>>=-Partially P Q (returns a k) f h g = g a k h
>>=-Partially P Q waits f h g = tt
>>=-Partially P Q aborts f h g = tt

-- Of any run, nothing need be known.
pub nothing-Partially : {A : Type 0} (r : Result A) → Partially (λ a k. Unit {0}) r
nothing-Partially (returns a k) = tt
nothing-Partially waits = tt
nothing-Partially aborts = tt

-- The same of a call of which nothing need be known.
pub call-Partially :
    {B : Type 0} (Q : B → Kernel → Type 0) (c : Call) (k : Kernel) (f : Answer → Sys B)
    → ((n : ℕ) (k' : Kernel) → Partially Q (f (done n) k'))
    → ((e : ℕ) (k' : Kernel) → Partially Q (f (fail e) k'))
    → Partially Q (elim (syscall c k) [ returns a k' ↦ f a k' | waits ↦ waits | aborts ↦ aborts ])
call-Partially Q c k f g h =
    >>=-Partially _ Q (syscall c k) f (nothing-Partially (syscall c k)) (λ a k' _. both a k')
  where
    both : (a : Answer) (k' : Kernel) → Partially Q (f a k')
    both (done n) k' = g n k'
    both (fail e) k' = h e k'

-- `errno` behind a call: what the failure left, or what it was.
abbrev pub told : Answer → ℕ → ℕ
told (done n) e = e
told (fail e') e = e'

-- A call adds itself to the log, and sets `errno` where it fails; no more is known of it.
abbrev pub Called : Call → Kernel → Answer → Kernel → Type 0
Called c k a k' = (k'.log ≡ record { call = c; answer = a } ∷ k.log) × (k'.errno ≡ told a k.errno)

answered-Ensures :
    (c : Call) (answers : List Answer) (k : Kernel) → Ensures (Called c k) (answered c answers k)
unfolding answered
answered-Ensures c [] k = tt
answered-Ensures c (done n ∷ rest) k = (refl, refl)
answered-Ensures c (fail e ∷ rest) k = (refl, refl)

pub syscall-Ensures : (c : Call) (k : Kernel) → Ensures (Called c k) (syscall c k)
unfolding syscall
syscall-Ensures c k = answered-Ensures c k.answers k

-- A call and what follows it, where the call succeeds and where it fails.
pub call-Ensures :
    {B : Type 0} (Q : B → Kernel → Type 0) (c : Call) (k : Kernel) (f : Answer → Sys B)
    → ((n : ℕ) (k' : Kernel) → Called c k (done n) k' → Ensures Q (f (done n) k'))
    → ((e : ℕ) (k' : Kernel) → Called c k (fail e) k' → Ensures Q (f (fail e) k'))
    → Ensures Q (elim (syscall c k) [ returns a k' ↦ f a k' | waits ↦ waits | aborts ↦ aborts ])
call-Ensures Q c k f g h = >>=-Ensures (Called c k) Q (syscall c k) f (syscall-Ensures c k) both
  where
    both : (a : Answer) (k' : Kernel) → Called c k a k' → Ensures Q (f a k')
    both (done n) k' called = g n k' called
    both (fail e) k' called = h e k' called

-- A piece of C without calls and what follows it.
pub lift-Partially :
    {A B : Type 0} (Q : B → Kernel → Type 0) (o : Outcome A) (k : Kernel) (f : A → Sys B)
    → ((a : A) → o ≡ ok a → Partially Q (f a k))
    → Partially Q (elim (lift o k) [ returns a k' ↦ f a k' | waits ↦ waits | aborts ↦ aborts ])
lift-Partially Q (ok a) k f h = h a refl
lift-Partially Q fault k f h = tt
lift-Partially Q abort k f h = tt

pub Ensures-both :
    {A : Type 0} (P Q : A → Kernel → Type 0) (r : Result A)
    → Ensures P r
    → Ensures Q r
    → Ensures (λ a k. P a k × Q a k) r
Ensures-both P Q (returns a k) h g = (h, g)
Ensures-both P Q waits h g = tt
Ensures-both P Q aborts h g = h

pub Ensures-also :
    {A : Type 0} (P Q : A → Kernel → Type 0) (r : Result A)
    → Ensures P r
    → Partially Q r
    → Ensures (λ a k. P a k × Q a k) r
Ensures-also P Q (returns a k) h g = (h, g)
Ensures-also P Q waits h g = tt
Ensures-also P Q aborts h g = h
