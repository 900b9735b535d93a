-- ===== src/Outcome.antt =====
-- What an operation of the simulator comes to: a value, or a point from which C's behaviour is
-- undefined (or the host's processor traps), after which the model says nothing more.
use cvm.Base.{Bool, true, false}

pub data Fault : Type 0 where
  -- an access outside the block from `mem.start` to `mem.end`
  out_of_bounds : Fault
  -- a shift by 32 or more, or by a negative amount
  bad_shift : Fault
  -- a place past the four registers of `cp.regs`
  bad_register : Fault
  -- a division by zero, or of the least integer by -1
  bad_division : Fault
  -- a call through a null entry of `api_func`, or past its ends
  bad_call : Fault
  -- a use of a pointer that was never set
  wild_pointer : Fault
  -- an entry before the table of buckets
  bad_bucket : Fault
  -- a free list that goes on after as many blocks as its bucket counts
  lost_list : Fault

pub data Result {ℓ} (A : Type ℓ) : Type ℓ where
  ok : A → Result A
  fault : Fault → Result A

infixl 5 ◌>>=◌
abbrev pub ◌>>=◌ {ℓ κ} : {A : Type ℓ} {B : Type κ} → Result A → (A → Result B) → Result B
ok a >>= f = f a
fault e >>= f = fault e

-- Goes on where the test holds.
unfoldable pub check {ℓ} : {A : Type ℓ} → Bool → Fault → Result A → Result A
check true e r = r
check false e r = fault e

-- `P` holds of the value, if there is one.
pub data Ensures {ℓ} {A : Type ℓ} (P : A → Type 0) : Result A → Type ℓ where
  returns : {a : A} → P a → Ensures P (ok a)
  faults : {e : Fault} → Ensures P (fault e)

Ensures-ok {ℓ} : {A : Type ℓ} {P : A → Type 0} {a : A} → Ensures P (ok a) → P a
Ensures-ok (returns h) = h

module _ {ℓ κ} {A : Type ℓ} {B : Type κ} where
  pub Ensures-bind :
      {o : Result A} {P : A → Type 0} {go : A → Result B} {Q : B → Type 0}
      → Ensures P o
      → ((x : A) → P x → Ensures Q (go x))
      → Ensures Q (o >>= go)
  Ensures-bind (returns h) k = k _ h
  Ensures-bind faults k = faults

  -- Nothing need be known of the first value.
  pub Ensures-map :
      {Q : B → Type 0} (r : Result A) {g : A → Result B}
      → ((a : A) → Ensures Q (g a))
      → Ensures Q (r >>= g)
  Ensures-map (ok a) h = h a
  Ensures-map (fault e) h = faults

pub Ensures-check {ℓ} :
    {A : Type ℓ} {P : A → Type 0} (b : Bool) (e : Fault) (a : A)
    → P a
    → Ensures P (check b e (ok a))
unfolding check
Ensures-check true e a h = returns h
Ensures-check false e a h = faults

pub Ensures-weaken {ℓ} :
    {A : Type ℓ} {P Q : A → Type 0} {r : Result A}
    → Ensures P r
    → ((a : A) → P a → Q a)
    → Ensures Q r
Ensures-weaken (returns h) k = returns (k _ h)
Ensures-weaken faults k = faults
