-- ===== src/Load/Steps.antt =====
-- What is known of the value of a step of the loader.
use cvm.Base.{◌≡◌, refl, Bool, true, false, Option, none, some}
use cvm.Outcome.{Result, ok, fault, Ensures, returns, faults}
use cvm.Load.Headers.{Loader, ◌>>=◌, require}

-- The value of a step that gives one has the property.
abbrev pub Loaded : {A W : Type 0} → (A → Type 0) → Option A × W → Type 0
Loaded P (none, w) = Unit
Loaded P (some a, w) = P a

module _ {A B W : Type 0} where
  pub Loaded-bind :
      {P : A → Type 0} {Q : B → Type 0} (m : Loader W A) (k : A → Loader W B) (w : W)
      → Ensures (Loaded P) (m w)
      → ((a : A) (v : W) → P a → Ensures (Loaded Q) (k a v))
      → Ensures (Loaded Q) ((m >>= k) w)
  unfolding ◌>>=◌
  Loaded-bind {P = P} {Q = Q} m k w h go = goes (m w) h
    where
      goes :
          (o : Result (Option A × W))
          → Ensures (Loaded P) o
          → Ensures (Loaded Q) (elim o as (λ _. Result (Option B × W)) [
            | fault e ↦ fault e
            | ok r ↦ elim r.0 as (λ _. Result (Option B × W)) [
              | none ↦ ok (none, r.1)
              | some a ↦ k a r.1
            ]
          ])
      goes (fault e) h = faults
      goes (ok (none, v)) h = returns tt
      goes (ok (some a, v)) (returns h) = go a v h

  -- Nothing is known of the first value.
  pub Loaded-map :
      {Q : B → Type 0} (m : Loader W A) (k : A → Loader W B) (w : W)
      → ((a : A) (v : W) → Ensures (Loaded Q) (k a v))
      → Ensures (Loaded Q) ((m >>= k) w)
  Loaded-map m k w go = Loaded-bind {P = λ _. Unit} m k w (any (m w)) (λ a v _. go a v)
    where
      any : (o : Result (Option A × W)) → Ensures (Loaded (λ _. Unit)) o
      any (fault e) = faults
      any (ok (none, v)) = returns tt
      any (ok (some a, v)) = returns tt

pub require-true : {W : Type 0} (b : Bool) (w : W) → Ensures (Loaded (λ _. b ≡ true)) (require b w)
require-true true w = returns refl
require-true false w = returns tt
