-- ===== src/Kernel.antt =====
-- What the kernel's functions return (include/errno.h and the KASSERT macro of util/debug.h in
-- Operating Systems/Kernel Assignment/weenix/kernel): an error number, the `int` result of a
-- system call, and the outcome of running a function, which may stop the kernel.
use usc_projects.Prelude.{ℕ, ◌≡◌, refl}

-- The error numbers that the modelled functions return, and -1 as `eperm`, its number.
pub data Errno : Type 0 where
  eperm enoent eintr ebadf echild enomem eacces efault eexist enotdir eisdir einval : Errno
  emfile enametoolong enotempty enxio : Errno

-- A result of 0 or more, or a negated error number.
pub data Code : Type 0 where
  done : ℕ → Code
  fail : Errno → Code

-- `panic`: an assertion fails or a NULL pointer is followed. `out_of_fuel`: a loop of the model
-- was given too few rounds.
pub data Outcome {ℓ} (A : Type ℓ) : Type ℓ where
  ok : A → Outcome A
  panic : Outcome A
  out_of_fuel : Outcome A

infixl 5 ◌>>=◌
abbrev pub ◌>>=◌ {ℓ κ} : {A : Type ℓ} {B : Type κ} → Outcome A → (A → Outcome B) → Outcome B
ok a >>= f = f a
panic >>= f = panic
out_of_fuel >>= f = out_of_fuel

pub bind_assoc {ℓ κ ν} :
    {A : Type ℓ} {B : Type κ} {C : Type ν} (m : Outcome A) (f : A → Outcome B) (g : B → Outcome C)
    → (m >>= f >>= g) ≡ (m >>= λ a. f a >>= g)
bind_assoc (ok a) f g = refl
bind_assoc panic f g = refl
bind_assoc out_of_fuel f g = refl

-- The run ends well, with a result that has the property.
pub data Returns {ℓ} {A : Type ℓ} (P : A → Type 0) : Outcome A → Type ℓ where
  returns : {a : A} → P a → Returns P (ok a)

pub bind-ok {ℓ κ} :
    {A : Type ℓ} {B : Type κ} (m : Outcome A) (f : A → Outcome B) {b : B}
    → (m >>= f) ≡ ok b
    → (a : A) × (m ≡ ok a) × (f a ≡ ok b)
bind-ok (ok a) f h = (a, refl, h)
bind-ok panic f h = cc
bind-ok out_of_fuel f h = cc

module _ {ℓ} {A : Type ℓ} {P : A → Type 0} where
  pub Returns-bind {κ} :
      {B : Type κ} {Q : B → Type 0} {m : Outcome A} {f : A → Outcome B}
      → Returns P m
      → ((a : A) → P a → Returns Q (f a))
      → Returns Q (m >>= f)
  Returns-bind (returns p) next = next _ p

  pub Returns-mono :
      {Q : A → Type 0} {m : Outcome A} → Returns P m → ((a : A) → P a → Q a) → Returns Q m
  Returns-mono (returns p) weaken = returns (weaken _ p)

  pub Returns-value : {m : Outcome A} → Returns P m → (a : A) × (m ≡ ok a) × P a
  Returns-value (returns p) = (_, refl, p)

  pub Returns-ok : {a : A} → Returns P (ok a) → P a
  Returns-ok (returns p) = p
