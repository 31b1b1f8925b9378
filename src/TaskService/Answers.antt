-- ===== src/TaskService/Answers.antt =====
-- What an answer says of the steps that gave it: crates/application-task/src/service.rs.
use repo_link.Prelude.{Bool, true, false, Option, none, some, ◌≡◌, refl, arith, if◌then◌else◌}
use repo_link.TaskService.{ServiceError, Answer, done, failed, ◌>>=◌, or_fail}

pub bind-done {ℓ κ} :
    {A : Type ℓ} {B : Type κ} (m : Answer A) (f : A → Answer B) (b : B)
    → (m >>= f) ≡ done b
    → (a : A) × (m ≡ done a) × (f a ≡ done b)
bind-done (done a) f b h = (a, refl, h)
bind-done (failed e) f b h = absurd (ground arith)

pub unless-done {ℓ} :
    {A : Type ℓ} (c : Bool) (e : ServiceError) (m : Answer A) (a : A)
    → (if c then failed e else m) ≡ done a
    → (c ≡ false) × (m ≡ done a)
unless-done true e m a h = absurd (ground arith)
unless-done false e m a h = (refl, h)

pub or_fail-done {ℓ} :
    {A : Type ℓ} (e : ServiceError) (o : Option A) (a : A) → or_fail e o ≡ done a → o ≡ some a
or_fail-done e none a h = absurd (ground arith)
or_fail-done e (some x) a h = ground arith
