-- ===== src/Base/Yields.antt =====
-- What holds of every result of an action, by rules for the steps of a do block.
use mathlib.Core.Path.{◌≡◌, refl}
use native.Mathlib.Omega.{arith}
use tinylayer_org.Base.Results.{Result, ok, err, Action}
use tinylayer_org.Base.Actions.{◌>>=◌, ◌>>◌, check, return, continue}

module _ {S E : Type 0} where
  pub record Yields {A : Type 0} (action : Action S E A) (Q : A → Type 0) : Type 0 where
    pub run : (s : S) (value : A) → (action s).0 ≡ ok value → Q value

  continued :
      {A B : Type 0} {P : A → Type 0} {Q : B → Type 0} (next : A → Action S E B)
      → ((value : A) → P value → Yields (next value) Q)
      → (r : Result E A × S) → ((value : A) → r.0 ≡ ok value → P value)
      → (value : B) → (continue r next).0 ≡ ok value
      → Q value
  continued next yields (ok value, s) left result e =
      (yields value (left value refl)).run s result e
  continued next yields (err failure, s) left result e = absurd (ground arith)

  pub bind-Yields :
      {A B : Type 0} {P : A → Type 0} {Q : B → Type 0} {action : Action S E A}
      {next : A → Action S E B}
      → Yields action P
      → ((value : A) → P value → Yields (next value) Q)
      → Yields (action >>= next) Q
  bind-Yields {action = action} {next = next} first yields = record {
    run = λ s. continued next yields (action s) (first.run s);
  }

  -- Some run gave the result.
  pub origin-Yields :
      {A : Type 0} (action : Action S E A)
      → Yields action (λ value. (s : S) × ((action s).0 ≡ ok value))
  origin-Yields action = record { run = λ s value e. (s, e) }

  -- A step of which nothing is kept.
  pub skip-Yields :
      {A B : Type 0} {Q : B → Type 0} (action : Action S E A) {next : A → Action S E B}
      → ((value : A) → Yields (next value) Q)
      → Yields (action >>= next) Q
  skip-Yields action {next = next} yields = record {
    run = λ s.
        continued {P = λ value. Unit} next (λ value known. yields value) (action s) (λ value e. tt);
  }

  pub then-Yields :
      {B : Type 0} {Q : B → Type 0} (action : Action S E Unit) {next : Action S E B}
      → Yields next Q
      → Yields (action >> next) Q
  then-Yields action {next = next} yields = record {
    run = λ s.
        continued {P = λ value. Unit} (λ done. next) (λ value known. yields) (action s)
          (λ value e. tt);
  }

  pub check_bind-Yields :
      {A B : Type 0} {Q : B → Type 0} {next : A → Action S E B} (r : Result E A)
      → ((value : A) → r ≡ ok value → Yields (next value) Q)
      → Yields (check r >>= next) Q
  check_bind-Yields (ok value) yields = record { run = λ s. (yields value refl).run s }
  check_bind-Yields (err failure) yields = record { run = λ s result e. absurd (ground arith) }

  pub check_then-Yields :
      {B : Type 0} {Q : B → Type 0} {next : Action S E B} (r : Result E Unit)
      → (r ≡ ok tt → Yields next Q)
      → Yields (check r >> next) Q
  check_then-Yields (ok done) yields = record { run = λ s. (yields refl).run s }
  check_then-Yields (err failure) yields = record { run = λ s result e. absurd (ground arith) }

  pub check-Yields :
      {A : Type 0} {Q : A → Type 0} (r : Result E A)
      → ((value : A) → r ≡ ok value → Q value)
      → Yields (check r) Q
  check-Yields r yields = record { run = λ s. yields }

  pub return-Yields : {A : Type 0} {Q : A → Type 0} (value : A) → Q value → Yields (return value) Q
  return-Yields {Q = Q} value holds = record {
    run = λ s result e. let same : value ≡ result = ground arith in rw (← same) holds;
  }
