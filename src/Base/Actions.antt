-- ===== src/Base/Actions.antt =====
-- Sequences of actions on a state that may fail; a failed action keeps what was done before it.
use tinylayer_org.Base.Results.{Result, ok, err, Action}

abbrev pub continue : {S E A B : Type 0} → Result E A × S → (A → Action S E B) → Result E B × S
continue (ok value, s) next = next value s
continue (err failure, s) next = (err failure, s)

infixl 5 ◌>>=◌ ◌>>◌
abbrev pub ◌>>=◌ : {S E A B : Type 0} → Action S E A → (A → Action S E B) → Action S E B
(action >>= next) s = continue (action s) next

abbrev pub ◌>>◌ : {S E B : Type 0} → Action S E (Unit {0}) → Action S E B → Action S E B
(action >> next) s = continue (action s) (λ done. next)

abbrev pub return : {S E A : Type 0} → A → Action S E A
return value s = (ok value, s)

abbrev pub fail : {S E A : Type 0} → E → Action S E A
fail failure s = (err failure, s)

-- `?` on a result that does not touch the state.
abbrev pub check : {S E A : Type 0} → Result E A → Action S E A
check result s = (result, s)

abbrev pub get : {S E : Type 0} → Action S E S
get s = (ok s, s)
