-- ===== src/Prelude/Results.antt =====
-- Go's `(value, error)` results, and code that mutates a state and may panic.
use Prim.Native.String.{String}
use mathlib.Core.Path.{◌≡◌, subst}
use mathlib.Core.Bool.{Bool, true, false}
use matrix_groupme_bridge.Prelude.Tests.{if◌then◌else◌}

-- A value or an error, by the text of the error.
pub data Result {ℓ} (A : Type ℓ) : Type ℓ where
  ok : A → Result A
  err : String → Result A

infixl 5 ◌>>=?◌
abbrev pub ◌>>=?◌ {ℓ κ} : {A : Type ℓ} {B : Type κ} → Result A → (A → Result B) → Result B
ok a >>=? f = f a
err e >>=? f = err e

-- The panics that the code can run into.
pub data Panic : Type 0 where
  nil_pointer index_out_of_range bad_type_assertion not_implemented : Panic

-- The end of a run: a value with the state that it left, a panic, or fuel that ran out in a loop
-- that waits for the network.
pub data Outcome (S A : Type 0) : Type 0 where
  done : A → S → Outcome S A
  panics : Panic → Outcome S A
  unfinished : Outcome S A

abbrev pub Run : Type 0 → Type 0 → Type 0
Run S A = S → Outcome S A

module _ {S A : Type 0} where
  abbrev pub pure : A → Run S A
  pure a s = done a s

  abbrev pub panic : Panic → Run S A
  panic p s = panics p

  abbrev pub gets : (S → A) → Run S A
  gets f s = done (f s) s

abbrev pub modify : {S : Type 0} → (S → S) → Run S (Unit {0})
modify f s = done tt (f s)

module _ {S A B : Type 0} where
  abbrev pub continue : Outcome S A → (A → Run S B) → Outcome S B
  continue (done a s) f = f a s
  continue (panics p) f = panics p
  continue unfinished f = unfinished

  infixl 5 ◌>>=◌ ◌>>◌
  abbrev pub ◌>>=◌ : Run S A → (A → Run S B) → Run S B
  ◌>>=◌ m f s = continue (m s) f

  abbrev pub ◌>>◌ : Run S A → Run S B → Run S B
  m >> n = m >>= λ _. n

-- What holds of the value and the state of a run that returns.
abbrev pub Ends {ℓ} : {S A : Type 0} → (A → S → Type ℓ) → Outcome S A → Type ℓ
Ends Q (done a s) = Q a s
Ends Q (panics p) = Unit
Ends Q unfinished = Unit

module _ {ℓ} {S A B : Type 0} (Q : B → S → Type ℓ) where
  pub Ends-continue :
      (o : Outcome S A) (f : A → Run S B) → Ends (λ a s. Ends Q (f a s)) o → Ends Q (continue o f)
  Ends-continue (done a s) f h = h
  Ends-continue (panics p) f h = tt
  Ends-continue unfinished f h = tt

-- `m` keeps `P` whenever it returns.
pub record Keeps {ℓ} {S A : Type 0} (P : S → Type ℓ) (m : Run S A) : Type ℓ where
  pub at : (s : S) → P s → Ends (λ _ s'. P s') (m s)

module _ {ℓ} {S A : Type 0} {P : S → Type ℓ} where
  pub Keeps-pure : (a : A) → Keeps P (pure a)
  Keeps-pure a = record { at = λ s h. h }

  pub Keeps-panic : (p : Panic) → Keeps P (panic {A = A} p)
  Keeps-panic p = record { at = λ s h. tt }

  pub Keeps-if : (b : Bool) (m n : Run S A) → Keeps P m → Keeps P n → Keeps P (if b then m else n)
  Keeps-if true m n km kn = km
  Keeps-if false m n km kn = kn

module _ {ℓ} {S A B : Type 0} {P : S → Type ℓ} where
  pub Keeps-bind :
      (m : Run S A) (f : A → Run S B) → Keeps P m → ((a : A) → Keeps P (f a)) → Keeps P (m >>= f)
  Keeps-bind m f km kf = record {
    at = λ s h. Ends-continue (λ _ t. P t) (m s) f (lift (m s) (km.at s h));
  }
    where
      lift : (o : Outcome S A) → Ends (λ _ s'. P s') o → Ends (λ a s'. Ends (λ _ t. P t) (f a s')) o
      lift (done a s') h = (kf a).at s' h
      lift (panics p) h = tt
      lift unfinished h = tt

-- A run that returned ends as the rule says.
pub Ends-at {ℓ} :
    {S A : Type 0} (Q : A → S → Type ℓ) (o : Outcome S A) {a : A} {s : S}
    → Ends Q o
    → o ≡ done a s
    → Q a s
Ends-at Q o h e = subst (Ends Q) e h

module _ {ℓ} {S A : Type 0} (Q : A → S → Type ℓ) where
  pub Ends-all : (o : Outcome S A) → ((a : A) (s : S) → Q a s) → Ends Q o
  Ends-all (done a s) h = h a s
  Ends-all (panics p) h = tt
  Ends-all unfinished h = tt

pub Ends-mono {ℓ κ} :
    {S A : Type 0} (P : A → S → Type ℓ) (Q : A → S → Type κ) (o : Outcome S A)
    → ((a : A) (s : S) → P a s → Q a s)
    → Ends P o
    → Ends Q o
Ends-mono P Q (done a s) h e = h a s e
Ends-mono P Q (panics p) h e = tt
Ends-mono P Q unfinished h e = tt

pub Ends-and {ℓ κ} :
    {S A : Type 0} (P : A → S → Type ℓ) (Q : A → S → Type κ) (o : Outcome S A)
    → Ends P o
    → Ends Q o
    → Ends (λ a s. P a s × Q a s) o
Ends-and P Q (done a s) h k = (h, k)
Ends-and P Q (panics p) h k = tt
Ends-and P Q unfinished h k = tt
