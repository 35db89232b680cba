-- ===== src/Prelude/Exec/Keeps.antt =====
-- Actions that keep an invariant when they return. What a raise leaves behind is rolled back.
use mathlib.Core.Path.{◌≡◌, refl}
use mathlib.Core.Bool.{Bool, true, false}
use mathlib.Core.Option.{Option, none, some}
use agent_pay.Prelude.Errors.{Error, Result, ok, err}
use agent_pay.Prelude.Exec.{
  Exec, pure, raise, gets, lift, or_raise, choose, continue, ◌>>=◌, update, raise_if,
}

-- What a returned value and the state beside it satisfy.
abbrev pub Ensures : {S A : Type 0} → (A → S → Type 0) → Result A × S → Type 0
Ensures Q (ok a, s) = Q a s
Ensures Q (err e, s) = Unit

-- The same where the value does not matter.
abbrev pub OnReturn : {S A : Type 0} → (S → Type 0) → Result A × S → Type 0
OnReturn P r = Ensures (λ a s. P s) r

pub weaken-Ensures :
    {S A : Type 0} (P Q : A → S → Type 0) (r : Result A × S)
    → Ensures P r
    → ((a : A) (s : S) → P a s → Q a s)
    → Ensures Q r
weaken-Ensures P Q (ok a, s) h k = k a s h
weaken-Ensures P Q (err e, s) h k = tt

pub bind-Ensures :
    {S A B : Type 0} (P : A → S → Type 0) (Q : B → S → Type 0) (m : Exec S A) (f : A → Exec S B)
    (s : S)
    → Ensures P (m s)
    → ((a : A) (t : S) → P a t → Ensures Q (f a t))
    → Ensures Q ((m >>= f) s)
unfolding ◌>>=◌
bind-Ensures {S} {A} {B} P Q m f s h k = go (m s) h
  where
    go : (r : Result A × S) → Ensures P r → Ensures Q (continue r.0 f r.1)
    go (ok a, t) p = k a t p
    go (err e, t) p = tt

pub record Keeps {S A : Type 0} (P : S → Type 0) (m : Exec S A) : Type 0 where
  pub at : (s : S) → P s → OnReturn P (m s)

pub on_return : {S A : Type 0} (P : S → Type 0) (r : Result A × S) → P r.1 → OnReturn P r
on_return P (ok a, s) h = h
on_return P (err e, s) h = tt

pub weaken :
    {S A : Type 0} (P Q : S → Type 0) (r : Result A × S)
    → OnReturn P r
    → ((s : S) → P s → Q s)
    → OnReturn Q r
weaken P Q (ok a, s) h k = k s h
weaken P Q (err e, s) h k = tt

-- A test that raises gives the rest of the method its negation.
pub raise_if_return :
    {S B : Type 0} (Q : S → Type 0) (b : Bool) (e : Error) (m : Exec S B) (s : S)
    → (b ≡ false → OnReturn Q (m s))
    → OnReturn Q ((raise_if b e >>= λ _. m) s)
unfolding ◌>>=◌ raise_if
raise_if_return Q true e m s h = tt
raise_if_return Q false e m s h = h refl

pub raise_if-Ensures :
    {S B : Type 0} (Q : B → S → Type 0) (b : Bool) (e : Error) (m : Exec S B) (s : S)
    → (b ≡ false → Ensures Q (m s))
    → Ensures Q ((raise_if b e >>= λ _. m) s)
unfolding ◌>>=◌ raise_if
raise_if-Ensures Q true e m s h = tt
raise_if-Ensures Q false e m s h = h refl

-- The rule for a sequence: what the first action ensures is what the second may assume.
pub bind_return :
    {S A B : Type 0} (P Q : S → Type 0) (m : Exec S A) (f : A → Exec S B) (s : S)
    → OnReturn P (m s)
    → ((a : A) (t : S) → P t → OnReturn Q (f a t))
    → OnReturn Q ((m >>= f) s)
unfolding ◌>>=◌
bind_return {S} {A} {B} P Q m f s h k = go (m s) h
  where
    go : (r : Result A × S) → OnReturn P r → OnReturn Q (continue r.0 f r.1)
    go (ok a, t) p = k a t p
    go (err e, t) p = tt

module _ {S A : Type 0} {P : S → Type 0} where
  pub Keeps-of_state : (m : Exec S A) → ((s : S) → P s → P (m s).1) → Keeps P m
  Keeps-of_state m h = record { at = λ s p. on_return P (m s) (h s p) }

  pub pure-Keeps : (a : A) → Keeps P (pure a)
  unfolding pure
  pure-Keeps a = record { at = λ s h. h }

  pub raise-Keeps : (e : Error) → Keeps P (raise {A = A} e)
  unfolding raise
  raise-Keeps e = record { at = λ s h. tt }

  pub gets-Keeps : (f : S → A) → Keeps P (gets f)
  unfolding gets
  gets-Keeps f = record { at = λ s h. h }

  pub lift-Keeps : (r : Result A) → Keeps P (lift r)
  unfolding lift
  lift-Keeps (ok a) = record { at = λ s h. h }
  lift-Keeps (err e) = record { at = λ s h. tt }

  pub or_raise-Keeps : (o : Option A) (e : Error) → Keeps P (or_raise {S = S} o e)
  unfolding or_raise
  or_raise-Keeps none e = record { at = λ s h. tt }
  or_raise-Keeps (some a) e = record { at = λ s h. h }

  pub choose-Keeps : (b : Bool) (m n : Exec S A) → Keeps P m → Keeps P n → Keeps P (choose b m n)
  unfolding choose
  choose-Keeps true m n h k = h
  choose-Keeps false m n h k = k

module _ {S A B : Type 0} {P : S → Type 0} where
  continue-Keeps :
      (r : Result A × S) (f : A → Exec S B)
      → ((a : A) → Keeps P (f a))
      → OnReturn P r
      → OnReturn P (continue r.0 f r.1)
  continue-Keeps (ok a, s) f k h = (k a).at s h
  continue-Keeps (err e, s) f k h = tt

  pub bind-Keeps :
      (m : Exec S A) (f : A → Exec S B) → Keeps P m → ((a : A) → Keeps P (f a)) → Keeps P (m >>= f)
  unfolding ◌>>=◌
  bind-Keeps m f h k = record { at = λ s p. continue-Keeps (m s) f k (h.at s p) }

module _ {S : Type 0} {P : S → Type 0} where
  pub update-Keeps : (f : S → S) → ((s : S) → P s → P (f s)) → Keeps P (update f)
  unfolding update
  update-Keeps f h = record { at = h }

  pub raise_if-Keeps : (b : Bool) (e : Error) → Keeps P (raise_if b e)
  unfolding raise_if
  raise_if-Keeps true e = record { at = λ s h. tt }
  raise_if-Keeps false e = record { at = λ s h. h }

pub ruleset keeps_rules = (
  pure-Keeps, raise-Keeps, gets-Keeps, lift-Keeps, or_raise-Keeps, choose-Keeps, bind-Keeps,
  raise_if-Keeps,
)

module _ {S A B : Type 0} where
  pub or_raise-Ensures :
      (Q : B → S → Type 0) (o : Option A) (e : Error) (f : A → Exec S B) (s : S)
      → ((a : A) → o ≡ some a → Ensures Q (f a s))
      → Ensures Q ((or_raise o e >>= f) s)
  unfolding ◌>>=◌
  or_raise-Ensures Q none e f s h = tt
  or_raise-Ensures Q (some a) e f s h = h a refl

module _ {S A : Type 0} where
  pub choose-Ensures :
      (Q : A → S → Type 0) (b : Bool) (m n : Exec S A) (s : S)
      → (b ≡ true → Ensures Q (m s))
      → (b ≡ false → Ensures Q (n s))
      → Ensures Q (choose b m n s)
  unfolding choose
  choose-Ensures Q true m n s h k = h refl
  choose-Ensures Q false m n s h k = k refl

-- Steps in a row: the first ensures its part, the later ones keep it.
pub then-Ensures :
    {S A B : Type 0} (Q : B → S → Type 0) (I : S → Type 0) (m : Exec S A) (f : A → Exec S B)
    (db : S)
    → Keeps I m
    → I db
    → ((a : A) (t : S) → I t → Ensures Q (f a t))
    → Ensures Q ((m >>= f) db)
then-Ensures Q I m f db h i k = bind-Ensures (λ a t. I t) Q m f db (h.at db i) k

-- A query.
pub gets-Ensures :
    {S A B : Type 0} (Q : B → S → Type 0) (q : S → A) (f : A → Exec S B) (s : S)
    → Ensures Q (f (q s) s)
    → Ensures Q ((gets q >>= f) s)
unfolding ◌>>=◌
gets-Ensures Q q f s h = h

-- What holds whatever is returned.
pub constant-Ensures :
    {S A : Type 0} (Q : A → S → Type 0) (r : Result A × S) → ((a : A) (s : S) → Q a s) → Ensures Q r
constant-Ensures Q (ok a, s) h = h a s
constant-Ensures Q (err e, s) h = tt
