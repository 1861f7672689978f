-- ===== src/Exec.antt =====
-- Code that changes the outside world and may raise. What was written before a raise stays
-- written, so the state comes back beside the error too.
use batch_api_snowflake.Base.{◌≡◌, refl, ◌≢◌, subst}
use batch_api_snowflake.Errors.{Error, Result, ok, err, ok-injective}

abbrev pub Exec {ℓ} : Type ℓ → Type ℓ → Type ℓ
Exec S A = S → Result A × S

module _ {ℓ} {S A : Type ℓ} where
  abbrev pub pure : A → Exec S A
  pure a s = (ok a, s)

  abbrev pub raise : Error → Exec S A
  raise e s = (err e, s)

  abbrev pub lift : Result A → Exec S A
  lift r s = (r, s)

  abbrev pub gets : (S → A) → Exec S A
  gets f s = (ok (f s), s)

module _ {ℓ} {S A B : Type ℓ} where
  abbrev pub continue : Result A → (A → Exec S B) → Exec S B
  continue (ok a) f s = f a s
  continue (err e) f s = (err e, s)

  infixl 10 ◌>>=◌ ◌>>◌
  abbrev pub ◌>>=◌ : Exec S A → (A → Exec S B) → Exec S B
  ◌>>=◌ m f s = let (r, s') = m s in continue r f s'

  abbrev pub ◌>>◌ : Exec S A → Exec S B → Exec S B
  m >> n = m >>= λ _. n

module _ {ℓ} {S A : Type ℓ} where
  abbrev pub recover : Result A → (Error → Exec S A) → Exec S A
  recover (ok a) handler s = (ok a, s)
  recover (err e) handler s = handler e s

  -- `try: m` with `except Exception as e: handler(e)`
  abbrev pub try_except : Exec S A → (Error → Exec S A) → Exec S A
  try_except m handler s = let (r, s') = m s in recover r handler s'

-- What holds of the value that code returned, and of the state that it left. Code that raised
-- ensures nothing.
module _ {S : Type 0} where
  abbrev pub Ensures : {A : Type 0} → Result A × S → (A → S → Type 0) → Type 0
  Ensures (r, s) Q = (a : _) → r ≡ ok a → Q a s

  pub pure-Ensures : {A : Type 0} (Q : A → S → Type 0) (a : A) (s : S) → Q a s → Ensures (ok a, s) Q
  pure-Ensures Q a s h b e = subst (λ x. Q x s) (ok-injective e) h

  pub continue-Ensures :
      {A B : Type 0} (P : A → S → Type 0) (Q : B → S → Type 0) (r : Result A) (f : A → Exec S B)
      (s : S)
      → Ensures (r, s) P
      → ((a : A) (t : S) → P a t → Ensures (f a t) Q)
      → Ensures (continue r f s) Q
  continue-Ensures P Q (ok a) f s first rest = rest a s (first a refl)
  continue-Ensures P Q (err e) f s first rest = λ b h. cc h

  pub >>=-Ensures :
      {A B : Type 0} (P : A → S → Type 0) (Q : B → S → Type 0) (m : Exec S A) (f : A → Exec S B)
      (s : S)
      → Ensures (m s) P
      → ((a : A) (t : S) → P a t → Ensures (f a t) Q)
      → Ensures ((m >>= f) s) Q
  >>=-Ensures P Q m f s = continue-Ensures P Q (m s).0 f (m s).1

  -- A handler that never returns.
  pub recover-Ensures :
      {A : Type 0} (Q : A → S → Type 0) (r : Result A) (handler : Error → Exec S A) (s : S)
      → Ensures (r, s) Q
      → ((e : Error) (a : A) → (handler e s).0 ≢ ok a)
      → Ensures (recover r handler s) Q
  recover-Ensures Q (ok a) handler s tried raises = tried
  recover-Ensures Q (err e) handler s tried raises = λ a h. absurd (raises e a h)

-- Code that keeps what holds of the state, whether it returns or raises.
module _ {S : Type 0} (P : S → Type 0) where
  abbrev pub Preserves : {A : Type 0} → Exec S A → Type 0
  Preserves m = (s : S) → P s → P (m s).1

  pub continue-Preserves :
      {A B : Type 0} (r : Result A) (f : A → Exec S B) (s : S)
      → P s
      → ((a : A) → Preserves (f a))
      → P (continue r f s).1
  continue-Preserves (ok a) f s h rest = rest a s h
  continue-Preserves (err e) f s h rest = h

  pub >>=-Preserves :
      {A B : Type 0} (m : Exec S A) (f : A → Exec S B)
      → Preserves m
      → ((a : A) → Preserves (f a))
      → Preserves (m >>= f)
  >>=-Preserves m f first rest s h = continue-Preserves (m s).0 f (m s).1 (first s h) rest

  recover-Preserves :
      {A : Type 0} (r : Result A) (handler : Error → Exec S A) (s : S)
      → P s
      → ((e : Error) → Preserves (handler e))
      → P (recover r handler s).1
  recover-Preserves (ok a) handler s h handled = h
  recover-Preserves (err e) handler s h handled = handled e s h

  pub try_except-Preserves :
      {A : Type 0} (m : Exec S A) (handler : Error → Exec S A)
      → Preserves m
      → ((e : Error) → Preserves (handler e))
      → Preserves (try_except m handler)
  try_except-Preserves m handler tried handled s h =
      recover-Preserves (m s).0 handler (m s).1 (tried s h) handled
