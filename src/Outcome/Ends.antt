-- ===== src/Outcome/Ends.antt =====
-- How a call ends: it returns with a postcondition, or it throws and leaves the object as it was.
use rp_t_minigames_server.Prelude.{◌≡◌, refl, sym, ◌∙◌, ◌≢◌, subst, ap, Bool, true, false}
use rp_t_minigames_server.Outcome.{Result, ok, err, Error, unfinished, after, check}

pub data Ends {S A : Type 0} (s : S) (Q : A → S → Type 0) (x : Result A × S) : Type 0 where
  returns : (a : A) (s' : S) → x ≡ (ok a, s') → Q a s' → Ends s Q x
  throws : (e : Error) → x ≡ (err e, s) → Ends s Q x

held : {A : Type 0} {a b : A} → ok a ≡ ok b → a ≡ b
held h = cc

differ : {A : Type 0} {e : Error} {a : A} → err e ≢ ok a
differ h = cc

module _ {S B : Type 0} {Q : B → S → Type 0} where
  -- A step that reads: its result is known in what follows.
  pub Ends-lift :
      {A : Type 0} (r : Result A) (f : A → Result B × S) (s : S)
      → ((a : A) → r ≡ ok a → Ends s Q (f a))
      → Ends s Q (after r f s)
  Ends-lift (ok a) f s k = k a refl
  Ends-lift (err e) f s k = throws e refl

  -- A test.
  pub Ends-guard :
      (b : Bool) (e : Error) (f : Unit {0} → Result B × S) (s : S)
      → (b ≡ true → Ends s Q (f tt))
      → Ends s Q (after (check b e) f s)
  Ends-guard true e f s h = h refl
  Ends-guard false e f s h = throws e refl

  -- A call, and what follows its return; that throws no more.
  pub Ends-then :
      {A : Type 0} {P : A → S → Type 0} (s : S) (x : Result A × S) (f : A → S → Result B × S)
      → Ends s P x
      → ((a : A) (s' : S) → P a s' → (b : B) × (s'' : S) × (f a s' ≡ (ok b, s'')) × Q b s'')
      → Ends s Q (after x.0 (λ a. f a x.1) x.1)
  Ends-then s x f (returns a s' e p) k = let (b, s'', e', q) = k a s' p in returns b s'' (rw e e') q
  Ends-then s x f (throws y e) k = throws y (rw e)

  -- A call that only reads.
  pub Ends-read :
      {A : Type 0} {P : A → Type 0} (s : S) (x : Result A × S) (f : A → S → Result B × S)
      → Ends s (λ a s'. (s' ≡ s) × P a) x
      → ((a : A) → x.0 ≡ ok a → P a → Ends s Q (f a s))
      → Ends s Q (after x.0 (λ a. f a x.1) x.1)
  Ends-read {A} s x f (returns a s' e p) k =
      rw (e, p.0) (k a (ap (λ (y : Result A × S). y.0) e) p.1)
  Ends-read {A} s x f (throws y e) k = throws y (rw e)

module _ {S A : Type 0} where
  -- What holds of the state before a call, and after one that returns, holds after it.
  pub Ends-state :
      (P : S → Type 0) {Q : A → S → Type 0} (s : S) (x : Result A × S)
      → Ends s Q x
      → P s
      → ((a : A) (s' : S) → Q a s' → P s')
      → P x.1
  Ends-state P s x (returns a s' e q) p k = subst P (sym (ap (λ y. y.1) e)) (k a s' q)
  Ends-state P s x (throws y e) p k = subst P (sym (ap (λ y. y.1) e)) p

  -- The postcondition of a call that is known to return.
  pub Ends-result :
      {Q : A → S → Type 0} (s : S) (x : Result A × S) {a : A} → Ends s Q x → x.0 ≡ ok a → Q a x.1
  Ends-result {Q} s x {a} (returns a' s' e q) h =
      let same : a' ≡ a = held (sym (ap (λ (y : Result A × S). y.0) e) ∙ h) in
      let there : s' ≡ x.1 = sym (ap (λ (y : Result A × S). y.1) e) in
      subst (λ b. Q b x.1) same (subst (Q a') there q)
  Ends-result s x (throws y e) h = absurd (differ (sym (ap (λ (z : Result A × S). z.0) e) ∙ h))

-- A call ends if its first step and what follows do.
pub after-ends :
    {S A B : Type 0} (r : Result A) (f : A → Result B × S) (s : S)
    → r ≢ err unfinished
    → ((a : A) → r ≡ ok a → (f a).0 ≢ err unfinished)
    → (after r f s).0 ≢ err unfinished
after-ends (ok a) f s n k h = k a refl h
after-ends {A = A} {B = B} (err e) f s n k h = n (ap again h)
  where
    again : Result B → Result A
    again (ok b) = err e
    again (err x) = err x
