-- ===== src/Prelude/Effects.antt =====
-- Exceptions and effects. A function that awaits external services is an action on the world `W`
-- that those services live in; it returns or throws, and what it did to the world stays done.
use Prim.Native.Nat.{ℕ}
use mathlib.Core.Path.{◌≡◌, refl, subst}
use mathlib.Core.Logic.{◌⊎◌, inl, inr}
use mathlib.Core.Option.{Option}
use native.Mathlib.Omega.{arith}
use backend_architecture.Prelude.Strings.{Text}

-- An `Error`: its `code` field, where it has one, and its message.
pub record Exception : Type 0 where
  pub code : Option Text
  pub message : Text

pub data Result {ℓ} (A : Type ℓ) : Type ℓ where
  ok : A → Result A
  err : Exception → Result A

abbrev pub Action : Type 0 → Type 0 → Type 0
Action W A = W → Result A × W

module _ {W : Type 0} where
  abbrev pub pure : {A : Type 0} → A → Action W A
  pure a w = (ok a, w)

  abbrev pub throw : {A : Type 0} → Exception → Action W A
  throw e w = (err e, w)

  infixl 5 ◌>>=◌ ◌>>◌
  abbrev pub ◌>>=◌ : {A B : Type 0} → Action W A → (A → Action W B) → Action W B
  ◌>>=◌ m f w = let (r, w') = m w in elim r [ ok a ↦ f a w' | err e ↦ (err e, w') ]

  abbrev pub ◌>>◌ : {A B : Type 0} → Action W A → Action W B → Action W B
  m >> k = m >>= λ _. k

  -- `try { m } catch (error) { handler(error) }`
  abbrev pub try_catch : {A : Type 0} → Action W A → (Exception → Action W A) → Action W A
  try_catch m handler w = let (r, w') = m w in elim r [ ok a ↦ (ok a, w') | err e ↦ handler e w' ]

  -- A synchronous effect that cannot throw.
  abbrev pub modify : (W → W) → Action W (Unit {0})
  modify f w = (ok tt, f w)

-- An awaited operation: how it settles, and after how many milliseconds.
pub record Pending (A : Type 0) : Type 0 where
  pub result : Result A
  pub delay_ms : ℕ

-- `await promise`
abbrev pub await : {W A : Type 0} → (W → Pending A × W) → Action W A
await op w = let (p, w') = op w in (p.result, w')

pub Result-cases {ℓ} :
    {A : Type ℓ} (r : Result A) → ((a : A) × (r ≡ ok a)) ⊎ ((e : Exception) × (r ≡ err e))
Result-cases (ok a) = inl (a, refl)
Result-cases (err e) = inr (e, refl)

module _ {W : Type 0} {A B : Type 0} (Q : W → Type 0) where
  bind_pair :
      (k : A → Action W B) (p : Result A × W)
      → ((e : Exception) → p.0 ≡ err e → Q p.1)
      → ((a : A) → p.0 ≡ ok a → Q (k a p.1).1)
      → Q (((λ _. p) >>= k) p.1).1
  bind_pair k (ok a, w) failed done = done a refl
  bind_pair k (err e, w) failed done = failed e refl

  -- What holds of the world after each way in which the first action ends holds after both.
  pub after_bind :
      (m : Action W A) (k : A → Action W B) (w : W)
      → ((e : Exception) → (m w).0 ≡ err e → Q (m w).1)
      → ((a : A) → (m w).0 ≡ ok a → Q (k a (m w).1).1)
      → Q ((m >>= k) w).1
  after_bind m k w failed done = bind_pair k (m w) failed done

module _ {W A B : Type 0} where
  bind_pair_ok :
      (k : A → Action W B) (p : Result A × W) (b : B)
      → (((λ _. p) >>= k) p.1).0 ≡ ok b
      → (a : A) × (p.0 ≡ ok a) × ((k a p.1).0 ≡ ok b)
  bind_pair_ok k (ok a, w) b h = (a, refl, h)
  bind_pair_ok k (err e, w) b h = absurd (ground arith)

  -- A sequence that returns has returned at each of its steps.
  pub bind-eq-ok :
      (m : Action W A) (k : A → Action W B) (w : W) (b : B)
      → ((m >>= k) w).0 ≡ ok b
      → (a : A) × ((m w).0 ≡ ok a) × ((k a (m w).1).0 ≡ ok b)
  bind-eq-ok m k w b h = bind_pair_ok k (m w) b h

module _ {W : Type 0} {A : Type 0} (Q : W → Type 0) where
  try_pair :
      (h : Exception → Action W A) (p : Result A × W)
      → Q p.1
      → ((e : Exception) → Q p.1 → Q (h e p.1).1)
      → Q (try_catch (λ _. p) h p.1).1
  try_pair h (ok a, w) done caught = done
  try_pair h (err e, w) done caught = caught e done

  -- What holds of the world after the action, and is kept by the handler, holds after both.
  pub after_try :
      (m : Action W A) (h : Exception → Action W A) (w : W)
      → Q (m w).1
      → ((e : Exception) → Q (m w).1 → Q (h e (m w).1).1)
      → Q (try_catch m h w).1
  after_try m h w done caught = try_pair h (m w) done caught

-- The world after an action satisfies `P` of what it returns, or `G` if it throws.
abbrev pub Post : {W A : Type 0} → (W → Type 0) → (A → W → Type 0) → Result A × W → Type 0
Post G P (ok a, w) = P a w
Post G P (err e, w) = G w

module _ {W A B : Type 0} (G : W → Type 0) (P : A → W → Type 0) (P' : B → W → Type 0) where
  bind_pair-Post :
      (k : A → Action W B) (p : Result A × W)
      → Post G P p
      → ((a : A) (w : W) → P a w → Post G P' (k a w))
      → Post G P' (((λ _. p) >>= k) p.1)
  bind_pair-Post k (ok a, w) h next = next a w h
  bind_pair-Post k (err e, w) h next = h

  pub bind-Post :
      (m : Action W A) (k : A → Action W B) (w : W)
      → Post G P (m w)
      → ((a : A) (w : W) → P a w → Post G P' (k a w))
      → Post G P' ((m >>= k) w)
  bind-Post m k w h next = bind_pair-Post k (m w) h next

module _ {W A : Type 0} (G G' : W → Type 0) (P : A → W → Type 0) where
  try_pair-Post :
      (handler : Exception → Action W A) (p : Result A × W)
      → Post G P p
      → ((e : Exception) (w : W) → G w → Post G' P (handler e w))
      → Post G' P (try_catch (λ _. p) handler p.1)
  try_pair-Post handler (ok a, w) h caught = h
  try_pair-Post handler (err e, w) h caught = caught e w h

  pub try-Post :
      (m : Action W A) (handler : Exception → Action W A) (w : W)
      → Post G P (m w)
      → ((e : Exception) (w : W) → G w → Post G' P (handler e w))
      → Post G' P (try_catch m handler w)
  try-Post m handler w h caught = try_pair-Post handler (m w) h caught

-- Such a statement about an action, case by case.
pub Post-intro :
    {W A : Type 0} (G : W → Type 0) (P : A → W → Type 0) (p : Result A × W)
    → ((a : A) → p.0 ≡ ok a → P a p.1)
    → ((e : Exception) → p.0 ≡ err e → G p.1)
    → Post G P p
Post-intro G P (ok a, w) done failed = done a refl
Post-intro G P (err e, w) done failed = failed e refl

pub Post-weaken :
    {W A : Type 0} (G G' : W → Type 0) (P P' : A → W → Type 0) (p : Result A × W)
    → ((w : W) → G w → G' w)
    → ((a : A) (w : W) → P a w → P' a w)
    → Post G P p
    → Post G' P' p
Post-weaken G G' P P' (ok a, w) g f h = f a w h
Post-weaken G G' P P' (err e, w) g f h = g w h

pub Post-ok :
    {W A : Type 0} (G : W → Type 0) (P : A → W → Type 0) (p : Result A × W) (a : A)
    → Post G P p
    → p.0 ≡ ok a
    → P a p.1
Post-ok G P (ok b, w) a h e = let same : b ≡ a = ground arith in subst (λ c. P c w) same h
Post-ok G P (err x, w) a h e = absurd (ground arith)

pub Post-err :
    {W A : Type 0} (G : W → Type 0) (P : A → W → Type 0) (p : Result A × W) (x : Exception)
    → Post G P p
    → p.0 ≡ err x
    → G p.1
Post-err G P (ok b, w) x h e = absurd (ground arith)
Post-err G P (err y, w) x h e = h

pub Post-always :
    {W A : Type 0} (G : W → Type 0) (P : A → W → Type 0) (p : Result A × W)
    → Post G P p
    → ((a : A) (w : W) → P a w → G w)
    → G p.1
Post-always G P (ok a, w) h f = f a w h
Post-always G P (err e, w) h f = h
