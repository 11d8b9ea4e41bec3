-- ===== src/Store/Keeps.antt =====
-- What a chain of steps keeps, when each of its steps does.
use vehicle_lifecycle_manage.Base.{◌≡◌, ap, Option, none, some, Bool, true, false}
use vehicle_lifecycle_manage.Domain.Failure.{Failure, Result, ok, err}
use vehicle_lifecycle_manage.Store.World.{
  World, Action, pure, gets, or_throw, throw_if, ◌>>=◌, ◌>>◌,
}

module _ (P : World → Type 0) where
  -- Whatever its outcome, the action leaves a state with the property.
  abbrev pub Keeps : {A : Type 0} → Action A → Type 0
  Keeps m = (w : World) → P w → P (m w).1

  pub bind-Keeps :
      {A B : Type 0} (m : Action A) (f : A → Action B)
      → Keeps m
      → ((a : A) → Keeps (f a))
      → Keeps (m >>= f)
  bind-Keeps {A} {B} m f first rest w h = after (m w) (first w h)
    where
      after :
          (x : Result A × World)
          → P x.1
          → P (elim x.0 as (λ _. Result B × World) [ ok a ↦ f a x.1 | err e ↦ (err e, x.1) ]).1
      after (ok a, w') k = rest a w' k
      after (err e, w') k = k

  pub gets-Keeps :
      {A B : Type 0} (g : World → A) (f : A → Action B)
      → ((a : A) → Keeps (f a))
      → Keeps (gets g >>= f)
  gets-Keeps g f rest w h = rest (g w) w h

  pub throw_if-Keeps :
      {B : Type 0} (b : Bool) (e : Failure) (m : Action B) → Keeps m → Keeps (throw_if b e >> m)
  throw_if-Keeps true e m rest w h = h
  throw_if-Keeps false e m rest w h = rest w h

  pub or_throw-Keeps :
      {A B : Type 0} (o : Option A) (e : Failure) (f : A → Action B)
      → ((a : A) → Keeps (f a))
      → Keeps (or_throw o e >>= f)
  or_throw-Keeps none e f rest w h = h
  or_throw-Keeps (some a) e f rest w h = rest a w h

  pub pure_after-Keeps : {A B : Type 0} (m : Action A) (b : B) → Keeps m → Keeps (m >>= λ _. pure b)
  pure_after-Keeps m b first = bind-Keeps m (λ _. pure b) first (λ _ w h. h)

-- A chain goes on where its first step succeeds, and ends where it fails.
pub >>=-ok :
    {A B : Type 0} (m : Action A) (f : A → Action B) (w v : World) (a : A)
    → m w ≡ (ok a, v)
    → (m >>= f) w ≡ f a v
>>=-ok {A} {B} m f w v a h =
    ap
      (λ (x : Result A × World).
        let y : Result B × World = elim x.0 [ ok b ↦ f b x.1 | err d ↦ (err d, x.1) ] in y)
      h

pub >>=-err :
    {A B : Type 0} (m : Action A) (f : A → Action B) (w v : World) (e : Failure)
    → m w ≡ (err e, v)
    → (m >>= f) w ≡ (err e, v)
>>=-err {A} {B} m f w v e h =
    ap
      (λ (x : Result A × World).
        let y : Result B × World = elim x.0 [ ok b ↦ f b x.1 | err d ↦ (err d, x.1) ] in y)
      h
