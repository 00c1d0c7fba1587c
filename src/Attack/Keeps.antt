-- ===== src/Attack/Keeps.antt =====
-- scripts/: actions that leave a part of the world as it was, whether they raise or not.
use secure_dynamo_kv_store.Prelude.{◌≡◌, refl, ◌∙◌, Bool, true, false, arith, if◌then◌else◌}
use secure_dynamo_kv_store.Prelude.Result.{Result as Fallible, ok, raise}
use secure_dynamo_kv_store.Attack.Shell.{Act, ◌>>=◌, and_then, pure, look, lift, finally}

module _ {W S : Type 0} (seen : W → S) where
  pub record Keeps {A : Type 0} (m : Act W A) : Type 0 where
    pub kept : (w : W) → seen (m w).1 ≡ seen w

  and_then-seen :
      {A B : Type 0} (r : Fallible A × W) (k : A → Act W B)
      → ((a : A) → Keeps (k a))
      → seen (and_then r k).1 ≡ seen r.1
  and_then-seen (raise e, w) k h = refl
  and_then-seen (ok a, w) k h = (h a).kept w

  pub >>=-Keeps :
      {A B : Type 0} (m : Act W A) (k : A → Act W B)
      → Keeps m
      → ((a : A) → Keeps (k a))
      → Keeps (m >>= k)
  >>=-Keeps m k h g = record { kept = λ w. and_then-seen (m w) k g ∙ h.kept w }

  pub pure-Keeps : {A : Type 0} (a : A) → Keeps (pure a)
  pure-Keeps a = record { kept = λ w. refl }

  pub lift-Keeps : {A : Type 0} (r : Fallible A) → Keeps (lift r)
  lift-Keeps r = record { kept = λ w. refl }

  pub look-Keeps : {A : Type 0} (f : W → A) → Keeps (look f)
  look-Keeps f = record { kept = λ w. refl }

  pub if-Keeps :
      {A : Type 0} (b : Bool) (m n : Act W A) → Keeps m → Keeps n → Keeps (if b then m else n)
  if-Keeps true m n h g = h
  if-Keeps false m n h g = g

  pub finally-seen :
      {A : Type 0} (m : Act W A) (cleanup : Act W (Unit {0})) (w : W)
      → seen (finally m cleanup w).1 ≡ seen (cleanup (m w).1).1
  finally-seen m cleanup w = ground arith

  pub finally-Keeps :
      {A : Type 0} (m : Act W A) (cleanup : Act W (Unit {0}))
      → Keeps m
      → Keeps cleanup
      → Keeps (finally m cleanup)
  finally-Keeps m cleanup h g = record {
    kept = λ w. finally-seen m cleanup w ∙ g.kept (m w).1 ∙ h.kept w;
  }
