-- ===== src/Steps/Keeps.antt =====
-- What a step keeps of the state, whether it answers or fails.
use easyrepair.Prelude.{◌≡◌, refl, Bool, true, false, Option, none, some}
use easyrepair.Steps.{
  Answer, done, failed, Step, pure, raise, reads, require, reject_if, modify, transact, catch_with,
  ◌>>=◌, ◌>>◌,
}

module _ {S E : Type 0} (P : S → Type 0) where
  pub record Keeps {A : Type 0} (m : Step S E A) : Type 0 where
    pub after : (s : S) → P s → P (m s).1

  pub pure-Keeps : {A : Type 0} (a : A) → Keeps (pure a)
  pure-Keeps a = record { after = λ s h. h }

  pub raise-Keeps : {A : Type 0} (e : E) → Keeps {A = A} (raise e)
  raise-Keeps e = record { after = λ s h. h }

  pub reads-Keeps : {A : Type 0} (f : S → A) → Keeps (reads f)
  reads-Keeps f = record { after = λ s h. h }

  pub modify-Keeps : (f : S → S) → ((s : S) → P s → P (f s)) → Keeps (modify f)
  modify-Keeps f each = record { after = each }

  pub require-Keeps : {A : Type 0} (o : Option A) (e : E) → Keeps (require o e)
  require-Keeps none e = record { after = λ s h. h }
  require-Keeps (some a) e = record { after = λ s h. h }

  pub reject-Keeps : (b : Bool) (e : E) → Keeps (reject_if b e)
  reject-Keeps true e = record { after = λ s h. h }
  reject-Keeps false e = record { after = λ s h. h }

  pub bind-Keeps :
      {A B : Type 0} {m : Step S E A} {k : A → Step S E B}
      → Keeps m
      → ((a : A) → Keeps (k a))
      → Keeps (m >>= k)
  bind-Keeps {A} {B} {m} {k} first next = record { after = λ s h. go s (m s) (first.after s h) }
    where
      go : (s : S) (r : Answer E A × S) → P r.1 → P (((λ _. r) >>= k) s).1
      go s (done a, t) h = (next a).after t h
      go s (failed e, t) h = h

  pub sequence-Keeps :
      {A B : Type 0} {m : Step S E A} {k : Step S E B} → Keeps m → (A → Keeps k) → Keeps (m >> k)
  sequence-Keeps first next = bind-Keeps first next

  pub transact-Keeps : {A : Type 0} {m : Step S E A} → Keeps m → Keeps (transact m)
  transact-Keeps {A} {m} inside = record { after = λ s h. go s h (m s) (inside.after s h) }
    where
      go : (s : S) → P s → (r : Answer E A × S) → P r.1 → P (transact (λ _. r) s).1
      go s before (done a, t) h = h
      go s before (failed e, t) h = before

  pub handled-Keeps :
      {A : Type 0} {m : Step S E A} {handle : E → Step S E A}
      → Keeps m
      → ((e : E) → Keeps (handle e))
      → Keeps (catch_with m handle)
  handled-Keeps {A} {m} {handle} first next = record { after = λ s h. go s (m s) (first.after s h) }
    where
      go : (s : S) (r : Answer E A × S) → P r.1 → P (catch_with (λ _. r) handle s).1
      go s (done a, t) h = h
      go s (failed e, t) h = (next e).after t h

module _ {S E : Type 0} (P : S → Type 0) where
  -- What is known once the first step has answered.
  pub passed-Keeps :
      {A B : Type 0} (m : Step S E A) (k : A → Step S E B)
      → Keeps P m
      → ((a : A) (s t : S) → P s → m s ≡ (done a, t) → Keeps P (k a))
      → Keeps P (m >>= k)
  passed-Keeps {A} {B} m k first next = record {
    after = λ s h. go s (m s) (first.after s h) (λ a t e. next a s t h e);
  }
    where
      go :
          (s : S) (r : Answer E A × S)
          → P r.1
          → ((a : A) (t : S) → r ≡ (done a, t) → Keeps P (k a))
          → P (((λ _. r) >>= k) s).1
      go s (done a, t) h later = (later a t refl).after t h
      go s (failed e, t) h later = h

-- What a request is made of; a request's own writes are lemmas beside these.
pub ruleset keeping = (
  sequence-Keeps, bind-Keeps, require-Keeps, reject-Keeps, pure-Keeps, raise-Keeps, reads-Keeps,
  transact-Keeps, handled-Keeps,
)
