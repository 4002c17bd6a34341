-- ===== src/Steps/Refuses.antt =====
-- Steps that fail and write nothing.
use easyrepair.Prelude.{◌≡◌, refl, subst, Bool, true, false, Option, none, some}
use easyrepair.Steps.{
  Answer, done, failed, Step, raise, require, reject_if, transact, catch_with, ◌>>=◌, ◌>>◌,
}

module _ {S E : Type 0} where
  -- An answer that is an error, with the state as it was.
  abbrev pub IsRefusal : {A : Type 0} → S → Answer E A × S → Type 0
  IsRefusal s (done _, t) = ⊥
  IsRefusal s (failed _, t) = t ≡ s

  abbrev IsFailure : {A : Type 0} → Answer E A × S → Type 0
  IsFailure (done _, t) = ⊥
  IsFailure (failed _, t) = Unit

  pub record Refuses {A : Type 0} (m : Step S E A) : Type 0 where
    pub refused : (s : S) → IsRefusal s (m s)

  pub record Fails {A : Type 0} (m : Step S E A) : Type 0 where
    pub fails : (s : S) → IsFailure (m s)

  -- A step that writes nothing.
  pub record Reads {A : Type 0} (m : Step S E A) : Type 0 where
    pub same : (s : S) → (m s).1 ≡ s

  pub require-Reads : {A : Type 0} (o : Option A) (e : E) → Reads (require o e)
  require-Reads none e = record { same = λ s. refl }
  require-Reads (some a) e = record { same = λ s. refl }

  pub reject-Reads : (b : Bool) (e : E) → Reads (reject_if b e)
  reject-Reads true e = record { same = λ s. refl }
  reject-Reads false e = record { same = λ s. refl }

  module _ {A : Type 0} where
    pub raise-Refuses : (e : E) → Refuses {A = A} (raise e)
    raise-Refuses e = record { refused = λ s. refl }

    pub bind-Refuses :
        {B : Type 0} (m : Step S E B) (k : B → Step S E A)
        → Reads m
        → ((b : B) → Refuses (k b))
        → Refuses (m >>= k)
    bind-Refuses {B} m k quiet next = record { refused = λ s. go s (m s) (quiet.same s) }
      where
        go : (s : S) (r : Answer E B × S) → r.1 ≡ s → IsRefusal s (((λ _. r) >>= k) s)
        go s (done b, t) h = subst (λ u. IsRefusal u (k b t)) h ((next b).refused t)
        go s (failed e, t) h = h

    pub sequence-Refuses :
        {B : Type 0} (m : Step S E B) (k : Step S E A) → Reads m → Refuses k → Refuses (m >> k)
    sequence-Refuses m k quiet next = bind-Refuses m (λ _. k) quiet (λ _. next)

    pub required-Refuses :
        {B : Type 0} (o : Option B) (e : E) (k : B → Step S E A)
        → ((b : B) → o ≡ some b → Refuses (k b))
        → Refuses (require o e >>= k)
    required-Refuses none e k next = record { refused = λ s. refl }
    required-Refuses (some b) e k next = record { refused = (next b refl).refused }

    pub first-Refuses :
        {B : Type 0} (m : Step S E B) (k : B → Step S E A) → Refuses m → Refuses (m >>= k)
    first-Refuses {B} m k first = record { refused = λ s. go s (m s) (first.refused s) }
      where
        go : (s : S) (r : Answer E B × S) → IsRefusal s r → IsRefusal s (((λ _. r) >>= k) s)
        go s (done b, t) h = absurd h
        go s (failed e, t) h = h

    pub transact-Refuses : (m : Step S E A) → Fails m → Refuses (transact m)
    transact-Refuses m inside = record { refused = λ s. go s (m s) (inside.fails s) }
      where
        go : (s : S) (r : Answer E A × S) → IsFailure r → IsRefusal s (transact (λ _. r) s)
        go s (done a, t) h = absurd h
        go s (failed e, t) h = refl

    pub handled-Refuses :
        (m : Step S E A) (handle : E → Step S E A)
        → Refuses m
        → ((e : E) → Refuses (handle e))
        → Refuses (catch_with m handle)
    handled-Refuses m handle first next = record { refused = λ s. go s (m s) (first.refused s) }
      where
        go :
            (s : S) (r : Answer E A × S)
            → IsRefusal s r
            → IsRefusal s (catch_with (λ _. r) handle s)
        go s (done a, t) h = absurd h
        go s (failed e, t) h = subst (λ u. IsRefusal u (handle e t)) h ((next e).refused t)

    pub rejected-Fails : (e : E) (k : Step S E A) → Fails (reject_if true e >> k)
    rejected-Fails e k = record { fails = λ s. tt }

    pub sequence-Fails : {B : Type 0} (m : Step S E B) (k : Step S E A) → Fails k → Fails (m >> k)
    sequence-Fails {B} m k next = record { fails = λ s. go s (m s) }
      where
        go : (s : S) (r : Answer E B × S) → IsFailure (((λ _. r) >>= (λ _. k)) s)
        go s (done b, t) = next.fails t
        go s (failed e, t) = tt
