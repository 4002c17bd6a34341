-- ===== src/Steps/Yields.antt =====
-- What holds of a step's answer and of the state after it, whenever it answers.
use easyrepair.Prelude.{◌≡◌, refl, arith}
use easyrepair.Steps.{Answer, done, failed, Step, raise, transact, catch_with, ◌>>=◌, ◌>>◌}

module _ {S E : Type 0} where
  pub record Yields {A : Type 0} (Q : A → S → Type 0) (m : Step S E A) : Type 0 where
    pub on_done : (s t : S) (a : A) → m s ≡ (done a, t) → Q a t

  module _ {A : Type 0} (Q : A → S → Type 0) where
    pub raise-Yields : (e : E) → Yields Q (raise e)
    raise-Yields e = record { on_done = λ s t a h. absurd (ground arith) }

    pub bind-Yields :
        {B : Type 0} (m : Step S E B) (k : B → Step S E A)
        → ((b : B) → Yields Q (k b))
        → Yields Q (m >>= k)
    bind-Yields {B} m k next = record { on_done = λ s t a. go s t a (m s) }
      where
        go : (s t : S) (a : A) (r : Answer E B × S) → ((λ _. r) >>= k) s ≡ (done a, t) → Q a t
        go s t a (done b, u) h = (next b).on_done u t a h
        go s t a (failed e, u) h = absurd (ground arith)

    pub sequence-Yields :
        {B : Type 0} (m : Step S E B) (k : Step S E A) → Yields Q k → Yields Q (m >> k)
    sequence-Yields m k next = bind-Yields m (λ _. k) (λ _. next)

    pub transact-Yields : {m : Step S E A} → Yields Q m → Yields Q (transact m)
    transact-Yields {m} inside = record { on_done = λ s t a h. go s t a (m s) h (inside.on_done s) }
      where
        go :
            (s t : S) (a : A) (r : Answer E A × S)
            → transact (λ _. r) s ≡ (done a, t)
            → ((u : S) (b : A) → r ≡ (done b, u) → Q b u)
            → Q a t
        go s t a (done b, u) h inside' = inside' t a h
        go s t a (failed e, u) h inside' = absurd (ground arith)

    pub handled-Yields :
        {m : Step S E A} {handle : E → Step S E A}
        → Yields Q m
        → ((e : E) → Yields Q (handle e))
        → Yields Q (catch_with m handle)
    handled-Yields {m} {handle} first next = record {
      on_done = λ s t a h. go s t a (m s) h (first.on_done s);
    }
      where
        go :
            (s t : S) (a : A) (r : Answer E A × S)
            → catch_with (λ _. r) handle s ≡ (done a, t)
            → ((u : S) (b : A) → r ≡ (done b, u) → Q b u)
            → Q a t
        go s t a (done b, u) h first' = first' t a h
        go s t a (failed e, u) h first' = (next e).on_done u t a h

    -- What the first step yields is used by the second.
    pub continued-Yields :
        {B : Type 0} (R : B → S → Type 0) (m : Step S E B) (k : B → Step S E A)
        → Yields R m
        → ((b : B) (s t : S) (a : A) → R b s → k b s ≡ (done a, t) → Q a t)
        → Yields Q (m >>= k)
    continued-Yields {B} R m k first next = record {
      on_done = λ s t a h. go s t a (m s) h (first.on_done s);
    }
      where
        go :
            (s t : S) (a : A) (r : Answer E B × S)
            → ((λ _. r) >>= k) s ≡ (done a, t)
            → ((u : S) (b : B) → r ≡ (done b, u) → R b u)
            → Q a t
        go s t a (done b, u) h first' = next b u t a (first' u b refl) h
        go s t a (failed e, u) h first' = absurd (ground arith)
