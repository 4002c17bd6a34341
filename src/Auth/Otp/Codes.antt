-- ===== src/Auth/Otp/Codes.antt =====
-- Searches in the list of stored codes, after a write to one of them.
use easyrepair.Prelude.{
  ℕ, ◌≤◌, ◌<◌, ◌≡◌, refl, Bool, true, false, ◌&&◌, none, some, List, [], ◌∷◌, arith, ◌==◌,
  if◌then◌else◌,
}
use easyrepair.Auth.State.{AuthOtp}
use easyrepair.Auth.Rows.{find_where, count_where, update_where, delete_where}

-- The rows are numbered below `n`, the newest with the highest number.
abbrev pub IsNumbered : ℕ → List AuthOtp → Type 0
IsNumbered n [] = Unit
IsNumbered n (o ∷ os) = (o.id < n) × IsNumbered o.id os

pub IsNumbered-below : (n m : ℕ) (os : List AuthOtp) → n ≤ m → IsNumbered n os → IsNumbered m os
IsNumbered-below n m [] l h = tt
IsNumbered-below n m (o ∷ os) l h = (omega arith, h.1)

-- A write to a number that no row has.
pub update_where-absent :
    (n id : ℕ) (f : AuthOtp → AuthOtp) (os : List AuthOtp)
    → IsNumbered n os
    → n ≤ id
    → update_where (λ o. o.id == id) f os ≡ os
unfolding update_where
update_where-absent n id f [] h l = refl
update_where-absent n id f (o ∷ os) h l = ground (arith, update_where-absent o.id id f os h.1)

pub update_where-IsNumbered :
    (n : ℕ) (p : AuthOtp → Bool) (f : AuthOtp → AuthOtp) (os : List AuthOtp)
    → ((o : AuthOtp) → (f o).id ≡ o.id)
    → IsNumbered n os
    → IsNumbered n (update_where p f os)
unfolding update_where
update_where-IsNumbered n p f [] same h = tt
update_where-IsNumbered n p f (o ∷ os) same h =
    ground (arith, same o, update_where-IsNumbered o.id p f os same h.1)

pub delete_where-IsNumbered :
    (n : ℕ) (p : AuthOtp → Bool) (os : List AuthOtp)
    → IsNumbered n os
    → IsNumbered n (delete_where p os)
unfolding delete_where
delete_where-IsNumbered n p [] h = tt
delete_where-IsNumbered n p (o ∷ os) h =
    ground
      (arith, delete_where-IsNumbered o.id p os h.1, IsNumbered-below o.id n (delete_where p os))

module _ (q : AuthOtp → Bool) where
  pub find_where-count : (os : List AuthOtp) → count_where q os ≡ 0 → find_where q os ≡ none
  unfolding find_where count_where
  find_where-count [] h = refl
  find_where-count (o ∷ os) h = ground (arith, find_where-count os)

  pub find_where-some :
      (n : ℕ) (os : List AuthOtp) (r : AuthOtp)
      → IsNumbered n os
      → find_where q os ≡ some r
      → (q r ≡ true) × (r.id < n)
  unfolding find_where
  find_where-some n [] r h e = cc
  find_where-some n (o ∷ os) r h e = ground (arith, find_where-some o.id os r h.1)

  -- A write after which no more rows fit than before.
  pub count_where-update :
      (p : AuthOtp → Bool) (f : AuthOtp → AuthOtp) (os : List AuthOtp)
      → ((o : AuthOtp) → p o ≡ true → q (f o) ≡ true → q o ≡ true)
      → count_where q (update_where p f os) ≤ count_where q os
  unfolding count_where update_where
  count_where-update p f [] less = omega arith
  count_where-update p f (o ∷ os) less = ground (arith, less o, count_where-update p f os less)

  pub count_where-delete :
      (p : AuthOtp → Bool) (os : List AuthOtp)
      → count_where q (delete_where p os) ≤ count_where q os
  unfolding count_where delete_where
  count_where-delete p [] = omega arith
  count_where-delete p (o ∷ os) = ground (arith, count_where-delete p os)

  module _ (also : AuthOtp → Bool) where
    abbrev both : AuthOtp → Bool
    both o = q o && also o

    count_where-both : (os : List AuthOtp) → count_where q os ≡ 0 → find_where both os ≡ none
    unfolding count_where find_where
    count_where-both [] h = refl
    count_where-both (o ∷ os) h = ground (arith, count_where-both os)

    -- A row that fits, among at most one: it is the one that is found.
    pub find_where-only :
        (os : List AuthOtp) (r : AuthOtp)
        → count_where q os ≤ 1
        → find_where both os ≡ some r
        → find_where q os ≡ some r
    unfolding count_where find_where
    find_where-only [] r one e = cc
    find_where-only (o ∷ os) r one e = ground (arith, find_where-only os r, count_where-both os)

    -- None of it is found, and the one does not fit.
    pub find_where-unfit :
        (os : List AuthOtp) (r : AuthOtp)
        → find_where both os ≡ none
        → find_where q os ≡ some r
        → also r ≡ false
    unfolding find_where
    find_where-unfit [] r e h = cc
    find_where-unfit (o ∷ os) r e h = ground (arith, find_where-unfit os r)

  -- The search after a write to the row that was found.
  pub find_where-update :
      (n : ℕ) (f : AuthOtp → AuthOtp) (os : List AuthOtp) (r : AuthOtp)
      → IsNumbered n os
      → count_where q os ≤ 1
      → find_where q os ≡ some r
      → find_where q (update_where (λ o. o.id == r.id) f os)
        ≡ (if q (f r) then some (f r) else none)
  unfolding find_where update_where count_where
  find_where-update n f [] r h one e = cc
  find_where-update n f (o ∷ os) r h one e = ground (
    arith,
    update_where-absent o.id r.id f os h.1,
    find_where-count os,
    find_where-some o.id os r h.1,
    find_where-update o.id f os r h.1,
  )

-- A write to one row is not seen by a search that neither the row nor what it becomes fits.
pub find_where-other :
    (p q : AuthOtp → Bool) (n : ℕ) (f : AuthOtp → AuthOtp) (os : List AuthOtp) (r : AuthOtp)
    → IsNumbered n os
    → find_where p os ≡ some r
    → q r ≡ false
    → q (f r) ≡ false
    → find_where q (update_where (λ o. o.id == r.id) f os) ≡ find_where q os
unfolding find_where update_where
find_where-other p q n f [] r h e before after = cc
find_where-other p q n f (o ∷ os) r h e before after = ground (
  arith,
  update_where-absent o.id r.id f os h.1,
  find_where-some p o.id os r h.1,
  find_where-other p q o.id f os r h.1,
)
