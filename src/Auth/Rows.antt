-- ===== src/Auth/Rows.antt =====
-- Tables that are searched newest first, as lists: `findFirst` with `orderBy`, `count`, `updateMany`,
-- `update` and `deleteMany`.
use easyrepair.Prelude.{ℕ, ◌+◌, Bool, Option, none, some, List, [], ◌∷◌, if◌then◌else◌}

-- The rows that fit, first the newest.
unfoldable pub find_where : {A : Type 0} → (A → Bool) → List A → Option A
find_where p [] = none
find_where p (o ∷ os) = let rest = find_where p os in if p o then some o else rest

unfoldable pub count_where : {A : Type 0} → (A → Bool) → List A → ℕ
count_where p [] = 0
count_where p (o ∷ os) = (if p o then 1 else 0) + count_where p os

-- `updateMany` and `update`, `deleteMany`.
unfoldable pub update_where : {A : Type 0} → (A → Bool) → (A → A) → List A → List A
update_where p f [] = []
update_where p f (o ∷ os) = (if p o then f o else o) ∷ update_where p f os

unfoldable pub delete_where : {A : Type 0} → (A → Bool) → List A → List A
delete_where p [] = []
delete_where p (o ∷ os) = let rest = delete_where p os in if p o then rest else o ∷ rest
