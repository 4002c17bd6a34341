-- ===== src/Ledger/Grouping.antt =====
-- How the eligible settlements of a night are grouped: each of them is in the group of its worker.
use easyrepair.Ledger.Eligible.{one_if, item_of, group_by_worker, settlements_where, add_to_group}
use easyrepair.Ledger.Writes.{has_item}
use easyrepair.Prelude.{
  ℕ, zero, suc, ◌<◌, ◌≡◌, refl, sym, subst, inl, inr, Bool, true, false, not, ◌&&◌, ◌||◌, some,
  List, [], ◌∷◌, ◌++◌, arith, ◌==◌, Bool-cases, Table, ==_iff,
}
use easyrepair.Ledger.State.{BookingSettlement, CollectionItem}

-- Every group of the worker holds the settlement, and there is one.
unfoldable pub all_hold : (worker id : ℕ) → List (ℕ × List CollectionItem) → Bool
all_hold worker id [] = true
all_hold worker id ((w, items) ∷ groups) =
    let rest = all_hold worker id groups in (not (w == worker) || has_item id items) && rest

unfoldable pub has_group : (worker : ℕ) → List (ℕ × List CollectionItem) → Bool
has_group worker [] = false
has_group worker ((w, items) ∷ groups) = let rest = has_group worker groups in w == worker || rest

-- No two groups are of one worker.
unfoldable pub are_distinct : List (ℕ × List CollectionItem) → Bool
unfolding has_group
are_distinct [] = true
are_distinct ((w, items) ∷ groups) =
    let rest = are_distinct groups in not (has_group w groups) && rest

has_item-++ :
    (id : ℕ) (xs ys : List CollectionItem)
    → has_item id (xs ++ ys) ≡ (has_item id xs || has_item id ys)
unfolding has_item
has_item-++ id [] ys = refl
has_item-++ id (x ∷ xs) ys = ground (arith, has_item-++ id xs ys)

module _ (worker : ℕ) (item : CollectionItem) where
  has_group-add :
      (w : ℕ) (groups : List (ℕ × List CollectionItem))
      → has_group w (add_to_group worker item groups) ≡ (worker == w || has_group w groups)
  unfolding has_group add_to_group
  has_group-add w [] = ground arith
  has_group-add w ((v, items) ∷ groups) = ground (arith, has_group-add w groups)

  distinct-add :
      (groups : List (ℕ × List CollectionItem))
      → are_distinct groups ≡ true
      → are_distinct (add_to_group worker item groups) ≡ true
  unfolding are_distinct add_to_group has_group
  distinct-add [] h = refl
  distinct-add ((v, items) ∷ groups) h = ground (arith, distinct-add groups, has_group-add v groups)

  -- No group of the worker: all of them hold anything.
  all_hold-none :
      (w id : ℕ) (groups : List (ℕ × List CollectionItem))
      → has_group w groups ≡ false
      → all_hold w id groups ≡ true
  unfolding all_hold has_group
  all_hold-none w id [] h = refl
  all_hold-none w id ((v, items) ∷ groups) h = ground (arith, all_hold-none w id groups)

  -- The new item is held.
  all_hold-new :
      (groups : List (ℕ × List CollectionItem))
      → are_distinct groups ≡ true
      → all_hold worker item.settlement_id (add_to_group worker item groups) ≡ true
  unfolding all_hold are_distinct add_to_group has_item
  all_hold-new [] h = ground arith
  all_hold-new ((v, items) ∷ groups) h = ground (
    arith,
    all_hold-new groups,
    all_hold-none v item.settlement_id groups,
    has_item-++ item.settlement_id items (item ∷ []),
  )

  -- The groups of the other workers stay.
  all_hold-other :
      (w id : ℕ) (groups : List (ℕ × List CollectionItem))
      → (worker == w) ≡ false
      → all_hold w id groups ≡ true
      → all_hold w id (add_to_group worker item groups) ≡ true
  unfolding all_hold add_to_group
  all_hold-other w id [] other h = ground arith
  all_hold-other w id ((v, items) ∷ groups) other h =
      ground (arith, all_hold-other w id groups other)

  -- What was held stays held.
  all_hold-add :
      (w id : ℕ) (groups : List (ℕ × List CollectionItem))
      → has_group w groups ≡ true
      → all_hold w id groups ≡ true
      → all_hold w id (add_to_group worker item groups) ≡ true
  unfolding all_hold has_group add_to_group has_item
  all_hold-add w id [] e h = absurd (ground arith)
  all_hold-add w id ((v, items) ∷ groups) e h = ground (
    arith,
    all_hold-add w id groups,
    all_hold-other w id groups,
    all_hold-other w id groups,
    has_item-++ id items (item ∷ []),
  )

-- The settlement of the worker is in the list.
unfoldable pub is_listed : (worker id : ℕ) → List (ℕ × BookingSettlement) → Bool
is_listed worker id [] = false
is_listed worker id ((i, s) ∷ xs) =
    let rest = is_listed worker id xs in (i == id && s.worker_profile_id == worker) || rest

is_listed-append :
    (worker id : ℕ) (xs ys : List (ℕ × BookingSettlement))
    → is_listed worker id (xs ++ ys) ≡ (is_listed worker id xs || is_listed worker id ys)
unfolding is_listed
is_listed-append worker id [] ys = refl
is_listed-append worker id (x ∷ xs) ys = ground (arith, is_listed-append worker id xs ys)

one_listed :
    (p : ℕ → BookingSettlement → Bool) (id : ℕ) (s : BookingSettlement)
    → p id s ≡ true
    → is_listed s.worker_profile_id id (one_if p id (some s)) ≡ true
unfolding is_listed
one_listed p id s h = ground arith

pub listed_where :
    (p : ℕ → BookingSettlement → Bool) (n id : ℕ) (t : Table BookingSettlement)
    (s : BookingSettlement)
    → id < n
    → t id ≡ some s
    → p id s ≡ true
    → is_listed s.worker_profile_id id (settlements_where p n t) ≡ true
unfolding settlements_where
listed_where p zero id t s l e h = absurd (omega arith)
listed_where p (suc n) id t s l e h =
    rw (is_listed-append s.worker_profile_id id (settlements_where p n t) (one_if p n (t n)))
      (elim (Bool-cases (n == id)) [
        | inl same ↦ ground (arith, here ((==_iff n id).0 same))
        | inr other ↦ ground (arith, λ (m : id < n). listed_where p n id t s m e h)
      ])
  where
    here : n ≡ id → is_listed s.worker_profile_id id (one_if p n (t n)) ≡ true
    here same =
        subst (λ k. is_listed s.worker_profile_id id (one_if p k (t k)) ≡ true) (sym same)
          (rw e (one_listed p id s h))

-- The groups have the settlement, or get it from the list.
pub grouped :
    (worker id : ℕ) (xs : List (ℕ × BookingSettlement)) (groups : List (ℕ × List CollectionItem))
    → are_distinct groups ≡ true
    → (is_listed worker id xs || (has_group worker groups && all_hold worker id groups)) ≡ true
    → (has_group worker (group_by_worker xs groups)
        && all_hold worker id (group_by_worker xs groups))
      ≡ true
unfolding is_listed group_by_worker
grouped worker id [] groups distinct h = h
grouped worker id ((i, s) ∷ xs) groups distinct h =
    grouped worker id xs (add_to_group s.worker_profile_id (item_of (i, s)) groups)
      (distinct-add s.worker_profile_id (item_of (i, s)) groups distinct)
      (ground (
        arith,
        has_group-add s.worker_profile_id (item_of (i, s)) worker groups,
        all_hold-new s.worker_profile_id (item_of (i, s)) groups distinct,
        all_hold-add s.worker_profile_id (item_of (i, s)) worker id groups,
        all_hold-other s.worker_profile_id (item_of (i, s)) worker id groups,
      ))
