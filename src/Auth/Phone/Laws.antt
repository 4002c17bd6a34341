-- ===== src/Auth/Phone/Laws.antt =====
-- How the forms of one phone number relate.
use easyrepair.Prelude.{
  ℕ, ◌≡◌, refl, inl, inr, Bool, true, false, not, ◌||◌, none, some, List, [], ◌∷◌, ◌++◌, arith,
  ◌==◌, if◌then◌else◌, Bool-cases, Option-cases, is_row,
}
use easyrepair.Auth.Phone.{
  Text, text_length, drop_text, strip_prefix, keep_chars, all_chars, is_digit, is_space, compact,
  plus_92, zero_zero_92, bare_92, zero_char, is_national, is_pakistani_mobile, to_e164,
  normalize_pakistani_phone, phone_lookup_variants,
}

keep_chars-all :
    (p q : ℕ → Bool) (s : Text)
    → ((c : ℕ) → p c ≡ true → q c ≡ true)
    → all_chars p s ≡ true
    → keep_chars q s ≡ s
unfolding keep_chars all_chars
keep_chars-all p q [] h e = refl
keep_chars-all p q (c ∷ s) h e = ground (arith, h c, keep_chars-all p q s h)

digit_kept : (c : ℕ) → is_digit c ≡ true → not (is_space c || c == 45) ≡ true
digit_kept c h = ground arith

digit_digit : (c : ℕ) → is_digit c ≡ true → is_digit c ≡ true
digit_digit c h = h

-- A national number is all digits, and starts with a 3.
pub record National (m : Text) : Type 0 where
  pub rest : Text
  pub shape : m ≡ 51 ∷ rest
  pub digits : all_chars is_digit rest ≡ true
  pub long : text_length rest ≡ 9

pub national : (m : Text) → is_national m ≡ true → National m
unfolding is_national
national [] h = absurd (ground arith)
national (c ∷ s) h = record {
  rest = s;
  shape = ground arith;
  digits = ground arith;
  long = ground arith;
}

module _ (r : Text) (digits : all_chars is_digit r ≡ true) (long : text_length r ≡ 9) where
  kept : keep_chars is_digit r ≡ r
  kept = keep_chars-all is_digit is_digit r digit_digit digits

  compacted : keep_chars (λ c. not (is_space c || c == 45)) r ≡ r
  compacted = keep_chars-all is_digit (λ c. not (is_space c || c == 45)) r digit_kept digits

  -- The five forms of one number.
  pub forms :
      (normalize_pakistani_phone (51 ∷ r) ≡ some (plus_92 ++ 51 ∷ r))
      × (normalize_pakistani_phone (zero_char ++ 51 ∷ r) ≡ some (plus_92 ++ 51 ∷ r))
      × (normalize_pakistani_phone (bare_92 ++ 51 ∷ r) ≡ some (plus_92 ++ 51 ∷ r))
      × (normalize_pakistani_phone (zero_zero_92 ++ 51 ∷ r) ≡ some (plus_92 ++ 51 ∷ r))
      × (normalize_pakistani_phone (plus_92 ++ 51 ∷ r) ≡ some (plus_92 ++ 51 ∷ r))
  unfolding normalize_pakistani_phone compact is_pakistani_mobile to_e164 keep_chars strip_prefix
      is_national text_length drop_text
  forms = (
    rw (compacted, kept, digits, long) refl,
    rw (compacted, kept, digits, long) refl,
    rw (compacted, kept, digits, long) refl,
    rw (compacted, kept, digits, long) refl,
    rw (compacted, kept, digits, long) refl,
  )

  e164_forms :
      (to_e164 (keep_chars is_digit (51 ∷ r)) ≡ plus_92 ++ 51 ∷ r)
      × (to_e164 (keep_chars is_digit (zero_char ++ 51 ∷ r)) ≡ plus_92 ++ 51 ∷ r)
      × (to_e164 (keep_chars is_digit (bare_92 ++ 51 ∷ r)) ≡ plus_92 ++ 51 ∷ r)
      × (to_e164 (keep_chars is_digit (zero_zero_92 ++ 51 ∷ r)) ≡ plus_92 ++ 51 ∷ r)
      × (to_e164 (keep_chars is_digit (plus_92 ++ 51 ∷ r)) ≡ plus_92 ++ 51 ∷ r)
  unfolding to_e164 keep_chars strip_prefix text_length drop_text
  e164_forms =
      (rw kept refl, rw (kept, long) refl, rw (kept, long) refl, rw kept refl, rw (kept, long) refl)

strip_prefix-some : (p s : Text) {m : Text} → strip_prefix p s ≡ some m → s ≡ p ++ m
unfolding strip_prefix
strip_prefix-some [] s h = ground arith
strip_prefix-some (a ∷ p) [] h = absurd (ground arith)
strip_prefix-some (a ∷ p) (c ∷ s) {m} h =
    ground (arith, λ (e : strip_prefix p s ≡ some m). strip_prefix-some p s e)

-- The number behind a text that starts with a prefix and goes on with a national number.
prefixed :
    (p s : Text)
    → is_row is_national (strip_prefix p s) ≡ true
    → (m : Text) × National m × (s ≡ p ++ m)
prefixed p s h = elim (Option-cases (strip_prefix p s)) [
  | inl missing ↦ absurd (ground arith)
  | inr (m, found) ↦ (m, national m (ground arith), strip_prefix-some p s found)
]

-- A text that the pattern matches, and what becomes of it.
mobile_e164 :
    (t : Text)
    → is_pakistani_mobile t ≡ true
    → (m : Text) × National m × (to_e164 (keep_chars is_digit t) ≡ plus_92 ++ m)
unfolding is_pakistani_mobile
mobile_e164 t h = elim (Bool-cases (is_row is_national (strip_prefix plus_92 t))) [
  | inl a ↦
      let (m, n, e) = prefixed plus_92 t a in
      (m, n, rw (e, n.shape) (e164_forms n.rest n.digits n.long).4)
  | inr a ↦ elim (Bool-cases (is_row is_national (strip_prefix zero_zero_92 t))) [
    | inl b ↦
        let (m, n, e) = prefixed zero_zero_92 t b in
        (m, n, rw (e, n.shape) (e164_forms n.rest n.digits n.long).3)
    | inr b ↦ elim (Bool-cases (is_row is_national (strip_prefix bare_92 t))) [
      | inl c ↦
          let (m, n, e) = prefixed bare_92 t c in
          (m, n, rw (e, n.shape) (e164_forms n.rest n.digits n.long).2)
      | inr c ↦ elim (Bool-cases (is_row is_national (strip_prefix zero_char t))) [
        | inl d ↦
            let (m, n, e) = prefixed zero_char t d in
            (m, n, rw (e, n.shape) (e164_forms n.rest n.digits n.long).1)
        | inr d ↦
            let n = national t (ground arith) in
            (t, n, rw n.shape (e164_forms n.rest n.digits n.long).0)
      ]
    ]
  ]
]

if_some :
    {A : Type 0} (b : Bool) (x : A) {y : A}
    → (if b then some x else none) ≡ some y
    → (b ≡ true) × (x ≡ y)
if_some true x h = (refl, cc)
if_some false x h = absurd (ground arith)

normalized :
    (raw : Text) {phone : Text}
    → normalize_pakistani_phone raw ≡ some phone
    → (m : Text) × National m × (phone ≡ plus_92 ++ m)
unfolding normalize_pakistani_phone
normalized raw {phone} h =
    let both =
      if_some (is_pakistani_mobile (compact raw)) (to_e164 (keep_chars is_digit (compact raw))) h in
    let (m, n, e) = mobile_e164 (compact raw) both.0 in (m, n, rw (← both.1) e)

-- Whether all of these normalize to this phone.
abbrev pub AllNormalize : Text → List Text → Type 0
AllNormalize phone [] = Unit
AllNormalize phone (t ∷ ts) = (normalize_pakistani_phone t ≡ some phone) × AllNormalize phone ts

-- Every form under which `phoneLookupVariants` looks for a normalized number normalizes to that number
-- again, the number itself first of all.
pub lookup_variants_normalize :
    (raw : Text) {phone : Text}
    → normalize_pakistani_phone raw ≡ some phone
    → AllNormalize phone (phone_lookup_variants phone)
unfolding phone_lookup_variants strip_prefix
lookup_variants_normalize raw {phone} h =
    let (m, n, e) = normalized raw h in
    let (bare, local, country, international, plus) = forms n.rest n.digits n.long in
    rw (e, n.shape) (plus, (local, (country, (international, tt))))
