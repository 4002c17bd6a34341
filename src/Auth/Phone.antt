-- ===== src/Auth/Phone.antt =====
-- backend/src/common/utils/phone.util.ts and support-identity.util.ts. A string is the list of its
-- UTF-16 code units.
pub mod Laws
use easyrepair.Prelude.{
  ℕ, zero, suc, ℤ, ◌+◌, ◌-◌, ◌*◌, ◌/◌, ◌%◌, ◌≤◌, ◌<◌, min, max, ◌≡◌, ◌≢◌, ◌↔◌, ◌⊎◌, refl, sym,
  subst, ap, ◌∙◌, inl, inr, Bool, true, false, not, ◌&&◌, ◌||◌, Option, none, some, List, [], ◌∷◌,
  ◌++◌, map, arith, ltb, leb, ◌==◌, if◌then◌else◌, Bool-cases, Option-cases, is_some, or_else,
  or_other, holds_id, Table, put, revise, update_many, find_first, find_first-some, find_first-none,
  put_rule, is_row,
}

abbrev pub Text : Type 0
Text = List ℕ

unfoldable pub same_text : Text → Text → Bool
same_text [] [] = true
same_text (a ∷ s) (b ∷ t) = a == b && same_text s t
same_text _ _ = false

unfoldable pub text_length : Text → ℕ
text_length [] = 0
text_length (c ∷ s) = suc (text_length s)

unfoldable pub drop_text : ℕ → Text → Text
drop_text zero s = s
drop_text (suc n) [] = []
drop_text (suc n) (c ∷ s) = drop_text n s

-- What is left of a text after a prefix.
unfoldable pub strip_prefix : Text → Text → Option Text
strip_prefix [] s = some s
strip_prefix (p ∷ ps) [] = none
strip_prefix (p ∷ ps) (c ∷ s) = if p == c then strip_prefix ps s else none

abbrev pub starts_with : Text → Text → Bool
starts_with s p = is_some (strip_prefix p s)

unfoldable pub keep_chars : (ℕ → Bool) → Text → Text
keep_chars p [] = []
keep_chars p (c ∷ s) = let rest = keep_chars p s in if p c then c ∷ rest else rest

unfoldable pub all_chars : (ℕ → Bool) → Text → Bool
all_chars p [] = true
all_chars p (c ∷ s) = p c && all_chars p s

abbrev pub between : (low high c : ℕ) → Bool
between low high c = leb low c && leb c high

-- `\d`
abbrev pub is_digit : ℕ → Bool
is_digit = between 48 57

-- `\s`
abbrev pub is_space : ℕ → Bool
is_space c =
    between 9 13 c
    || c == 32
    || c == 160
    || c == 5760
    || between 8192 8202 c
    || c == 8232
    || c == 8233
    || c == 8239
    || c == 8287
    || c == 12288
    || c == 65279

-- `raw.trim().replace(/[\s-]/g, '')`: what is trimmed is replaced too.
unfoldable pub compact : Text → Text
unfolding keep_chars
compact = keep_chars (λ c. not (is_space c || c == 45))

abbrev pub plus_92 : Text
plus_92 = 43 ∷ 57 ∷ 50 ∷ []

abbrev pub zero_zero_92 : Text
zero_zero_92 = 48 ∷ 48 ∷ 57 ∷ 50 ∷ []

abbrev pub bare_92 : Text
bare_92 = 57 ∷ 50 ∷ []

abbrev pub zero_char : Text
zero_char = 48 ∷ []

-- `3[0-9]{9}$`
unfoldable pub is_national : Text → Bool
unfolding text_length all_chars
is_national [] = false
is_national (c ∷ s) = c == 51 && (all_chars is_digit s && text_length s == 9)

-- PAKISTANI_MOBILE_PATTERN: one of the prefixes, or none.
unfoldable pub is_pakistani_mobile : Text → Bool
unfolding strip_prefix is_national
is_pakistani_mobile s =
    is_row is_national (strip_prefix plus_92 s)
    || (is_row is_national (strip_prefix zero_zero_92 s)
        || (is_row is_national (strip_prefix bare_92 s)
            || (is_row is_national (strip_prefix zero_char s) || is_national s)))

-- The branches after the test.
unfoldable pub to_e164 : Text → Text
unfolding strip_prefix text_length drop_text
to_e164 digits =
    if starts_with digits zero_zero_92
    then plus_92 ++ drop_text 4 digits
    else if starts_with digits bare_92 && text_length digits == 12
    then 43 ∷ digits
    else if starts_with digits zero_char && text_length digits == 11
    then plus_92 ++ drop_text 1 digits
    else plus_92 ++ digits

-- `normalizePakistaniPhone`
unfoldable pub normalize_pakistani_phone : Text → Option Text
unfolding compact is_pakistani_mobile to_e164 keep_chars
normalize_pakistani_phone raw =
    let trimmed = compact raw in
    if is_pakistani_mobile trimmed then some (to_e164 (keep_chars is_digit trimmed)) else none

-- `s.replace(/^prefix/, new)`
abbrev pub replace_prefix : (old new : Text) → Text → Text
replace_prefix old new s = elim (strip_prefix old s) [ none ↦ s | some rest ↦ new ++ rest ]

-- `phoneLookupVariants`
unfoldable pub phone_lookup_variants : Text → List Text
unfolding strip_prefix
phone_lookup_variants normalized =
    normalized
    ∷ replace_prefix plus_92 zero_char normalized
    ∷ replace_prefix (43 ∷ []) [] normalized
    ∷ replace_prefix plus_92 zero_zero_92 normalized
    ∷ []

-- The last ten of the digits.
unfoldable pub national_significant : Text → Text
unfolding keep_chars text_length drop_text
national_significant phone =
    let digits = keep_chars is_digit phone in
    if ltb 10 (text_length digits) then drop_text (text_length digits - 10) digits else digits

-- `isSupportPhone`; `a` and `b` are not empty.
unfoldable pub is_support_phone : (phone : Text) → (support : Option Text) → Bool
unfolding national_significant same_text text_length
is_support_phone phone none = false
is_support_phone phone (some support) =
    let a = national_significant phone in
    let b = national_significant support in
    ltb 0 (text_length phone)
    && (ltb 0 (text_length support)
        && (ltb 0 (text_length a) && (ltb 0 (text_length b) && same_text a b)))
