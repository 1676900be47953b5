-- ===== src/Topics/Bytewise.antt =====
-- The validators against a scan of the bytes that knows no levels.
use mqtt_async_embedded.Prelude.{
  ℕ, ◌≡◌, refl, Bool, true, false, not, ◌&&◌, List, [], ◌∷◌, arith, ◌==◌, if◌then◌else◌, ==_iff,
  Bool-cases, inl, inr,
}
use mqtt_async_embedded.Bytes.{same_bytes}
use mqtt_async_embedded.ClientTypes.{ClientResult, accepted, refused}
use mqtt_async_embedded.Topics.{
  contains, is_nil, split_levels, check_level, check_levels, validate_topic_filter,
  validate_publish_topic,
}

abbrev pub is_accepted : ClientResult (Unit {0}) → Bool
is_accepted (accepted u) = true
is_accepted (refused e) = false

-- The end of the text, or of a level.
abbrev pub ends_level : List ℕ → Bool
ends_level [] = true
ends_level (x ∷ xs) = x == b'/'

-- '#' begins a level and is the last byte; '+' begins a level and ends it.
unfoldable pub wildcards_fit : Bool → List ℕ → Bool
wildcards_fit at_start [] = true
wildcards_fit at_start (x ∷ xs) =
    let rest = wildcards_fit (x == b'/') xs in
    if x == b'#'
    then at_start && is_nil xs
    else if x == b'+'
    then at_start && (ends_level xs && rest)
    else rest

abbrev first : List (List ℕ) → List ℕ
first [] = []
first (l ∷ ls) = l

abbrev later : List (List ℕ) → List (List ℕ)
later [] = []
later (l ∷ ls) = ls

abbrev has_no_wildcard : List ℕ → Bool
has_no_wildcard l = not (contains l b'#') && not (contains l b'+')

split-cons : (xs : List ℕ) → (h : List ℕ) × (t : List (List ℕ)) × (split_levels xs ≡ h ∷ t)
unfolding split_levels
split-cons [] = ([], [], refl)
split-cons (x ∷ xs) =
    let (h, t, e) = split-cons xs in
    elim (Bool-cases (x == b'/')) [
      | inl slash ↦ ([], split_levels xs, rw slash refl)
      | inr other ↦ (x ∷ h, t, rw (other, e) refl)
    ]

-- The ends of the text and of its first level.
split-is_nil :
    (xs : List ℕ)
    → is_nil xs ≡ (is_nil (first (split_levels xs)) && is_nil (later (split_levels xs)))
unfolding split_levels
split-is_nil [] = refl
split-is_nil (x ∷ xs) = let (h, t, e) = split-cons xs in rw e (ground arith)

split-ends_level : (xs : List ℕ) → ends_level xs ≡ is_nil (first (split_levels xs))
unfolding split_levels
split-ends_level [] = refl
split-ends_level (x ∷ xs) = let (h, t, e) = split-cons xs in rw e (ground arith)

-- A byte in front of a level, as the scan and as the validator judge it.
judge :
    (x : ℕ) (h : List ℕ) (t : List (List ℕ))
    → (x == b'/') ≡ false
    → (if x == b'#'
        then is_nil h && is_nil t
        else if x == b'+'
        then is_nil h && (has_no_wildcard h && is_accepted (check_levels t))
        else has_no_wildcard h && is_accepted (check_levels t))
      ≡ is_accepted (check_level (x ∷ h) t (check_levels t))
unfolding check_levels check_level contains same_bytes
judge x [] [] other = ground arith
judge x [] (l ∷ t) other = ground arith
judge x (y ∷ h) t other = ground arith

-- The scan inside a level, and at the start of one.
scan :
    (xs : List ℕ)
    → (wildcards_fit false xs ≡ (
        has_no_wildcard (first (split_levels xs))
        && is_accepted (check_levels (later (split_levels xs)))))
      × (wildcards_fit true xs ≡ is_accepted (check_levels (split_levels xs)))
unfolding split_levels wildcards_fit check_levels check_level contains same_bytes
scan [] = (refl, refl)
scan (x ∷ xs) =
    let (h, t, e) = split-cons xs in
    elim (Bool-cases (x == b'/')) [
      | inl slash ↦ rw ((==_iff x b'/').0 slash) ((scan xs).1, (scan xs).1)
      | inr other ↦
          let inside = rw (e) at ((scan xs).0) in
          let start = rw (e) at ((scan xs).1) in
          let empty = rw (e) at (split-is_nil xs) in
          let ends = rw (e) at (split-ends_level xs) in
          rw (other, e) (ground arith, ground (arith, judge x h t))
    ]

-- A filter is accepted exactly if it is not empty, has no NUL byte, each '#' in it begins a level
-- and is the last byte, and each '+' in it is a level by itself.
pub validate_topic_filter-wildcards_fit :
    (filter : List ℕ)
    → is_accepted (validate_topic_filter filter)
      ≡ (not (is_nil filter) && (not (contains filter 0) && wildcards_fit true filter))
unfolding validate_topic_filter
validate_topic_filter-wildcards_fit filter = rw (scan filter).1 (ground arith)

wildcards_fit-none :
    (xs : List ℕ) (at_start : Bool)
    → contains xs b'+' ≡ false
    → contains xs b'#' ≡ false
    → wildcards_fit at_start xs ≡ true
unfolding wildcards_fit contains
wildcards_fit-none [] at_start single multi = refl
wildcards_fit-none (x ∷ xs) at_start single multi =
    ground (arith, wildcards_fit-none xs (x == b'/'))

-- A topic that may be published to is a filter that is accepted.
pub validate_publish_topic-filter :
    (topic : List ℕ)
    → is_accepted (validate_publish_topic topic) ≡ true
    → is_accepted (validate_topic_filter topic) ≡ true
unfolding validate_publish_topic
validate_publish_topic-filter topic fine =
    rw (validate_topic_filter-wildcards_fit topic) (ground (arith, wildcards_fit-none topic true))
