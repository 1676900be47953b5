-- ===== src/Topics.antt =====
-- crates/mqtt-tokio/src/router.rs, lines 15 to 67: the levels of a topic and the two validators.
pub mod Wildcards
pub mod Bytewise
use Prim.Native.String.{String}
use mqtt_async_embedded.Prelude.{
  ℕ, Bool, true, false, not, ◌&&◌, ◌||◌, List, [], ◌∷◌, ◌==◌, if◌then◌else◌,
}
use mqtt_async_embedded.Bytes.{same_bytes}
use mqtt_async_embedded.ClientTypes.{ClientResult, accepted, refused, invalid_topic}

-- The level "#" and the level "+".
abbrev pub hash : List ℕ
hash = b'#' ∷ []

abbrev pub plus : List ℕ
plus = b'+' ∷ []

-- `str.contains(c)`
unfoldable pub contains : List ℕ → ℕ → Bool
contains [] c = false
contains (x ∷ xs) c = x == c || contains xs c

abbrev pub onto_head : ℕ → List (List ℕ) → List (List ℕ)
onto_head x [] = (x ∷ []) ∷ []
onto_head x (l ∷ ls) = (x ∷ l) ∷ ls

-- `str.split('/')`, which has one item more than the text has slashes
unfoldable pub split_levels : List ℕ → List (List ℕ)
split_levels [] = [] ∷ []
split_levels (x ∷ xs) =
    let rest = split_levels xs in if x == b'/' then [] ∷ rest else onto_head x rest

abbrev pub is_nil {ℓ} : {A : Type ℓ} → List A → Bool
is_nil [] = true
is_nil (x ∷ xs) = false

abbrev pub invalid : String → ClientResult (Unit {0})
invalid message = refused (invalid_topic message)

-- The body of the loop over the levels, and the loop.
unfoldable pub check_level :
    List ℕ → List (List ℕ) → ClientResult (Unit {0}) → ClientResult (Unit {0})
check_level level later rest =
    if same_bytes level hash
    then (if is_nil later
        then rest
        else invalid "Multi-level wildcard '#' must be the last token in topic filter")
    else if contains level b'#'
    then invalid "Invalid multi-level wildcard placement"
    else if contains level b'+' && not (same_bytes level plus)
    then invalid "Single-level wildcard '+' must occupy an entire level"
    else rest

unfoldable pub check_levels : List (List ℕ) → ClientResult (Unit {0})
check_levels [] = accepted tt
check_levels (level ∷ later) = check_level level later (check_levels later)

unfoldable pub validate_topic_filter : List ℕ → ClientResult (Unit {0})
validate_topic_filter filter =
    if is_nil filter
    then invalid "Topic filter cannot be empty"
    else if contains filter 0
    then invalid "Topic filter cannot contain null characters"
    else check_levels (split_levels filter)

unfoldable pub validate_publish_topic : List ℕ → ClientResult (Unit {0})
validate_publish_topic topic =
    if is_nil topic
    then invalid "Publish topic cannot be empty"
    else if contains topic 0
    then invalid "Publish topic cannot contain null characters"
    else if contains topic b'+' || contains topic b'#'
    then invalid "Publish topic cannot contain wildcards ('+' or '#')"
    else accepted tt
