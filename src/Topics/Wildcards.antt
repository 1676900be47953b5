-- ===== src/Topics/Wildcards.antt =====
-- What an accepted filter looks like, level by level.
use mqtt_async_embedded.Prelude.{ℕ, ◌≡◌, true, false, List, arith}
use mqtt_async_embedded.Bytes.{same_bytes}
use mqtt_async_embedded.ClientTypes.{ClientResult, accepted}
use mqtt_async_embedded.Topics.{hash, is_nil, check_level}

-- "#" is the last level of an accepted filter.
pub check_level-last :
    (l : List ℕ) (later : List (List ℕ)) (rest : ClientResult (Unit {0}))
    → check_level l later rest ≡ accepted tt
    → same_bytes l hash ≡ true
    → is_nil later ≡ true
unfolding check_level
check_level-last l later rest h multi = ground arith

-- Behind any level of an accepted filter the rest is accepted.
pub check_level-rest :
    (l : List ℕ) (later : List (List ℕ)) (rest : ClientResult (Unit {0}))
    → check_level l later rest ≡ accepted tt
    → same_bytes l hash ≡ false
    → rest ≡ accepted tt
unfolding check_level
check_level-rest l later rest h other = ground arith
