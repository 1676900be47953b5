-- ===== src/Router/Tally/Insert.antt =====
-- `insert_levels` on the tally and on the invariant.
use mqtt_async_embedded.Prelude.{
  ℕ, ◌+◌, ◌≡◌, refl, ap, ◌∙◌, false, List, [], ◌∷◌, arith, if◌then◌else◌, Bool-cases, inl, inr,
}
use mqtt_async_embedded.Bytes.{same_bytes, same_bytes_sound, same_bytes_comm}
use mqtt_async_embedded.Slots.{count}
use mqtt_async_embedded.Slots.Counting.{one_if, count-append, count-one}
use mqtt_async_embedded.Topics.{hash, plus}
use mqtt_async_embedded.Router.{
  TrieNode, node, Children, nil, entry, Branch, absent, present, default, child, put_child,
  or_default, insert_levels,
}
use mqtt_async_embedded.Router.Tally.{
  Wanted, behind, tally, tally_branch, IsPlain, IsTrie, AreChildren, IsBranch, tally-put_child,
}

-- The filter that a trie stores for the levels: what follows "#" is ignored.
unfoldable pub up_to_hash : List (List ℕ) → List (List ℕ)
up_to_hash [] = []
up_to_hash (l ∷ ls) = let rest = up_to_hash ls in if same_bytes l hash then hash ∷ [] else l ∷ rest

tally-default : (q : Wanted) → tally q default ≡ 0
unfolding tally count
tally-default q = refl

pub tally-or_default : (q : Wanted) (p : Branch) → tally q (or_default p) ≡ tally_branch q p
unfolding tally
tally-or_default q absent = tally-default q
tally-or_default q (present n) = refl

-- One registration more, whatever is counted.
pub tally-insert_levels :
    (ls : List (List ℕ)) (c : ℕ) (q : Wanted) (n : TrieNode)
    → tally q (insert_levels ls c n) ≡ tally q n + one_if (q (up_to_hash ls) c)
unfolding tally insert_levels up_to_hash
tally-insert_levels [] c q (node cs p hs es) =
    omega (arith, count-append (q []) es (c ∷ []), count-one (q []) c)
tally-insert_levels (l ∷ ls) c q (node cs p hs es) = elim (Bool-cases (same_bytes l hash)) [
  | inl multi ↦
      rw multi
        (omega (arith, count-append (q (hash ∷ [])) hs (c ∷ []), count-one (q (hash ∷ [])) c))
  | inr other ↦ elim (Bool-cases (same_bytes l plus)) [
    | inl single ↦
        rw (other, single)
          (omega (
            arith,
            tally-insert_levels ls c (behind plus q) (or_default p),
            tally-or_default (behind plus q) p,
            ap (λ (l : List ℕ). one_if (q (l ∷ up_to_hash ls) c)) (same_bytes_sound l plus single),
          ))
    | inr exact ↦
        rw (other, exact)
          (omega (
            arith,
            tally-put_child q l (insert_levels ls c (or_default (child l cs))) cs,
            tally-insert_levels ls c (behind l q) (or_default (child l cs)),
            tally-or_default (behind l q) (child l cs),
          ))
  ]
]

-- What is found below an invariant map meets the invariant, whatever the key.
pub child-IsBranch : (k : List ℕ) (cs : Children) → AreChildren cs → IsBranch (child k cs)
unfolding IsTrie child
child-IsBranch k nil ok = tt
child-IsBranch k (entry j m cs) (own, once, below, others) = elim (Bool-cases (same_bytes k j)) [
  | inl here ↦ rw here below
  | inr later ↦ rw later (child-IsBranch k cs others)
]

module _ (k : List ℕ) (plain : IsPlain k) where
  pub child-put_child-other :
      (j : List ℕ) (n : TrieNode) (cs : Children)
      → same_bytes j k ≡ false
      → child j cs ≡ absent
      → child j (put_child k n cs) ≡ absent
  unfolding child put_child
  child-put_child-other j n nil apart free = rw apart refl
  child-put_child-other j n (entry i m cs) apart free =
      ground (arith, child-put_child-other j n cs apart)

  pub put_child-AreChildren :
      (n : TrieNode) (cs : Children) → IsTrie n → AreChildren cs → AreChildren (put_child k n cs)
  unfolding child put_child IsTrie
  put_child-AreChildren n nil fits ok = (plain, refl, fits, tt)
  put_child-AreChildren n (entry j m cs) fits (own, once, below, others) =
      elim (Bool-cases (same_bytes k j)) [
        | inl here ↦ rw here (own, once, fits, others)
        | inr later ↦ rw later (
          own,
          child-put_child-other j n cs (same_bytes_comm j k ∙ later) once,
          below,
          put_child-AreChildren n cs fits others,
        )
      ]

pub or_default-IsTrie : (p : Branch) → IsBranch p → IsTrie (or_default p)
unfolding IsTrie
or_default-IsTrie absent ok = (tt, tt)
or_default-IsTrie (present n) ok = ok

pub insert_levels-IsTrie :
    (ls : List (List ℕ)) (c : ℕ) (n : TrieNode) → IsTrie n → IsTrie (insert_levels ls c n)
unfolding insert_levels IsTrie
insert_levels-IsTrie [] c (node cs p hs es) ok = ok
insert_levels-IsTrie (l ∷ ls) c (node cs p hs es) (own, below) =
    elim (Bool-cases (same_bytes l hash)) [
      | inl multi ↦ rw multi (own, below)
      | inr other ↦ elim (Bool-cases (same_bytes l plus)) [
        | inl single ↦
            rw (other, single)
              (own, insert_levels-IsTrie ls c (or_default p) (or_default-IsTrie p below))
        | inr exact ↦
            let found = or_default-IsTrie (child l cs) (child-IsBranch l cs own) in
            rw (other, exact)
              (
                put_child-AreChildren l (other, exact)
                    (insert_levels ls c (or_default (child l cs))) cs
                    (insert_levels-IsTrie ls c (or_default (child l cs)) found) own,
                below,
              )
      ]
    ]
