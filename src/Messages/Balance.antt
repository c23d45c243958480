-- ===== src/Messages/Balance.antt =====
-- The calls of a request close what they open.
use linyaps_store.Base.{
  ℕ, zero, suc, ◌≡◌, refl, ◌∙◌, Option, none, some, List, [], ◌∷◌, ◌++◌, not, Str, codes, same, pos,
  arith,
}
use linyaps_store.Messages.{Call, opens, text, flag, closes}
use linyaps_store.Messages.Sent.{
  Plain, string, bool, dictionary, entry, plain_calls, value_calls, entries,
}
use linyaps_store.Messages.Fields.{package_fields, option_fields, request_with}

-- The containers that are open after some calls, given those open before; none if one is closed
-- that is not open.
unfoldable pub depth : List Call → ℕ → Option ℕ
depth [] n = some n
depth (opens kind contents ∷ cs) n = depth cs (suc n)
depth (text s ∷ cs) n = depth cs n
depth (flag v ∷ cs) n = depth cs n
depth (closes ∷ cs) zero = none
depth (closes ∷ cs) (suc n) = depth cs n

abbrev pub IsBalanced : List Call → Type 0
IsBalanced cs = (n : ℕ) → depth cs n ≡ some n

pub depth-append :
    (cs ds : List Call) (n k : ℕ) → depth cs n ≡ some k → depth (cs ++ ds) n ≡ depth ds k
unfolding depth
depth-append [] ds n k e = ground (arith, e)
depth-append (opens kind contents ∷ cs) ds n k e = depth-append cs ds (suc n) k e
depth-append (text s ∷ cs) ds n k e = depth-append cs ds n k e
depth-append (flag v ∷ cs) ds n k e = depth-append cs ds n k e
depth-append (closes ∷ cs) ds zero k e = cc
depth-append (closes ∷ cs) ds (suc n) k e = depth-append cs ds n k e

append-IsBalanced : (cs ds : List Call) → IsBalanced cs → IsBalanced ds → IsBalanced (cs ++ ds)
append-IsBalanced cs ds p q n = depth-append cs ds n n (p n) ∙ q n

pub entry-IsBalanced :
    (key : Str) (value : List Call) → IsBalanced value → IsBalanced (entry key value)
unfolding depth
entry-IsBalanced key value p n = depth-append value (closes ∷ []) (suc n) (suc n) (p (suc n))

entries-IsBalanced : (fields : List (Str × Plain)) → IsBalanced (entries fields)
unfolding entries depth plain_calls
entries-IsBalanced [] = λ n. refl
entries-IsBalanced ((key, string s) ∷ rest) =
    append-IsBalanced (entry key (plain_calls (string s))) (entries rest) (λ n. refl)
      (entries-IsBalanced rest)
entries-IsBalanced ((key, bool v) ∷ rest) =
    append-IsBalanced (entry key (plain_calls (bool v))) (entries rest) (λ n. refl)
      (entries-IsBalanced rest)

dictionary-IsBalanced : (fields : List (Str × Plain)) → IsBalanced (value_calls (dictionary fields))
unfolding value_calls depth
dictionary-IsBalanced fields n =
    depth-append (entries fields) (closes ∷ closes ∷ []) (suc (suc n)) (suc (suc n))
      (entries-IsBalanced fields (suc (suc n)))

pub request_with-IsBalanced :
    (method : Str) (id version channel : Option Str)
    → IsBalanced (request_with method id version channel)
unfolding request_with depth
request_with-IsBalanced method id version channel n =
    let package_value : List Call = value_calls (
      dictionary (
        package_fields id version channel (some (codes "binary"))
          (same method (codes "Install")))) in
    let options : List Call = value_calls (
      dictionary (
        option_fields (not (same method (codes "Update"))) (pos 0)
          (same method (codes "Install")))) in
    depth-append (entry (codes "package") package_value)
      (entry (codes "options") options ++ closes ∷ []) (suc n) (suc n)
      (entry-IsBalanced (codes "package") package_value (dictionary-IsBalanced _) (suc n))
    ∙ depth-append (entry (codes "options") options) (closes ∷ []) (suc n) (suc n)
        (entry-IsBalanced (codes "options") options (dictionary-IsBalanced _) (suc n))
