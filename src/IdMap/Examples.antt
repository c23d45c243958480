-- ===== src/IdMap/Examples.antt =====
-- The map at work on concrete packages, and its theorems at these inputs.
use linyaps_store.Base.{
  ℕ, ◌≤◌, ◌≡◌, refl, none, some, Option, List, [], ◌∷◌, ok, ◌>>=◌, Returns, Str, codes, arith,
  length, same,
}
use linyaps_store.Base.Memory.{plenty, plenty-IsPlenty}
use linyaps_store.Slots.{fnv1a, next, find_key, find_empty, move, first, old_slots, wipe}
use linyaps_store.Types.{PackageInfo, blank_info}
use linyaps_store.IdMap.{
  IdMap, init, free, clear, rehash, needs_growth, new_capacity, place, insert, search_value, get,
  insert_packages, build_from_packages, copy_value,
}
use linyaps_store.IdMap.Valid.{IsValid, init-IsValidMap, free-IsValidMap}
use linyaps_store.IdMap.Insert.{Inserted, insert-InsertedMap}
use linyaps_store.IdMap.Client.{last_version, build-last_version}

-- What the tests compute with.
program : Unit {0}
unfolding fnv1a next find_key find_empty move first old_slots wipe same init free clear rehash
    needs_growth new_capacity place insert search_value get insert_packages build_from_packages
    last_version copy_value
program = tt

abbrev package_of : Str → Str → Option PackageInfo
package_of id version = some (record blank_info { id = some id; version = some version })

abbrev packages : List (Option PackageInfo)
packages =
    package_of (codes "code") (codes "1.0")
    ∷ none
    ∷ package_of (codes "vim") (codes "9.1")
    ∷ package_of (codes "code") (codes "1.2")
    ∷ []

built_get :
    build_from_packages (λ _. plenty) init packages >>= (λ m. get m (some (codes "code")))
    ≡ ok (some (codes "1.2"))
unfolding program
built_get = refl

insert-InsertedMap_example :
    Returns
      (insert plenty init (some (codes "code")) (some (codes "1.0")))
      (Inserted plenty init (codes "code") (some (codes "1.0")))
unfolding new_capacity init
insert-InsertedMap_example =
    insert-InsertedMap plenty init b'c' (codes "ode") (some (codes "1.0")) init-IsValidMap.0
      (λ _. refl) refl

abbrev one : IdMap
one = insert-InsertedMap_example.0.1

one-IsValid : IsValid one
one-IsValid = insert-InsertedMap_example.2.valid

free-IsValidMap_example : free one ≡ ok init
free-IsValidMap_example = free-IsValidMap one one-IsValid

build-last_version_example : Returns (build_from_packages (λ _. plenty) init packages) λ r.
    IsValid r
    × (r.count ≤ length packages)
    × ((c : ℕ) (q : Str) → get r (some (c ∷ q)) ≡ ok (last_version (c ∷ q) packages))
build-last_version_example =
    build-last_version (λ _. plenty) init packages (λ _. plenty-IsPlenty) init-IsValidMap.0
      (omega arith)
