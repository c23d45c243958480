-- ===== src/IdSet/Examples.antt =====
-- The set at work on concrete ids, and its theorems at these inputs.
use linyaps_store.Base.{
  ℕ, ◌≤◌, ◌≡◌, refl, none, some, Option, List, [], ◌∷◌, Bool, true, false, ok, ◌>>=◌, Run, Returns,
  Str, codes, arith, length, Allocator, same,
}
use linyaps_store.Slots.{fnv1a, next, find_key, find_empty, move, first, old_slots, wipe}
use linyaps_store.Types.{PackageInfo, blank_info}
use linyaps_store.IdSet.{
  IdSet, init, free, clear, rehash, needs_growth, new_capacity, place, insert, search_key, contains,
  insert_packages, build_from_packages,
}
use linyaps_store.IdSet.Valid.{IsValid, has, init-IsValid, free-IsValid}
use linyaps_store.IdSet.Insert.{Inserted, insert-Inserted}
use linyaps_store.IdSet.Client.{listed, build-listed}
use linyaps_store.Base.Memory.{plenty, plenty-IsPlenty}

-- What the tests compute with.
program : Unit {0}
unfolding fnv1a next find_key find_empty move first old_slots wipe same init free clear rehash
    needs_growth new_capacity place insert search_key contains insert_packages build_from_packages
    listed has
program = tt

abbrev calc : Str
calc = codes "org.gnome.Calc"

abbrev code_editor : Str
code_editor = codes "code"

abbrev named : Str → Option PackageInfo
named id = some (record blank_info { id = some id })

abbrev packages : List (Option PackageInfo)
packages = named calc ∷ none ∷ some blank_info ∷ named code_editor ∷ named calc ∷ []

abbrev built : Run IdSet
built = build_from_packages (λ _. plenty) init packages

sizes : IdSet → Run (ℕ × ℕ)
sizes s = ok (s.count, s.capacity)

both : Str → Str → IdSet → Run (Bool × Bool)
both k l s = do a ← contains s (some k); b ← contains s (some l); ok (a, b)

-- The duplicate is counted once, and the packages without an id not at all.
built_counts : built >>= sizes ≡ ok (2, 16)
unfolding program sizes
built_counts = refl

built_contains : built >>= both calc (codes "vim") ≡ ok (true, false)
unfolding program both
built_contains = refl

insert_null : insert plenty init none ≡ ok (false, init)
unfolding program
insert_null = refl

insert-Inserted_example :
    Returns (insert plenty init (some code_editor)) (Inserted init code_editor)
unfolding new_capacity init
insert-Inserted_example =
    insert-Inserted plenty init b'c' (codes "ode") init-IsValid.0 (λ _. refl) refl

abbrev one : IdSet
one = insert-Inserted_example.0.1

one-IsValid : IsValid one
one-IsValid = insert-Inserted_example.2.valid

free-IsValid_example : free one ≡ ok init
free-IsValid_example = free-IsValid one one-IsValid

abbrev no_copies : Allocator
no_copies = record plenty { strdup = λ _ _. false }

init-needs_growth : needs_growth init ≡ true
unfolding program
init-needs_growth = refl

build-listed_example : Returns (build_from_packages (λ _. plenty) init packages) λ r.
    IsValid r
    × (r.count ≤ length packages)
    × (contains r (some []) ≡ ok false)
    × ((c : ℕ) (q : Str) → contains r (some (c ∷ q)) ≡ ok (listed (c ∷ q) packages))
build-listed_example =
    build-listed (λ _. plenty) init packages (λ _. plenty-IsPlenty) init-IsValid.0 (omega arith)
