-- ===== src/Repos/Examples.antt =====
-- Repositories put together and taken apart.
use linyaps_store.Base.{◌≡◌, refl, none, some, List, [], ◌∷◌, Str, codes}
use linyaps_store.Repos.{joined, csv_append, trim, emit, tokens, repo_names}
use linyaps_store.Repos.Names.{csv_of}

-- What the tests compute with.
program : Unit {0}
unfolding joined csv_append trim emit tokens repo_names csv_of
program = tt

abbrev names : List Str
names = codes "stable" ∷ codes "test" ∷ []

together : csv_of none names ≡ some (codes "stable,test")
unfolding program
together = refl

untidy : repo_names (some (codes "stable,, test,")) ≡ names
unfolding program
untidy = refl
