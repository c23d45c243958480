-- ===== src/Local/Packages/Apps.antt =====
-- Which applications parse_states_json lists.
use mathlib.Core.List.{append-nil}
use mathlib.Core.Path.{subst}
use linyaps_store.Base.{
  ℕ, ◌+◌, ◌^◌, ◌≤◌, ◌<◌, ◌≡◌, refl, sym, ap, ◌∙◌, Option, none, some, List, [], ◌∷◌, ◌++◌, Bool,
  true, ◌>>=◌, Returns, ◌==◌, if◌then◌else◌, length, Bool-cases, ◌⊎◌, inl, inr, arith, Allocator,
  IsPlenty, Str, codes,
}
use linyaps_store.Types.{PackageInfo, blank_info}
use linyaps_store.Json.{Json, string_of, number_of, array_of, first_of}
use linyaps_store.Local.Packages.{
  PackageList, empty_list, package_size, dupstr, or_0, with_id, is_other_kind, repo_or_local,
  info_of, json_int64, read_package, package_info_from_json_object, append_if, read_layer,
  read_layers, layers_of, read_all, list_pointer, parse_states_json,
}
use linyaps_store.Local.Packages.Lists.{
  Refused, HasRoom, Appended, put, append_if_lem, put-append, no_packages, empty-HasRoom,
}

dup-plenty : (a : Allocator) → IsPlenty a → (i : ℕ) (s : Option Str) → dupstr a i s ≡ s
unfolding dupstr
dup-plenty a p i none = refl
dup-plenty a p i (some s) = rw (p.copy i s) refl

module _ (j : Json) where
  open j use {Value, item}

  -- The package that an object of the state file describes, in a repository.
  unfoldable pub described : Value → Str → PackageInfo
  described obj repo =
      let string : Str → Option Str = λ field. string_of j (item obj field) in
      let first_string : Str → Option Str = λ field. string_of j (first_of j (item obj field)) in
      record blank_info {
        id = string (codes "id");
        name = string (codes "name");
        version = string (codes "version");
        arch = first_string (codes "arch");
        channel = string (codes "channel");
        repo = some repo;
        description = string (codes "description");
        kind = string (codes "kind");
        module_name = string (codes "module");
        base = string (codes "base");
        runtime = string (codes "runtime");
        schema_version = string (codes "schema_version");
        command = first_string (codes "command");
        size = or_0 (number_of j (item obj (codes "size")));
      }

  abbrev pub described_if : Option Str → Value → Str → Option PackageInfo
  described_if none obj repo = none
  described_if (some id) obj repo = some (described obj repo)

  package_info-described :
      (a : Allocator) (obj : Value) (repo : Str)
      → IsPlenty a
      → package_info_from_json_object j a obj repo
        ≡ described_if (string_of j (item obj (codes "id"))) obj repo
  unfolding package_info_from_json_object read_package json_int64 described
  package_info-described a obj repo p =
      rw (p.array 1 package_size (omega arith))
        (simp (dup-plenty a p) (by_id (string_of j (item obj (codes "id")))))
    where
      by_id : (o : Option Str) → with_id o (described obj repo) ≡ described_if o obj repo
      by_id none = refl
      by_id (some id) = refl

  -- The application of a layer: its object has an id, and its kind is `app` or is no string.
  abbrev pub app_of : Value → Option PackageInfo
  app_of layer =
      let obj = info_of j layer in
      if is_other_kind (string_of j (item obj (codes "kind")))
      then none
      else described_if (string_of j (item obj (codes "id"))) obj
          (repo_or_local (string_of j (item layer (codes "repo"))))

  unfoldable pub apps : List Value → List PackageInfo
  apps [] = []
  apps (layer ∷ layers) = put (app_of layer) (apps layers)

  read_layer_lem :
      (gives : ℕ → Bool) (a : Allocator) (layer : Value) (l : PackageList)
      → IsPlenty a
      → HasRoom l
      → length l.items < 2 ^ 58
      → Returns (read_layer j gives a layer l) λ z.
        Appended gives (l.items ++ put (app_of layer) []) z × (length z.items ≤ length l.items + 1)
  unfolding read_layer append_if
  read_layer_lem gives a layer l p h n =
      let obj = info_of j layer in
      let repo = repo_or_local (string_of j (item layer (codes "repo"))) in
      elim (Bool-cases (is_other_kind (string_of j (item obj (codes "kind"))))) [
        | inl other ↦ rw other (append_if_lem gives none l h n)
        | inr app ↦
            let found = described_if (string_of j (item obj (codes "id"))) obj repo in
            rw app (
              subst
                (λ o. Returns (append_if gives o l) λ z.
                  Appended gives (l.items ++ put found []) z
                  × (length z.items ≤ length l.items + 1))
                (sym (package_info-described a obj repo p)) (append_if_lem gives found l h n))
      ]

  -- The front that is there, and what comes after it, unless memory is refused on the way.
  read_layers_lem :
      (gives : ℕ → Bool) (memory : ℕ → Allocator) (layers : List Value) (l : PackageList)
      → ((n : ℕ) → IsPlenty (memory n))
      → HasRoom l
      → length l.items + length layers < 2 ^ 58
      → Returns (read_layers j gives memory layers l) (Appended gives (l.items ++ apps layers))
  unfolding read_layers apps
  read_layers_lem gives memory [] l p h n = (l, refl, (h, inl (sym (append-nil l.items))))
  read_layers_lem gives memory (layer ∷ layers) l p h n =
      let (t, e, ((g, added), short)) =
        read_layer_lem gives (memory (length layers)) layer l (p (length layers)) h (omega arith) in
      let (z, f, (w, rest)) = read_layers_lem gives memory layers t p g (omega arith) in
      (z, rw (e, ◌>>=◌) f, (w, both t.items z.items added rest))
    where
      both :
          (t z : List PackageInfo)
          → (t ≡ l.items ++ put (app_of layer) []) ⊎ Refused gives
          → (z ≡ t ++ apps layers) ⊎ Refused gives
          → (z ≡ l.items ++ put (app_of layer) (apps layers)) ⊎ Refused gives
      both t z (inr refused) rest = inr refused
      both t z (inl a) (inr refused) = inr refused
      both t z (inl a) (inl b) =
          inl (b ∙ ap (λ q. q ++ apps layers) a ∙ put-append (app_of layer) l.items (apps layers))

  -- What parse_states_json reads: the array `layers` of the root, or the root if that is an array.
  abbrev pub layers_in : Value → Option (List Value)
  layers_in root = layers_of j root (array_of j (item root (codes "layers")))

  -- A list as it is returned: NULL may stand for the empty one.
  abbrev pub IsListing : Option (List Value) → Option (List PackageInfo) × ℕ → Type 0
  IsListing none r = r ≡ (none, 0)
  IsListing (some layers) (list, count) =
      ((list ≡ some (apps layers)) ⊎ ((list ≡ none) × (apps layers ≡ [])))
      × (count ≡ length (apps layers))

  abbrev pub IsShort : Option (List Value) → Type 0
  IsShort none = Unit
  IsShort (some layers) = length layers < 2 ^ 58

  read_all_lem :
      (gives : ℕ → Bool) (memory : ℕ → Allocator) (found : Option (List Value))
      → ((size : ℕ) → gives size ≡ true)
      → ((n : ℕ) → IsPlenty (memory n))
      → IsShort found
      → Returns (read_all j gives memory found) (IsListing found)
  unfolding read_all list_pointer
  read_all_lem gives memory none m p n = ((none, 0), refl, refl)
  read_all_lem gives memory (some layers) m p n =
      let (z, e, (g, added)) =
        read_layers_lem gives memory layers empty_list p empty-HasRoom (omega arith) in
      let all : z.items ≡ apps layers = elim added [
        | inl a ↦ a
        | inr (size, refused) ↦ absurd (ground (arith, m size))
      ] in
      ((list_pointer z, length z.items), rw (e, ◌>>=◌) refl, (pointed z all g, ap (length {0}) all))
    where
      pointed :
          (z : PackageList)
          → z.items ≡ apps layers
          → HasRoom z
          → (list_pointer z ≡ some (apps layers)) ⊎ ((list_pointer z ≡ none) × (apps layers ≡ []))
      pointed z all g = elim (Bool-cases (z.room == 0)) [
        | inl e ↦ inr (
          rw e refl,
          no_packages (apps layers) (ground (arith, g.enough, g.same_room, ap (length {0}) all)),
        )
        | inr e ↦ inl (rw e (ap some all))
      ]

  -- Where memory is always given, `parse_states_json` ends normally, writes within its array, and
  -- returns, for the array `layers` of the root or the root if that is an array, one package for each
  -- layer whose object has an id and a kind that is `app`, missing or no string, in order: the package
  -- that the table `described` gives for the object `info` of the layer, or for the layer if that is
  -- no object, in the repository of the layer, or `local` if it names none. The count is their
  -- number; without such an array the result is NULL and 0. The array has less than 2 ^ 58 layers.
  pub parse_states_json_lem :
      (gives : ℕ → Bool) (memory : ℕ → Allocator) (root : Value)
      → ((size : ℕ) → gives size ≡ true)
      → ((n : ℕ) → IsPlenty (memory n))
      → IsShort (layers_in root)
      → Returns (parse_states_json j gives memory root) (IsListing (layers_in root))
  unfolding parse_states_json layers_of
  parse_states_json_lem gives memory root m p n = read_all_lem gives memory (layers_in root) m p n
