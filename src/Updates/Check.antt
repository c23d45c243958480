-- ===== src/Updates/Check.antt =====
-- What the check for updates offers: the catalogue's packages against the installed versions.
use linyaps_store.Base.{
  ℕ, ◌+◌, ◌≤◌, ◌^◌, ◌≡◌, refl, ap, ◌∙◌, Option, none, some, Option-cases, inl, inr, List, [], ◌∷◌,
  true, false, ok, ◌>>=◌, Str, codes, length, Allocator, IsPlenty, arith,
}
use linyaps_store.Types.{PackageInfo}
use linyaps_store.IdMap.{IdMap, init, get}
use linyaps_store.IdMap.Valid.{
  IsValid, init-IsValidMap, free-IsValidMap, get-entry, entry-nil, value_of,
}
use linyaps_store.IdMap.Client.{last_version, build-last_version}
use linyaps_store.Updates.{StoreUpdateItem, update_item, collect, check_updates, or_default}

-- The version that the last installed package of this id has.
unfoldable pub installed_version : List (Option PackageInfo) → Str → Option Str
installed_version installed [] = none
installed_version installed (c ∷ id) = last_version (c ∷ id) installed

-- The update to this version, with no word of memory.
unfoldable pub offer : List (Option PackageInfo) → Str → Str → PackageInfo → StoreUpdateItem
offer installed id version p = record {
  id = some id;
  name = some (or_default p.name id);
  current_version = some (or_default (installed_version installed id) (codes "0.0.0"));
  new_version = some version;
  channel = some (or_default p.channel (codes "main"));
  updating = false;
  progress_int = 0;
  task_path = none;
}

-- One update for each package of the catalogue's answer that has an id and a version, in order.
unfoldable pub offers : List (Option PackageInfo) → List (Option PackageInfo) → List StoreUpdateItem
offers installed [] = []
offers installed (none ∷ remote) = offers installed remote
offers installed (some p ∷ remote) = elim p.id [
  | none ↦ offers installed remote
  | some id ↦ elim p.version [
    | none ↦ offers installed remote
    | some version ↦ offer installed id version p ∷ offers installed remote
  ]
]

update_item-offer :
    (a : Allocator) (installed : List (Option PackageInfo)) (id version : Str) (p : PackageInfo)
    → IsPlenty a
    → update_item a id version (installed_version installed id) p ≡ offer installed id version p
unfolding update_item offer
update_item-offer a installed id version p h = rw (
  h.copy 0 id,
  h.copy 1 (or_default p.name id),
  h.copy 2 (or_default (installed_version installed id) (codes "0.0.0")),
  h.copy 3 version,
  h.copy 4 (or_default p.channel (codes "main")),
)

collect_lem :
    (a : ℕ → Allocator) (i : ℕ) (m : IdMap) (installed remote : List (Option PackageInfo))
    → ((j : ℕ) → IsPlenty (a j))
    → ((id : Str) → get m (some id) ≡ ok (installed_version installed id))
    → collect a i m remote ≡ ok (offers installed remote)
unfolding collect offers
collect_lem a i m installed [] plenty h = refl
collect_lem a i m installed (none ∷ remote) plenty h =
    collect_lem a (i + 1) m installed remote plenty h
collect_lem a i m installed (some p ∷ remote) plenty h =
    let rest = collect_lem a (i + 1) m installed remote plenty h in
    elim (Option-cases p.id) [
      | inl e ↦ ground (arith, rest)
      | inr (id, e) ↦ elim (Option-cases p.version) [
        | inl e' ↦ ground (arith, rest)
        | inr (version, e') ↦
            ground (arith, rest, h id, update_item-offer (a i) installed id version p (plenty i))
      ]
    ]

get_nil : (m : IdMap) → IsValid m → get m (some []) ≡ ok none
get_nil m h = get-entry m [] h ∙ ap (λ e. ok (value_of e)) (entry-nil m h)

-- With memory and at most 2 ^ 58 packages installed, the check for updates ends and faults nowhere,
-- and offers one update for each package of the catalogue's answer that has an id and a version, in
-- order: its version against the one that the last installed package of this id with a version has,
-- or "0.0.0" if there is none.
pub check_updates-offers :
    (for_map for_items : ℕ → Allocator) (installed remote : List (Option PackageInfo))
    → ((j : ℕ) → IsPlenty (for_map j))
    → ((j : ℕ) → IsPlenty (for_items j))
    → length installed ≤ 2 ^ 58
    → check_updates for_map for_items true installed remote ≡ ok (offers installed remote)
unfolding check_updates installed_version
check_updates-offers for_map for_items installed remote plenty plenty' small =
    let (m, run, (valid, _, reads)) =
      build-last_version for_map init installed plenty init-IsValidMap.0 small in
    rw (
      run,
      ◌>>=◌,
      collect_lem for_items 0 m installed remote plenty' (known m valid reads),
      ◌>>=◌,
      free-IsValidMap m valid,
    )
  where
    known :
        (m : IdMap)
        → IsValid m
        → ((c : ℕ) (q : Str) → get m (some (c ∷ q)) ≡ ok (last_version (c ∷ q) installed))
        → (id : Str) → get m (some id) ≡ ok (installed_version installed id)
    known m valid reads [] = get_nil m valid
    known m valid reads (c ∷ id) = reads c id
