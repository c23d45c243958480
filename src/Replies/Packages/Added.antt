-- ===== src/Replies/Packages/Added.antt =====
-- The packages that a part of the reply of a search adds.
use mathlib.Core.List.{append-nil}
use linyaps_store.Base.{
  ℕ, ◌+◌, ◌^◌, ◌≤◌, ◌≡◌, refl, sym, Option, none, some, List, [], ◌++◌, Bool, true, false,
  if◌then◌else◌, Run, ok, fault, ◌>>=◌, deref, Returns, Str, codes, ℤ, is_negative, length,
  Allocator, Bool-cases, inl, inr, arith, minus_enomem,
}
use mathlib.Core.Path.{subst}
use linyaps_store.Types.{PackageInfo, blank_info}
use linyaps_store.Local.Packages.Lists.{HasRoom, put, package_list_append_lem}
use linyaps_store.Context.Signals.{dupstr}
use linyaps_store.Replies.{Container, Item, Read, if_taken, leave_entry}
use linyaps_store.Replies.Read.{
  if_taken-same, if_taken-first, fold, sum_of, All, Reads, read_container_lem,
}
use linyaps_store.Replies.Results.{is_item}
use linyaps_store.Replies.Packages.{
  package_value, package_entry, package_of, read_map, parse_package_map, PackageVariant, RepoEntry,
  ReplyEntry, Found, keep_package, read_package, read_repo, read_packages,
}

-- The key that is read is no NULL pointer.
abbrev pub Keyed : Item → Type 0
Keyed it = (key : Str) × (it.key ≡ some key)

abbrev pub AllKeyed : PackageVariant → Type 0
AllKeyed v = All Keyed v.map.elements

-- What a function that may fault has read.
abbrev pub value_of : Run (ℤ × Option PackageInfo) → Option PackageInfo
value_of (ok (r, info)) = info
value_of (fault e) = none

module _ (memory : ℕ → ℕ → ℕ → Allocator) where
  -- A package, a repository and an entry add the packages that parse_package_map reads.
  abbrev pub package_after :
      ℕ → ℕ → Option Str → ℕ → PackageVariant → List PackageInfo → List PackageInfo
  package_after i j repo n v infos =
      infos ++ put (value_of (parse_package_map (memory i j n) repo v.map)) []

  abbrev pub repo_after : ℕ → ℕ → RepoEntry → List PackageInfo → List PackageInfo
  repo_after i j e infos = fold (package_after i j e.repo) e.packages.elements infos

  abbrev pub entry_after : ℕ → ReplyEntry → List PackageInfo → List PackageInfo
  entry_after i e infos =
      if is_item (codes "packages") (codes "a{sv}") e.item.key e.item.sig
      then fold (repo_after i) e.repos.elements infos
      else infos

abbrev pub packages_of : RepoEntry → ℕ
packages_of e = sum_of (λ v. 1) e.packages.elements

abbrev pub packages_in : ReplyEntry → ℕ
packages_in e = sum_of packages_of e.repos.elements

abbrev pub IsKeyedRepo : RepoEntry → Type 0
IsKeyedRepo e = All AllKeyed e.packages.elements

abbrev pub IsKeyedReply : ReplyEntry → Type 0
IsKeyedReply e = Keyed e.item × All IsKeyedRepo e.repos.elements

-- There is room for `n` more packages.
unfoldable pub HasRoomFor : ℕ → Found → Type 0
HasRoomFor n s = HasRoom s.items × (length s.items.items + n ≤ 2 ^ 58)

abbrev pub infos_of : Found → List PackageInfo
infos_of s = s.items.items

package_entry_lem :
    (a : Allocator) (n k : ℕ) (it : Item) (s : PackageInfo)
    → Keyed it
    → Returns (package_entry a n it s) (
        Reads
          (package_entry a)
          Keyed
          (λ it. 0)
          (λ n s. Unit {0})
          (λ (s : PackageInfo). tt {0})
          (λ n it b. b)
          k
          tt)
unfolding package_entry
package_entry_lem a n k it s (key, g) =
    (leave_entry it.entry (package_value a n key it s), rw (g, deref, ◌>>=◌) refl, λ q. (tt, refl))

parse_package_map_lem :
    (a : Allocator) (repo : Option Str) (map : Container Item)
    → All Keyed map.elements
    → Returns (parse_package_map a repo map) (λ r. Unit {0})
unfolding parse_package_map read_map
parse_package_map_lem a repo map g = elim (Bool-cases (is_negative map.enter)) [
  | inl e ↦ ((map.enter, none), rw e refl, tt)
  | inr e ↦ elim (Bool-cases (a.calloc 1 128)) [
    | inr f ↦ ((minus_enomem, none), rw (e, f) refl, tt)
    | inl f ↦
        let (read, t, r) =
          read_container_lem (package_entry a) Keyed (λ it. 0) (λ n s. Unit {0})
            (λ (s : PackageInfo). tt {0}) (λ n it b. b) 0 map
            (record blank_info { repo = dupstr a (length map.elements) repo })
            (λ n k it s h i. package_entry_lem a n k it s h) g tt in
        (package_of read, rw (e, f, t, ◌>>=◌) refl, tt)
  ]
]

keep_package_lem :
    (gives : ℕ → Bool) (info : Option PackageInfo) (k : ℕ) (s : Found)
    → ((size : ℕ) → gives size ≡ true)
    → HasRoomFor (1 + k) s
    → Returns
        (keep_package gives info s)
        (λ t. HasRoomFor k t × (infos_of t ≡ infos_of s ++ put info []))
unfolding keep_package HasRoomFor
keep_package_lem gives none k s p (h, b) =
    (s, refl, ((h, omega (arith, b)), sym (append-nil (infos_of s))))
keep_package_lem gives (some info) k s p (h, b) =
    let (z, e, ((room, r), bound)) =
      package_list_append_lem gives info s.items h (omega (arith, b)) in
    (
      record s { items = z },
      rw (e, ◌>>=◌) refl,
      elim r [
        | inl same_list ↦ ((room, omega (arith, b, bound)), same_list)
        | inr (size, refused) ↦ cc (refused, p size)
      ],
    )

pub room_left : (w k : ℕ) (s : Found) → HasRoomFor (w + k) s → HasRoomFor k s
unfolding HasRoomFor
room_left w k s (h, b) = (h, omega (arith, b))

module _ (gives : ℕ → Bool) (memory : ℕ → ℕ → ℕ → Allocator) (texts : Allocator)
    (given : (size : ℕ) → gives size ≡ true) where
  package_lem :
      (i j n k : ℕ) (repo : Option Str) (v : PackageVariant) (s : Found)
      → AllKeyed v
      → HasRoomFor (1 + k) s
      → Returns (read_package gives (memory i j) repo n v s) (
          Reads
            (read_package gives (memory i j) repo)
            AllKeyed
            (λ v. 1)
            HasRoomFor
            infos_of
            (package_after memory i j repo)
            k
            (package_after memory i j repo n v (infos_of s)))
  unfolding read_package
  package_lem i j n k repo v s g h =
      let (read, e, r) = parse_package_map_lem (memory i j n) repo v.map g in with_package read e
    where
      with_package :
          (read : ℤ × Option PackageInfo)
          → parse_package_map (memory i j n) repo v.map ≡ ok read
          → Returns (read_package gives (memory i j) repo n v s) (λ t.
            is_negative t.0 ≡ false
            → HasRoomFor k t.1 × (infos_of t.1 ≡ package_after memory i j repo n v (infos_of s)))
      with_package (r, info) e =
          let (t, f, (room, same_list)) = keep_package_lem gives info k s given h in
          (
            if_taken r s (v.leave, t),
            rw (e, ◌>>=◌, f) refl,
            λ q. let taken = if_taken-first r s (v.leave, t) q in rw (taken, e) (room, same_list),
          )

  repo_lem :
      (i n k : ℕ) (e : RepoEntry) (s : Found)
      → IsKeyedRepo e
      → HasRoomFor (packages_of e + k) s
      → Returns (read_repo gives memory texts i n e s) (
          Reads
            (read_repo gives memory texts i)
            IsKeyedRepo
            packages_of
            HasRoomFor
            infos_of
            (repo_after memory i)
            k
            (repo_after memory i n e (infos_of s)))
  unfolding read_repo
  repo_lem i n k e s g h = elim (Bool-cases (is_negative e.enter)) [
    | inl f ↦ ((e.enter, s), rw f refl, λ q. cc (rw f at q))
    | inr f ↦
        let (read, t, r) =
          read_container_lem (read_package gives (memory i n) e.repo) AllKeyed (λ v. 1) HasRoomFor
            infos_of (package_after memory i n e.repo) k e.packages s
            (λ m l v s g h. package_lem i n m l e.repo v s g h) g h in
        let left : Read Found = if_taken e.leave_variant read.1 (e.leave, read.1) in
        (
          if_taken read.0 read.1 left,
          rw (f, t, ◌>>=◌) refl,
          λ q.
              subst (λ t. HasRoomFor k t × (infos_of t ≡ repo_after memory i n e (infos_of s)))
                (sym
                  (if_taken-same read.0 read.1 left (if_taken-same e.leave_variant read.1 _ refl)))
                (r (if_taken-first read.0 read.1 left q)),
        )
  ]

  pub packages_lem :
      (i k : ℕ) (e : ReplyEntry) (s : Found)
      → All IsKeyedRepo e.repos.elements
      → HasRoomFor (packages_in e + k) s
      → Returns (read_packages gives memory texts i e s) (λ t.
        is_negative t.0 ≡ false
        → HasRoomFor k t.1
          × (infos_of t.1 ≡ fold (repo_after memory i) e.repos.elements (infos_of s)))
  unfolding read_packages
  packages_lem i k e s g h = elim (Bool-cases (is_negative e.enter)) [
    | inl f ↦ ((e.enter, s), rw f refl, λ q. cc (rw f at q))
    | inr f ↦
        let (read, t, r) =
          read_container_lem (read_repo gives memory texts i) IsKeyedRepo packages_of HasRoomFor
            infos_of (repo_after memory i) k e.repos s (repo_lem i) g h in
        (
          if_taken read.0 read.1 (e.leave_variant, read.1),
          rw (f, t, ◌>>=◌) refl,
          λ q.
              subst
                (λ t.
                  HasRoomFor k t
                  × (infos_of t ≡ fold (repo_after memory i) e.repos.elements (infos_of s)))
                (sym (if_taken-same read.0 read.1 (e.leave_variant, read.1) refl))
                (r (if_taken-first read.0 read.1 (e.leave_variant, read.1) q)),
        )
  ]
