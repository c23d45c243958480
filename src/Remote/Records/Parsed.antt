-- ===== src/Remote/Records/Parsed.antt =====
-- What parse_record reads, against a table of the fields of the catalogue: each is the first of
-- some names that is present.
use linyaps_store.Base.{
  ℕ, zero, suc, ◌≡◌, refl, ap, ◌∙◌, Option, none, some, List, [], ◌∷◌, if◌then◌else◌, length, arith,
  Allocator, IsPlenty, Str, codes, ℤ, pos, negsuc, is_zero,
}
use linyaps_store.Types.{PackageInfo, blank_info}
use linyaps_store.Json.{Json, string_of}
use linyaps_store.Remote.Records.{
  RemoteAppInfo, info_size, jint64, read_record, with_id, parse_record, name_of, or_else, dup,
}
use linyaps_store.Remote.Records.Lists.{put, parsed}

dup-plenty : (a : Allocator) → IsPlenty a → (i : ℕ) (s : Option Str) → dup a i s ≡ s
unfolding dup
dup-plenty a p i none = refl
dup-plenty a p i (some s) = rw (p.copy i s) refl

or_else-none : (o : Option Str) → or_else o none ≡ o
or_else-none none = refl
or_else-none (some s) = refl

-- The last fallback for the name changes nothing.
name_of_else : (a : Allocator) (zh r : Option Str) → name_of a (or_else zh r) zh ≡ or_else zh r
unfolding name_of
name_of_else a none none = refl
name_of_else a none (some n) = refl
name_of_else a (some zh) r = refl

last_number : (n : ℤ) → (if is_zero n then pos 0 else n) ≡ n
last_number (pos zero) = refl
last_number (pos (suc n)) = refl
last_number (negsuc n) = refl

module _ (j : Json) where
  open j use {Value, item}

  -- The first of the fields that is a string.
  pub first_string : List Str → Value → Option Str
  first_string [] obj = none
  first_string (field ∷ fields) obj =
      or_else (string_of j (item obj field)) (first_string fields obj)

  -- The first of the fields whose number is not 0.
  pub first_number : List Str → Value → ℤ
  first_number [] obj = pos 0
  first_number (field ∷ fields) obj =
      if is_zero (jint64 j obj field) then first_number fields obj else jint64 j obj field

  unfoldable pub described : Value → RemoteAppInfo
  unfolding first_string first_number
  described obj =
      let strings : List Str → Option Str = λ fields. first_string fields obj in
      let base : PackageInfo = record blank_info {
        id = strings (codes "appId" ∷ []);
        name = strings (codes "zhName" ∷ codes "appName" ∷ codes "name" ∷ []);
        version = strings (codes "version" ∷ codes "appVersion" ∷ []);
        arch = strings (codes "arch" ∷ []);
        channel = strings (codes "channel" ∷ []);
        repo = strings (codes "repoName" ∷ []);
        description = strings (codes "description" ∷ codes "appDesc" ∷ []);
        kind = strings (codes "kind" ∷ []);
        module_name = strings (codes "module" ∷ []);
        runtime = strings (codes "runtime" ∷ []);
        size = first_number (codes "size" ∷ codes "packageSize" ∷ []) obj;
        create_time = strings (codes "createTime" ∷ codes "updateTime" ∷ []);
        download_count = first_number (codes "installCount" ∷ codes "downloadTimes" ∷ []) obj;
      } in
      record {
        base = base;
        icon_url = strings (codes "icon" ∷ codes "appIcon" ∷ []);
        zh_name = strings (codes "zhName" ∷ []);
        category_id = strings (codes "categoryId" ∷ []);
        category_name = strings (codes "categoryName" ∷ []);
      }

  read_record-described :
      (a : Allocator) (obj : Value) → IsPlenty a → read_record j a obj ≡ described obj
  unfolding read_record described
  read_record-described a obj p =
      simp (dup-plenty a p, or_else-none, name_of_else, last_number) refl

  abbrev pub described_if : Option Str → Value → Option RemoteAppInfo
  described_if none obj = none
  described_if (some id) obj = some (described obj)

  parse_record-described :
      (a : Allocator) (obj : Value)
      → IsPlenty a
      → parse_record j a obj ≡ described_if (string_of j (item obj (codes "appId"))) obj
  unfolding parse_record with_id described first_string
  parse_record-described a obj p = rw (p.array 1 info_size (omega arith)) (
      ap (λ r. with_id r.base.id r) (read_record-described a obj p)
      ∙ by_id (string_of j (item obj (codes "appId"))))
    where
      by_id : (o : Option Str) → with_id (or_else o none) (described obj) ≡ described_if o obj
      by_id none = refl
      by_id (some id) = refl

  -- The records with an `appId`, each described by the table, in their order.
  unfoldable pub catalogue : List Value → List RemoteAppInfo
  catalogue [] = []
  catalogue (v ∷ vs) = put (described_if (string_of j (item v (codes "appId"))) v) (catalogue vs)

  pub parsed-catalogue :
      (memory : ℕ → Allocator) (vs : List Value)
      → ((n : ℕ) → IsPlenty (memory n))
      → parsed j memory vs ≡ catalogue vs
  unfolding parsed catalogue
  parsed-catalogue memory [] p = refl
  parsed-catalogue memory (v ∷ vs) p =
      rw
        (
          parse_record-described (memory (length vs)) v (p (length vs)),
          parsed-catalogue memory vs p,
        )
        refl
