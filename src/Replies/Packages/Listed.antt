-- ===== src/Replies/Packages/Listed.antt =====
-- The packages of the reply of a search.
use linyaps_store.Base.{◌≡◌, Option, none, some, List, true, ℤ, pos, is_negative}
use linyaps_store.Types.{PackageInfo}
use linyaps_store.Local.Packages.Lists.{HasRoom}
use linyaps_store.Replies.{Read}
use linyaps_store.Replies.Packages.{Found}

-- What parse_search_reply gives for a reply: an error and nothing else; or 0 and what it has found,
-- whose list is the given one, in memory that has room for it.
abbrev pub IsFound : List PackageInfo → ℤ × Option Found → Type 0
IsFound infos (r, none) = is_negative r ≡ true
IsFound infos (r, some found) = (r ≡ pos 0) × HasRoom found.items × (found.items.items ≡ infos)
