-- ===== src/Repos.antt =====
-- lib/linyaps_dbus_msg.c: the list of repositories as one string, put together from the configuration
-- by `csv_append` and taken apart again by `append_repos` for a search.
pub mod Names
pub mod Pieces
mod Examples
use linyaps_store.Base.{
  ℕ, Option, none, some, List, [], ◌∷◌, ◌++◌, Bool, true, false, ◌||◌, ◌==◌, if◌then◌else◌, Str, ℤ,
  pos, minus_enomem,
}

-- The string with one more repository behind it.
unfoldable pub joined : Option Str → Str → Str
joined none repo = repo
joined (some []) repo = repo
joined (some (c ∷ csv)) repo = (c ∷ csv) ++ b',' ∷ repo

-- `csv_append`: what it returns, and the string afterwards; the first argument is whether `realloc`
-- has memory.
unfoldable pub csv_append : Bool → Option Str → Option Str → ℤ × Option Str
unfolding joined
csv_append memory csv none = (pos 0, csv)
csv_append memory csv (some []) = (pos 0, csv)
csv_append memory csv (some (c ∷ repo)) =
    if memory then (pos 0, some (joined csv (c ∷ repo))) else (minus_enomem, csv)

-- The token without the blanks and tabs in front.
unfoldable pub trim : Str → Str
trim [] = []
trim (c ∷ s) = if (c == b' ') || (c == 9) then trim s else c ∷ s

-- A token, if something of it is left.
unfoldable pub emit : Str → List Str
unfolding trim
emit token = elim (trim token) [ [] ↦ [] | c ∷ s ↦ (c ∷ s) ∷ [] ]

-- The loop of `append_repos`, byte by byte: the first argument is the token that `strtok_r` is in.
-- An empty token, which `strtok_r` skips, leaves nothing.
unfoldable pub tokens : Str → Str → List Str
unfolding emit
tokens token [] = emit token
tokens token (c ∷ s) = if c == b',' then emit token ++ tokens [] s else tokens (token ++ c ∷ []) s

-- The names that `append_repos` appends to the message.
unfoldable pub repo_names : Option Str → List Str
unfolding tokens
repo_names none = []
repo_names (some s) = tokens [] s
