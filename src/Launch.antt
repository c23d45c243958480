-- ===== src/Launch.antt =====
-- The ids that may stand on a command line: the same loop in lib/linyaps_local.c (linyaps_info) and
-- in ui/store_ui.c (launch_app). The command line that is run is the result.
pub mod Safe
use linyaps_store.Base.{
  ℕ, Option, none, some, List, [], ◌∷◌, Bool, true, false, ◌&&◌, ◌||◌, if◌then◌else◌, leb, ◌==◌,
  Str, codes,
}

-- The test of one byte. A `char` above 127 is negative, and no byte of the ranges.
pub is_safe : ℕ → Bool
is_safe c =
    (leb b'a' c && leb c b'z')
    || ((leb b'A' c && leb c b'Z')
        || ((leb b'0' c && leb c b'9') || (c == b'.' || (c == b'-' || (c == b'_' || c == b'/')))))

-- The loop: whether it passes every byte.
unfoldable pub all_safe : Str → Bool
unfolding is_safe
all_safe [] = true
all_safe (c ∷ cs) = let rest = all_safe cs in if is_safe c then rest else false

-- `launch_app`: the arguments that it spawns a process with, if it does
unfoldable pub launch_app : Option Str → Option (List Str)
unfolding all_safe
launch_app none = none
launch_app (some []) = none
launch_app (some (c ∷ cs)) =
    if all_safe (c ∷ cs) then some (codes "ll-cli" ∷ codes "run" ∷ (c ∷ cs) ∷ []) else none
