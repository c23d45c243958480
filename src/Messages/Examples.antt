-- ===== src/Messages/Examples.antt =====
-- Runs on concrete inputs.
use linyaps_store.Base.{◌≡◌, refl, none, some, [], codes, pos, negsuc, same}
use linyaps_store.Messages.{opens, text, flag, closes, Bus, write_request}
use linyaps_store.Repos.{repo_names}
use linyaps_store.Messages.{write_search, repo_arg, append_repos, append_sv_string}
use linyaps_store.Messages.Searches.{search_calls, searched_in, write_search-Outcome}
use linyaps_store.Base.{length, if◌then◌else◌}
use linyaps_store.Messages.Fields.{request_calls}
use linyaps_store.Messages.Balance.{IsBalanced}
use linyaps_store.Messages.Requests.{Outcome, write_request-Outcome}

-- A bus that takes all but a Boolean.
no_flags : Bus
no_flags m (opens t s) = pos 1
no_flags m (text s) = pos 0
no_flags m (flag n) = negsuc 21
no_flags m closes = pos 0

write_request-Outcome_example :
    IsBalanced
      (request_calls (codes "Install") (some (codes "org.demo")) none (some (codes "beta")))
    × Outcome no_flags []
        (request_calls (codes "Install") (some (codes "org.demo")) none (some (codes "beta")))
        (write_request no_flags
          (codes "Install")
          (some (codes "org.demo"))
          none
          (some (codes "beta"))
          [])
write_request-Outcome_example =
    write_request-Outcome no_flags (codes "Install") (some (codes "org.demo")) none
      (some (codes "beta")) []

-- The flag is refused, and the error of sd-bus returned.
refused_flag :
    (write_request no_flags (codes "Install") (some (codes "org.demo")) none none []).0 ≡ negsuc 21
unfolding write_request no_flags same
refused_flag = refl

-- A search for two repositories, of which the second one is refused.
no_second : Bus
no_second m (opens t s) = pos 1
no_second m (text s) = if same s (codes "test") then negsuc 21 else pos 0
no_second m (flag n) = pos 0
no_second m closes = pos 0

write_search-Outcome_example :
    let calls =
      search_calls (some (codes "demo")) (searched_in none (some (codes "stable,test"))) in
    IsBalanced calls
    × Outcome no_second [] calls
        (write_search no_second (some (codes "demo")) none (some (codes "stable,test")) [])
write_search-Outcome_example =
    write_search-Outcome no_second (some (codes "demo")) none (some (codes "stable,test")) []

-- Nothing is written after the name that is refused.
refused_name :
    let (r, sent) =
      write_search no_second (some (codes "demo")) none (some (codes "stable,test")) [] in
    (r ≡ negsuc 21) × (length sent ≡ 13)
unfolding write_search no_second repo_arg append_repos append_sv_string repo_names same
refused_name = (refl, refl)
