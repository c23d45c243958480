-- ===== src/Replies/Examples.antt =====
-- Runs on concrete inputs.
use linyaps_store.Base.{
  ◌≡◌, refl, Option, none, some, List, [], ◌∷◌, Returns, true, codes, same, ok, ℤ, pos, inr, Str,
}
use linyaps_store.Base.Memory.{plenty, plenty-IsPlenty}
use linyaps_store.Replies.{
  Container, Item, parse_common_result, read_container, common_value, read_basic,
}
use linyaps_store.Replies.Configured.{Setting, configured_repos_csv}
use linyaps_store.Replies.Configured.Entries.{IsSetting}
use linyaps_store.Replies.Configured.Chosen.{IsConfigured, configured_repos_csv-repo_names}
use linyaps_store.Replies.Packages.{PackageVariant, RepoEntry, ReplyEntry}
use linyaps_store.Context.{Context}
use linyaps_store.Context.Prune.{Completion, Completes, prune, prune_lem}
use linyaps_store.Replies.Read.{All}
use linyaps_store.Replies.Results.{HasKey}

item_of : Str → Str → Option Str → ℤ → Item
item_of key sig s n = record {
  entry = record {
    read_key = pos 1;
    key = some key;
    peek = pos 1;
    sig = some sig;
    skip = pos 1;
    leave = pos 1;
  };
  basic = record { enter = pos 1; read = pos 1; text = s; number = n; leave = pos 1 };
  array = record { enter = pos 1; enter_array = pos 1; read = pos 0; first = none; leave = pos 1 };
}

-- A reply with the code 7, an entry that is skipped, and the message "done".
abbrev reply : Container Item
reply = record {
  enter = pos 1;
  elements =
      item_of (codes "code") (codes "x") none (pos 7)
      ∷ item_of (codes "type") (codes "s") (some (codes "task")) (pos 0)
      ∷ item_of (codes "message") (codes "s") (some (codes "done")) (pos 0)
      ∷ [];
  last = pos 0;
  leave = pos 1;
}

reply-HasKey : All HasKey reply.elements
unfolding item_of
reply-HasKey =
    (inr (codes "code", refl), (inr (codes "type", refl), (inr (codes "message", refl), tt)))

abbrev context : Context
context = record {
  bus = some 0;
  interaction_cb = none;
  interaction_userdata = none;
  pending = record { heap = []; head = none; tail = none };
  searches = [];
  tasks = [];
}

prune_example :
    Returns
      (prune plenty (λ n. codes "error") (pos 1) reply true (some context))
      (λ o. (c : Completion) × (o ≡ some c) × Completes plenty (λ n. codes "error") (pos 1) reply c)
prune_example =
    prune_lem plenty (λ n. codes "error") (pos 1) reply true (some context) plenty-IsPlenty
      reply-HasKey

parsed_reply :
    parse_common_result plenty reply
    ≡ ok (pos 1, record { code = pos 7; message = some (codes "done"); job_id = none })
unfolding parse_common_result item_of plenty read_container common_value same read_basic
parsed_reply = refl

of_items : List Item → Container Item
of_items items = record { enter = pos 1; elements = items; last = pos 0; leave = pos 1 }

-- A configuration with a default and with two repositories, of which one has an alias.
abbrev settings : Container Setting
settings = record {
  enter = pos 1;
  elements =
      record {
        item = item_of (codes "defaultRepo") (codes "s") (some (codes "main")) (pos 0);
        enter = pos 1;
        repos = record { enter = pos 1; elements = []; last = pos 0; leave = pos 1 };
        leave_variant = pos 1;
      }
      ∷ record {
        item = item_of (codes "repos") (codes "av") none (pos 0);
        enter = pos 1;
        repos = record {
          enter = pos 1;
          elements =
              record {
                enter = pos 1;
                map = of_items (
                    item_of (codes "name") (codes "s") (some (codes "stable")) (pos 0)
                    ∷ item_of (codes "alias") (codes "s") (some (codes "main")) (pos 0)
                    ∷ []);
                leave = pos 1;
              }
              ∷ record {
                enter = pos 1;
                map =
                    of_items
                      (item_of (codes "name") (codes "s") (some (codes "test")) (pos 0) ∷ []);
                leave = pos 1;
              }
              ∷ [];
          last = pos 0;
          leave = pos 1;
        };
        leave_variant = pos 1;
      }
      ∷ [];
  last = pos 0;
  leave = pos 1;
}

settings-IsSetting : All IsSetting settings.elements
unfolding item_of of_items same
settings-IsSetting = (
  ((codes "defaultRepo", refl), tt),
  (
    (
      (codes "repos", refl),
      (
        (
          ((codes "name", refl), ((codes "alias", refl), tt)),
          (refl, (refl, (refl, (refl, (refl, tt))))),
        ),
        ((((codes "name", refl), tt), (refl, (refl, (refl, (refl, (refl, tt)))))), tt),
      ),
    ),
    tt,
  ),
)

configured_repos_csv_example :
    Returns
      (configured_repos_csv (λ i n. true) (λ i n. plenty) (pos 1) settings)
      (IsConfigured (pos 1) settings)
configured_repos_csv_example =
    configured_repos_csv-repo_names (λ i n. true) (λ i n. plenty) (pos 1) settings
      (λ i n. (refl, plenty-IsPlenty)) settings-IsSetting

package_named : Str → PackageVariant
unfolding of_items item_of
package_named id = record {
  map = of_items (
      item_of (codes "id") (codes "s") (some id) (pos 0)
      ∷ item_of (codes "size") (codes "x") none (pos 4096)
      ∷ []);
  leave = pos 1;
}

no_repos : Container RepoEntry
no_repos = record { enter = pos 1; elements = []; last = pos 0; leave = pos 1 }

-- The code 0, and a repository with two packages.
abbrev search_reply : Container ReplyEntry
search_reply = record {
  enter = pos 1;
  elements =
      record {
        item = item_of (codes "code") (codes "x") none (pos 0);
        enter = pos 1;
        repos = no_repos;
        leave_variant = pos 1;
      }
      ∷ record {
        item = item_of (codes "packages") (codes "a{sv}") none (pos 0);
        enter = pos 1;
        repos = record {
          enter = pos 1;
          elements =
              record {
                repo = some (codes "stable");
                enter = pos 1;
                packages = record {
                  enter = pos 1;
                  elements = package_named (codes "b") ∷ package_named (codes "a") ∷ [];
                  last = pos 0;
                  leave = pos 1;
                };
                leave_variant = pos 1;
                leave = pos 1;
              }
              ∷ [];
          last = pos 0;
          leave = pos 1;
        };
        leave_variant = pos 1;
      }
      ∷ [];
  last = pos 0;
  leave = pos 1;
}
