-- ===== src/Remote/Pages.antt =====
-- lib/linyaps_remote.c: the requests to the catalogue and their answers (add_system_arch,
-- new_page_request, remote_fetch_page, linyaps_remote_fetch_apps, linyaps_remote_fetch_welcome_apps,
-- linyaps_remote_fetch_ranking, linyaps_remote_check_updates). A request is its fields in the order
-- of the code, and cJSON adds each; an answer is what http_post_json returns.
pub mod Answers
use linyaps_store.Base.{
  ℕ, zero, suc, Option, none, some, List, [], ◌∷◌, ◌++◌, Bool, true, false, ◌&&◌, if◌then◌else◌,
  ltb, ◌==◌, Run, ok, ◌>>=◌, read, Str, codes, ℤ, pos, negsuc, Allocator,
}
use linyaps_store.Types.{PackageInfo}
use linyaps_store.Json.{Json, item_of, number_of, array_of}
use linyaps_store.Remote.Records.{RemoteAppInfo, parse_records_array}

pub data Field : Type 0 where
  text : Str → Str → Field
  number : Str → ℤ → Field

abbrev pub Object : Type 0
Object = List Field

-- What the code takes from cJSON, from libcurl and from the system in one call: whether
-- cJSON_CreateObject or cJSON_CreateArray has memory the n-th time, cJSON_PrintUnformatted, the
-- answer of http_post_json to a body sent to an address, and `uts.machine` if uname succeeds.
pub record Backend : Type 0 where
  pub creates : ℕ → Bool
  pub print_object : Object → Option Str
  pub print_array : List Object → Option Str
  pub post : Str → Str → Option Str
  pub machine : Option Str
  -- the memory for the records of the answer
  pub gives : ℕ → Bool
  pub memory : ℕ → Allocator

-- The bytes that `snprintf` writes to an array of n + 1 bytes
abbrev pub take : ℕ → Str → Str
take zero s = []
take (suc n) [] = []
take (suc n) (b ∷ bs) = b ∷ take n bs

-- `arch_buf`
pub arch_buf : Option Str → Str
arch_buf none = codes "x86_64"
arch_buf (some []) = codes "x86_64"
arch_buf (some (b ∷ bs)) = take 31 (b ∷ bs)

abbrev pub remote_repo_name : Str
remote_repo_name = codes "stable"

abbrev pub remote_page_size : ℤ
remote_page_size = pos 30

-- `page_size > 0 ? page_size : LINYAPS_REMOTE_PAGE_SIZE`
page_size_or : ℤ → ℤ
page_size_or (pos (suc n)) = pos (suc n)
page_size_or (pos zero) = remote_page_size
page_size_or (negsuc n) = remote_page_size

add_system_arch : Backend → Object → Object
unfolding arch_buf
add_system_arch b req = req ++ text (codes "arch") (arch_buf b.machine) ∷ []

pub new_page_request : Backend → ℤ → ℤ → Option Object
unfolding page_size_or add_system_arch
new_page_request b page page_size =
    if b.creates 0
    then some (
        add_system_arch b (
          text (codes "repoName") remote_repo_name
          ∷ number (codes "pageNo") page
          ∷ number (codes "pageSize") (page_size_or page_size)
          ∷ []))
    else none

-- The list that is returned, `*out_count` and `*out_total`.
pub record Page : Type 0 where
  pub list : Option (List RemoteAppInfo)
  pub count : ℕ
  pub total : ℤ

abbrev pub no_page : Page
no_page = record { list = none; count = 0; total = pos 0 }

-- `cJSON_IsNumber(code_item) && (int)code_item->valuedouble == 200`
abbrev pub is_200 : Option ℤ → Bool
is_200 (some (pos n)) = n == 200
is_200 (some (negsuc n)) = false
is_200 none = false

-- `cJSON_IsNumber(total_j) ? (long)total_j->valuedouble : 0`
pub total_or_0 : Option ℤ → ℤ
total_or_0 none = pos 0
total_or_0 (some n) = n

module _ (j : Json) (b : Backend) where
  open j use {Value, parse}

  pub read_records : Option (List Value) → ℤ → Run Page
  read_records none total = ok no_page
  read_records (some vs) total = do
    (list, count) ← parse_records_array j b.gives b.memory vs
    ok (record { list = list; count = count; total = total })

  pub read_data : Option Value → Run Page
  unfolding read_records total_or_0
  read_data data_item =
      read_records (array_of j (item_of j data_item (codes "records")))
        (total_or_0 (number_of j (item_of j data_item (codes "total"))))

  pub read_root : Option Value → Run Page
  unfolding read_data
  read_root none = ok no_page
  read_root (some root) =
      if is_200 (number_of j (j.item root (codes "code")))
      then read_data (j.item root (codes "data"))
      else ok no_page

  pub read_response : Option Str → Run Page
  unfolding read_root
  read_response none = ok no_page
  read_response (some resp) = read_root (parse resp)

  pub send_body : Option Str → Str → Run Page
  unfolding read_response
  send_body none url = ok no_page
  send_body (some body) url = read_response (b.post url body)

  pub remote_fetch_page : Option Object → Str → Run Page
  unfolding send_body
  remote_fetch_page none url = ok no_page
  remote_fetch_page (some req) url = send_body (b.print_object req) url

abbrev pub remote_base_url : Str
remote_base_url = codes "https://storeapi.linyaps.org.cn"

-- `snprintf(url, sizeof(url), "%s/...", LINYAPS_REMOTE_BASE_URL)`
abbrev pub url_of : Str → Str
url_of path = take 255 (remote_base_url ++ path)

or_empty : Option Str → Str
or_empty none = []
or_empty (some s) = s

-- `if (category_id && *category_id)`
category_field : Option Str → Object
category_field none = []
category_field (some []) = []
category_field (some (b ∷ bs)) = text (codes "categoryId") (b ∷ bs) ∷ []

search_fields : Option Str → Option Str → Option Object → Option Object
unfolding or_empty category_field
search_fields keyword category none = none
search_fields keyword category (some req) =
    some (req ++ text (codes "name") (or_empty keyword) ∷ category_field category)

pub data Ranking : Type 0 where
  newest downloads : Ranking

ranking_path : Ranking → Str
ranking_path newest = codes "/visit/getNewAppList"
ranking_path downloads = codes "/visit/getInstallAppList"

module _ (j : Json) (b : Backend) where
  pub linyaps_remote_fetch_apps : Option Str → Option Str → ℤ → ℤ → Run Page
  unfolding search_fields
  linyaps_remote_fetch_apps keyword category page page_size =
      remote_fetch_page j b (search_fields keyword category (new_page_request b page page_size))
        (url_of (codes "/visit/getSearchAppList"))

  pub linyaps_remote_fetch_welcome_apps : ℤ → ℤ → Run Page
  linyaps_remote_fetch_welcome_apps page page_size =
      remote_fetch_page j b (new_page_request b page page_size)
        (url_of (codes "/visit/getWelcomeAppList"))

  pub linyaps_remote_fetch_ranking : Ranking → ℤ → ℤ → Run Page
  unfolding ranking_path
  linyaps_remote_fetch_ranking ranking page page_size =
      remote_fetch_page j b (new_page_request b page page_size) (url_of (ranking_path ranking))
