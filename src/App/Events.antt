-- ===== src/App/Events.antt =====
-- ui/main.c: the answers of the threads, the keyboard and the window.
use linyaps_store.Base.{
  ℕ, zero, suc, ◌+◌, ◌/◌, ◌%◌, ◌^◌, Option, none, some, List, [], ◌∷◌, ◌++◌, Bool, true, false,
  ◌&&◌, ◌==◌, ltb, if◌then◌else◌, Str, ℤ, length, same,
}
use linyaps_store.Grid.{current_items_per_page}
use linyaps_store.App.{StoreState, Packages, current_remote_category, ranking, updates, page_of}
use linyaps_store.App.Fetch.{System, Fetch, start_remote_fetch, view}

-- `RemoteResult`, with the keyword or the category that the event brings along.
pub record RemoteResult : Type 0 where
  pub list : Packages
  pub count : ℕ
  pub total : ℤ
  pub page : ℕ
  pub is_search : Bool
  pub data_str : Option Str

-- `keyword && *keyword`
abbrev pub is_keyword : Option Str → Bool
is_keyword none = false
is_keyword (some []) = false
is_keyword (some (c ∷ s)) = true

-- The event that `fetch_remote_thread` posts for a fetch, by what the catalogue answers: the array,
-- if there is one, the count and the total.
unfoldable pub fetch_remote_thread :
    Packages → ℕ → ℤ → (keyword category_id : Option Str) (page : ℕ) → RemoteResult
fetch_remote_thread list count total keyword category_id page = record {
  list = list;
  count = count;
  total = total;
  page = page;
  is_search = is_keyword keyword;
  data_str = if is_keyword keyword then keyword else category_id;
}

abbrev pub same_category : Option Str → Option Str → Bool
same_category none none = true
same_category none (some c) = false
same_category (some d) none = false
same_category (some d) (some c) = same d c

-- Whether a result is the one that the store waits for.
unfoldable pub matches : StoreState → RemoteResult → Bool
matches s r =
    (if r.is_search
      then elim r.data_str [ none ↦ false | some d ↦ same d s.search_buf ]
      else same_category r.data_str (current_remote_category s))
    && (s.current_page + 1 == r.page)

-- The bytes that `strncpy(dst, src, n)` copies.
unfoldable pub copied : ℕ → Str → Str
copied zero s = []
copied (suc n) [] = []
copied (suc n) (c ∷ s) = c ∷ copied n s

abbrev pub or_empty : Option Str → Str
or_empty none = []
or_empty (some s) = s

-- The store with the result in it; a page has fewer than 2 ^ 31 packages, so `(int)` keeps the count.
unfoldable pub show : StoreState → RemoteResult → StoreState
unfolding copied
show s r = record s {
  search_results = r.list;
  search_count = r.count;
  remote_total = r.total;
  last_page_data_count = r.count;
  is_searching = if r.is_search then true else s.is_searching;
  last_search_keyword =
      if r.is_search then copied 255 (or_empty r.data_str) else s.last_search_keyword;
  loading_remote = false;
  dirty = true;
}

-- Fetching the page on show once more, for a window that has grown.
unfoldable pub refetch : System → StoreState → StoreState × List Fetch
refetch y s =
    if s.is_searching
    then start_remote_fetch y s (some s.search_buf) none 1
    else elim (page_of s.active_nav) [
      | ranking ↦ (s, [])
      | updates ↦ (s, [])
      | _ ↦ elim (current_remote_category s) [
        | none ↦ (s, [])
        | some c ↦ start_remote_fetch y s none (some c) (s.current_page + 1)
      ]
    ]

-- `handle_user_event` at EVT_REMOTE_READY; none for an event without a result.
unfoldable pub on_remote_ready : System → StoreState → Option RemoteResult → StoreState × List Fetch
unfolding show refetch
on_remote_ready y s none = (s, [])
on_remote_ready y s (some r) =
    if matches s r
    then (let s' = show s r in
        if s'.need_refetch_on_load_complete
        then refetch y (record s' { need_refetch_on_load_complete = false })
        else (s', []))
    else (s, [])

-- `handle_user_event` at EVT_RANKING_READY; the number is the code of the ranking.
unfoldable pub on_ranking_ready : StoreState → Option RemoteResult → ℕ → StoreState
on_ranking_ready s none val = s
on_ranking_ready s (some r) val =
    if (s.ranking_tab == val % 2 ^ 8) && (s.current_page + 1 == (val / 2 ^ 8) % 2 ^ 16)
    then (record s {
      ranking_list = r.list;
      ranking_count = r.count;
      ranking_total = r.total;
      loading_ranking = false;
      dirty = true;
    })
    else s

-- `handle_text_input`; `search_buf` has 256 bytes.
unfoldable pub handle_text_input : StoreState → Str → StoreState
handle_text_input s text =
    if ltb (length s.search_buf + length text) 255
    then (record s { search_buf = s.search_buf ++ text; dirty = true })
    else s

-- The string without its last byte.
unfoldable pub chop : Str → Str
chop [] = []
chop (c ∷ []) = []
chop (c ∷ d ∷ s) = c ∷ chop (d ∷ s)

pub data Key : Type 0 where
  backspace escape return other_key : Key

-- What `handle_key` does with the text of the search at the return key.
unfoldable pub submit : System → StoreState → Str → StoreState × List Fetch
submit y s [] = (s, [])
submit y s (c ∷ cs) = start_remote_fetch y (record s { current_page = 0 }) (some (c ∷ cs)) none 1

-- A key in the search field.
unfoldable pub press : System → StoreState → Key → StoreState × List Fetch
unfolding chop submit
press y s backspace =
    if ltb 0 (length s.search_buf)
    then (record s { search_buf = chop s.search_buf; dirty = true }, [])
    else (s, [])
press y s escape = (record s { search_focused = false; dirty = true }, [])
press y s return =
    let r = submit y s s.search_buf in (record r.0 { search_focused = false; dirty = true }, r.1)
press y s other_key = (s, [])

-- `handle_key`
unfoldable pub handle_key : System → StoreState → Key → StoreState × List Fetch
unfolding press
handle_key y s key = if s.search_focused then press y s key else (s, [])

-- `handle_sdl_event` at a new size of the window.
unfoldable pub on_resize : System → StoreState → ℕ → ℕ → StoreState × List Fetch
unfolding refetch
on_resize y s window_w window_h =
    if (window_w == s.window_w) && (window_h == s.window_h)
    then (s, [])
    else (let s' = record s { window_w = window_w; window_h = window_h; dirty = true } in
        let new_page_size = current_items_per_page y.gap y.margin (some (view s')) true in
        if ltb s'.last_page_size new_page_size && ltb s'.last_page_data_count new_page_size
        then (if s'.loading_remote
            then (record s' { need_refetch_on_load_complete = true }, [])
            else refetch y s')
        else (s', []))
