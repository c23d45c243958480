-- ===== src/App/Buffer.antt =====
-- What the user types stays inside `search_buf`, and the code of a ranking brings its answer home.
use linyaps_store.Base.{
  ℕ, ◌+◌, ◌^◌, ◌≤◌, ◌<◌, ◌≡◌, ap, Option, none, some, List, [], ◌∷◌, Bool, true, false, ltb,
  if◌then◌else◌, Str, pos, length, length-append, Bool-cases, inl, inr, arith,
}
use linyaps_store.App.{StoreState}
use linyaps_store.App.Fetch.{
  System, rank, start_remote_fetch, start_ranking_fetch, ranking_code, change_ranking_page,
}
use linyaps_store.App.Answered.{decode}
use linyaps_store.App.Events.{
  RemoteResult, handle_text_input, handle_key, press, submit, chop, Key, backspace, escape, return,
  other_key, on_ranking_ready,
}

-- The text fits `char search_buf[256]` with its terminating byte, and one byte to spare.
abbrev pub FitsBuffer : StoreState → Type 0
FitsBuffer s = length s.search_buf ≤ 254

length-chop : (s : Str) → length (chop s) ≤ length s
unfolding chop
length-chop [] = omega arith
length-chop (c ∷ []) = omega arith
length-chop (c ∷ d ∷ s) = omega (arith, length-chop (d ∷ s))

text_fits : (s : StoreState) (text : Str) → FitsBuffer s → FitsBuffer (handle_text_input s text)
unfolding handle_text_input
text_fits s text h = elim (Bool-cases (ltb (length s.search_buf + length text) 255)) [
  | inl fits ↦ rw fits (ground (arith, length-append s.search_buf text))
  | inr full ↦ rw full h
]

fetch_keeps_text :
    (y : System) (s : StoreState) (k c : Option Str) (page : ℕ)
    → (start_remote_fetch y s k c page).0.search_buf ≡ s.search_buf
unfolding start_remote_fetch
fetch_keeps_text y s k c page = ground arith

submit_fits : (y : System) (s : StoreState) (b : Str) → FitsBuffer s → FitsBuffer (submit y s b).0
unfolding submit
submit_fits y s [] h = h
submit_fits y s (c ∷ cs) h = omega (
  arith,
  h,
  ap length (fetch_keeps_text y (record s { current_page = 0 }) (some (c ∷ cs)) none 1),
)

press_fits : (y : System) (s : StoreState) (key : Key) → FitsBuffer s → FitsBuffer (press y s key).0
unfolding press
press_fits y s backspace h = elim (Bool-cases (ltb 0 (length s.search_buf))) [
  | inl text ↦ rw text (omega (arith, h, length-chop s.search_buf))
  | inr nothing ↦ rw nothing h
]
press_fits y s escape h = h
press_fits y s return h = submit_fits y s s.search_buf h
press_fits y s other_key h = h

key_fits :
    (y : System) (s : StoreState) (key : Key) → FitsBuffer s → FitsBuffer (handle_key y s key).0
unfolding handle_key
key_fits y s key h = by_focus s.search_focused
  where
    by_focus : (f : Bool) → FitsBuffer (if f then press y s key else (s, [])).0
    by_focus true = press_fits y s key h
    by_focus false = h

-- What the user does with the search field, in order.
pub data Input : Type 0 where
  typed : Str → Input
  key : Key → Input

unfoldable pub after_input : System → StoreState → List Input → StoreState
after_input y s [] = s
after_input y s (typed text ∷ inputs) =
    after_input y (if s.search_focused then handle_text_input s text else s) inputs
after_input y s (key k ∷ inputs) = after_input y (handle_key y s k).0 inputs

-- If the text of the search has at most 254 bytes, it has so after whatever is typed, in whatever
-- order, so that it never outgrows its buffer.
pub after_input-FitsBuffer :
    (y : System) (s : StoreState) (inputs : List Input)
    → FitsBuffer s
    → FitsBuffer (after_input y s inputs)
unfolding after_input
after_input-FitsBuffer y s [] h = h
after_input-FitsBuffer y s (typed text ∷ inputs) h =
    after_input-FitsBuffer y (if s.search_focused then handle_text_input s text else s) inputs
      (by_focus s.search_focused)
  where
    by_focus : (f : Bool) → FitsBuffer (if f then handle_text_input s text else s)
    by_focus true = text_fits s text h
    by_focus false = h
after_input-FitsBuffer y s (key k ∷ inputs) h =
    after_input-FitsBuffer y (handle_key y s k).0 inputs (key_fits y s k h)

-- With a thread, for a tab below 256 and a page below 65535, turning to the page of a ranking
-- starts one fetch, and its answer, if it comes next, is shown.
pub change_ranking_page-shown :
    (y : System) (s : StoreState) (page : ℕ) (r : RemoteResult)
    → y.thread ≡ true
    → s.ranking_tab < 2 ^ 8
    → page + 1 < 2 ^ 16
    → let s' = (change_ranking_page y s (pos page)).0 in
      let code = ranking_code s.ranking_tab (page + 1) in
      ((change_ranking_page y s (pos page)).1 ≡ rank code ∷ [])
      × ((on_ranking_ready s' (some r) code).ranking_list ≡ r.list)
      × ((on_ranking_ready s' (some r) code).ranking_count ≡ r.count)
      × ((on_ranking_ready s' (some r) code).loading_ranking ≡ false)
unfolding change_ranking_page start_ranking_fetch on_ranking_ready
change_ranking_page-shown y s page r started small few =
    let (tab_back, page_back) = decode s.ranking_tab (page + 1) small few in
    (ground arith, ground arith, ground arith, ground arith)
