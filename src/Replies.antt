-- ===== src/Replies.antt =====
-- lib/linyaps_dbus_msg.c: the functions that read a reply (read_variant_string, read_variant_int64,
-- read_variant_first_string_array, parse_common_result, parse_job_info, parse_package_map,
-- parse_search_reply). What sd-bus answers while a reply is read is an argument: a container is the
-- answer to entering it, its elements, the answer that ends them, and the answer to leaving it.
pub mod Read
pub mod Results
pub mod Packages
pub mod Configured
mod Examples
use linyaps_store.Base.{
  ℕ, Option, none, some, List, [], ◌∷◌, Bool, true, false, ◌&&◌, if◌then◌else◌, Run, ok, fault,
  ◌>>=◌, deref, Str, codes, same, ℤ, pos, negsuc, is_negative, is_zero, minus_enomem, length,
  Allocator,
}
use linyaps_store.Context.Signals.{dupstr}

-- A container of which each element is `A`. `last` is the answer to the call that finds no more
-- elements.
pub record Container {ℓ} (A : Type ℓ) : Type ℓ where
  pub enter : ℤ
  pub elements : List A
  pub last : ℤ
  pub leave : ℤ

-- An entry `{sv}` without its value: the answers to reading the key, to peeking at the signature of
-- the value, to skipping the value, and to leaving the entry.
pub record Entry : Type 0 where
  pub read_key : ℤ
  pub key : Option Str
  pub peek : ℤ
  pub sig : Option Str
  pub skip : ℤ
  pub leave : ℤ

-- A variant that holds one string or number: entering it, reading it, leaving it.
pub record Basic : Type 0 where
  pub enter : ℤ
  pub read : ℤ
  pub text : Option Str
  pub number : ℤ
  pub leave : ℤ

-- A variant that holds an array of strings: entering the two containers, reading the first string,
-- and leaving the second container.
pub record Strings : Type 0 where
  pub enter : ℤ
  pub enter_array : ℤ
  pub read : ℤ
  pub first : Option Str
  pub leave : ℤ

-- An entry of a flat dictionary, with what its value is read as.
pub record Item : Type 0 where
  pub entry : Entry
  pub open entry use *
  pub basic : Basic
  pub array : Strings

-- `sig && strcmp(sig, s) == 0`
abbrev pub is_sig : Str → Option Str → Bool
is_sig s none = false
is_sig s (some sig) = same sig s

-- What a function returns, and what it has stored by then.
abbrev pub Read {ℓ} : Type ℓ → Type ℓ
Read S = ℤ × S

-- `if ((r = ...) < 0) return r;`
abbrev pub if_taken {ℓ} : {S : Type ℓ} → ℤ → S → Read S → Read S
if_taken r s next = if is_negative r then (r, s) else next

-- Entering, reading and leaving a variant; `after` is what is stored if the value is read.
pub read_basic {ℓ} : {S : Type ℓ} → Basic → (before after : S) → Read S
read_basic v before after = if_taken v.enter before (if_taken v.read before (v.leave, after))

pub read_variant_string {ℓ} : {S : Type ℓ} → Allocator → ℕ → Item → (Option Str → S) → S → Read S
unfolding read_basic
read_variant_string a i it store s =
    if is_sig (codes "s") it.sig
    then read_basic it.basic s (store (dupstr a i it.basic.text))
    else (it.skip, s)

pub read_variant_int64 {ℓ} : {S : Type ℓ} → Item → (ℤ → S) → S → Read S
unfolding read_basic
read_variant_int64 it store s =
    if is_sig (codes "x") it.sig
    then read_basic it.basic s (store it.basic.number)
    else (it.skip, s)

-- `if (r > 0 && value)`
abbrev pub is_positive : ℤ → Bool
is_positive n = if is_negative n then false else if is_zero n then false else true

first_string {ℓ} : {S : Type ℓ} → Allocator → ℕ → Bool → Option Str → (Option Str → S) → S → S
first_string a i true (some value) store s = store (dupstr a i (some value))
first_string a i true none store s = s
first_string a i false value store s = s

pub read_variant_first_string_array {ℓ} :
    {S : Type ℓ} → Allocator → ℕ → Item → (Option Str → S) → S → Read S
unfolding first_string
read_variant_first_string_array a i it store s =
    let v = it.array in
    if is_sig (codes "as") it.sig
    then if_taken v.enter s
        (if_taken v.enter_array s (v.leave, first_string a i (is_positive v.read) v.first store s))
    else (it.skip, s)

-- A loop over the elements of a container, which a negative answer ends; the n-th element from the
-- end is read with the memory of its number.
pub read_elements {ℓ κ} :
    {A : Type ℓ} {S : Type κ} → (ℕ → A → S → Run (Read S)) → List A → S → Run (Read S)
read_elements step [] s = ok (pos 0, s)
read_elements step (x ∷ xs) s = do
  (r, t) ← step (length xs) x s
  let rest = read_elements step xs t
  if is_negative r then ok (r, t) else rest

pub leave_container {ℓ κ} : {A : Type ℓ} {S : Type κ} → Container A → Read S → Read S
leave_container c (r, s) = if_taken r s (if_taken c.last s (c.leave, s))

pub read_container {ℓ κ} :
    {A : Type ℓ} {S : Type κ} → (ℕ → A → S → Run (Read S)) → Container A → S → Run (Read S)
unfolding read_elements leave_container
read_container step c s =
    if is_negative c.enter
    then ok (c.enter, s)
    else (read_elements step c.elements s >>= λ read. ok (leave_container c read))

-- Leaving an entry after its value
pub leave_entry {ℓ} : {S : Type ℓ} → Entry → Read S → Read S
leave_entry e (r, s) = if_taken r s (e.leave, s)

-- `code`, `message` and `job_id`, which the callers pass as addresses that are not NULL
pub record Result : Type 0 where
  pub code : ℤ
  pub message : Option Str
  pub job_id : Option Str

abbrev pub no_result : Result
no_result = record { code = pos 0; message = none; job_id = none }

pub set_code : Result → ℤ → Result
set_code s n = record s { code = n }

pub set_message : Result → Option Str → Result
set_message s text = record s { message = text }

pub set_job_id : Result → Option Str → Result
set_job_id s text = record s { job_id = text }

pub common_value : Allocator → ℕ → Str → Item → Result → Read Result
unfolding set_code set_message
common_value a i key it s =
    if same key (codes "code") && is_sig (codes "x") it.sig
    then read_basic it.basic s (set_code s it.basic.number)
    else if same key (codes "message") && is_sig (codes "s") it.sig
    then read_basic it.basic s (set_message s (dupstr a i it.basic.text))
    else (it.skip, s)

pub job_value : Allocator → ℕ → Str → Item → Result → Read Result
unfolding common_value set_job_id
job_value a i key it s =
    if same key (codes "id") && is_sig (codes "s") it.sig
    then read_basic it.basic s (set_job_id s (dupstr a i it.basic.text))
    else common_value a i key it s

-- One entry, whose key and signature are read first
pub read_entry : (Str → Item → Result → Read Result) → Item → Result → Run (Read Result)
unfolding leave_entry
read_entry value it s =
    if is_negative it.read_key
    then ok (it.read_key, s)
    else if is_negative it.peek
    then ok (it.peek, s)
    else (deref it.key >>= λ key. ok (leave_entry it.entry (value key it s)))

pub common_entry : Allocator → ℕ → Item → Result → Run (Read Result)
unfolding read_entry
common_entry a i it s = read_entry (common_value a i) it s

pub job_entry : Allocator → ℕ → Item → Result → Run (Read Result)
unfolding read_entry
job_entry a i it s = read_entry (job_value a i) it s

pub parse_common_result : Allocator → Container Item → Run (Read Result)
unfolding common_entry
parse_common_result a reply = read_container (common_entry a) reply no_result

pub parse_job_info : Allocator → Container Item → Run (Read Result)
unfolding job_entry
parse_job_info a reply = read_container (job_entry a) reply no_result
