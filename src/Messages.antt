-- ===== src/Messages.antt =====
-- lib/linyaps_dbus_msg.c: the functions that write a message (append_sv_string, append_sv_bool,
-- append_repos, append_package, append_options). A message is the calls of sd-bus that were made for
-- it; sd-bus is a parameter, which answers each call in view of those before.
pub mod Sent
pub mod Fields
pub mod Balance
pub mod Requests
pub mod Searches
mod Examples
use linyaps_store.Base.{
  ℕ, Option, none, some, List, [], ◌∷◌, ◌++◌, Bool, true, false, ◌&&◌, Str, codes, ℤ, pos,
  is_negative, if◌then◌else◌, same, not,
}
use linyaps_store.Repos.{repo_names}

-- sd_bus_message_open_container, sd_bus_message_append_basic of a string and of a Boolean, and
-- sd_bus_message_close_container
pub data Call : Type 0 where
  opens : ℕ → Str → Call
  text : Str → Call
  flag : ℤ → Call
  closes : Call

abbrev pub Message : Type 0
Message = List Call

-- What sd-bus returns for a call after others.
abbrev pub Bus : Type 0
Bus = Message → Call → ℤ

-- A function that writes to a message: what it returns, and the message then.
abbrev pub Writer : Type 0
Writer = Message → ℤ × Message

pub call : Bus → Call → Writer
call b c m = (b m c, m ++ c ∷ [])

-- `if (r < 0) return r;`
abbrev pub unless_negative : ℤ × Message → Writer → ℤ × Message
unless_negative (r, m) next = if is_negative r then (r, m) else next m

infixr 5 ◌>>◌
abbrev pub ◌>>◌ : Writer → Writer → Writer
◌>>◌ first next m = unless_negative (first m) next

-- A call that is made only under a condition
abbrev pub when : Bool → Writer → Writer
when true f m = f m
when false f m = (pos 0, m)

-- `value ? value : ""`
abbrev pub or_empty : Option Str → Str
or_empty none = []
or_empty (some s) = s

-- `s && *s`
abbrev pub is_given : Option Str → Bool
is_given none = false
is_given (some []) = false
is_given (some (c ∷ cs)) = true

pub append_sv_string : Bus → Str → Option Str → Writer
unfolding call
append_sv_string b key value =
    call b (opens b'e' (codes "sv"))
    >> call b (text key)
    >> call b (opens b'v' (codes "s"))
    >> call b (text (or_empty value))
    >> call b closes
    >> call b closes

pub append_sv_bool : Bus → Str → ℤ → Writer
unfolding call
append_sv_bool b key value =
    call b (opens b'e' (codes "sv"))
    >> call b (text key)
    >> call b (opens b'v' (codes "b"))
    >> call b (flag value)
    >> call b closes
    >> call b closes

-- The loop over the tokens; `r` is the answer to the call before.
pub append_names : Bus → ℤ → List Str → Writer
unfolding call
append_names b r [] m = (r, m)
append_names b r (name ∷ names) m =
    unless_negative (call b (text name) m) (append_names b (b m (text name)) names)

-- With the memory for the copy of the string that the loop takes apart
pub append_repos : Bus → Option Str → Writer
unfolding append_names
append_repos b repos =
    call b (opens b'e' (codes "sv"))
    >> call b (text (codes "repos"))
    >> call b (opens b'v' (codes "as"))
    >> call b (opens b'a' (codes "s"))
    >> append_names b (pos 0) (repo_names repos)
    >> call b closes
    >> call b closes
    >> call b closes

pub append_package :
    Bus → (id version channel module_name : Option Str) → (include_module : Bool) → Writer
unfolding append_sv_string
append_package b id version channel module_name include_module =
    call b (opens b'e' (codes "sv"))
    >> call b (text (codes "package"))
    >> call b (opens b'v' (codes "a{sv}"))
    >> call b (opens b'a' (codes "{sv}"))
    >> append_sv_string b (codes "id") id
    >> when (is_given version) (append_sv_string b (codes "version") version)
    >> when (is_given channel) (append_sv_string b (codes "channel") channel)
    >> when (include_module && is_given module_name)
        (append_sv_string b (codes "packageInfoV2Module") module_name)
    >> call b closes
    >> call b closes
    >> call b closes

pub append_options : Bus → (include_force : Bool) → (force : ℤ) → (include_skip : Bool) → Writer
unfolding append_sv_bool
append_options b include_force force include_skip =
    call b (opens b'e' (codes "sv"))
    >> call b (text (codes "options"))
    >> call b (opens b'v' (codes "a{sv}"))
    >> call b (opens b'a' (codes "{sv}"))
    >> when include_force (append_sv_bool b (codes "force") force)
    >> when include_skip (append_sv_bool b (codes "skipInteraction") (pos 0))
    >> call b closes
    >> call b closes
    >> call b closes

-- `channel ? channel : "main"`
abbrev pub or_main : Option Str → Option Str
or_main none = some (codes "main")
or_main (some channel) = some channel

-- What call_task_method of lib/linyaps_context.c writes for the method `method`; a call that sd-bus
-- refuses ends it.
pub write_request : Bus → (method : Str) → (id version channel : Option Str) → Writer
unfolding call append_package append_options
write_request b method id version channel =
    let is_install = same method (codes "Install") in
    let is_update = same method (codes "Update") in
    call b (opens b'a' (codes "{sv}"))
    >> append_package b id version (if is_update then none else or_main channel)
        (some (codes "binary")) is_install
    >> append_options b (not is_update) (pos 0) is_install
    >> call b closes

-- The string of repositories that linyaps_search sends: the one given, or else the configured ones.
pub repo_arg : (repos configured : Option Str) → Option Str
repo_arg repos configured =
    if is_given repos
    then repos
    else if is_given configured
    then configured
    else some (codes "stable")

-- What linyaps_search of lib/linyaps_context.c writes.
pub write_search : Bus → (keyword repos configured : Option Str) → Writer
unfolding call append_sv_string append_repos
write_search b keyword repos configured =
    call b (opens b'a' (codes "{sv}"))
    >> append_sv_string b (codes "id") keyword
    >> append_repos b (repo_arg repos configured)
    >> call b closes

-- What linyaps_update writes: the package in two variants, which are closed with their containers.
pub write_update : Bus → (id channel : Option Str) → Writer
unfolding call append_sv_string append_sv_bool
write_update b id channel =
    call b (opens b'a' (codes "{sv}"))
    >> call b (opens b'e' (codes "sv"))
    >> call b (text (codes "packages"))
    >> call b (opens b'v' (codes "av"))
    >> call b (opens b'a' (codes "v"))
    >> call b (opens b'v' (codes "a{sv}"))
    >> call b (opens b'a' (codes "{sv}"))
    >> append_sv_string b (codes "id") id
    >> when (is_given channel) (append_sv_string b (codes "channel") channel)
    >> call b closes
    >> call b closes
    >> call b closes
    >> call b closes
    >> call b closes
    >> append_sv_bool b (codes "appOnly") (pos 0)
    >> append_sv_bool b (codes "depsOnly") (pos 0)
    >> call b closes

-- What linyaps_reply_interaction writes.
pub write_answer : Bus → (accepted : Bool) → Writer
unfolding call append_sv_string
write_answer b accepted =
    call b (opens b'a' (codes "{sv}"))
    >> append_sv_string b (codes "action") (some (if accepted then codes "yes" else codes "no"))
    >> call b closes
