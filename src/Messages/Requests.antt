-- ===== src/Messages/Requests.antt =====
-- The request to install, update or uninstall a package, as it is sent.
use mathlib.Core.List.{append_assoc, append-nil, map}
use mathlib.Core.Path.{subst, fun_ext}
use linyaps_store.Base.{
  ◌≡◌, refl, sym, ap, ◌∙◌, Option, none, some, List, [], ◌∷◌, ◌++◌, Bool, true, false, not, Str,
  codes, same, ℤ, pos, is_negative, if◌then◌else◌, Bool-cases, ◌⊎◌, inl, inr,
}
use linyaps_store.Messages.Balance.{IsBalanced, request_with-IsBalanced}
use linyaps_store.Repos.{repo_names}
use linyaps_store.Messages.{
  Call, opens, text, closes, Message, Bus, unless_negative, append_options, or_main, write_request,
  append_names, append_repos,
}
use linyaps_store.Messages.Sent.{
  play, Plays, seq, single, cons, closing, when-Plays, NonEmpty-append, append_sv_bool-Plays, Plain,
  bool, dictionary, entry, plain_calls, value_calls, strings, entries, entries-append,
  entries-optional, optional,
}
use linyaps_store.Messages.Fields.{
  sent_channel, request_with, append_package-Plays, option_fields, request_calls,
}

two_optional :
    (t u : Bool) (j k : Str) (x y : Plain)
    → (if t then entry j (plain_calls x) else [])
        ++ ((if u then entry k (plain_calls y) else []) ++ closes ∷ closes ∷ closes ∷ [])
      ≡ (entries (optional t j x ++ optional u k y) ++ closes ∷ closes ∷ []) ++ closes ∷ []
two_optional t u j k x y = simp (entries-append, entries-optional, append_assoc) refl

append_options-Plays :
    (b : Bus) (include_force : Bool) (force : ℤ) (include_skip : Bool)
    → Plays b (append_options b include_force force include_skip) (
        entry
          (codes "options")
          (value_calls (dictionary (option_fields include_force force include_skip))))
unfolding append_options value_calls
append_options-Plays b t force u m =
    let f : List Call = if t then entry (codes "force") (plain_calls (bool force)) else [] in
    let s : List Call =
      if u then entry (codes "skipInteraction") (plain_calls (bool (pos 0))) else [] in
    let last : List Call = closes ∷ closes ∷ closes ∷ [] in
    cons b _ _ _
      (cons b _ _ _
        (cons b _ _ _
          (cons b _ _ _
            (seq b _ _ f (s ++ last)
              (when-Plays b t _ _ (append_sv_bool-Plays b (codes "force") force))
              (seq b _ _ s last
                (when-Plays b u _ _ (append_sv_bool-Plays b (codes "skipInteraction") (pos 0)))
                (closing b) tt)
              (NonEmpty-append s last tt))
            (NonEmpty-append f _ (NonEmpty-append s last tt)))
          tt)
        tt)
      tt m
    ∙ ap
        (λ cs.
          play b (pos 0)
            (opens b'e' (codes "sv")
              ∷ text (codes "options")
              ∷ opens b'v' (codes "a{sv}")
              ∷ opens b'a' (codes "{sv}")
              ∷ cs)
            m)
        (two_optional t u (codes "force") (codes "skipInteraction") (bool force) (bool (pos 0)))

written :
    (b : Bus) (method : Str) (id version channel : Option Str)
    → Plays b (write_request b method id version channel) (
        request_with method id version
          (if same method (codes "Update") then none else or_main channel))
unfolding write_request request_with
written b method id version channel =
    let is_install = same method (codes "Install") in
    let is_update = same method (codes "Update") in
    cons b _ _ _
      (seq b _ _ _ _
        (append_package-Plays b id version (if is_update then none else or_main channel)
          (some (codes "binary")) is_install)
        (seq b _ _ _ (closes ∷ []) (append_options-Plays b (not is_update) (pos 0) is_install)
          (single b closes) tt)
        tt)
      tt

or_main_lem : (channel : Option Str) → or_main channel ≡ some (sent_channel channel)
or_main_lem none = refl
or_main_lem (some channel) = refl

write_request-Plays :
    (b : Bus) (method : Str) (id version channel : Option Str)
    → Plays b (write_request b method id version channel) (request_calls method id version channel)
write_request-Plays b method id version channel =
    subst
      (λ o.
        Plays b (write_request b method id version channel)
          (request_with method id version (if same method (codes "Update") then none else o)))
      (or_main_lem channel) (written b method id version channel)

-- What a sequence of calls comes to: all are made and the last is taken; or one is refused, after
-- the calls before it, and nothing more is written.
abbrev pub Outcome : Bus → Message → List Call → ℤ × Message → Type 0
Outcome b m cs (r, sent) =
    ((is_negative r ≡ false) × (sent ≡ m ++ cs))
    ⊎ ((front : List Call) × (c : Call) × (rest : List Call) × (cs ≡ front ++ c ∷ rest)
        × (sent ≡ m ++ (front ++ c ∷ []))
        × (r ≡ b (m ++ front) c)
        × (is_negative r ≡ true))

pub play-Outcome :
    (b : Bus) (r : ℤ) (cs : List Call) (m : Message)
    → is_negative r ≡ false
    → Outcome b m cs (play b r cs m)
unfolding play
play-Outcome b r [] m p = inl (p, sym (append-nil m))
play-Outcome b r (c ∷ cs) m p = elim (Bool-cases (is_negative (b m c))) [
  | inl refused ↦
      rw refused (inr ([], c, cs, refl, refl, ap (λ t. b t c) (sym (append-nil m)), refused))
  | inr taken ↦ rw taken (later (play-Outcome b (b m c) cs (m ++ c ∷ []) taken))
]
  where
    later : {q : ℤ × Message} → Outcome b (m ++ c ∷ []) cs q → Outcome b m (c ∷ cs) q
    later (inl (taken_all, s)) = inl (taken_all, s ∙ append_assoc m (c ∷ []) cs)
    later (inr (front, d, rest, e, s, a, n)) = inr (
      c ∷ front,
      d,
      rest,
      ap (λ t. c ∷ t) e,
      s ∙ append_assoc m (c ∷ []) (front ++ d ∷ []),
      a ∙ ap (λ t. b t d) (append_assoc m (c ∷ []) front),
      n,
    )

-- `write_request` writes the request of call_task_method: a dictionary with the entry `package`, which
-- has the id, the version if it is given and not empty, the channel, that is the given one or "main"
-- if none is given, unless it is empty or the method is Update, and the module "binary" if the
-- method is Install; and with the entry `options`, which has `force`, false, unless the method is
-- Update, and `skipInteraction`, false, only if it is Install. It makes all of these calls of sd-bus in that order, of which each container that is
-- opened is closed again, and returns no error; or one of them is refused, which is the last that it
-- makes, and it returns the error.
pub write_request-Outcome :
    (b : Bus) (method : Str) (id version channel : Option Str) (m : Message)
    → IsBalanced (request_calls method id version channel)
      × Outcome b m
          (request_calls method id version channel)
          (write_request b method id version channel m)
write_request-Outcome b method id version channel m = (
  request_with-IsBalanced method id version
      (if same method (codes "Update") then none else some (sent_channel channel)),
  subst (Outcome b m (request_calls method id version channel))
      (sym (write_request-Plays b method id version channel m))
      (play-Outcome b (pos 0) (request_calls method id version channel) m refl),
)

append_names_lem :
    (b : Bus) (r : ℤ) (names : List Str) (m : Message)
    → append_names b r names m ≡ play b r (map text names) m
unfolding append_names play
append_names_lem b r [] m = refl
append_names_lem b r (name ∷ names) m =
    ap (unless_negative (b m (text name), m ++ text name ∷ []))
      (fun_ext (append_names_lem b (b m (text name)) names))

-- `append_repos` writes the entry `repos` with the names of its string.
pub append_repos-Plays :
    (b : Bus) (repos : Option Str)
    → Plays b
        (append_repos b repos)
        (entry (codes "repos") (value_calls (strings (repo_names repos))))
unfolding append_repos value_calls
append_repos-Plays b repos m =
    let names : List Call = map text (repo_names repos) in
    let last : List Call = closes ∷ closes ∷ closes ∷ [] in
    cons b _ _ _
      (cons b _ _ _
        (cons b _ _ _
          (cons b _ _ _
            (seq b _ _ names last (append_names_lem b (pos 0) (repo_names repos)) (closing b) tt)
            (NonEmpty-append names last tt))
          tt)
        tt)
      tt m
    ∙ ap
        (λ cs.
          play b (pos 0)
            (opens b'e' (codes "sv")
              ∷ text (codes "repos")
              ∷ opens b'v' (codes "as")
              ∷ opens b'a' (codes "s")
              ∷ cs)
            m)
        (sym (append_assoc names (closes ∷ closes ∷ []) (closes ∷ [])))
