-- ===== src/Messages/Fields.antt =====
-- The fields of a request, and the calls that write it.
use mathlib.Core.List.{append_assoc}
use linyaps_store.Base.{
  ◌≡◌, refl, ap, ◌∙◌, Option, none, some, List, [], ◌∷◌, ◌++◌, Bool, true, false, not, ◌&&◌, Str,
  codes, same, ℤ, pos, if◌then◌else◌,
}
use linyaps_store.Messages.{Call, opens, text, closes, Bus, or_empty, is_given, append_package}
use linyaps_store.Messages.Sent.{
  play, Plays, seq, cons, closing, when-Plays, NonEmpty-append, append_sv_string-Plays, Plain,
  string, bool, dictionary, entry, plain_calls, value_calls, entries, entries-append,
  entries-optional, optional,
}

-- The fields of `package`, by the tests of the code.
abbrev pub given_fields : (id version channel module_name : Option Str) → Bool → List (Str × Plain)
given_fields id version channel module_name include_module =
    (codes "id", string (or_empty id))
    ∷ (optional (is_given version) (codes "version") (string (or_empty version))
        ++ (optional (is_given channel) (codes "channel") (string (or_empty channel))
            ++ optional (include_module && is_given module_name) (codes "packageInfoV2Module")
                (string (or_empty module_name))))

-- Three such entries, and the ends of the dictionary, of its variant and of its entry.
three_optional :
    (t u w : Bool) (j k l : Str) (x y z : Plain)
    → (if t then entry j (plain_calls x) else [])
        ++ ((if u then entry k (plain_calls y) else [])
            ++ ((if w then entry l (plain_calls z) else []) ++ closes ∷ closes ∷ closes ∷ []))
      ≡ (entries (optional t j x ++ (optional u k y ++ optional w l z)) ++ closes ∷ closes ∷ [])
        ++ closes ∷ []
three_optional t u w j k l x y z = simp (entries-append, entries-optional, append_assoc) refl

append_package-given :
    (b : Bus) (id version channel module_name : Option Str) (include_module : Bool)
    → Plays b (append_package b id version channel module_name include_module) (
        entry
          (codes "package")
          (value_calls (dictionary (given_fields id version channel module_name include_module))))
unfolding append_package value_calls entries
append_package-given b id version channel module_name include_module m =
    let v : List Call =
      if is_given version
      then entry (codes "version") (plain_calls (string (or_empty version)))
      else [] in
    let c : List Call =
      if is_given channel
      then entry (codes "channel") (plain_calls (string (or_empty channel)))
      else [] in
    let t : Bool = include_module && is_given module_name in
    let n : List Call =
      if t
      then entry (codes "packageInfoV2Module") (plain_calls (string (or_empty module_name)))
      else [] in
    let last : List Call = closes ∷ closes ∷ closes ∷ [] in
    cons b _ _ _
      (cons b _ _ _
        (cons b _ _ _
          (cons b _ _ _
            (seq b _ _ _ (v ++ (c ++ (n ++ last))) (append_sv_string-Plays b (codes "id") id)
              (seq b _ _ v (c ++ (n ++ last))
                (when-Plays b _ _ _ (append_sv_string-Plays b (codes "version") version))
                (seq b _ _ c (n ++ last)
                  (when-Plays b _ _ _ (append_sv_string-Plays b (codes "channel") channel))
                  (seq b _ _ n last
                    (when-Plays b t _ _
                      (append_sv_string-Plays b (codes "packageInfoV2Module") module_name))
                    (closing b) tt)
                  (NonEmpty-append n last tt))
                (NonEmpty-append c _ (NonEmpty-append n last tt)))
              (NonEmpty-append v _ (NonEmpty-append c _ (NonEmpty-append n last tt))))
            tt)
          tt)
        tt)
      tt m
    ∙ ap
        (λ cs.
          play b (pos 0)
            (opens b'e' (codes "sv")
              ∷ text (codes "package")
              ∷ opens b'v' (codes "a{sv}")
              ∷ opens b'a' (codes "{sv}")
              ∷ (entry (codes "id") (plain_calls (string (or_empty id))) ++ cs))
            m)
        (three_optional (is_given version) (is_given channel) t (codes "version") (codes "channel")
          (codes "packageInfoV2Module") (string (or_empty version)) (string (or_empty channel))
          (string (or_empty module_name)))

-- A field with a string, if there is one and it is not empty.
abbrev pub field : Str → Option Str → List (Str × Plain)
field key none = []
field key (some []) = []
field key (some (c ∷ s)) = (key, string (c ∷ s)) ∷ []

-- The fields of `package`.
abbrev pub package_fields :
    (id version channel module_name : Option Str) → Bool → List (Str × Plain)
package_fields id version channel module_name include_module =
    (codes "id", string (or_empty id))
    ∷ (field (codes "version") version
        ++ (field (codes "channel") channel
            ++ (if include_module then field (codes "packageInfoV2Module") module_name else [])))

field_lem :
    (key : Str) (o : Option Str) → optional (is_given o) key (string (or_empty o)) ≡ field key o
field_lem key none = refl
field_lem key (some []) = refl
field_lem key (some (c ∷ s)) = refl

module_lem :
    (t : Bool) (key : Str) (o : Option Str)
    → optional (t && is_given o) key (string (or_empty o)) ≡ (if t then field key o else [])
module_lem true key o = field_lem key o
module_lem false key o = refl

given_fields_lem :
    (id version channel module_name : Option Str) (t : Bool)
    → given_fields id version channel module_name t
      ≡ package_fields id version channel module_name t
given_fields_lem id version channel module_name t = λ i.
    (codes "id", string (or_empty id))
    ∷ (field_lem (codes "version") version i
        ++ (field_lem (codes "channel") channel i
            ++ module_lem t (codes "packageInfoV2Module") module_name i))

pub append_package-Plays :
    (b : Bus) (id version channel module_name : Option Str) (include_module : Bool)
    → Plays b (append_package b id version channel module_name include_module) (
        entry
          (codes "package")
          (value_calls (dictionary (package_fields id version channel module_name include_module))))
append_package-Plays b id version channel module_name include_module m =
    append_package-given b id version channel module_name include_module m
    ∙ ap (λ fs. play b (pos 0) (entry (codes "package") (value_calls (dictionary fs))) m)
        (given_fields_lem id version channel module_name include_module)

abbrev pub option_fields : Bool → ℤ → Bool → List (Str × Plain)
option_fields include_force force include_skip =
    optional include_force (codes "force") (bool force)
    ++ optional include_skip (codes "skipInteraction") (bool (pos 0))

-- The calls of a request: a dictionary of a package, with this channel, and of options.
unfoldable pub request_with : (method : Str) → (id version channel : Option Str) → List Call
request_with method id version channel =
    let is_install = same method (codes "Install") in
    let is_update = same method (codes "Update") in
    opens b'a' (codes "{sv}")
    ∷ (entry (codes "package") (
          value_calls
            (dictionary (package_fields id version channel (some (codes "binary")) is_install)))
        ++ (entry (codes "options")
              (value_calls (dictionary (option_fields (not is_update) (pos 0) is_install)))
            ++ closes ∷ []))

-- The channel of a request: the default one if none is given.
abbrev pub sent_channel : Option Str → Str
sent_channel none = codes "main"
sent_channel (some channel) = channel

-- The calls of a request, which has no channel for an update.
abbrev pub request_calls : (method : Str) → (id version channel : Option Str) → List Call
request_calls method id version channel =
    request_with method id version
      (if same method (codes "Update") then none else some (sent_channel channel))
