-- ===== src/Messages/Sent.antt =====
-- Which message the writers send.
use mathlib.Core.Path.{fun_ext}
use mathlib.Core.List.{append_assoc, append-nil, map}
use linyaps_store.Base.{
  ◌≡◌, refl, sym, ap, ◌∙◌, Option, List, [], ◌∷◌, ◌++◌, Bool, true, false, Str, codes, ℤ, pos,
  is_negative, if◌then◌else◌, Bool-cases, inl, inr, arith,
}
use linyaps_store.Messages.{
  Call, opens, text, flag, closes, Message, Bus, Writer, call, unless_negative, ◌>>◌, when,
  or_empty, append_sv_string, append_sv_bool,
}

-- The calls one after another, up to the first that sd-bus refuses; the answer to the last one made.
unfoldable pub play : Bus → ℤ → List Call → Writer
play b r [] m = (r, m)
play b r (c ∷ cs) m = unless_negative (b m c, m ++ c ∷ []) (play b (b m c) cs)

abbrev pub Plays : Bus → Writer → List Call → Type 0
Plays b f cs = (m : Message) → f m ≡ play b (pos 0) cs m

abbrev pub NonEmpty : List Call → Type 0
NonEmpty [] = ⊥
NonEmpty (c ∷ cs) = Unit

play_start :
    (b : Bus) (r s : ℤ) (cs : List Call) (m : Message) → NonEmpty cs → play b r cs m ≡ play b s cs m
unfolding play
play_start b r s [] m n = absurd n
play_start b r s (c ∷ cs) m n = refl

play-append :
    (b : Bus) (r : ℤ) (cs ds : List Call) (m : Message)
    → is_negative r ≡ false
    → NonEmpty ds
    → unless_negative (play b r cs m) (play b (pos 0) ds) ≡ play b r (cs ++ ds) m
unfolding play
play-append b r [] ds m p n = rw p (play_start b (pos 0) r ds m n)
play-append b r (c ∷ cs) ds m p n = elim (Bool-cases (is_negative (b m c))) [
  | inl refused ↦ rw (refused, unless_negative, refused) refl
  | inr taken ↦ rw taken (play-append b (b m c) cs ds (m ++ c ∷ []) taken n)
]

pub seq :
    (b : Bus) (f g : Writer) (cs ds : List Call)
    → Plays b f cs
    → Plays b g ds
    → NonEmpty ds
    → Plays b (f >> g) (cs ++ ds)
seq b f g cs ds p q n m =
    ap (λ r. unless_negative r g) (p m)
    ∙ ap (λ w. unless_negative (play b (pos 0) cs m) w) (fun_ext q)
    ∙ play-append b (pos 0) cs ds m refl n

pub single : (b : Bus) (c : Call) → Plays b (call b c) (c ∷ [])
unfolding call play
single b c m = ground arith

pub when-Plays :
    (b : Bus) (t : Bool) (f : Writer) (cs : List Call)
    → Plays b f cs
    → Plays b (when t f) (if t then cs else [])
unfolding play
when-Plays b true f cs p m = p m
when-Plays b false f cs p m = refl

-- What a message holds: a dictionary from names to values.
pub data Plain : Type 0 where
  string : Str → Plain
  bool : ℤ → Plain

pub data Value : Type 0 where
  strings : List Str → Value
  dictionary : List (Str × Plain) → Value

unfoldable pub plain_calls : Plain → List Call
plain_calls (string s) = opens b'v' (codes "s") ∷ text s ∷ closes ∷ []
plain_calls (bool v) = opens b'v' (codes "b") ∷ flag v ∷ closes ∷ []

-- The calls that write an entry of a dictionary.
abbrev pub entry : Str → List Call → List Call
entry key value = opens b'e' (codes "sv") ∷ text key ∷ (value ++ closes ∷ [])

unfoldable pub entries : List (Str × Plain) → List Call
unfolding plain_calls
entries [] = []
entries ((key, value) ∷ rest) = entry key (plain_calls value) ++ entries rest

unfoldable pub value_calls : Value → List Call
unfolding entries
value_calls (strings names) =
    opens b'v' (codes "as") ∷ opens b'a' (codes "s") ∷ (map text names ++ closes ∷ closes ∷ [])
value_calls (dictionary fields) =
    opens b'v' (codes "a{sv}")
    ∷ opens b'a' (codes "{sv}")
    ∷ (entries fields ++ closes ∷ closes ∷ [])

pub cons :
    (b : Bus) (c : Call) (g : Writer) (ds : List Call)
    → Plays b g ds
    → NonEmpty ds
    → Plays b (call b c >> g) (c ∷ ds)
cons b c g ds p n = seq b (call b c) g (c ∷ []) ds (single b c) p n

pub NonEmpty-append : (xs ds : List Call) → NonEmpty ds → NonEmpty (xs ++ ds)
NonEmpty-append [] ds n = n
NonEmpty-append (x ∷ xs) ds n = tt

pub append_sv_string-Plays :
    (b : Bus) (key : Str) (value : Option Str)
    → Plays b (append_sv_string b key value) (entry key (plain_calls (string (or_empty value))))
unfolding append_sv_string plain_calls
append_sv_string-Plays b key value =
    cons b _ _ _
      (cons b _ _ _ (cons b _ _ _ (cons b _ _ _ (cons b _ _ _ (single b closes) tt) tt) tt) tt) tt

pub append_sv_bool-Plays :
    (b : Bus) (key : Str) (value : ℤ)
    → Plays b (append_sv_bool b key value) (entry key (plain_calls (bool value)))
unfolding append_sv_bool plain_calls
append_sv_bool-Plays b key value =
    cons b _ _ _
      (cons b _ _ _ (cons b _ _ _ (cons b _ _ _ (cons b _ _ _ (single b closes) tt) tt) tt) tt) tt

pub closing :
    (b : Bus)
    → Plays b (call b closes >> call b closes >> call b closes) (closes ∷ closes ∷ closes ∷ [])
closing b = cons b _ _ _ (cons b _ _ _ (single b closes) tt) tt

-- An entry that is there under a condition
abbrev pub optional : Bool → Str → Plain → List (Str × Plain)
optional t key value = if t then (key, value) ∷ [] else []

pub entries-append : (xs ys : List (Str × Plain)) → entries (xs ++ ys) ≡ entries xs ++ entries ys
unfolding entries
entries-append [] ys = refl
entries-append ((k, v) ∷ xs) ys =
    ap (λ t. entry k (plain_calls v) ++ t) (entries-append xs ys)
    ∙ sym (append_assoc (entry k (plain_calls v)) (entries xs) (entries ys))

pub entries-optional :
    (t : Bool) (key : Str) (value : Plain)
    → entries (optional t key value) ≡ (if t then entry key (plain_calls value) else [])
unfolding entries
entries-optional true key value = append-nil (entry key (plain_calls value))
entries-optional false key value = refl
