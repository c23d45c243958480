-- ===== src/Replies/Results.antt =====
-- What parse_job_info and parse_common_result give.
use linyaps_store.Base.{
  ◌⊎◌, ℕ, ◌≡◌, refl, sym, ap, ◌∙◌, Option, none, some, Bool, true, false, ◌&&◌, if◌then◌else◌,
  ◌>>=◌, deref, Returns, Str, codes, same, strcmp, same_iff, ℤ, is_negative, Allocator, IsPlenty,
  Bool-cases, inl, inr,
}
use mathlib.Core.Path.{subst}
use linyaps_store.Context.Signals.{dupstr}
use linyaps_store.Replies.{
  Container, Entry, Basic, Item, is_sig, Read, read_basic, leave_entry, Result, no_result,
  common_value, read_entry, common_entry, parse_common_result, set_code, set_message,
}
use linyaps_store.Replies.Read.{fold, All, Reads, read_container_lem}

-- Whether a key and a signature are the given ones.
abbrev pub is_item : Str → Str → Option Str → Option Str → Bool
is_item name type none sig = false
is_item name type (some key) sig = same key name && is_sig type sig

-- What an item makes of the code, of the message and of the id: the last one that is there counts.
abbrev pub code_after : Item → ℤ → ℤ
code_after it before =
    if is_item (codes "code") (codes "x") it.key it.sig then it.basic.number else before

abbrev pub text_after : Str → Item → Option Str → Option Str
text_after name it before = if is_item name (codes "s") it.key it.sig then it.basic.text else before

-- A key that is read is no NULL pointer.
abbrev pub HasKey : Item → Type 0
HasKey it = (is_negative it.read_key ≡ true) ⊎ ((key : Str) × (it.key ≡ some key))

abbrev pub common_after : ℕ → Item → Result → Result
common_after n it s = record s {
  code = code_after it s.code;
  message = text_after (codes "message") it s.message;
}

pub dup-plenty : (a : Allocator) → IsPlenty a → (i : ℕ) (s : Option Str) → dupstr a i s ≡ s
dup-plenty a p i none = refl
dup-plenty a p i (some s) = rw (p.copy i s) refl

pub read_basic_lem {ℓ} :
    {S : Type ℓ} (v : Basic) (before after : S)
    → is_negative (read_basic v before after).0 ≡ false
    → (read_basic v before after).1 ≡ after
unfolding read_basic
read_basic_lem v before after h = elim (Bool-cases (is_negative v.enter)) [
  | inl e ↦ cc (rw e at h)
  | inr e ↦ elim (Bool-cases (is_negative v.read)) [
    | inl f ↦ cc (rw (e, f) at h)
    | inr f ↦ rw (e, f) refl
  ]
]

-- The two keys differ.
not_message : (key : Str) → same key (codes "code") ≡ true → same key (codes "message") ≡ false
unfolding same strcmp
not_message key e =
    subst (λ k. same k (codes "message") ≡ false) (sym ((same_iff key (codes "code")).0 e)) refl

by_tests :
    (b x d y : Bool) (v : Basic) (skip : ℤ) (s : Result) (copied text : Option Str)
    → copied ≡ text
    → (b ≡ true → d ≡ false)
    → let r : Read Result =
        if b && x
        then read_basic v s (set_code s v.number)
        else if d && y
        then read_basic v s (set_message s copied)
        else (skip, s) in
      is_negative r.0 ≡ false
      → r.1 ≡ record s {
        code = if b && x then v.number else s.code;
        message = if d && y then text else s.message;
      }
unfolding set_code set_message
by_tests true x true y v skip s copied text e f h = cc (f refl)
by_tests true true false y v skip s copied text e f h = read_basic_lem v s _ h
by_tests true false false y v skip s copied text e f h = refl
by_tests false x true true v skip s copied text e f h =
    read_basic_lem v s _ h ∙ ap (λ t. record s { message = t }) e
by_tests false x true false v skip s copied text e f h = refl
by_tests false x false y v skip s copied text e f h = refl

common_value_lem :
    (a : Allocator) (n : ℕ) (key : Str) (it : Item) (s : Result)
    → IsPlenty a
    → it.key ≡ some key
    → is_negative (common_value a n key it s).0 ≡ false
    → (common_value a n key it s).1 ≡ common_after n it s
unfolding common_value
common_value_lem a n key it s p e h =
    by_tests (same key (codes "code")) (is_sig (codes "x") it.sig) (same key (codes "message"))
      (is_sig (codes "s") it.sig) it.basic it.skip s (dupstr a n it.basic.text) it.basic.text
      (dup-plenty a p n it.basic.text) (not_message key) h
    ∙ ap
        (λ k. record s {
          code = if is_item (codes "code") (codes "x") k it.sig then it.basic.number else s.code;
          message =
              if is_item (codes "message") (codes "s") k it.sig then it.basic.text else s.message;
        })
        (sym e)

pub leave_entry_lem {ℓ} :
    {S : Type ℓ} (e : Entry) (x : Read S)
    → is_negative (leave_entry e x).0 ≡ false
    → (is_negative x.0 ≡ false) × ((leave_entry e x).1 ≡ x.1)
unfolding leave_entry
leave_entry_lem e (r, s) h = elim (Bool-cases (is_negative r)) [
  | inl f ↦ cc (rw f at h)
  | inr f ↦ (f, rw f refl)
]

common_entry_lem :
    (a : Allocator) (n k : ℕ) (it : Item) (s : Result)
    → IsPlenty a
    → HasKey it
    → Returns (common_entry a n it s) (
        Reads
          (common_entry a)
          HasKey
          (λ it. 0)
          (λ n s. Unit {0})
          (λ (s : Result). s)
          common_after
          k
          (common_after n it s))
unfolding common_entry read_entry
common_entry_lem a n k it s p h = elim (Bool-cases (is_negative it.read_key)) [
  | inl e ↦ ((it.read_key, s), rw e refl, λ q. cc (rw e at q))
  | inr e ↦ elim (Bool-cases (is_negative it.peek)) [
    | inl f ↦ ((it.peek, s), rw (e, f) refl, λ q. cc (rw f at q))
    | inr f ↦ elim h [
      | inl g ↦ cc
      | inr (key, g) ↦
          let read = common_value a n key it s in
          (
            leave_entry it.entry read,
            rw (e, f, g, deref, ◌>>=◌) refl,
            λ q.
                let (taken, same_state) = leave_entry_lem it.entry read q in
                (tt, same_state ∙ common_value_lem a n key it s p g taken),
          )
    ]
  ]
]

-- With memory, `parse_common_result` ends and faults nowhere on a reply of which no key that is read
-- is NULL. Where it returns no error, the code is the number of the last entry `code` of the
-- reply that holds a number, and 0 if there is none; the message is a copy of the string of the last
-- entry `message` that holds a string, and NULL if there is none; and the id of a job stays NULL.
pub parse_common_result_lem :
    (a : Allocator) (reply : Container Item)
    → IsPlenty a
    → All HasKey reply.elements
    → Returns
        (parse_common_result a reply)
        (λ read. is_negative read.0 ≡ false → read.1 ≡ fold common_after reply.elements no_result)
unfolding parse_common_result
parse_common_result_lem a reply p g =
    let (read, e, v) =
      read_container_lem (common_entry a) HasKey (λ it. 0) (λ n s. Unit {0}) (λ (s : Result). s)
        common_after 0 reply no_result (λ n k it s h i. common_entry_lem a n k it s p h) g tt in
    (read, e, λ q. (v q).1)
