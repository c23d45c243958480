-- ===== src/Context/Changed.antt =====
-- A PropertiesChanged signal, on every branch.
use linyaps_store.Base.{
  ℕ, ◌≡◌, refl, sym, ap, ◌∙◌, ◌⊎◌, inl, inr, Option, none, some, List, [], ◌∷◌, Bool, true, false,
  ◌&&◌, ok, Returns, read, set, Bool-cases, if◌then◌else◌, Str, codes, same, strcmp, same_iff,
  Allocator, IsPlenty, arith,
}
use mathlib.Core.Path.{subst}
use linyaps_store.Types.{TaskProgress}
use linyaps_store.Pending.Queue.{Op}
use linyaps_store.Context.{Context, TaskEntry, report}
use linyaps_store.Context.Signals.{
  Change, dupstr, apply_change, apply_changes, on_properties_changed,
}
use linyaps_store.Context.Invariant.{IsContext, running, running-set, blanked}

-- Whether a change has this key and a value of this type.
abbrev pub names : Str → Str → Change → Bool
names name type c = same c.key name && elim c.sig [ none ↦ false | some s ↦ same s type ]

-- The value of the last change of a kind, or what was there before.
abbrev pub last_of {ℓ} : {A : Type ℓ} → (Change → Bool) → (Change → A) → List Change → A → A
last_of test value [] before = before
last_of test value (c ∷ cs) before = last_of test value cs (if test c then value c else before)

-- The progress after the changes: each of four properties has the last value of its type that came.
abbrev pub changed : List Change → TaskProgress → TaskProgress
changed cs p = record p {
  state = last_of (names (codes "State") (codes "i")) (λ c. c.int32) cs p.state;
  percentage = last_of (names (codes "Percentage") (codes "d")) (λ c. c.double) cs p.percentage;
  message = last_of (names (codes "Message") (codes "s")) (λ c. c.text) cs p.message;
  error_code = last_of (names (codes "Code") (codes "i")) (λ c. c.int32) cs p.error_code;
}

by_tests :
    (s d m e : Bool) (c : Change) (p : TaskProgress) (copied : Option Str)
    → copied ≡ c.text
    → (s ≡ true → (d ≡ false) × (m ≡ false) × (e ≡ false))
    → (d ≡ true → (m ≡ false) × (e ≡ false))
    → (m ≡ true → e ≡ false)
    → (if s
        then record p { state = c.int32 }
        else if d
        then record p { percentage = c.double }
        else if m
        then record p { message = copied }
        else if e
        then record p { error_code = c.int32 }
        else p)
      ≡ record p {
        state = if s then c.int32 else p.state;
        percentage = if d then c.double else p.percentage;
        message = if m then c.text else p.message;
        error_code = if e then c.int32 else p.error_code;
      }
by_tests true d m e c p copied h f g k = let (x, y, z) = f refl in rw (x, y, z) refl
by_tests false true m e c p copied h f g k = let (y, z) = g refl in rw (y, z) refl
by_tests false false true e c p copied h f g k = rw (k refl) (ap (λ t. record p { message = t }) h)
by_tests false false false true c p copied h f g k = refl
by_tests false false false false c p copied h f g k = refl

-- A change has one key.
other_key :
    (c : Change) (name type other_name other_type : Str)
    → same name other_name ≡ false
    → names name type c ≡ true
    → names other_name other_type c ≡ false
other_key c name type other_name other_type e h =
    let key : same c.key name ≡ true = first (same c.key name) _ h in
    rw (subst (λ k. same k other_name ≡ false) (sym ((same_iff c.key name).0 key)) e) refl
  where
    first : (x y : Bool) → (x && y) ≡ true → x ≡ true
    first true y f = refl
    first false y f = f

copied_lem : (a : Allocator) → IsPlenty a → (o : Option Str) → dupstr a 0 o ≡ o
copied_lem a h none = refl
copied_lem a h (some s) = rw (h.copy 0 s) refl

apply_change_lem :
    (a : Allocator) (c : Change) (p : TaskProgress)
    → IsPlenty a
    → apply_change a c p ≡ changed (c ∷ []) p
unfolding apply_change same strcmp
apply_change_lem a c p h =
    by_tests (names (codes "State") (codes "i") c) (names (codes "Percentage") (codes "d") c)
      (names (codes "Message") (codes "s") c) (names (codes "Code") (codes "i") c) c p
      (dupstr a 0 c.text) (copied_lem a h c.text)
      (λ e. (
        other_key c (codes "State") _ (codes "Percentage") _ refl e,
        other_key c (codes "State") _ (codes "Message") _ refl e,
        other_key c (codes "State") _ (codes "Code") _ refl e,
      ))
      (λ e. (
        other_key c (codes "Percentage") _ (codes "Message") _ refl e,
        other_key c (codes "Percentage") _ (codes "Code") _ refl e,
      ))
      (λ e. other_key c (codes "Message") _ (codes "Code") _ refl e)

apply_changes_lem :
    (a : Allocator) (cs : List Change) (p : TaskProgress)
    → IsPlenty a
    → apply_changes a cs p ≡ changed cs p
unfolding apply_changes
apply_changes_lem a [] p h = refl
apply_changes_lem a (c ∷ cs) p h =
    ap (apply_changes a cs) (apply_change_lem a c p h)
    ∙ apply_changes_lem a cs (changed (c ∷ []) p) h

abbrev pub task_iface : Str
task_iface = codes "org.deepin.linglong.Task1"

-- The signal is not about the properties of a task, or its changes cannot be read.
abbrev pub IsOther : Option Str → Option (List Change) → Type 0
IsOther iface changes =
    (iface ≡ none) ⊎ (changes ≡ none) ⊎ ((s : Str) × (iface ≡ some s) × (same s task_iface ≡ false))

-- With memory, a PropertiesChanged signal for an active task, in a context that keeps the invariant,
-- ends, faults nowhere and keeps the invariant, the queue and what the tasks run. If its interface is
-- that of tasks and its changes can be read, the progress of this task becomes the one with the last
-- state, percentage, message and code among the changes of the right type, the rest of the context
-- stays, and the callback of this task alone is told of this progress, once; else nothing changes and
-- no callback is made.
pub on_properties_changed-IsContext :
    (a : Allocator) (ctx : Context) (q : List Op) (i : ℕ) (te : TaskEntry) (iface : Option Str)
    (changes : Option (List Change))
    → IsPlenty a
    → IsContext ctx q
    → read ctx.tasks i ≡ ok te
    → te.active ≡ true
    → Returns (on_properties_changed a ctx i iface changes) λ r.
      IsContext r.0 q
      × ((w : Op → ℕ) → running w r.0.tasks ≡ running w ctx.tasks)
      × ((IsOther iface changes × (r ≡ (ctx, [])))
          ⊎ ((cs : List Change) × (iface ≡ some task_iface)
              × (changes ≡ some cs)
              × (r ≡ (
                record ctx {
                  tasks = set ctx.tasks i (record te { progress = changed cs te.progress });
                },
                report te.cb (changed cs te.progress) te.userdata,
              ))))
unfolding on_properties_changed
on_properties_changed-IsContext a ctx q i te none changes m h at_i busy =
    ((ctx, []), refl, (h, λ w. refl, inl (inl refl, refl)))
on_properties_changed-IsContext a ctx q i te (some iface) none m h at_i busy =
    ((ctx, []), refl, (h, λ w. refl, inl (inr (inl refl), refl)))
on_properties_changed-IsContext a ctx q i te (some iface) (some cs) m h at_i busy =
    elim (Bool-cases (same iface task_iface)) [
      | inr other ↦
          ((ctx, []), rw other refl, (h, λ w. refl, inl (inr (inr (iface, refl, other)), refl)))
      | inl task ↦
          let te' = record te { progress = changed cs te.progress } in
          (
            (
              record ctx { tasks = set ctx.tasks i te' },
              report te.cb (changed cs te.progress) te.userdata,
            ),
            rw (task, at_i, apply_changes_lem a cs te.progress m) refl,
            (
              blanked ctx q i te' (λ f. cc) h,
              λ w. omega (arith, running-set w ctx.tasks i te te' at_i),
              inr (cs, ap some ((same_iff iface task_iface).0 task), refl, refl),
            ),
          )
    ]
