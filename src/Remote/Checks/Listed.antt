-- ===== src/Remote/Checks/Listed.antt =====
-- What linyaps_remote_check_updates asks and what it returns.
use mathlib.Core.List.{append_assoc, append-nil}
use linyaps_store.Base.{
  ℕ, suc, ◌^◌, ◌<◌, ◌≡◌, refl, sym, ap, ◌∙◌, Option, none, some, List, [], ◌∷◌, ◌++◌, true, false,
  ok, ◌>>=◌, ◌==◌, Returns, if◌then◌else◌, length, Bool-cases, inl, inr, arith, Str, codes,
}
use linyaps_store.Types.{PackageInfo}
use linyaps_store.Json.{Json, number_of, array_of}
use linyaps_store.Remote.Pages.{Object, text, Backend, arch_buf, is_200, url_of}
use linyaps_store.Remote.Pages.Answers.{
  HasMemory, and_then, IsList, accepted, answer, parse_records_array-catalogue,
}
use linyaps_store.Remote.Records.Parsed.{catalogue}
use linyaps_store.Remote.Checks.{
  Updates, no_updates, arch_or, update_object, object_of, add_object, build_request, read_updates,
  read_root, read_response, send_body, linyaps_remote_check_updates,
}

-- The question about one application: its id, its architecture or else that of the machine, and its
-- version.
abbrev pub question : Str → PackageInfo → Option Object
question machine app = and_then app.id λ id. and_then app.version λ version. some (
    text (codes "appId") id
    ∷ text (codes "arch") (arch_or app.arch machine)
    ∷ text (codes "version") version
    ∷ [])

abbrev pub put_question : Option Object → List Object → List Object
put_question none rest = rest
put_question (some q) rest = q ∷ rest

-- The questions about the applications that have an id and a version, in their order.
unfoldable pub questions : Str → List (Option PackageInfo) → List Object
questions machine [] = []
questions machine (app ∷ apps) =
    put_question (and_then app (question machine)) (questions machine apps)

object_of_lem :
    (machine : Str) (app : Option PackageInfo)
    → object_of machine app ≡ and_then app (question machine)
unfolding object_of
object_of_lem machine none = refl
object_of_lem machine (some app) = by_parts app.id app.version
  where
    by_parts :
        (id version : Option Str)
        → update_object machine id version app.arch
          ≡ and_then id λ i. and_then version λ v. some (
              text (codes "appId") i
              ∷ text (codes "arch") (arch_or app.arch machine)
              ∷ text (codes "version") v
              ∷ [])
    by_parts none version = refl
    by_parts (some id) none = refl
    by_parts (some id) (some version) = refl

-- cJSON_CreateObject and cJSON_CreateArray have memory.
abbrev pub Creates : Backend → Type 0
Creates b = (n : ℕ) → b.creates n ≡ true

build_request_lem :
    (b : Backend) (apps : List (Option PackageInfo)) (i : ℕ) (req : List Object)
    → Creates b
    → build_request b apps (length apps) i req ≡ ok (req ++ questions (arch_buf b.machine) apps)
unfolding build_request questions
build_request_lem b [] i req c = ap ok (sym (append-nil req))
build_request_lem b (app ∷ apps) i req c =
    let machine : Str = arch_buf b.machine in
    ap (λ q. build_request b apps (length apps) (suc i) (add_object (b.creates i) q req))
      (object_of_lem machine app)
    ∙ rw (c i) (added (and_then app (question machine)) (λ r. build_request_lem b apps (suc i) r c))
  where
    added :
        (q : Option Object)
        → ((r : List Object)
            → build_request b apps (length apps) (suc i) r
              ≡ ok (r ++ questions (arch_buf b.machine) apps))
        → build_request b apps (length apps) (suc i) (add_object true q req)
          ≡ ok (req ++ put_question q (questions (arch_buf b.machine) apps))
    added none later = later req
    added (some q) later =
        later (req ++ q ∷ [])
        ∙ ap ok (append_assoc req (q ∷ []) (questions (arch_buf b.machine) apps))

suc_test : (n : ℕ) → (suc n == 0) ≡ false
suc_test n = ground arith

module _ (j : Json) (b : Backend) where
  open j use {Value, item, parse}

  -- The array that the server answers with.
  abbrev pub offered : List (Option PackageInfo) → Option (List Value)
  offered apps =
      and_then
        (answer j b (url_of (codes "/app/appCheckUpdate"))
          (b.print_array (questions (arch_buf b.machine) apps)))
        λ root. array_of j (item root (codes "data"))

  abbrev pub IsOffer : Option (List Value) → Updates → Type 0
  IsOffer none u = u ≡ no_updates
  IsOffer (some vs) (list, count) = IsList (catalogue j vs) list × (count ≡ length (catalogue j vs))

  abbrev pub IsShortArray : Option (List Value) → Type 0
  IsShortArray none = Unit
  IsShortArray (some vs) = length vs < 2 ^ 58

  read_root_lem :
      (root : Option Value)
      → HasMemory b
      → let found =
          and_then
            (and_then root
              λ r. if is_200 (number_of j (item r (codes "code"))) then some r else none)
            λ r. array_of j (item r (codes "data")) in
        IsShortArray found → Returns (read_root j b root) (IsOffer found)
  unfolding read_root
  read_root_lem none m n = (no_updates, refl, refl)
  read_root_lem (some root) m n =
      elim (Bool-cases (is_200 (number_of j (item root (codes "code"))))) [
        | inl good ↦
            rw good (read_updates_lem (array_of j (item root (codes "data"))) (rw good at n))
        | inr bad ↦ rw bad (no_updates, refl, refl)
      ]
    where
      read_updates_lem :
          (found : Option (List Value))
          → IsShortArray found
          → Returns (read_updates j b found) (IsOffer found)
      read_updates_lem none n = (no_updates, refl, refl)
      read_updates_lem (some vs) n = parse_records_array-catalogue j b vs m n

  -- Where memory is always given, `linyaps_remote_check_updates` on all of a list of installed
  -- applications ends normally. It asks one question for each application that has an id and a
  -- version, in their order, with the architecture of the machine where the application has none.
  -- If the server answers with a JSON value whose `code` is 200 and whose `data` is an array, it
  -- returns the records there that have an `appId`, in their order, each with the fields that the
  -- table `described` names, and their number; on every other answer, and where there is none, NULL
  -- and 0. The array has less than 2 ^ 58 items.
  pub check_updates-IsOffer :
      (app : Option PackageInfo) (apps : List (Option PackageInfo))
      → Creates b
      → HasMemory b
      → IsShortArray (offered (app ∷ apps))
      → Returns
          (linyaps_remote_check_updates j b (some (app ∷ apps)) (length (app ∷ apps)))
          (IsOffer (offered (app ∷ apps)))
  unfolding linyaps_remote_check_updates
  check_updates-IsOffer app apps c m n =
      rw (suc_test (length apps), c 0, build_request_lem b (app ∷ apps) 1 [] c, ◌>>=◌)
        (send_body_lem (b.print_array (questions (arch_buf b.machine) (app ∷ apps))) n)
    where
      read_response_lem :
          (resp : Option Str)
          → let found =
              and_then (and_then resp (accepted j b)) λ r. array_of j (item r (codes "data")) in
            IsShortArray found → Returns (read_response j b resp) (IsOffer found)
      read_response_lem none n = (no_updates, refl, refl)
      read_response_lem (some resp) n = read_root_lem (parse resp) m n

      send_body_lem :
          (body : Option Str)
          → let found =
              and_then
                (answer j b (url_of (codes "/app/appCheckUpdate")) body)
                λ r. array_of j (item r (codes "data")) in
            IsShortArray found → Returns (send_body j b body) (IsOffer found)
      send_body_lem none n = (no_updates, refl, refl)
      send_body_lem (some body) n =
          read_response_lem (b.post (url_of (codes "/app/appCheckUpdate")) body) n
