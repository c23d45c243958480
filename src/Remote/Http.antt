-- ===== src/Remote/Http.antt =====
-- lib/linyaps_remote.c: http_post_json, which takes a handle of the pool, gathers what libcurl
-- delivers and gives the handle back. The options that it sets on the handle, and its address and
-- body, are libcurl's matter: what the transfer brings is an argument.
pub mod Replies
use linyaps_store.Base.{
  ℕ, Option, none, some, List, [], ◌∷◌, Bool, true, false, ◌&&◌, Run, ok, ◌>>=◌, ◌==◌,
  if◌then◌else◌, length,
}
use linyaps_store.Remote.Handles.{
  Curl, CurlPool, Acquired, no_handle, pooled, temporary, curl_pool_acquire, curl_pool_contains,
  curl_pool_release,
}
use linyaps_store.Remote.Buffer.{CurlBuf, empty_buf, Realloc, curl_write_cb}

-- One `curl_easy_perform`: the chunks that it hands to the callback, and whether it returns
-- CURLE_OK if the callback takes them all.
pub record Transfer : Type 0 where
  pub chunks : List (List ℕ)
  pub completes : Bool

-- libcurl stops when the callback returns another number than the bytes it was handed.
pub perform : Realloc → List (List ℕ) → CurlBuf → Run (Bool × CurlBuf)
perform m [] cb = ok (true, cb)
perform m (chunk ∷ chunks) cb = do
  written ← curl_write_cb m chunk cb
  let rest = perform m chunks written.1
  if written.0 == length chunk then rest else ok (false, written.1)

-- A buffer as the `char *` that the function returns; NULL if nothing was allocated.
pub pointer : List ℕ → Option (List ℕ)
pointer [] = none
pointer (x ∷ xs) = some (x ∷ xs)

-- `free(resp.buf); resp.buf = NULL` unless the transfer is a success
pub response : Bool → CurlBuf → Option (List ℕ)
response true cb = pointer cb.buf
response false cb = none

pub post_on : Realloc → Transfer → ℕ → CurlPool → Run (Option (List ℕ) × CurlPool)
unfolding perform response pointer
post_on m t h p = do
  let is_pooled = curl_pool_contains h p
  done ← perform m t.chunks empty_buf
  q ← curl_pool_release h is_pooled p
  ok (response (done.0 && t.completes) done.1, q)

pub post_with : Realloc → Transfer → Acquired × CurlPool → Run (Option (List ℕ) × CurlPool)
unfolding post_on
post_with m t (no_handle, p) = ok (none, p)
post_with m t (pooled h headers, p) = post_on m t h p
post_with m t (temporary h headers, p) = post_on m t h p

pub http_post_json : Curl → Realloc → Transfer → CurlPool → Run (Option (List ℕ) × CurlPool)
unfolding post_with
http_post_json c m t p = post_with m t (curl_pool_acquire c p)
