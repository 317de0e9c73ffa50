-- ===== src/Client/Media.antt =====
-- The media connection and `Client::download` of waepic-client/src/download.rs. The answers of the
-- server to each IQ, the preparation of the requests and the HTTP responses are parameters; a
-- response is asked for by the attempt, the position of the request and the request.
pub mod Retries
pub mod Cache
use Prim.Native.String.{◌++◌ as text_append}
use waepic.Prelude.{
  ℕ, zero, suc, ◌+◌, ◌*◌, ◌-◌, min, ltb, leb, List, [], ◌∷◌, Option, none, some, Bool, true, false,
  not, ◌||◌, ◌&&◌, String, ◌==◌, nat_eq, if◌then◌else◌,
}
use waepic.Prelude.Outcome.{Result, ok, err, Exec, map_err}
use waepic.Prelude.Decimal.{decimal}
use waepic.Connection.Ports.{Bytes}

-- `fetched_at` and the clock count nanoseconds.
pub record MediaConn : Type 0 where
  pub auth : String
  pub ttl : ℕ
  pub auth_ttl : Option ℕ
  pub hosts : List String
  pub fetched_at : ℕ

abbrev pub effective_ttl : MediaConn → ℕ
effective_ttl c = elim c.auth_ttl [ none ↦ c.ttl | some at_ ↦ min c.ttl at_ ]

abbrev pub is_expired : ℕ → MediaConn → Bool
is_expired now c = ltb (effective_ttl c * 1000000000) (now - c.fetched_at)

pub data DownloadRequestError : Type 0 where
  auth_error : DownloadRequestError
  not_found : DownloadRequestError
  other : String → DownloadRequestError

-- `answered`: the status, and the body once it is read, verified and decrypted.
pub data Response : Type 0 where
  unsent : String → Response
  answered : ℕ → Result String Bytes → Response

abbrev pub is_media_auth_error : ℕ → Bool
is_media_auth_error status_code = status_code == 401 || status_code == 403

abbrev pub rejected : ℕ → DownloadRequestError
rejected status =
    if is_media_auth_error status
    then auth_error
    else (if status == 404 || status == 410
        then not_found
        else other (text_append "download failed with HTTP status: " (decimal status)))

abbrev pub execute_download_request : Response → Result DownloadRequestError Bytes
execute_download_request (unsent e) = err (other e)
execute_download_request (answered status body) =
    if leb 300 status then err (rejected status) else map_err other body

-- What the other side will do: the answer to the `n`-th IQ without its time, the requests for a
-- connection, the responses, and the clock at each attempt.
pub record Outside (R : Type 0) : Type 0 where
  pub media_conn_iq : ℕ → Result String MediaConn
  pub prepare_download_requests : MediaConn → Result String (List R)
  pub http : ℕ → ℕ → R → Response
  pub clock : ℕ → ℕ

pub record Client : Type 0 where
  pub media_conn : Option MediaConn
  pub iqs_sent : ℕ

-- The loop over the hosts of one attempt.
pub data Tried : Type 0 where
  got : Bytes → Tried
  stale : Option String → Tried
  refused : Tried
  exhausted : Option String → Tried

abbrev pub after_request :
    ℕ → Option String → Result DownloadRequestError Bytes → (Option String → Tried) → Tried
after_request attempt last_err (ok data_) next = got data_
after_request attempt last_err (err auth_error) next =
    if attempt == 0 then stale last_err else refused
after_request attempt last_err (err not_found) next =
    if attempt == 0 then stale last_err else refused
after_request attempt last_err (err (other e)) next = next (some e)

abbrev pub gave_up : Option String → Result String Bytes
gave_up none = err "failed to download from all available media hosts"
gave_up (some e) = err e

abbrev pub invalidate_media_conn : Client → Client
invalidate_media_conn c = record c { media_conn = none }

-- The end of an attempt; `again` is the attempt after it.
abbrev pub concluded : Tried → (Option String → Exec Client String Bytes) → Exec Client String Bytes
concluded (got data_) again c = (ok data_, c)
concluded (stale e) again c = again e (invalidate_media_conn c)
concluded refused again c = (err "media download auth failed after retry", c)
concluded (exhausted e) again c = (gave_up e, c)

module _ {R : Type 0} (o : Outside R) where
  abbrev pub stored : ℕ → Result String MediaConn → Exec Client String MediaConn
  stored now (err e) c = (err (text_append "media conn IQ failed: " e), c)
  stored now (ok m) c =
      let fresh = record m { fetched_at = now } in (ok fresh, record c { media_conn = some fresh })

  abbrev pub fetch_media_conn : ℕ → Exec Client String MediaConn
  fetch_media_conn now c =
      stored now (o.media_conn_iq c.iqs_sent) (record c { iqs_sent = suc c.iqs_sent })

  abbrev pub cached : Bool → ℕ → Option MediaConn → Exec Client String MediaConn
  cached force now none c = fetch_media_conn now c
  cached force now (some m) c =
      if not force && not (is_expired now m) then (ok m, c) else fetch_media_conn now c

  abbrev pub refresh_media_conn : Bool → ℕ → Exec Client String MediaConn
  refresh_media_conn force now c = cached force now c.media_conn c

  abbrev pub try_hosts : ℕ → ℕ → List R → Option String → Tried
  try_hosts attempt i [] last_err = exhausted last_err
  try_hosts attempt i (r ∷ rs) last_err =
      after_request attempt last_err (execute_download_request (o.http attempt i r))
        (try_hosts attempt (suc i) rs)

  abbrev pub requests_for : Result String MediaConn → Result String (List R)
  requests_for (err e) = err e
  requests_for (ok m) =
      map_err (text_append "failed to prepare download URLs: ") (o.prepare_download_requests m)

  abbrev pub with_requests :
      ℕ
      → Option String
      → Result String (List R)
      → (Option String → Exec Client String Bytes)
      → Exec Client String Bytes
  with_requests attempt last_err (err e) again c = (err e, c)
  with_requests attempt last_err (ok rs) again c =
      concluded (try_hosts attempt 0 rs last_err) again c

  -- `for attempt in 0..=1`, with the attempts that are left.
  abbrev pub attempts : ℕ → ℕ → Bool → Option String → Exec Client String Bytes
  attempts zero attempt force last_err c = (gave_up last_err, c)
  attempts (suc n) attempt force last_err c =
      let (m, c1) = refresh_media_conn force (o.clock attempt) c in
      with_requests attempt last_err (requests_for m) (λ e. attempts n (suc attempt) true e) c1

  abbrev pub download : Exec Client String Bytes
  download c = attempts 2 0 false none c
