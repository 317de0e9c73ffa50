-- ===== src/Client/Media/Retries.antt =====
-- What a download asks of the server, and what its result says.
use mathlib.Core.Path.{subst}
use waepic.Prelude.{
  ℕ, zero, suc, ◌+◌, ◌≤◌, ◌<◌, leb, List, [], ◌∷◌, Option, none, some, Bool, true, false, String,
  ◌==◌, nat_eq, ◌≡◌, ◌≢◌, if◌then◌else◌, not, ◌&&◌, ap, ◌∙◌, sym, ◌⊎◌, inl, inr, arith, Bool-cases,
  if_intro, if_true, if_false,
}
use waepic.Prelude.Outcome.{err≢ok, ok_injective, Result, ok, err, Exec, map_err, Result-cases}
use waepic.Connection.Ports.{Bytes}
use waepic.Client.Media.{
  MediaConn, Response, unsent, answered, DownloadRequestError, auth_error, not_found, other,
  Outside, Client, Tried, got, stale, refused, exhausted, execute_download_request, after_request,
  try_hosts, stored, fetch_media_conn, cached, refresh_media_conn, requests_for, concluded,
  with_requests, attempts, download, invalidate_media_conn, is_expired,
}

-- The response of a request was `data_`, with a status below 300.
abbrev pub Served : Response → Bytes → Type 0
Served (unsent e) b = ⊥
Served (answered status body) b = (status < 300) × (body ≡ ok b)

got_of : {a b : Bytes} → got a ≡ got b → a ≡ b
got_of h = ground arith

exhausted≢got : {e : Option String} {b : Bytes} → exhausted e ≢ got b
exhausted≢got h = ground arith

ended :
    (attempt : ℕ) (last : Option String) (b : Bytes)
    → (if attempt == 0 then stale last else refused) ≢ got b
ended attempt last b h = ground arith

concluded_iqs :
    (n : ℕ) (t : Tried) (again : Option String → Exec Client String Bytes) (c : Client)
    → ((e : Option String) (d : Client) → (again e d).1.iqs_sent ≤ d.iqs_sent + n)
    → (concluded t again c).1.iqs_sent ≤ c.iqs_sent + n
concluded_iqs n (got b) again c h = omega arith
concluded_iqs n (stale e) again c h = h e (invalidate_media_conn c)
concluded_iqs n refused again c h = omega arith
concluded_iqs n (exhausted e) again c h = omega arith

executed : (p : Response) (b : Bytes) → execute_download_request p ≡ ok b → Served p b
executed (unsent e) b h = absurd (err≢ok h)
executed (answered status body) b h = elim (Bool-cases (leb 300 status)) [
  | inl high ↦ absurd (err≢ok (sym (if_true _ _ high) ∙ h))
  | inr low ↦ (
    ground (arith, low),
    elim (Result-cases body) [
      | inl (d, e) ↦
          e
          ∙ ap (λ x. ok x) (ok_injective (sym (ap (map_err other) e) ∙ sym (if_false _ _ low) ∙ h))
      | inr (m, e) ↦ absurd (err≢ok (sym (ap (map_err other) e) ∙ sym (if_false _ _ low) ∙ h))
    ],
  )
]

-- A request that failed ends the attempt without data, or the next one decides.
failed_request :
    (attempt : ℕ) (last : Option String) (d : DownloadRequestError) (next : Option String → Tried)
    (b : Bytes)
    → after_request attempt last (err d) next ≡ got b
    → (e : Option String) × (next e ≡ got b)
failed_request attempt last auth_error next b h = absurd (ended attempt last b h)
failed_request attempt last not_found next b h = absurd (ended attempt last b h)
failed_request attempt last (other e) next b h = (some e, h)

first_or_second : (k : ℕ) → k < 2 → (k ≡ 0) ⊎ (k ≡ 1)
first_or_second k h = ground arith

concluded_ok :
    (t : Tried) (again : Option String → Exec Client String Bytes) (c : Client) (b : Bytes)
    → (concluded t again c).0 ≡ ok b
    → (t ≡ got b) ⊎ ((e : Option String) × (d : Client) × ((again e d).0 ≡ ok b))
concluded_ok (got d) again c b h = inl (ap got (ok_injective h))
concluded_ok (stale e) again c b h = inr (e, invalidate_media_conn c, h)
concluded_ok refused again c b h = absurd (err≢ok h)
concluded_ok (exhausted none) again c b h = absurd (err≢ok h)
concluded_ok (exhausted (some e)) again c b h = absurd (err≢ok h)

module _ {R : Type 0} (o : Outside R) where
  -- Some request of the attempt was served.
  abbrev pub SomeServed : ℕ → Bytes → Type 0
  SomeServed attempt b = (i : ℕ) × (r : R) × Served (o.http attempt i r) b

  try_hosts-got :
      (attempt i : ℕ) (rs : List R) (last : Option String) (b : Bytes)
      → try_hosts o attempt i rs last ≡ got b
      → SomeServed attempt b
  try_hosts-got attempt i [] last b h = absurd (exhausted≢got h)
  try_hosts-got attempt i (r ∷ rs) last b h =
      let next = try_hosts o attempt (suc i) rs in
      elim (Result-cases (execute_download_request (o.http attempt i r))) [
        | inl (d, e) ↦
            let same = got_of (sym (ap (λ x. after_request attempt last x next) e) ∙ h) in
            (i, r, executed (o.http attempt i r) b (e ∙ ap (λ x. ok x) same))
        | inr (d, e) ↦
            let rest =
              failed_request attempt last d next b
                (sym (ap (λ x. after_request attempt last x next) e) ∙ h) in
            try_hosts-got attempt (suc i) rs rest.0 b rest.1
      ]

  fetch_iqs : (now : ℕ) (c : Client) → (fetch_media_conn o now c).1.iqs_sent ≡ suc c.iqs_sent
  fetch_iqs now c = elim (Result-cases (o.media_conn_iq c.iqs_sent)) [
    | inl (m, e) ↦ ap (λ r. (stored o now r (record c { iqs_sent = suc c.iqs_sent })).1.iqs_sent) e
    | inr (m, e) ↦ ap (λ r. (stored o now r (record c { iqs_sent = suc c.iqs_sent })).1.iqs_sent) e
  ]

  fetch_one : (now : ℕ) (c : Client) → (fetch_media_conn o now c).1.iqs_sent ≤ c.iqs_sent + 1
  fetch_one now c = omega (arith, fetch_iqs now c)

  cached_iqs :
      (force : Bool) (now : ℕ) (m : Option MediaConn) (c : Client)
      → (cached o force now m c).1.iqs_sent ≤ c.iqs_sent + 1
  cached_iqs force now none c = fetch_one now c
  cached_iqs force now (some m) c =
      if_intro (λ (x : Result String MediaConn × Client). x.1.iqs_sent ≤ c.iqs_sent + 1)
        (not force && not (is_expired now m)) _ _ (λ kept. omega arith) (λ old. fetch_one now c)

  with_requests_iqs :
      (n attempt : ℕ) (last : Option String) (rs : Result String (List R))
      (again : Option String → Exec Client String Bytes) (c : Client)
      → ((e : Option String) (d : Client) → (again e d).1.iqs_sent ≤ d.iqs_sent + n)
      → (with_requests o attempt last rs again c).1.iqs_sent ≤ c.iqs_sent + n
  with_requests_iqs n attempt last (err e) again c h = omega arith
  with_requests_iqs n attempt last (ok rs) again c h =
      concluded_iqs n (try_hosts o attempt 0 rs last) again c h

  attempts_iqs :
      (n attempt : ℕ) (force : Bool) (last : Option String) (c : Client)
      → (attempts o n attempt force last c).1.iqs_sent ≤ c.iqs_sent + n
  attempts_iqs zero attempt force last c = omega arith
  attempts_iqs (suc n) attempt force last c =
      let m = refresh_media_conn o force (o.clock attempt) c in
      let first = cached_iqs force (o.clock attempt) c.media_conn c in
      let rest =
        with_requests_iqs n attempt last (requests_for o m.0)
          (λ e. attempts o n (suc attempt) true e) m.1
          (λ e d. attempts_iqs n (suc attempt) true e d) in
      omega (arith, first, rest)

  with_requests_ok :
      (attempt : ℕ) (last : Option String) (rs : Result String (List R))
      (again : Option String → Exec Client String Bytes) (c : Client) (b : Bytes)
      → (with_requests o attempt last rs again c).0 ≡ ok b
      → SomeServed attempt b ⊎ ((e : Option String) × (d : Client) × ((again e d).0 ≡ ok b))
  with_requests_ok attempt last (err e) again c b h = absurd (err≢ok h)
  with_requests_ok attempt last (ok rs) again c b h =
      elim (concluded_ok (try_hosts o attempt 0 rs last) again c b h) [
        | inl now ↦ inl (try_hosts-got attempt 0 rs last b now)
        | inr later ↦ inr later
      ]

  attempts_ok :
      (n attempt : ℕ) (force : Bool) (last : Option String) (c : Client) (b : Bytes)
      → (attempts o n attempt force last c).0 ≡ ok b
      → (k : ℕ) × (k < attempt + n) × (attempt ≤ k) × SomeServed k b
  attempts_ok zero attempt force none c b h = absurd (err≢ok h)
  attempts_ok zero attempt force (some e) c b h = absurd (err≢ok h)
  attempts_ok (suc n) attempt force last c b h =
      let m = refresh_media_conn o force (o.clock attempt) c in
      elim (with_requests_ok attempt last (requests_for o m.0)
        (λ e. attempts o n (suc attempt) true e) m.1 b h) [
          | inl now ↦ (attempt, omega arith, omega arith, now)
          | inr (e, d, later) ↦
              let (k, below, above, served) = attempts_ok n (suc attempt) true e d b later in
              (k, omega (arith, below), omega (arith, above), served)
        ]

  -- A download sends two media connection IQs at most, and data that it returns was served with
  -- a status below 300 to a request of its first or second attempt.
  pub download-Served :
      (c : Client)
      → ((download o c).1.iqs_sent ≤ c.iqs_sent + 2)
        × ((b : Bytes) → (download o c).0 ≡ ok b → SomeServed 0 b ⊎ SomeServed 1 b)
  download-Served c = (
    attempts_iqs 2 0 false none c,
    λ b h.
        let (k, below, above, served) = attempts_ok 2 0 false none c b h in
        elim (first_or_second k below) [
          | inl first ↦ inl (subst (λ i. SomeServed i b) first served)
          | inr second ↦ inr (subst (λ i. SomeServed i b) second served)
        ],
  )
