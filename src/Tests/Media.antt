-- ===== src/Tests/Media.antt =====
-- A download whose first host refuses the cached authorisation, and whose second attempt succeeds.
use waepic.Prelude.{
  ◌+◌, ◌≤◌, [], ◌∷◌, none, some, String, ◌==◌, nat_eq, ◌≡◌, refl, ◌⊎◌, if◌then◌else◌,
}
use waepic.Prelude.Outcome.{ok, err}
use waepic.Connection.Ports.{Bytes}
use waepic.Client.Media.{MediaConn, Outside, Client, answered, download}
use waepic.Client.Media.Retries.{SomeServed, download-Served}

abbrev conn : MediaConn
conn = record { auth = "a"; ttl = 60; auth_ttl = none; hosts = "h" ∷ []; fetched_at = 0 }

abbrev renewing : Outside String
renewing = record {
  media_conn_iq = λ n. ok conn;
  prepare_download_requests = λ m. ok (m.hosts);
  http = λ attempt i r. if attempt == 0 then answered 403 (err "") else answered 200 (ok (7 ∷ []));
  clock = λ attempt. 5;
}

abbrev with_cache : Client
with_cache = record { media_conn = some conn; iqs_sent = 0 }

second_succeeds : (download renewing with_cache).0 ≡ ok (7 ∷ [])
second_succeeds = refl

one_iq : (download renewing with_cache).1.iqs_sent ≡ 1
one_iq = refl

download-Served_example :
    ((download renewing with_cache).1.iqs_sent ≤ 0 + 2)
    × ((b : Bytes)
        → (download renewing with_cache).0 ≡ ok b
        → SomeServed renewing 0 b ⊎ SomeServed renewing 1 b)
download-Served_example = download-Served renewing with_cache
