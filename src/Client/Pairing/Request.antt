-- ===== src/Client/Pairing/Request.antt =====
-- `request_pairing` of waepic-client/src/client/pair.rs, up to the task that it spawns, which is
-- `run_qr_pairing` on the device that is returned here.
use waepic.Prelude.{Bool, true, false, String}
use waepic.Prelude.Outcome.{Result, ok, err, Exec, lift, ok_or, ◌>>=◌}
use waepic.Session.Sql.{Sql}
use waepic.Session.Schema.{StoreError}
use waepic.Session.AppSync.{Json}
use waepic.Client.Error.{ClientError, not_logged_in, not_connected}
use waepic.Client.World.{Device, World}
use waepic.Client.Login.{load_device}

-- The channel of the raw events is there for a client that `connect` made.
abbrev pub subscribed : {J D : Type 0} → Bool → Device J D → Result ClientError (Device J D)
subscribed true d = ok d
subscribed false d = err not_connected

module _ {q : Sql} {J D N : Type 0} (json : Json (Device J D)) (shown : StoreError → String) where
  abbrev pub request_pairing : Bool → Exec (World q J D N) ClientError (Device J D)
  request_pairing raw_tx = load_device json shown >>= λ stored.
      lift (ok_or stored not_logged_in) >>= λ d. lift (subscribed raw_tx d)
