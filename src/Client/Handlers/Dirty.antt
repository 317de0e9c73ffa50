-- ===== src/Client/Handlers/Dirty.antt =====
-- `handle_dirty_child` of waepic-client/src/client/handlers.rs, and the requests for the app state
-- collections. The task that it spawns is its steps in order.
use waepic.Prelude.{ℕ, List, [], ◌∷◌, Option, none, some, Bool, String, if◌then◌else◌}
use waepic.Prelude.Outcome.{Result, ok, err, ignore}
use waepic.Connection.Ports.{Wire}
use waepic.Session.Sql.{Sql}
use waepic.Client.World.{app_state_sync, clean_dirty_bits, asked, World, Peer, call}

-- APP_STATE_COLLECTIONS
abbrev pub app_state_collections : List String
app_state_collections =
    "critical_block" ∷ "critical_unblock_low" ∷ "regular_low" ∷ "regular_high" ∷ "regular" ∷ []

-- What is read of a `DirtyBit` of wacore: whether its type is `SyncdAppState`, and the time.
pub record DirtyBit : Type 0 where
  pub is_syncd_app_state : Bool
  pub timestamp : Option ℕ

module _ {q : Sql} {J D N P : Type 0} (peer : Peer J N P) where
  abbrev pub sync_all : List String → World q J D N → World q J D N
  sync_all [] s = s
  sync_all (name ∷ names) s = sync_all names (ignore (call peer (asked (app_state_sync name))) s)

  abbrev pub clean : String → DirtyBit → World q J D N → World q J D N
  clean dirty_type bit s =
      let t = ignore (call peer (asked (clean_dirty_bits dirty_type bit.timestamp))) s in
      if bit.is_syncd_app_state then sync_all app_state_collections t else t

  abbrev pub clean_bit : String → Result String DirtyBit → World q J D N → World q J D N
  clean_bit dirty_type (ok bit) s = clean dirty_type bit s
  clean_bit dirty_type (err e) s = s

  module _ {K : Type 0} (w : Wire N K)
      (from_raw : String → Option String → Result String DirtyBit) where
    abbrev pub dirty_typed : Option String → N → World q J D N → World q J D N
    dirty_typed none child s = s
    dirty_typed (some dirty_type) child s =
        clean_bit dirty_type (from_raw dirty_type (w.attr child "timestamp")) s

    abbrev pub handle_dirty_child : N → World q J D N → World q J D N
    handle_dirty_child child s = dirty_typed (w.attr child "type") child s
