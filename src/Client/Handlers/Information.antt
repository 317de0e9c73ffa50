-- ===== src/Client/Handlers/Information.antt =====
-- `handle_ib` of waepic-client/src/client/handlers.rs, and the app state request.
use waepic.Prelude.{
  ℕ, List, [], ◌∷◌, Option, none, some, Bool, String, ◌==◌, text_eq, nat_eq, if◌then◌else◌,
}
use waepic.Connection.Ports.{Wire}
use waepic.Client.Pairing.Nodes.{then_some, or_else}
use waepic.Client.Update.{Update}
use waepic.Client.Handlers.Numbers.{parse_u32}

-- The calls of `handle_dirty_child` and `handle_edge_routing_child`, which spawn tasks.
pub data Spawned (N : Type 0) : Type 0 where
  dirty edge_routing : N → Spawned N

pub record AppStateSyncSpec : Type 0 where
  pub name : String
  pub version : ℕ

abbrev pub new : String → AppStateSyncSpec
new name = record { name = name; version = 0 }

abbrev pub after_version : String → ℕ → AppStateSyncSpec
after_version name version = record { name = name; version = version }

abbrev pub wants_snapshot : AppStateSyncSpec → Bool
wants_snapshot s = s.version == 0

module _ {N K : Type 0} (w : Wire N K) where
  abbrev pub count_of : N → ℕ
  count_of c = or_else (then_some (w.attr c "count") parse_u32) 0

  -- The children in order, up to one that gives an update.
  abbrev pub ib_children :
      {J M R H : Type 0} → List N → Option (Update J M R H N) × List (Spawned N)
  ib_children [] = (none, [])
  ib_children (c ∷ cs) =
      let rest = ib_children cs in
      if w.tag c == "dirty"
      then (rest.0, dirty c ∷ rest.1)
      else if w.tag c == "edge_routing"
      then (rest.0, edge_routing c ∷ rest.1)
      else if w.tag c == "offline_sync_preview"
      then (some (Update.offline_sync_preview (count_of c)), [])
      else if w.tag c == "offline"
      then (some (Update.offline_sync_completed (count_of c)), [])
      else rest

  abbrev pub handle_ib : {J M R H : Type 0} → N → Option (Update J M R H N) × List (Spawned N)
  handle_ib n = ib_children (or_else (w.children n) [])
