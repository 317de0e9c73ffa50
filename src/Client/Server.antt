-- ===== src/Client/Server.antt =====
-- The servers of an address that waepic-client/src/client/mod.rs tells apart; `unnamed` is any other.
pub data Server : Type 0 where
  pn lid group newsletter unnamed : Server
