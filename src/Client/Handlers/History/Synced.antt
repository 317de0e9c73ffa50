-- ===== src/Client/Handlers/History/Synced.antt =====
-- What a history sync reports, and that it is acknowledged.
use mathlib.Core.Path.{subst}
use waepic.Prelude.{List, [], ◌∷◌, none, some, true, String, ◌≡◌, ap, sym, ◌∙◌, ◌⊎◌, inl, inr}
use waepic.Prelude.Outcome.{ok, err, Result-cases}
use waepic.Connection.Ports.{Bytes, Wire}
use waepic.Session.Sql.{Sql}
use waepic.Client.World.{sent, World, Peer}
use waepic.Client.Pairing.Nodes.{filter_map}
use waepic.Client.Update.{Update}
use waepic.Client.Handlers.History.{
  HistoryFormat, Conversation, conversation_of, chunk_of, of_decoded, of_decompressed,
  process_history_sync_payload, extract_history_sync_payload, build_history_sync_receipt_node,
  acknowledge_history, with_payload, handle_history_sync,
}

module _ {J M W R H N : Type 0} (f : HistoryFormat J M W) where
  -- Nothing for a payload that cannot be read; else the conversations whose addresses parse.
  abbrev pub Reports : Bytes → List (Update J M R H N) → Type 0
  Reports b us =
      ((e : String) × (f.decompress b ≡ err e) × (us ≡ []))
      ⊎ ((data_ : Bytes) × (f.decompress b ≡ ok data_)
          × (((e : String) × (f.decode data_ ≡ err e) × (us ≡ []))
              ⊎ ((cs : List (Conversation W)) × (f.decode data_ ≡ ok cs)
                  × (us ≡ chunk_of f none none (filter_map (conversation_of f) cs)))))

  process-Reports : (b : Bytes) → Reports b (process_history_sync_payload f b none none)
  process-Reports b = elim (Result-cases (f.decompress b)) [
    | inl (data_, fine) ↦ inr (
      data_,
      fine,
      elim (Result-cases (f.decode data_)) [
        | inl (cs, read) ↦
            inr (cs, read, ap (of_decompressed f none none) fine ∙ ap (of_decoded f none none) read)
        | inr (e, failed) ↦
            inl (
              e,
              failed,
              ap (of_decompressed f none none) fine ∙ ap (of_decoded f none none) failed,
            )
      ],
    )
    | inr (e, failed) ↦ inl (e, failed, ap (of_decompressed f none none) failed)
  ]

module _ {q : Sql} {J D N K P M W R H : Type 0} (w : Wire N K) (f : HistoryFormat J M W)
    (peer : Peer J N P) where
  pub handle_history_sync-Reports :
      (n : N) (s : World q J D N) (b : Bytes) (id : String) (own_pn : J)
      → extract_history_sync_payload w f n ≡ some b
      → w.attr n "id" ≡ some id
      → s.device.pn ≡ some own_pn
      → Reports {R = R} {H = H} {N = N} f b ((handle_history_sync w f peer true n s).0)
        × ((handle_history_sync w f peer true {R = R} {H = H} n s).1.calls
            ≡ sent (build_history_sync_receipt_node w f id own_pn) ∷ s.calls)
  handle_history_sync-Reports n s b id own_pn there named known = (
    subst (λ p. Reports {R = R} {H = H} {N = N} f b ((with_payload w f peer true n p s).0))
        (sym there) (process-Reports f b),
    ap (λ p. (with_payload w f peer true {R = R} {H = H} n p s).1.calls) there
        ∙ ap (λ i. (acknowledge_history w f peer true i s.device.pn s).calls) named
        ∙ ap (λ j. (acknowledge_history w f peer true (some id) j s).calls) known,
  )
