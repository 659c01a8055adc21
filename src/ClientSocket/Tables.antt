-- ===== src/ClientSocket/Tables.antt =====
-- The tables of handlers: HandlePacket and HandleError after the calls that change a table.
use isolation_server.Common.{
  ℕ, ◌≡◌, refl, Bool, true, false, [], ◌∷◌, List, Bytes, ◌==◌, if◌then◌else◌, arith,
}
use isolation_server.Common.Map
use isolation_server.Common.Map.{find-insert, find-erase}
use isolation_server.ClientSocket.{
  ClientSocket, Event, packet, notice, set_packet_handler, remove_packet_handler,
  clear_packet_handler, set_error_handler, remove_disconnect_handler, clear_disconnect_handler,
  handle_packet,
}

module _ {H D : Type 0} (em type : ℕ) (memory : Bytes) (n : ℕ) (c : ClientSocket H D) where
  abbrev handled : ClientSocket H D → Bool × List (Event H D)
  handled = handle_packet em type memory n

  -- What HandlePacket does for a packet of any type, after a handler was registered for a type,
  -- after the handler of a type was removed, after the table was cleared, and after the handlers of
  -- errors were changed: the new handler, unless the type is EM_DISCONNECTED, or no handler, for
  -- the type concerned; as before for every other type; and no handler at all after a clear.
  pub packet_handler_table :
      (k : ℕ) (handler : H) (failure : D)
      → (handled (set_packet_handler k handler c) ≡ (
          if k == type
          then (true, (if type == em then notice ∷ [] else packet handler memory n ∷ []))
          else handled c))
        × (handled (remove_packet_handler k c) ≡ (if k == type then (false, []) else handled c))
        × (handled (clear_packet_handler c) ≡ (false, []))
        × (handled (set_error_handler k failure c) ≡ handled c)
        × (handled (remove_disconnect_handler k c) ≡ handled c)
        × (handled (clear_disconnect_handler c) ≡ handled c)
  unfolding handle_packet set_packet_handler remove_packet_handler clear_packet_handler
      set_error_handler remove_disconnect_handler clear_disconnect_handler Map.find
  packet_handler_table k handler failure = (
    ground (arith, find-insert k type handler c.packet_handler),
    ground (arith, find-erase k type c.packet_handler),
    refl,
    refl,
    refl,
    refl,
  )
