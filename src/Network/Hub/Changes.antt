-- ===== src/Network/Hub/Changes.antt =====
-- The hub and the network, where one client with its socket is put among the others or erased.
use isolation_server.Common.{
  ℕ, ◌≡◌, refl, sym, ◌∙◌, false, none, some, ◌==◌, ==_iff, arith, Bool-cases, inl, inr,
}
use isolation_server.Common.Map
use isolation_server.Common.Map.{find-insert, find-erase}
use isolation_server.Redis.{Redis}
use isolation_server.Server.Messages.{Externals}
use isolation_server.Server.Spec.{View}
use isolation_server.Server.Represents.{Represents}
use isolation_server.Server.System.{Client}
use isolation_server.Server.System.Sound.{IsPresent, Keeps}
use isolation_server.Network.{Socket, Network}
use isolation_server.Network.Safety.{IsWired}
use isolation_server.Network.Hub.{Hub, at_client, Shows}

module _ {R : Redis} (E : Externals) (n n' : Network R) (hub : Hub) (h : Shows E n hub)
    (wired : IsWired E n') (token : ℕ) (v : View) (r : Represents R n'.system.database v) where
  -- A client is put among the others, with its socket.
  pub insert-Shows :
      (client : Client) (socket : Socket)
      → n'.system.sockets ≡ Map.insert token client n.system.sockets
      → n'.sockets ≡ Map.insert token socket n.sockets
      → Keeps hub.view v
      → IsPresent v token
      → Shows E n' (record { view = v; clients = at_client hub.clients token (some client.posted) })
  insert-Shows client socket clients sockets keeps here = record {
    wired = wired;
    represents = r;
    posted = λ t.
        rw (clients, find-insert token t client n.system.sockets)
          (elim (Bool-cases (token == t)) [
            | inl same ↦ rw same refl
            | inr other ↦ rw other (h.posted t)
          ]);
    present = λ t c found. elim (Bool-cases (token == t)) [
      | inl same ↦ rw (sym ((==_iff token t).0 same)) here
      | inr other ↦ keeps t (h.present t c (elsewhere t other c found))
    ];
    reads = λ t c found. rw sockets (elim (Bool-cases (token == t)) [
      | inl same ↦ (socket, find-insert token t socket n.sockets ∙ rw same refl)
      | inr other ↦
          let (d, there) = h.reads t c (elsewhere t other c found) in
          (d, find-insert token t socket n.sockets ∙ rw other there)
    ]);
  }
    where
      elsewhere :
          (t : ℕ)
          → (token == t) ≡ false
          → (c : Client) → Map.find t n'.system.sockets ≡ some c
          → Map.find t n.system.sockets ≡ some c
      elsewhere t other c found =
          let there : Map.find t (Map.insert token client n.system.sockets) ≡ some c =
            rw (sym clients) found in
          ground (arith, find-insert token t client n.system.sockets, there)

  -- A client is erased, with its socket.
  pub erase-Shows :
      n'.system.sockets ≡ Map.erase token n.system.sockets
      → n'.sockets ≡ Map.erase token n.sockets
      → ((t : ℕ) → (token == t) ≡ false → IsPresent hub.view t → IsPresent v t)
      → Shows E n' (record { view = v; clients = at_client hub.clients token none })
  erase-Shows clients sockets keeps = record {
    wired = wired;
    represents = r;
    posted = λ t.
        rw (clients, find-erase token t n.system.sockets)
          (elim (Bool-cases (token == t)) [
            | inl same ↦ rw same refl
            | inr other ↦ rw other (h.posted t)
          ]);
    present = λ t c found.
        let (other, there) = elsewhere t c found in keeps t other (h.present t c there);
    reads = λ t c found.
        let (other, there) = elsewhere t c found in
        let (d, at_t) = h.reads t c there in
        (d, rw sockets (find-erase token t n.sockets ∙ rw other at_t));
  }
    where
      elsewhere :
          (t : ℕ) (c : Client)
          → Map.find t n'.system.sockets ≡ some c
          → ((token == t) ≡ false) × (Map.find t n.system.sockets ≡ some c)
      elsewhere t c found =
          let there : Map.find t (Map.erase token n.system.sockets) ≡ some c =
            rw (sym clients) found in
          elim (Bool-cases (token == t)) [
            | inl same ↦ absurd (ground (arith, find-erase token t n.system.sockets, there))
            | inr other ↦ (other, ground (arith, find-erase token t n.system.sockets, there))
          ]
