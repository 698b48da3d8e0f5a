-- ===== src/Transport.antt =====
-- internal/transport/net.go: the sockets. `net_listen`, `net_listen_packet` and `new_tls_listener`
-- are the functions of the packages net and crypto/tls; nil is `none`.
pub mod Memory
use godotnet.Base.{String, Option, none, some, ◌⊎◌, inl, inr}
use godotnet.Errors.{Error}

module _ {Listener TlsConfig PacketConn : Type 0} (net_listen : String → String → Listener ⊎ Error)
    (net_listen_packet : String → String → PacketConn ⊎ Error)
    (new_tls_listener : Listener → TlsConfig → Listener) where
  with_tls : Option TlsConfig → Listener → Listener
  with_tls none l = l
  with_tls (some cfg) l = new_tls_listener l cfg

  unfoldable pub listen_tcp : String → Option TlsConfig → Listener ⊎ Error
  unfolding with_tls
  listen_tcp addr tls = elim (net_listen "tcp" addr) [
    | inl l ↦ inl (with_tls tls l)
    | inr err ↦ inr err
  ]

  unfoldable pub listen_udp : String → PacketConn ⊎ Error
  listen_udp addr = net_listen_packet "udp" addr
