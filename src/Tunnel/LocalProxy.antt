-- ===== src/Tunnel/LocalProxy.antt =====
-- `LocalTCPProxy` of src/internal/tunnel/local_proxy.go. The loop that copies bytes is not modelled.
use unet.Base.{ℕ, Bool, true, false, Option, none, some, if◌then◌else◌, Text}

pub record LocalTcpProxy : Type 0 where
  pub tunnel_ip : Text
  pub listen_port : ℕ
  pub target_addr : Text
  pub running : Bool

unfoldable pub new_local_tcp_proxy : Text → Text → LocalTcpProxy
new_local_tcp_proxy tunnel_ip target_addr = record {
  tunnel_ip = tunnel_ip;
  listen_port = 0;
  target_addr = target_addr;
  running = false;
}

-- `Start`, with the port of the new listener if there is one.
unfoldable pub start : Option ℕ → LocalTcpProxy → LocalTcpProxy × Option ℕ
start listened p = if p.running then (p, some p.listen_port) else elim listened [
  | none ↦ (p, none)
  | some port ↦ (record p { listen_port = port; running = true }, some port)
]
