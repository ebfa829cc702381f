-- ===== src/Tunnel/Shell.antt =====
-- The commands that src/internal/tunnel/peer.go and server_config.go run in the container of the server, as it writes
-- them for the shell of the host.
pub mod Words
use unet.Base.{ℕ, List, [], ◌∷◌, ◌++◌, ◌==◌, if◌then◌else◌, Text, codes}

-- `strings.ReplaceAll(s, "'", "'\\''")`.
unfoldable pub quote_all : Text → Text
quote_all [] = []
quote_all (c ∷ cs) =
    let rest = quote_all cs in if c == 39 then 39 ∷ 92 ∷ 39 ∷ 39 ∷ rest else c ∷ rest

unfoldable pub shell_arg : Text → Text
shell_arg s = 39 ∷ quote_all s ++ 39 ∷ []

unfoldable pub docker_exec : Text → Text → Text
docker_exec container cmd =
    codes "docker exec " ++ shell_arg container ++ codes " sh -c " ++ shell_arg cmd

unfoldable pub docker_exec_cmd : Text → Text → Text
docker_exec_cmd container cmd = codes "docker exec " ++ shell_arg container ++ codes " " ++ cmd

pub data Command : Type 0 where
  cat_table rename_new hash_conf : Command
  cat_file dump : Text → Command
  append_peer write_new : Text → Command
  sync show_peers save : Text → Command
  set_remove : Text → Text → Command

-- `cat` into a file of the container, from a quoted here-document.
abbrev here_document : Text → Text → Text → Text → Text
here_document container command mark content =
    codes "docker exec -i "
    ++ shell_arg container
    ++ codes " sh -c '"
    ++ command
    ++ codes "' <<'"
    ++ mark
    ++ codes "'\n"
    ++ content
    ++ mark

unfoldable pub render : Text → Command → Text
render container cat_table = docker_exec container (codes "cat /opt/amnezia/awg/clientsTable")
render container rename_new =
    docker_exec container
      (codes "mv /opt/amnezia/awg/clientsTable.new /opt/amnezia/awg/clientsTable")
render container hash_conf =
    docker_exec_cmd container (codes "sha256sum /opt/amnezia/awg/awg0.conf")
render container (cat_file path) = docker_exec_cmd container (codes "cat " ++ shell_arg path)
render container (dump iface) =
    docker_exec_cmd container (codes "awg show " ++ shell_arg iface ++ codes " dump")
render container (append_peer block) =
    here_document container (codes "cat >> /opt/amnezia/awg/awg0.conf") (codes "PEER") block
render container (write_new payload) =
    here_document container (codes "cat > /opt/amnezia/awg/clientsTable.new") (codes "PAYLOAD")
      (payload ++ codes "\n")
render container (sync iface) = docker_exec container (
    codes "flock -w 10 "
    ++ shell_arg (codes "/opt/amnezia/awg/awg0.lock")
    ++ codes " sh -c '"
    ++ codes "TMPFILE=$(mktemp /tmp/awg0-strip.XXXXXX) && "
    ++ codes "trap \"rm -f $TMPFILE\" EXIT && "
    ++ codes "awg-quick strip /opt/amnezia/awg/awg0.conf > $TMPFILE && "
    ++ codes "awg syncconf "
    ++ shell_arg iface
    ++ codes " $TMPFILE"
    ++ codes "'")
render container (show_peers iface) =
    docker_exec container (codes "awg show " ++ shell_arg iface ++ codes " peers")
render container (save iface) = docker_exec container (codes "awg-quick save " ++ shell_arg iface)
render container (set_remove iface key) =
    docker_exec container
      (codes "awg set " ++ shell_arg iface ++ codes " peer " ++ shell_arg key ++ codes " remove")
